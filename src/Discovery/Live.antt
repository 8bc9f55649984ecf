-- ===== src/Discovery/Live.antt =====
-- What forgetting the silent announcers leaves, in the words of the code.
use sedsnet_cpp.Common.{
  ℕ, ◌^◌, ◌≤◌, ◌<◌, Bool, true, false, not, ◌||◌, List, [], ◌∷◌, Text, All, map, filter, is_empty,
  length, length-filter-le, ltb, ◌≡◌, refl, ap, sym, ◌∙◌, inl, inr, Bool-cases, arith,
}
use mathlib.Core.Bool.{true≢false}
use sedsnet_cpp.Common.Int.{ℤ}
use sedsnet_cpp.Topology.{SenderState, DiscoveryRoute}
use sedsnet_cpp.Discovery.{
  is_expired, latest_seen, live_announcers, recompute_discovery_side_state, prune_discovery_routes,
}

-- The announcers were heard of before now.
abbrev pub IsPast : ℕ → Text × SenderState → Type 0
IsPast now (sender, state) = state.last_seen_ms ≤ now

abbrev pub HasPast : ℕ → ℤ × DiscoveryRoute → Type 0
HasPast now (side_id, route) = All (IsPast now) route.announcers

latest_seen_le :
    (now : ℕ) (m : List (Text × SenderState)) → All (IsPast now) m → latest_seen m ≤ now
unfolding latest_seen
latest_seen_le now [] h = omega arith
latest_seen_le now ((sender, state) ∷ m) (h, rest) = omega (arith, latest_seen_le now m rest)

All-live :
    (now : ℕ) (m : List (Text × SenderState))
    → All (IsPast now) m
    → All (IsPast now) (live_announcers now m)
unfolding live_announcers
All-live now [] h = tt
All-live now ((sender, state) ∷ m) (h, rest) =
    elim (Bool-cases (is_expired now state.last_seen_ms)) [
      | inl e ↦ rw e (All-live now m rest)
      | inr e ↦ rw e (h, All-live now m rest)
    ]

recent :
    (now : ℕ) (state : SenderState) (sender : Text) (m : List (Text × SenderState))
    → now < 2 ^ 64
    → state.last_seen_ms ≤ now
    → All (IsPast now) m
    → is_expired now state.last_seen_ms ≡ false
    → is_expired now (latest_seen ((sender, state) ∷ m)) ≡ false
unfolding is_expired latest_seen
recent now state sender m hn h rest e = ground (arith, latest_seen_le now m rest, e)

-- A route that has a live announcer is live.
still_live :
    (now : ℕ) (m : List (Text × SenderState))
    → now < 2 ^ 64
    → All (IsPast now) m
    → (is_empty (live_announcers now m) || is_expired now (latest_seen (live_announcers now m)))
      ≡ is_empty (live_announcers now m)
unfolding live_announcers
still_live now [] hn h = refl
still_live now ((sender, state) ∷ m) hn (h, rest) =
    elim (Bool-cases (is_expired now state.last_seen_ms)) [
      | inl e ↦ rw e (still_live now m hn rest)
      | inr e ↦ rw e (recent now state sender (live_announcers now m) hn h (All-live now m rest) e)
    ]

abbrev pub only_live : ℕ → ℤ × DiscoveryRoute → ℤ × DiscoveryRoute
only_live now (side_id, route) = (
  side_id,
  recompute_discovery_side_state
      (record route { announcers = live_announcers now route.announcers }),
)

abbrev pub has_announcer : ℤ × DiscoveryRoute → Bool
has_announcer (side_id, route) = not (is_empty route.announcers)

abbrev pub announcers_of : ℤ × DiscoveryRoute → List (Text × SenderState)
announcers_of (side_id, route) = route.announcers

live_dead :
    (now : ℕ) (sender : Text) (state : SenderState) (m : List (Text × SenderState))
    → is_expired now state.last_seen_ms ≡ true
    → live_announcers now ((sender, state) ∷ m) ≡ live_announcers now m
unfolding live_announcers
live_dead now sender state m e = rw e refl

live_kept :
    (now : ℕ) (sender : Text) (state : SenderState) (m : List (Text × SenderState))
    → is_expired now state.last_seen_ms ≡ false
    → live_announcers now ((sender, state) ∷ m) ≡ (sender, state) ∷ live_announcers now m
unfolding live_announcers
live_kept now sender state m e = rw e refl

live_le : (now : ℕ) (m : List (Text × SenderState)) → length (live_announcers now m) ≤ length m
unfolding live_announcers
live_le now m = length-filter-le _ m

live_none : (now : ℕ) → live_announcers now [] ≡ []
unfolding live_announcers
live_none now = refl

live_all :
    (now : ℕ) (m : List (Text × SenderState))
    → length m ≤ length (live_announcers now m)
    → live_announcers now m ≡ m
live_all now [] h = live_none now
live_all now ((sender, state) ∷ m) h = elim (Bool-cases (is_expired now state.last_seen_ms)) [
  | inl e ↦ absurd (omega (arith, live_le now m, ap length (live_dead now sender state m e), h))
  | inr e ↦
      live_kept now sender state m e
      ∙ ap (λ m. (sender, state) ∷ m)
          (live_all now m (omega (arith, ap length (live_kept now sender state m e), h)))
]

-- What pruning did: the routes that are left, and what is known where it answers "unchanged".
pub record LeavesLive (now : ℕ) (before after : List (ℤ × DiscoveryRoute)) (changed : Bool)
    : Type 0 where
  pub left : after ≡ filter has_announcer (map (only_live now) before)
  pub same : changed ≡ false → map announcers_of after ≡ map announcers_of before

or-false : (a b : Bool) → (a || b) ≡ false → (a ≡ false) × (b ≡ false)
or-false true b h = absurd (true≢false h)
or-false false b h = (refl, h)

drops :
    (now : ℕ) (side_id : ℤ) (route : DiscoveryRoute) (routes : List (ℤ × DiscoveryRoute))
    → is_empty (live_announcers now route.announcers) ≡ true
    → filter has_announcer (map (only_live now) ((side_id, route) ∷ routes))
      ≡ filter has_announcer (map (only_live now) routes)
unfolding recompute_discovery_side_state
drops now side_id route routes e = rw e refl

keeps :
    (now : ℕ) (side_id : ℤ) (route : DiscoveryRoute) (routes : List (ℤ × DiscoveryRoute))
    → is_empty (live_announcers now route.announcers) ≡ false
    → filter has_announcer (map (only_live now) ((side_id, route) ∷ routes))
      ≡ only_live now (side_id, route) ∷ filter has_announcer (map (only_live now) routes)
unfolding recompute_discovery_side_state
keeps now side_id route routes e = rw e refl

pub prune_discovery_routes-LeavesLive :
    (now : ℕ) (routes : List (ℤ × DiscoveryRoute))
    → now < 2 ^ 64
    → All (HasPast now) routes
    → LeavesLive now routes
        (prune_discovery_routes now routes).0
        (prune_discovery_routes now routes).1
unfolding prune_discovery_routes recompute_discovery_side_state
prune_discovery_routes-LeavesLive now [] hn h = record { left = refl; same = λ e. refl }
prune_discovery_routes-LeavesLive now ((side_id, route) ∷ routes) hn (h, rest) =
    let later = prune_discovery_routes-LeavesLive now routes hn rest in
    let live = still_live now route.announcers hn h in
    elim (Bool-cases (is_empty (live_announcers now route.announcers))) [
      | inl e ↦ rw (live ∙ e) (record {
        left = later.left ∙ sym (drops now side_id route routes e);
        same = λ q. absurd (true≢false q);
      })
      | inr e ↦ rw (live ∙ e) (record {
        left =
            ap (λ m. only_live now (side_id, route) ∷ m) later.left
            ∙ sym (keeps now side_id route routes e);
        same = λ q.
            let (whole, unchanged) =
              or-false
                (ltb (length (live_announcers now route.announcers)) (length route.announcers))
                ((prune_discovery_routes now routes).1) q in
            ap (λ m. m ∷ map announcers_of (prune_discovery_routes now routes).0)
              (live_all now route.announcers (ground (arith, whole)))
            ∙ ap (λ m. route.announcers ∷ m) (later.same unchanged);
      })
    ]
