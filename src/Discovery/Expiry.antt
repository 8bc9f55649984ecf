-- ===== src/Discovery/Expiry.antt =====
-- Which routes and announcers are left when the silent ones are forgotten.
use sedsnet_cpp.Common.{
  ℕ, ◌-◌, ◌++◌, max, leb, if◌then◌else◌, ◌^◌, ◌≤◌, ◌<◌, Bool, false, not, List, [], ◌∷◌, Text, All,
  map, filter, ◌≡◌, refl, ap, ◌∙◌, arith,
}
use mathlib.Core.List.{foldr}
use sedsnet_cpp.Common.Int.{ℤ}
use sedsnet_cpp.Queue.{sub64}
use sedsnet_cpp.Topology.{SenderState, DiscoveryRoute}
use sedsnet_cpp.Discovery.{
  is_expired, announced_endpoints, announced_sources, latest_seen, live_announcers,
  recompute_discovery_side_state, prune_discovery_routes,
}
use sedsnet_cpp.Discovery.Live.{
  IsPast, HasPast, only_live, has_announcer, announcers_of, prune_discovery_routes-LeavesLive,
}

-- The announcers that were heard of at most 30 s ago.
abbrev pub heard : ℕ → List (Text × SenderState) → List (Text × SenderState)
heard now m = filter (λ entry. leb (now - entry.1.last_seen_ms) 30000) m

-- What a route knows, read off its announcers.
abbrev pub all_endpoints : List (Text × SenderState) → List ℕ
all_endpoints m = foldr (λ entry out. entry.1.endpoints ++ out) [] m

abbrev pub all_sources : List (Text × SenderState) → List Text
all_sources m = foldr (λ entry out. entry.1.timesync_sources ++ out) [] m

abbrev pub newest : List (Text × SenderState) → ℕ
newest m = foldr (λ entry time. max entry.1.last_seen_ms time) 0 m

-- A route with what its announcers of the last 30 s tell, and nothing else.
abbrev pub only_heard : ℕ → ℤ × DiscoveryRoute → ℤ × DiscoveryRoute
only_heard now (side_id, route) = (
  side_id,
  record {
    endpoints = all_endpoints (heard now route.announcers);
    timesync_sources = all_sources (heard now route.announcers);
    last_seen_ms = newest (heard now route.announcers);
    announcers = heard now route.announcers;
  },
)

is_expired-heard :
    (now last_seen_ms : ℕ)
    → now < 2 ^ 64
    → last_seen_ms ≤ now
    → not (is_expired now last_seen_ms) ≡ leb (now - last_seen_ms) 30000
unfolding is_expired
is_expired-heard now last_seen_ms hn h =
    let elapsed : sub64 now last_seen_ms ≡ now - last_seen_ms = omega arith in
    rw elapsed (ground arith)

live_announcers-heard :
    (now : ℕ) (m : List (Text × SenderState))
    → now < 2 ^ 64
    → All (IsPast now) m
    → live_announcers now m ≡ heard now m
unfolding live_announcers
live_announcers-heard now [] hn h = refl
live_announcers-heard now ((sender, state) ∷ m) hn (h, rest) =
    ap
      (λ b.
        if b
        then (sender, state) ∷ filter (λ entry. not (is_expired now (entry.1.last_seen_ms))) m
        else filter (λ entry. not (is_expired now (entry.1.last_seen_ms))) m)
      (is_expired-heard now state.last_seen_ms hn h)
    ∙ ap (λ later. if leb (now - state.last_seen_ms) 30000 then (sender, state) ∷ later else later)
        (live_announcers-heard now m hn rest)

announced_endpoints-all : (m : List (Text × SenderState)) → announced_endpoints m ≡ all_endpoints m
unfolding announced_endpoints
announced_endpoints-all [] = refl
announced_endpoints-all ((sender, state) ∷ m) =
    ap (λ out. state.endpoints ++ out) (announced_endpoints-all m)

announced_sources-all : (m : List (Text × SenderState)) → announced_sources m ≡ all_sources m
unfolding announced_sources
announced_sources-all [] = refl
announced_sources-all ((sender, state) ∷ m) =
    ap (λ out. state.timesync_sources ++ out) (announced_sources-all m)

latest_seen-newest : (m : List (Text × SenderState)) → latest_seen m ≡ newest m
unfolding latest_seen
latest_seen-newest [] = refl
latest_seen-newest ((sender, state) ∷ m) =
    ap (λ time. max state.last_seen_ms time) (latest_seen-newest m)

only_live-heard :
    (now : ℕ) (side_id : ℤ) (route : DiscoveryRoute)
    → now < 2 ^ 64
    → All (IsPast now) route.announcers
    → only_live now (side_id, route) ≡ only_heard now (side_id, route)
unfolding recompute_discovery_side_state
only_live-heard now side_id route hn h =
    let live = live_announcers now route.announcers in
    rw (announced_endpoints-all live, announced_sources-all live, latest_seen-newest live)
      (rw (live_announcers-heard now route.announcers hn h) refl)

map-only_heard :
    (now : ℕ) (routes : List (ℤ × DiscoveryRoute))
    → now < 2 ^ 64
    → All (HasPast now) routes
    → map (only_live now) routes ≡ map (only_heard now) routes
map-only_heard now [] hn h = refl
map-only_heard now ((side_id, route) ∷ routes) hn (h, rest) =
    ap (λ r. r ∷ map (only_live now) routes) (only_live-heard now side_id route hn h)
    ∙ ap (λ rest. only_heard now (side_id, route) ∷ rest) (map-only_heard now routes hn rest)

-- What pruning did: the routes that are left, and what is known where it answers "unchanged".
pub record Prunes (now : ℕ) (before after : List (ℤ × DiscoveryRoute)) (changed : Bool)
    : Type 0 where
  pub left : after ≡ filter has_announcer (map (only_heard now) before)
  pub same : changed ≡ false → map announcers_of after ≡ map announcers_of before

-- Where `now` fits a uint64_t and no announcer was heard of later, pruning takes from each route
-- the announcers that were silent for longer than 30 s, and the routes that have none left; of
-- each route that is left, the endpoints and the time sources are those of its announcers that are
-- left, in order, and the time is that of the newest of them; where it answers that nothing has
-- changed, every route has kept all its announcers.
pub prune_discovery_routes-Prunes :
    (now : ℕ) (routes : List (ℤ × DiscoveryRoute))
    → now < 2 ^ 64
    → All (HasPast now) routes
    → Prunes now routes (prune_discovery_routes now routes).0 (prune_discovery_routes now routes).1
prune_discovery_routes-Prunes now routes hn h =
    let live = prune_discovery_routes-LeavesLive now routes hn h in
    record {
      left = live.left ∙ ap (filter has_announcer) (map-only_heard now routes hn h);
      same = live.same;
    }
