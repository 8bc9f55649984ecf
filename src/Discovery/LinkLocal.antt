-- ===== src/Discovery/LinkLocal.antt =====
-- What is link-local is not told to the other sides.
use sedsnet_cpp.Common.{
  ℕ, Bool, true, false, not, ◌&&◌, ◌||◌, List, [], ◌∷◌, ◌++◌, Text, text_eq, All, map, filter, ltb,
  ◌==◌, both_branches, ◌≡◌, refl, sym, inl, inr, Bool-cases,
}
use mathlib.Core.Bool.{true≢false}
use sedsnet_cpp.Common.Int.{ℤ, elem_at}
use sedsnet_cpp.Common.Sorting.{insert_once, sort_dedup}
use sedsnet_cpp.Schema.{Schema, ep_discovery}
use sedsnet_cpp.Schema.LinkLocal.{endpoint_link_local_only}
use sedsnet_cpp.Reliable.{Owner}
use sedsnet_cpp.Topology.{
  TopologyBoardNode, SenderState, DiscoveryRoute, normalize_board, normalize_topology_boards,
  merge_board, merge_loop, merge_topology_boards,
}
use sedsnet_cpp.Discovery.{is_link_local_side, is_expired, allowed_endpoints, allowed_board}
use sedsnet_cpp.Discovery.Advertise.{
  Advertiser, router, relay, advertiser_name, router_local_discovery_endpoints,
  local_topology_board, sender_boards, merge_senders, merge_routes,
  advertised_discovery_topology_for_side, ep_time_sync,
}

module _ {A : Type 0} (P : A → Type 0) where
  All-append : (xs ys : List A) → All P xs → All P ys → All P (xs ++ ys)
  All-append [] ys hx hy = hy
  All-append (x ∷ xs) ys (h, hx) hy = (h, All-append xs ys hx hy)

  All-insert_once :
      (lt : A → A → Bool) (a : A) (xs : List A) → P a → All P xs → All P (insert_once lt a xs)
  unfolding insert_once
  All-insert_once lt a [] h hs = (h, tt)
  All-insert_once lt a (b ∷ bs) h (hb, hs) =
      both_branches (All P) (lt a b) _ _ (h, (hb, hs))
        (both_branches (All P) (lt b a) _ _ (hb, All-insert_once lt a bs h hs) (h, hs))

  All-sort_dedup : (lt : A → A → Bool) (xs : List A) → All P xs → All P (sort_dedup lt xs)
  unfolding sort_dedup
  All-sort_dedup lt [] h = tt
  All-sort_dedup lt (x ∷ xs) (h, hs) =
      All-insert_once lt x (sort_dedup lt xs) h (All-sort_dedup lt xs hs)

  pub All-filter : (p : A → Bool) (xs : List A) → ((x : A) → p x ≡ true → P x) → All P (filter p xs)
  All-filter p [] h = tt
  All-filter p (x ∷ xs) h = elim (Bool-cases (p x)) [
    | inl e ↦ rw e (h x e, All-filter p xs h)
    | inr e ↦ rw e (All-filter p xs h)
  ]

All-map :
    {A B : Type 0} (P : A → Type 0) (Q : B → Type 0) (f : A → B) (xs : List A)
    → ((x : A) → P x → Q (f x))
    → All P xs
    → All Q (map f xs)
All-map P Q f [] h hs = tt
All-map P Q f (x ∷ xs) h (hx, hs) = (h x hx, All-map P Q f xs h hs)

pub not-true : (b : Bool) → not b ≡ true → b ≡ false
not-true true h = sym h
not-true false h = refl

and-right : (a b : Bool) → (a && b) ≡ true → b ≡ true
and-right true b h = h
and-right false b h = absurd (true≢false (sym h))

module _ (s : Schema) where
  abbrev pub IsShared : ℕ → Type 0
  IsShared ep = endpoint_link_local_only s ep ≡ false

  -- No endpoint of the board is link-local.
  abbrev pub IsClean : TopologyBoardNode → Type 0
  IsClean board = All IsShared board.reachable_endpoints

  pub normalize_topology_boards-IsClean :
      (boards : List TopologyBoardNode)
      → All IsClean boards
      → All IsClean (normalize_topology_boards boards)
  unfolding normalize_topology_boards normalize_board
  normalize_topology_boards-IsClean boards h =
      All-sort_dedup IsClean _ (map normalize_board boards) (
        All-map IsClean IsClean normalize_board boards
          (λ board hb. All-sort_dedup IsShared ltb board.reachable_endpoints hb) h)

  merge_board-IsClean :
      (dst : List TopologyBoardNode) (board : TopologyBoardNode)
      → All IsClean dst
      → IsClean board
      → All IsClean (merge_board dst board)
  unfolding merge_board
  merge_board-IsClean [] board h hb = (hb, tt)
  merge_board-IsClean (b ∷ dst) board (h, hs) hb =
      both_branches (All IsClean) (text_eq b.sender_id board.sender_id) _ _
        (All-append IsShared b.reachable_endpoints board.reachable_endpoints h hb, hs)
        (h, merge_board-IsClean dst board hs hb)

  merge_loop-IsClean :
      (dst src : List TopologyBoardNode)
      → All IsClean dst
      → All IsClean src
      → All IsClean (merge_loop dst src)
  unfolding merge_loop
  merge_loop-IsClean dst [] h hs = h
  merge_loop-IsClean dst (board ∷ src) h (hb, hs) =
      merge_loop-IsClean (merge_board dst board) src (merge_board-IsClean dst board h hb) hs

  merge_topology_boards-IsClean :
      (dst src : List TopologyBoardNode)
      → All IsClean dst
      → All IsClean src
      → All IsClean (merge_topology_boards dst src)
  unfolding merge_topology_boards
  merge_topology_boards-IsClean dst src h hs =
      normalize_topology_boards-IsClean (merge_loop dst src) (merge_loop-IsClean dst src h hs)

  allowed_board-IsClean :
      (boards : List TopologyBoardNode) → All IsClean (map (allowed_board s false) boards)
  unfolding allowed_board allowed_endpoints
  allowed_board-IsClean [] = tt
  allowed_board-IsClean (board ∷ boards) = (
    All-filter IsShared (λ ep. not (endpoint_link_local_only s ep)) board.reachable_endpoints
        (λ ep h. not-true (endpoint_link_local_only s ep) h),
    allowed_board-IsClean boards,
  )

  merge_senders-IsClean :
      (now : ℕ) (name : Text) (senders : List (Text × SenderState))
      (boards : List TopologyBoardNode)
      → All IsClean boards
      → All IsClean (merge_senders s false now name senders boards)
  unfolding merge_senders
  merge_senders-IsClean now name [] boards h = h
  merge_senders-IsClean now name ((announcer, state) ∷ rest) boards h =
      merge_senders-IsClean now name rest _ (
        both_branches (All IsClean) (is_expired now state.last_seen_ms) _ _ h (
          merge_topology_boards-IsClean boards _ h
            (allowed_board-IsClean (sender_boards announcer name state))))

  merge_routes-IsClean :
      (now : ℕ) (name : Text) (routes : List (ℤ × DiscoveryRoute)) (boards : List TopologyBoardNode)
      → All IsClean boards
      → All IsClean (merge_routes s false now name routes boards)
  unfolding merge_routes
  merge_routes-IsClean now name [] boards h = h
  merge_routes-IsClean now name ((side_id, route) ∷ routes) boards h =
      merge_routes-IsClean now name routes _ (
        both_branches (All IsClean) (is_expired now route.last_seen_ms) _ _ h
          (merge_senders-IsClean now name route.announcers boards h))

  local_topology_board-IsClean :
      (owner : Advertiser) (now : ℕ) (routes : List (ℤ × DiscoveryRoute))
      → IsShared ep_time_sync
      → IsClean (local_topology_board s owner now routes false)
  unfolding local_topology_board router_local_discovery_endpoints
  local_topology_board-IsClean relay now routes h = tt
  local_topology_board-IsClean (router sender locals ts) now routes h =
      All-sort_dedup IsShared ltb _ (
        All-append IsShared
          (filter (λ ep. not (ep == ep_discovery) && (false || not (endpoint_link_local_only s ep)))
            locals)
          _
          (All-filter IsShared
            (λ ep. not (ep == ep_discovery) && (false || not (endpoint_link_local_only s ep)))
            locals (λ ep e. not-true (endpoint_link_local_only s ep) (and-right _ _ e)))
          (both_branches (All IsShared) ts.enabled _ _ (h, tt) tt))

  -- Where the schema does not make the endpoint of the time synchronisation link-local, the
  -- topology that a router or a relay tells a side without link-local traffic (or one that is not
  -- there) names no link-local endpoint, whatever the local handlers are and whatever it learnt.
  pub advertised_discovery_topology_for_side-IsClean :
      (owner : Advertiser) (link : Owner) (routes : List (ℤ × DiscoveryRoute)) (dst_side : ℤ)
      → is_link_local_side (elem_at link.sides dst_side) ≡ false
      → endpoint_link_local_only s ep_time_sync ≡ false
      → All IsClean (advertised_discovery_topology_for_side s owner link routes dst_side)
  unfolding advertised_discovery_topology_for_side
  advertised_discovery_topology_for_side-IsClean owner link routes dst_side e h =
      rw (advertised_discovery_topology_for_side, e)
        (normalize_topology_boards-IsClean _ (
          merge_routes-IsClean link.clock (advertiser_name owner) routes _
            (local_topology_board-IsClean owner link.clock routes h, tt)))
