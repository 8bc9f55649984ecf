-- ===== src/Routing/Destinations.antt =====
-- Where a packet may be sent.
use sedsnet_cpp.Common.{
  ℕ, suc, ◌-◌, ◌^◌, Bool, true, false, not, ◌&&◌, Option, none, some, List, [], ◌∷◌, All, Text,
  is_empty, ltb, ◌==◌, if◌then◌else◌, ◌≡◌, refl, inl, inr, Bool-cases,
}
use mathlib.Core.Bool.{false≢true}
use sedsnet_cpp.Queue.{add64}
use sedsnet_cpp.Common.Int.{ℤ, pos, int_eq, elem_at}
use sedsnet_cpp.Schema.{Schema, PacketData}
use sedsnet_cpp.Schema.LinkLocal.{packet_requires_link_local}
use sedsnet_cpp.Side.{Side, side_accepts_packet}
use sedsnet_cpp.Topology.{DiscoveryRoute}
use sedsnet_cpp.Routing.Policy.{
  RouteSelectionMode, RoutePolicy, fanout, weighted, failover, failover_loop, weighted_loop, weight,
  priority, total_weight, choose, apply_policy,
}
use sedsnet_cpp.Routing.{
  RouteKey, TypedRouteKey, is_source, insert_unique, sort_unique, is_usable, timesync_candidates,
  endpoint_candidates, side_candidates, preferred_candidates, default_candidates, side_open,
  is_destination, filter_destinations, select_destinations, int_ltb,
}

module _ {κ} (P : ℤ → Type κ) where
  failover_loop-All :
      (policy : RoutePolicy) (sides : List ℤ) (best : ℤ) (pri : ℕ)
      → P best
      → All P sides
      → P (failover_loop policy sides best pri)
  unfolding failover_loop
  failover_loop-All policy [] best pri hb h = hb
  failover_loop-All policy (side ∷ sides) best pri hb h =
      elim (Bool-cases (ltb (priority policy side) pri)) [
        | inl e ↦ rw e (failover_loop-All policy sides side (priority policy side) (h.0) (h.1))
        | inr e ↦ rw e (failover_loop-All policy sides best pri hb (h.1))
      ]

  weighted_loop-All :
      (policy : RoutePolicy) (pick : ℕ) (sides : List ℤ) (running : ℕ) (front : ℤ)
      → P front
      → All P sides
      → P (weighted_loop policy pick sides running front)
  unfolding weighted_loop
  weighted_loop-All policy pick [] running front hf h = hf
  weighted_loop-All policy pick (side ∷ sides) running front hf h =
      let next = add64 running (weight policy side) in
      elim (Bool-cases (ltb pick next)) [
        | inl e ↦ rw e (h.0)
        | inr e ↦ rw e (weighted_loop-All policy pick sides next front hf (h.1))
      ]

  choose-All :
      (policy : RoutePolicy) (mode : RouteSelectionMode) (side : ℤ) (sides : List ℤ)
      → policy.mode ≡ mode
      → All P (side ∷ sides)
      → All P ((choose policy side (side ∷ sides)).1)
  unfolding choose
  choose-All policy fanout side sides e h = rw e h
  choose-All policy failover side sides e h =
      rw e (failover_loop-All policy (side ∷ sides) side (2 ^ 32 - 1) (h.0) h, tt)
  choose-All policy weighted side sides e h =
      let total = total_weight policy (side ∷ sides) 0 in
      elim (Bool-cases (total == 0)) [
        | inl z ↦ rw (e, z) (h.0, tt)
        | inr z ↦ rw (e, z) (weighted_loop-All policy _ (side ∷ sides) 0 side (h.0) h, tt)
      ]

  apply_policy-All :
      (policy : RoutePolicy) (sides : List ℤ) → All P sides → All P ((apply_policy policy sides).1)
  unfolding apply_policy
  apply_policy-All policy [] h = h
  apply_policy-All policy (side ∷ sides) h = choose-All policy policy.mode side sides refl h

  insert_unique-All : (a : ℤ) (bs : List ℤ) → P a → All P bs → All P (insert_unique a bs)
  unfolding insert_unique
  insert_unique-All a [] ha h = (ha, h)
  insert_unique-All a (b ∷ bs) ha h = elim (Bool-cases (int_eq a b)) [
    | inl e ↦ rw e h
    | inr e ↦ elim (Bool-cases (int_ltb a b)) [
      | inl l ↦ rw (e, l) (ha, h)
      | inr l ↦ rw (e, l) (h.0, insert_unique-All a bs ha (h.1))
    ]
  ]

  sort_unique-All : (xs : List ℤ) → All P xs → All P (sort_unique xs)
  unfolding sort_unique
  sort_unique-All [] h = h
  sort_unique-All (x ∷ xs) h = insert_unique-All x (sort_unique xs) (h.0) (sort_unique-All xs (h.1))

not-true : (b : Bool) → not b ≡ true → b ≡ false
not-true true h = absurd (false≢true h)
not-true false h = refl

cons_if {κ} :
    (P : ℤ → Type κ) (b : Bool) (x : ℤ) (xs : List ℤ)
    → (b ≡ true → P x)
    → All P xs
    → All P (if b then x ∷ xs else xs)
cons_if P true x xs hx h = (hx refl, h)
cons_if P false x xs hx h = h

and_left : (a b : Bool) → a && b ≡ true → a ≡ true
and_left true b h = refl
and_left false b h = h

and_right : (a b : Bool) → a && b ≡ true → b ≡ true
and_right true b h = h
and_right false b h = absurd (false≢true h)

module _ (s : Schema) (sides : List Side) (pkt : PacketData) (src_side : Option ℤ)
    (now_ms : ℕ) where
  -- A side that the packet did not come from.
  abbrev NotSource : ℤ → Type 0
  NotSource side_id = is_source src_side side_id ≡ false

  is_usable-NotSource :
      (side_id : ℤ) (route : DiscoveryRoute)
      → is_usable s sides pkt src_side now_ms side_id route ≡ true
      → NotSource side_id
  unfolding is_usable
  is_usable-NotSource side_id route h =
      not-true (is_source src_side side_id)
        (and_left (not (is_source src_side side_id)) _ (and_left _ _ h))

  endpoint_candidates-NotSource :
      (routes : List (ℤ × DiscoveryRoute))
      → All NotSource (endpoint_candidates s sides pkt src_side now_ms routes)
  unfolding endpoint_candidates
  endpoint_candidates-NotSource [] = tt
  endpoint_candidates-NotSource ((side_id, route) ∷ routes) =
      cons_if NotSource _ side_id (endpoint_candidates s sides pkt src_side now_ms routes)
        (λ h. is_usable-NotSource side_id route (and_left _ _ h))
        (endpoint_candidates-NotSource routes)

  timesync_candidates-NotSource :
      (preferred : Text) (routes : List (ℤ × DiscoveryRoute))
      → All NotSource (timesync_candidates s sides pkt src_side now_ms preferred routes)
  unfolding timesync_candidates
  timesync_candidates-NotSource preferred [] = tt
  timesync_candidates-NotSource preferred ((side_id, route) ∷ routes) =
      cons_if NotSource _ side_id (timesync_candidates s sides pkt src_side now_ms preferred routes)
        (λ h. is_usable-NotSource side_id route (and_left _ _ h))
        (timesync_candidates-NotSource preferred routes)

  preferred_candidates-NotSource :
      (preferred : Option Text) (routes : List (ℤ × DiscoveryRoute))
      → All NotSource (preferred_candidates s sides pkt src_side now_ms preferred routes)
  unfolding preferred_candidates
  preferred_candidates-NotSource none routes = tt
  preferred_candidates-NotSource (some preferred) routes =
      timesync_candidates-NotSource preferred routes

  side_candidates-NotSource :
      (rest : List Side) (i : ℕ)
      → All NotSource (side_candidates s sides pkt src_side now_ms rest i)
  unfolding side_candidates
  side_candidates-NotSource [] i = tt
  side_candidates-NotSource (side ∷ rest) i =
      cons_if NotSource _ (pos i) (side_candidates s sides pkt src_side now_ms rest (suc i))
        (λ h.
          not-true (is_source src_side (pos i))
            (and_left (not (is_source src_side (pos i))) _ (and_left _ _ h)))
        (side_candidates-NotSource rest (suc i))

  default_candidates-NotSource :
      (routes : List (ℤ × DiscoveryRoute)) (preferred : Option Text)
      → All NotSource (default_candidates s sides pkt src_side now_ms routes preferred)
  unfolding default_candidates
  default_candidates-NotSource routes preferred =
      let timesync = preferred_candidates s sides pkt src_side now_ms preferred routes in
      let by_endpoint = endpoint_candidates s sides pkt src_side now_ms routes in
      elim (Bool-cases (is_empty timesync)) [
        | inr e ↦
            rw (default_candidates, e)
              (sort_unique-All NotSource timesync (preferred_candidates-NotSource preferred routes))
        | inl e ↦ elim (Bool-cases (is_empty by_endpoint)) [
          | inl f ↦
              rw (default_candidates, e, f)
                (sort_unique-All NotSource _ (side_candidates-NotSource sides 0))
          | inr f ↦
              rw (default_candidates, e, f)
                (sort_unique-All NotSource by_endpoint (endpoint_candidates-NotSource routes))
        ]
      ]

  -- A side of the owner that sends, carries the packet, and is not the one it came from.
  pub record MaySend (side_id : ℤ) : Type 0 where
    pub side : Side
    pub there : elem_at sides side_id ≡ some side
    pub sends : side.egress_enabled ≡ true
    pub carries : packet_requires_link_local s pkt && not side.link_local_enabled ≡ false
    pub not_source : NotSource side_id

  side_open-MaySend :
      (o : Option Side) (side_id : ℤ)
      → elem_at sides side_id ≡ o
      → side_open s sides pkt src_side now_ms o ≡ true
      → NotSource side_id
      → MaySend side_id
  unfolding side_open side_accepts_packet
  side_open-MaySend none side_id e h hs = absurd (false≢true h)
  side_open-MaySend (some side) side_id e h hs = record {
    side = side;
    there = e;
    sends = and_left side.egress_enabled _ h;
    carries = not-true _ (and_right side.egress_enabled _ h);
    not_source = hs;
  }

  module _ (route_overrides : List (RouteKey × Bool))
      (typed_overrides : List (TypedRouteKey × Bool)) where
    filter_destinations-MaySend :
        (xs : List ℤ)
        → All NotSource xs
        → All MaySend
            (filter_destinations s sides pkt src_side now_ms route_overrides typed_overrides xs)
    unfolding filter_destinations is_destination
    filter_destinations-MaySend [] h = tt
    filter_destinations-MaySend (x ∷ xs) h =
        cons_if MaySend _ x _
          (λ d.
            side_open-MaySend (elem_at sides x) x refl
              (and_left (side_open s sides pkt src_side now_ms (elem_at sides x)) _ d) (h.0))
          (filter_destinations-MaySend xs (h.1))

    -- With no explicit destination, every side that is chosen is one of the owner's, has egress
    -- enabled, may carry the packet if it asks for link-local sides, and is not the side that the
    -- packet came from, whatever the routes, the overrides and the policy are.
    pub select_destinations-MaySend :
        (routes : List (ℤ × DiscoveryRoute)) (policy : RoutePolicy) (preferred : Option Text)
        → All MaySend (
            (select_destinations s sides pkt src_side now_ms route_overrides typed_overrides routes
              policy none preferred).1)
    unfolding select_destinations
    select_destinations-MaySend routes policy preferred =
        apply_policy-All MaySend policy _
          (filter_destinations-MaySend _ (default_candidates-NotSource routes preferred))
