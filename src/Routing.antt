-- ===== src/Routing.antt =====
-- src/router_core.cpp and src/core.cpp: the sides that a packet is sent to. The maps are
-- association lists; the candidates are sorted, so the order of the routes is of no account.
pub mod Policy
pub mod Destinations
pub mod Choice
use sedsnet_cpp.Common.{
  ℕ, zero, suc, Bool, true, false, not, ◌&&◌, ◌||◌, Option, none, some, List, [], ◌∷◌, ◌++◌, Text,
  text_eq, any, contains, is_empty, ltb, ◌==◌, if◌then◌else◌,
}
use sedsnet_cpp.Common.Int.{ℤ, pos, negsuc, int_eq, elem_at}
use sedsnet_cpp.Schema.{Schema, PacketData, ep_discovery}
use sedsnet_cpp.Schema.LinkLocal.{packet_requires_link_local}
use sedsnet_cpp.Side.{Side, side_accepts_packet}
use sedsnet_cpp.Topology.{DiscoveryRoute}
use sedsnet_cpp.Queue.{sub64}
use sedsnet_cpp.Routing.Policy.{RoutePolicy, apply_policy}

pub record RouteKey : Type 0 where
  pub src_side : ℤ
  pub dst_side : ℤ

pub record TypedRouteKey : Type 0 where
  pub src_side : ℤ
  pub ty : ℕ
  pub dst_side : ℤ

abbrev pub discovery_ttl_ms : ℕ
discovery_ttl_ms = 30000

unfoldable pub find_route : List (RouteKey × Bool) → ℤ → ℤ → Option Bool
find_route [] src dst = none
find_route ((key, on) ∷ rest) src dst =
    if int_eq key.src_side src && int_eq key.dst_side dst then some on else find_route rest src dst

unfoldable pub find_typed : List (TypedRouteKey × Bool) → ℤ → ℕ → ℤ → Option Bool
find_typed [] src ty dst = none
find_typed ((key, on) ∷ rest) src ty dst =
    if int_eq key.src_side src && key.ty == ty && int_eq key.dst_side dst
    then some on
    else find_typed rest src ty dst

-- `std::ranges::sort` and `std::ranges::unique`.
abbrev pub int_ltb : ℤ → ℤ → Bool
int_ltb (pos a) (pos b) = ltb a b
int_ltb (pos a) (negsuc b) = false
int_ltb (negsuc a) (pos b) = true
int_ltb (negsuc a) (negsuc b) = ltb b a

unfoldable pub insert_unique : ℤ → List ℤ → List ℤ
insert_unique a [] = a ∷ []
insert_unique a (b ∷ bs) =
    if int_eq a b then b ∷ bs else (if int_ltb a b then a ∷ b ∷ bs else b ∷ insert_unique a bs)

unfoldable pub sort_unique : List ℤ → List ℤ
unfolding insert_unique
sort_unique [] = []
sort_unique (a ∷ rest) = insert_unique a (sort_unique rest)

abbrev pub is_source : Option ℤ → ℤ → Bool
is_source none side_id = false
is_source (some src) side_id = int_eq side_id src

module _ (s : Schema) (sides : List Side) (pkt : PacketData) (src_side : Option ℤ)
    (now_ms : ℕ) where
  link_allowed : Option Side → Bool
  link_allowed none = false
  link_allowed (some side) = not (packet_requires_link_local s pkt && not side.link_local_enabled)

  -- The tests at the head of both loops over the routes.
  unfoldable pub is_usable : ℤ → DiscoveryRoute → Bool
  unfolding link_allowed
  is_usable side_id route =
      not (is_source src_side side_id)
      && not (ltb discovery_ttl_ms (sub64 now_ms route.last_seen_ms))
      && link_allowed (elem_at sides side_id)

  unfoldable pub timesync_candidates : Text → List (ℤ × DiscoveryRoute) → List ℤ
  unfolding is_usable
  timesync_candidates preferred [] = []
  timesync_candidates preferred ((side_id, route) ∷ routes) =
      let rest = timesync_candidates preferred routes in
      if is_usable side_id route && any (text_eq preferred) route.timesync_sources
      then side_id ∷ rest
      else rest

  unfoldable pub endpoint_candidates : List (ℤ × DiscoveryRoute) → List ℤ
  unfolding is_usable
  endpoint_candidates [] = []
  endpoint_candidates ((side_id, route) ∷ routes) =
      let rest = endpoint_candidates routes in
      if is_usable side_id route
        && any (λ ep. ep == ep_discovery || contains route.endpoints ep) pkt.endpoints
      then side_id ∷ rest
      else rest

  -- With no route, every other side that sends and may carry the packet; `i` is the first's index.
  unfoldable pub side_candidates : List Side → ℕ → List ℤ
  side_candidates [] i = []
  side_candidates (side ∷ rest) i =
      let later = side_candidates rest (suc i) in
      if not (is_source src_side (pos i))
        && side.egress_enabled
        && (not (packet_requires_link_local s pkt) || side.link_local_enabled)
      then pos i ∷ later
      else later

  unfoldable pub preferred_candidates : Option Text → List (ℤ × DiscoveryRoute) → List ℤ
  unfolding timesync_candidates
  preferred_candidates none routes = []
  preferred_candidates (some preferred) routes = timesync_candidates preferred routes

  unfoldable pub default_candidates : List (ℤ × DiscoveryRoute) → Option Text → List ℤ
  unfolding preferred_candidates endpoint_candidates side_candidates sort_unique
  default_candidates routes preferred =
      let timesync = preferred_candidates preferred routes in
      let by_endpoint = endpoint_candidates routes in
      if not (is_empty timesync)
      then sort_unique timesync
      else sort_unique (if is_empty by_endpoint then side_candidates sides 0 else by_endpoint)

  abbrev pub source_id : ℤ
  source_id = elim src_side [ none ↦ negsuc 0 | some src ↦ src ]

  unfoldable pub side_open : Option Side → Bool
  unfolding side_accepts_packet
  side_open none = false
  side_open (some side) = side.egress_enabled && side_accepts_packet s side pkt

  -- The ladder of overrides: typed ones come first, and one for the type shuts the other sides.
  unfoldable pub override_allows : Option Bool → Option Bool → Bool → Bool
  override_allows (some false) typed typed_present = false
  override_allows (some true) (some on) typed_present = on
  override_allows (some true) none typed_present = not typed_present
  override_allows none (some on) typed_present = on
  override_allows none none typed_present = not typed_present

  module _ (route_overrides : List (RouteKey × Bool))
      (typed_overrides : List (TypedRouteKey × Bool)) where
    unfoldable pub typed_override_present : Bool
    typed_override_present =
        any (λ entry. int_eq entry.0.src_side source_id && entry.0.ty == pkt.ty) typed_overrides

    unfoldable pub is_destination : ℤ → Bool
    unfolding side_open override_allows find_route find_typed typed_override_present
    is_destination side_id =
        side_open (elem_at sides side_id)
        && override_allows (find_route route_overrides source_id side_id)
            (find_typed typed_overrides source_id pkt.ty side_id) typed_override_present

    unfoldable pub filter_destinations : List ℤ → List ℤ
    unfolding is_destination
    filter_destinations [] = []
    filter_destinations (side_id ∷ rest) =
        if is_destination side_id
        then side_id ∷ filter_destinations rest
        else filter_destinations rest

    unfoldable pub select_destinations :
        List (ℤ × DiscoveryRoute) → RoutePolicy → Option ℤ → Option Text → RoutePolicy × List ℤ
    unfolding default_candidates filter_destinations
    select_destinations routes policy (some dst) preferred = (policy, dst ∷ [])
    select_destinations routes policy none preferred =
        apply_policy policy (filter_destinations (default_candidates routes preferred))
