-- ===== src/EndToEnd/Destinations.antt =====
-- src/router_core.cpp: the boards that a packet is for, by what discovery tells.
use sedsnet_cpp.Common.{
  ℕ, Bool, true, false, not, ◌&&◌, ◌||◌, Option, none, some, List, [], ◌∷◌, Text, any, contains,
  is_empty, length, ltb, leb, filter, if◌then◌else◌,
}
use sedsnet_cpp.Common.Int.{ℤ, int_eq, elem_at}
use sedsnet_cpp.Common.Keyed.{lookup}
use sedsnet_cpp.Common.Assoc.{find, put}
use sedsnet_cpp.Schema.{Schema, PacketData, is_reliable_type, is_internal_control_type}
use sedsnet_cpp.Schema.LinkLocal.{packet_requires_link_local}
use sedsnet_cpp.Side.{Side}
use sedsnet_cpp.Queue.{sub64}
use sedsnet_cpp.Wire.Checksum.{sender_hash, packet_id}
use sedsnet_cpp.Topology.{TopologyBoardNode, SenderState, DiscoveryRoute}
use sedsnet_cpp.Reliable.{Owner}
use sedsnet_cpp.Routing.{discovery_ttl_ms}
use sedsnet_cpp.EndToEnd.{Cache, is_end_to_end_destination_sender}

unfoldable pub board_matches_any_endpoint : TopologyBoardNode → List ℕ → Bool
board_matches_any_endpoint board endpoints = any (contains board.reachable_endpoints) endpoints

-- `out`, and whether it has come to the limit, where the function returns at once.
pub record Expected : Type 0 where
  pub out : List (ℕ × ℤ)
  pub full : Bool

module _ (cap : ℕ) (endpoints : List ℕ) (side_id : ℤ) where
  expect : Text → Expected → Expected
  expect sender found =
      let grown = put found.out (sender_hash sender) side_id in
      if found.full then found else record { out = grown; full = leb cap (length grown) }

  is_expected : TopologyBoardNode → Bool
  unfolding board_matches_any_endpoint
  is_expected board =
      is_end_to_end_destination_sender board.sender_id && board_matches_any_endpoint board endpoints

  expect_boards : List TopologyBoardNode → Expected → Expected
  unfolding expect is_expected
  expect_boards [] found = found
  expect_boards (board ∷ boards) found =
      expect_boards boards (if is_expected board then expect board.sender_id found else found)

  -- A sender that told of no board stands for itself.
  expect_sender : Text → SenderState → Expected → Expected
  unfolding expect_boards expect
  expect_sender sender state found =
      let told = expect_boards state.topology_boards found in
      if is_empty state.topology_boards
        && is_end_to_end_destination_sender sender
        && any (contains state.endpoints) endpoints
      then expect sender told
      else told

  unfoldable pub expect_senders : List (Text × SenderState) → Expected → Expected
  unfolding expect_sender
  expect_senders [] found = found
  expect_senders ((sender, state) ∷ rest) found =
      expect_senders rest (expect_sender sender state found)

unfoldable pub may_lead : Bool → Option Side → Bool
may_lead require_link_local none = false
may_lead require_link_local (some side) =
    side.egress_enabled && not (require_link_local && not side.link_local_enabled)

module _ (s : Schema) (cap : ℕ) (link : Owner) (pkt : PacketData) where
  unfoldable pub expect_routes : List (ℤ × DiscoveryRoute) → Expected → Expected
  unfolding expect_senders may_lead
  expect_routes [] found = found
  expect_routes ((side_id, route) ∷ routes) found = expect_routes routes (
      if not (ltb discovery_ttl_ms (sub64 link.clock route.last_seen_ms))
        && may_lead (packet_requires_link_local s pkt) (elem_at link.sides side_id)
      then expect_senders cap pkt.endpoints side_id route.announcers found
      else found)

  unfoldable pub expected_end_to_end_destinations : List (ℤ × DiscoveryRoute) → List (ℕ × ℤ)
  unfolding expect_routes
  expected_end_to_end_destinations routes =
      (expect_routes routes (record { out = []; full = false })).out

-- What the loops over the boards behind a side have found.
pub record Behind : Type 0 where
  pub still_pending : Bool
  pub had_destination_board : Bool

module _ (endpoints acked : List ℕ) where
  behind_boards : List TopologyBoardNode → Behind → Behind
  unfolding board_matches_any_endpoint
  behind_boards [] found = found
  behind_boards (board ∷ boards) found = behind_boards boards (
      if found.still_pending || not (is_end_to_end_destination_sender board.sender_id)
      then found
      else record {
        still_pending =
            board_matches_any_endpoint board endpoints
            && not (contains acked (sender_hash board.sender_id));
        had_destination_board = true;
      })

  behind_sender : Text → SenderState → Behind → Behind
  unfolding behind_boards
  behind_sender sender state found =
      let told = behind_boards state.topology_boards found in
      if not told.had_destination_board
        && is_empty state.topology_boards
        && is_end_to_end_destination_sender sender
      then record {
        still_pending =
            any (contains state.endpoints) endpoints && not (contains acked (sender_hash sender));
        had_destination_board = true;
      }
      else told

  unfoldable pub behind_senders : List (Text × SenderState) → Behind → Behind
  unfolding behind_sender
  behind_senders [] found = found
  behind_senders ((sender, state) ∷ rest) found =
      behind_senders rest (if found.still_pending then found else behind_sender sender state found)

  unfoldable pub is_unsatisfied : Option DiscoveryRoute → Bool
  unfolding behind_senders
  is_unsatisfied none = true
  is_unsatisfied (some route) =
      let found =
        behind_senders route.announcers
          (record { still_pending = false; had_destination_board = false }) in
      is_empty route.announcers || found.still_pending || not found.had_destination_board

unsatisfied_sides : List ℕ → Option (List ℕ) → List (ℤ × DiscoveryRoute) → List ℤ → List ℤ
unfolding is_unsatisfied
unsatisfied_sides endpoints none routes sides = sides
unsatisfied_sides endpoints (some acked) routes sides =
    filter (λ side. is_unsatisfied endpoints acked (lookup int_eq routes side)) sides

unfoldable pub filter_end_to_end_satisfied_sides :
    Schema → Cache (List ℕ) → List (ℤ × DiscoveryRoute) → PacketData → List ℤ → List ℤ
unfolding unsatisfied_sides
filter_end_to_end_satisfied_sides s acked routes pkt sides =
    if not (is_reliable_type s pkt.ty) || is_internal_control_type pkt.ty
    then sides
    else unsatisfied_sides pkt.endpoints (find acked.entries (packet_id s pkt)) routes sides
