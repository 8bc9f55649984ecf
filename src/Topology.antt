-- ===== src/Topology.antt =====
-- Cpp-Headers/discovery_helpers.hpp, and `DiscoveryRoute` of Cpp-Headers/internal.hpp: what boards
-- tell of the endpoints and the time sources that they reach.
-- Sets and maps are lists; where two boards have one id, the source keeps either of them, and the
-- first stays here.
use sedsnet_cpp.Common.{
  ℕ, Bool, true, false, not, ◌&&◌, List, [], ◌∷◌, ◌++◌, Text, text_eq, map, filter, ltb, ◌==◌,
  if◌then◌else◌,
}
use sedsnet_cpp.Common.Sorting.{sort_dedup, text_ltb}

pub record TopologyBoardNode : Type 0 where
  pub sender_id : Text
  pub reachable_endpoints : List ℕ
  pub reachable_timesync_sources : List Text
  pub connections : List Text

pub record SenderState : Type 0 where
  pub endpoints : List ℕ
  pub timesync_sources : List Text
  pub topology_boards : List TopologyBoardNode
  pub last_seen_ms : ℕ

pub record DiscoveryRoute : Type 0 where
  pub endpoints : List ℕ
  pub timesync_sources : List Text
  pub last_seen_ms : ℕ
  pub announcers : List (Text × SenderState)

abbrev pub no_sender : SenderState
no_sender = record { endpoints = []; timesync_sources = []; topology_boards = []; last_seen_ms = 0 }

abbrev pub no_route : DiscoveryRoute
no_route = record { endpoints = []; timesync_sources = []; last_seen_ms = 0; announcers = [] }

-- Equality of lists and of boards.
unfoldable pub list_eq {ℓ} : {A : Type ℓ} → (A → A → Bool) → List A → List A → Bool
list_eq same [] [] = true
list_eq same [] (y ∷ ys) = false
list_eq same (x ∷ xs) [] = false
list_eq same (x ∷ xs) (y ∷ ys) = same x y && list_eq same xs ys

abbrev pub number_eq : ℕ → ℕ → Bool
number_eq a b = a == b

unfoldable pub board_eq : TopologyBoardNode → TopologyBoardNode → Bool
unfolding list_eq
board_eq a b =
    text_eq a.sender_id b.sender_id
    && list_eq number_eq a.reachable_endpoints b.reachable_endpoints
    && list_eq text_eq a.reachable_timesync_sources b.reachable_timesync_sources
    && list_eq text_eq a.connections b.connections

unfoldable pub sort_dedup_strings : List Text → List Text
sort_dedup_strings items = sort_dedup text_ltb items

unfoldable pub normalize_board : TopologyBoardNode → TopologyBoardNode
unfolding sort_dedup_strings
normalize_board board = record board {
  reachable_endpoints = sort_dedup ltb board.reachable_endpoints;
  reachable_timesync_sources = sort_dedup_strings board.reachable_timesync_sources;
  connections =
      sort_dedup_strings (filter (λ peer. not (text_eq peer board.sender_id)) board.connections);
}

abbrev board_ltb : TopologyBoardNode → TopologyBoardNode → Bool
board_ltb a b = text_ltb a.sender_id b.sender_id

unfoldable pub normalize_topology_boards : List TopologyBoardNode → List TopologyBoardNode
unfolding normalize_board
normalize_topology_boards boards = sort_dedup board_ltb (map normalize_board boards)

-- One board of `src` goes into the board of its id, or behind the others.
unfoldable pub merge_board : List TopologyBoardNode → TopologyBoardNode → List TopologyBoardNode
merge_board [] board = board ∷ []
merge_board (b ∷ dst) board =
    if text_eq b.sender_id board.sender_id
    then record b {
      reachable_endpoints = b.reachable_endpoints ++ board.reachable_endpoints;
      reachable_timesync_sources = b.reachable_timesync_sources ++ board.reachable_timesync_sources;
      connections = b.connections ++ board.connections;
    }
      ∷ dst
    else b ∷ merge_board dst board

unfoldable pub merge_loop : List TopologyBoardNode → List TopologyBoardNode → List TopologyBoardNode
unfolding merge_board
merge_loop dst [] = dst
merge_loop dst (board ∷ src) = merge_loop (merge_board dst board) src

unfoldable pub merge_topology_boards :
    List TopologyBoardNode → List TopologyBoardNode → List TopologyBoardNode
unfolding merge_loop normalize_topology_boards
merge_topology_boards dst src = normalize_topology_boards (merge_loop dst src)

unfoldable pub all_endpoints : List TopologyBoardNode → List ℕ
all_endpoints [] = []
all_endpoints (board ∷ boards) = board.reachable_endpoints ++ all_endpoints boards

unfoldable pub all_sources : List TopologyBoardNode → List Text
all_sources [] = []
all_sources (board ∷ boards) = board.reachable_timesync_sources ++ all_sources boards

unfoldable pub summarize_topology_boards : List TopologyBoardNode → List ℕ × List Text
unfolding all_endpoints all_sources sort_dedup_strings
summarize_topology_boards boards =
    (sort_dedup ltb (all_endpoints boards), sort_dedup_strings (all_sources boards))
