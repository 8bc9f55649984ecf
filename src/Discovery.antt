-- ===== src/Discovery.antt =====
-- src/discovery.cpp: what a router or a relay learns of the boards behind its sides.
-- The two handlers differ in one test: a router drops what it sent itself.
pub mod Payload
pub mod Advertise
pub mod Live
pub mod Expiry
pub mod LinkLocal
pub mod Repeats
use sedsnet_cpp.Common.{
  ℕ, ◌+◌, max, Bool, true, false, not, ◌&&◌, ◌||◌, Option, none, some, List, [], ◌∷◌, ◌++◌, Text,
  text_eq, map, any, filter, is_empty, length, ltb, leb, ◌==◌, if◌then◌else◌,
}
use sedsnet_cpp.Common.Int.{ℤ, int_eq, elem_at}
use sedsnet_cpp.Common.Keyed.{lookup, store, remove}
use sedsnet_cpp.Schema.{Schema, PacketData}
use sedsnet_cpp.Schema.LinkLocal.{endpoint_link_local_only}
use sedsnet_cpp.Side.{Side}
use sedsnet_cpp.Queue.{sub64}
use sedsnet_cpp.Topology.{
  TopologyBoardNode, SenderState, DiscoveryRoute, no_sender, no_route, list_eq, number_eq, board_eq,
  normalize_topology_boards, summarize_topology_boards,
}
use sedsnet_cpp.Routing.{discovery_ttl_ms}
use sedsnet_cpp.Discovery.Payload.{
  decode_discovery_endpoints, decode_discovery_timesync_sources_packet,
  decode_discovery_topology_packet,
}

pub record Discovery : Type 0 where
  pub discovery_routes : List (ℤ × DiscoveryRoute)
  pub discovery_interval_ms : ℕ
  pub discovery_next_ms : ℕ

abbrev pub discovery_fast_ms : ℕ
discovery_fast_ms = 250

abbrev pub discovery_slow_ms : ℕ
discovery_slow_ms = 5000

abbrev pub dt_discovery_announce : ℕ
dt_discovery_announce = 7

abbrev pub dt_discovery_timesync_sources : ℕ
dt_discovery_timesync_sources = 8

abbrev pub dt_discovery_topology : ℕ
dt_discovery_topology = 9

abbrev pub dt_discovery_leave : ℕ
dt_discovery_leave = 1015

unfoldable pub refresh_sender_topology_state : SenderState → SenderState
refresh_sender_topology_state state =
    let boards = normalize_topology_boards state.topology_boards in
    let summary = summarize_topology_boards boards in
    record state { topology_boards = boards; endpoints = summary.0; timesync_sources = summary.1 }

-- The sets of a route take in those of its announcers; an element may stand twice in the list.
unfoldable pub announced_endpoints : List (Text × SenderState) → List ℕ
announced_endpoints [] = []
announced_endpoints ((sender, state) ∷ rest) = state.endpoints ++ announced_endpoints rest

unfoldable pub announced_sources : List (Text × SenderState) → List Text
announced_sources [] = []
announced_sources ((sender, state) ∷ rest) = state.timesync_sources ++ announced_sources rest

unfoldable pub latest_seen : List (Text × SenderState) → ℕ
latest_seen [] = 0
latest_seen ((sender, state) ∷ rest) = max state.last_seen_ms (latest_seen rest)

unfoldable pub recompute_discovery_side_state : DiscoveryRoute → DiscoveryRoute
unfolding announced_endpoints announced_sources latest_seen
recompute_discovery_side_state route = record route {
  endpoints = announced_endpoints route.announcers;
  timesync_sources = announced_sources route.announcers;
  last_seen_ms = latest_seen route.announcers;
}

-- `sender_topology_board_mut`, and what the caller does to the board.
unfoldable pub update_board :
    (TopologyBoardNode → TopologyBoardNode) → Text → List TopologyBoardNode → List TopologyBoardNode
update_board change sender_id [] =
    change (record {
      sender_id = sender_id;
      reachable_endpoints = [];
      reachable_timesync_sources = [];
      connections = [];
    })
    ∷ []
update_board change sender_id (board ∷ boards) =
    if text_eq board.sender_id sender_id
    then change board ∷ boards
    else board ∷ update_board change sender_id boards

-- The board as it stood before the change.
unfoldable pub find_board : Text → List TopologyBoardNode → Option TopologyBoardNode
find_board sender_id [] = none
find_board sender_id (board ∷ boards) =
    if text_eq board.sender_id sender_id then some board else find_board sender_id boards

unfoldable pub is_expired : ℕ → ℕ → Bool
is_expired now last_seen_ms = ltb discovery_ttl_ms (sub64 now last_seen_ms)

unfoldable pub live_announcers : ℕ → List (Text × SenderState) → List (Text × SenderState)
unfolding is_expired
live_announcers now announcers =
    filter (λ entry. not (is_expired now (entry.1.last_seen_ms))) announcers

unfoldable pub prune_discovery_routes :
    ℕ → List (ℤ × DiscoveryRoute) → List (ℤ × DiscoveryRoute) × Bool
unfolding live_announcers is_expired recompute_discovery_side_state
prune_discovery_routes now [] = ([], false)
prune_discovery_routes now ((side_id, route) ∷ routes) =
    let later = prune_discovery_routes now routes in
    let live = live_announcers now route.announcers in
    let dropped = ltb (length live) (length route.announcers) in
    let pruned = recompute_discovery_side_state (record route { announcers = live }) in
    if is_empty live || is_expired now pruned.last_seen_ms
    then (later.0, true)
    else ((side_id, pruned) ∷ later.0, dropped || later.1)

-- One announcer after `leaving` has gone: whether its boards changed, and its new state.
forget_peer : Text → TopologyBoardNode → TopologyBoardNode
forget_peer leaving board = record board {
  connections = filter (λ peer. not (text_eq peer leaving)) board.connections;
}

unfoldable pub leave_sender : Text → SenderState → SenderState × Bool
unfolding forget_peer refresh_sender_topology_state
leave_sender leaving state =
    let kept =
      filter (λ (board : TopologyBoardNode). not (text_eq board.sender_id leaving))
        state.topology_boards in
    let boards = map (forget_peer leaving) kept in
    if list_eq board_eq boards state.topology_boards
    then (record state { topology_boards = boards }, false)
    else (refresh_sender_topology_state (record state { topology_boards = boards }), true)

leave_senders : Text → List (Text × SenderState) → List (Text × SenderState) × Bool
unfolding leave_sender
leave_senders leaving [] = ([], false)
leave_senders leaving ((sender, state) ∷ rest) =
    let next = leave_sender leaving state in
    let later = leave_senders leaving rest in ((sender, next.0) ∷ later.0, next.1 || later.1)

unfoldable pub prune_leaving_discovery_sender :
    Text → List (ℤ × DiscoveryRoute) → List (ℤ × DiscoveryRoute) × Bool
unfolding leave_senders recompute_discovery_side_state
prune_leaving_discovery_sender leaving [] = ([], false)
prune_leaving_discovery_sender leaving ((side_id, route) ∷ routes) =
    let later = prune_leaving_discovery_sender leaving routes in
    let kept = remove text_eq route.announcers leaving in
    let erased = ltb (length kept) (length route.announcers) in
    let left = leave_senders leaving kept in
    let pruned = recompute_discovery_side_state (record route { announcers = left.0 }) in
    let changed = erased || left.1 || later.1 in
    if is_empty (left.0) then (later.0, changed) else ((side_id, pruned) ∷ later.0, changed)

unfoldable pub note_discovery_topology_change : ℕ → Discovery → Discovery
note_discovery_topology_change now d = record d {
  discovery_interval_ms = discovery_fast_ms;
  discovery_next_ms = now;
}

abbrev or_new_route : Option DiscoveryRoute → DiscoveryRoute
or_new_route none = no_route
or_new_route (some route) = route

abbrev or_new_sender : Option SenderState → SenderState
or_new_sender none = no_sender
or_new_sender (some state) = state

abbrev pub is_link_local_side : Option Side → Bool
is_link_local_side none = false
is_link_local_side (some side) = side.link_local_enabled

abbrev pub known_endpoints : Option TopologyBoardNode → List ℕ
known_endpoints none = []
known_endpoints (some board) = board.reachable_endpoints

abbrev known_sources : Option TopologyBoardNode → List Text
known_sources none = []
known_sources (some board) = board.reachable_timesync_sources

module _ (s : Schema) (link_local_enabled : Bool) where
  unfoldable pub allowed_endpoints : List ℕ → List ℕ
  allowed_endpoints endpoints =
      if link_local_enabled
      then endpoints
      else filter (λ ep. not (endpoint_link_local_only s ep)) endpoints

  unfoldable pub allowed_board : TopologyBoardNode → TopologyBoardNode
  unfolding allowed_endpoints
  allowed_board board = record board {
    reachable_endpoints = allowed_endpoints board.reachable_endpoints;
  }

  -- The three kinds of packets, each with whether it tells something new.
  unfoldable pub learn_announce : PacketData → SenderState → SenderState × Bool
  unfolding refresh_sender_topology_state update_board find_board allowed_endpoints
  learn_announce pkt state =
      let reachable = decode_discovery_endpoints s pkt in
      let before = known_endpoints (find_board pkt.sender state.topology_boards) in
      (
        refresh_sender_topology_state (record state {
          topology_boards =
              update_board
                (λ board. record board { reachable_endpoints = allowed_endpoints reachable })
                pkt.sender state.topology_boards;
        }),
        not (list_eq number_eq before reachable),
      )

  unfoldable pub learn_sources : PacketData → SenderState → SenderState × Bool
  unfolding refresh_sender_topology_state update_board find_board
  learn_sources pkt state =
      let sources = decode_discovery_timesync_sources_packet pkt in
      let before = known_sources (find_board pkt.sender state.topology_boards) in
      (
        refresh_sender_topology_state (record state {
          topology_boards =
              update_board (λ board. record board { reachable_timesync_sources = sources })
                pkt.sender state.topology_boards;
        }),
        not (list_eq text_eq before sources),
      )

  unfoldable pub learn_topology : PacketData → SenderState → SenderState × Bool
  unfolding refresh_sender_topology_state allowed_board
  learn_topology pkt state =
      let boards = map allowed_board (decode_discovery_topology_packet pkt) in
      (
        refresh_sender_topology_state (record state { topology_boards = boards }),
        not (list_eq board_eq state.topology_boards boards),
      )

  unfoldable pub learn : PacketData → SenderState → SenderState × Bool
  unfolding learn_announce learn_sources learn_topology
  learn pkt state =
      if pkt.ty == dt_discovery_announce
      then learn_announce pkt state
      else (if pkt.ty == dt_discovery_timesync_sources
          then learn_sources pkt state
          else (if pkt.ty == dt_discovery_topology
              then learn_topology pkt state
              else (state, false)))

module _ (s : Schema) (sides : List Side) (now : ℕ) where
  unfoldable pub handle_advertisement : PacketData → ℤ → Discovery → Discovery
  unfolding learn recompute_discovery_side_state note_discovery_topology_change
  handle_advertisement pkt src_side d =
      let route = or_new_route (lookup int_eq d.discovery_routes src_side) in
      let state = or_new_sender (lookup text_eq route.announcers pkt.sender) in
      let learned = learn s (is_link_local_side (elem_at sides src_side)) pkt state in
      let next = recompute_discovery_side_state (record route {
        announcers =
            store text_eq route.announcers pkt.sender (record (learned.0) { last_seen_ms = now });
      }) in
      let stored = record d { discovery_routes = store int_eq d.discovery_routes src_side next } in
      if learned.1 then note_discovery_topology_change now stored else stored

  unfoldable pub handle_leave : PacketData → Discovery → Discovery
  unfolding prune_leaving_discovery_sender note_discovery_topology_change
  handle_leave pkt d =
      let pruned = prune_leaving_discovery_sender pkt.sender d.discovery_routes in
      let left = record d { discovery_routes = pruned.0 } in
      if pruned.1 then note_discovery_topology_change now left else left

  -- `own` is the sender of a router, and `none` for a relay.
  abbrev pub is_own : Option Text → Text → Bool
  is_own none sender = false
  is_own (some name) sender = text_eq sender name

  unfoldable pub handle_discovery_packet :
      Option Text → PacketData → Option ℤ → Discovery → Discovery
  unfolding handle_advertisement handle_leave
  handle_discovery_packet own pkt none d = d
  handle_discovery_packet own pkt (some src_side) d =
      if is_own own pkt.sender
      then d
      else (if pkt.ty == dt_discovery_leave
          then handle_leave pkt d
          else handle_advertisement pkt src_side d)
