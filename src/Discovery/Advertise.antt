-- ===== src/Discovery/Advertise.antt =====
-- src/discovery.cpp: what a router or a relay tells a side of itself and of the boards it knows.
use sedsnet_cpp.Common.{
  ℕ, ◌+◌, ◌*◌, ◌%◌, ◌^◌, Bool, true, false, not, ◌&&◌, ◌||◌, none, some, List, [], ◌∷◌, ◌++◌, Text,
  text_eq, codes, map, filter, is_empty, length, ltb, ◌==◌, if◌then◌else◌,
}
use sedsnet_cpp.Common.Int.{ℤ, pos, elem_at}
use sedsnet_cpp.Common.Sorting.{sort_dedup}
use sedsnet_cpp.Common.Words.{append_le}
use sedsnet_cpp.Schema.{Schema, ep_discovery}
use sedsnet_cpp.Schema.LinkLocal.{endpoint_link_local_only}
use sedsnet_cpp.Side.{Side}
use sedsnet_cpp.Packets.{make_internal_packet}
use sedsnet_cpp.Queue.{add64, enqueue_bounded}
use sedsnet_cpp.Queue.Items.{tx_cost}
use sedsnet_cpp.Reliable.{Owner}
use sedsnet_cpp.TimeSync.{TimeSyncRuntime}
use sedsnet_cpp.Topology.{
  TopologyBoardNode, SenderState, DiscoveryRoute, sort_dedup_strings, normalize_topology_boards,
  merge_topology_boards, summarize_topology_boards,
}
use sedsnet_cpp.Discovery.{
  Discovery, is_expired, is_link_local_side, allowed_board, prune_discovery_routes,
  note_discovery_topology_change, dt_discovery_announce, dt_discovery_timesync_sources,
  dt_discovery_topology, discovery_slow_ms,
}
use sedsnet_cpp.Discovery.Payload.{encode_topology, encode_strings, encode_words}

abbrev pub ep_time_sync : ℕ
ep_time_sync = 200

-- The source's `if constexpr` tells the two owners apart: a router has its sender, the endpoints
-- of its local handlers and its time synchronisation.
pub data Advertiser : Type 0 where
  router : Text → List ℕ → TimeSyncRuntime → Advertiser
  relay : Advertiser

unfoldable pub advertiser_name : Advertiser → Text
advertiser_name (router sender locals ts) = sender
advertiser_name relay = codes "RELAY"

unfoldable pub local_discovery_timesync_sources : TimeSyncRuntime → List Text
local_discovery_timesync_sources ts =
    if ts.enabled && ts.has_network_time
    then (if is_empty ts.current_source then codes "local" else ts.current_source) ∷ []
    else []

unfoldable pub router_local_discovery_endpoints : Schema → List ℕ → TimeSyncRuntime → Bool → List ℕ
router_local_discovery_endpoints s locals ts link_local_enabled = sort_dedup ltb (
    filter
      (λ ep.
        not (ep == ep_discovery) && (link_local_enabled || not (endpoint_link_local_only s ep)))
      locals
    ++ (if ts.enabled then ep_time_sync ∷ [] else []))

live_names : ℕ → List (Text × SenderState) → List Text
live_names now [] = []
live_names now ((sender, state) ∷ rest) =
    let later = live_names now rest in
    if is_expired now state.last_seen_ms then later else sender ∷ later

unfoldable pub live_connections : ℕ → List (ℤ × DiscoveryRoute) → List Text
unfolding live_names
live_connections now [] = []
live_connections now ((side_id, route) ∷ routes) =
    let later = live_connections now routes in
    if is_expired now route.last_seen_ms then later else live_names now route.announcers ++ later

-- `local_router_topology_board` and `local_relay_topology_board`
unfoldable pub local_topology_board :
    Schema → Advertiser → ℕ → List (ℤ × DiscoveryRoute) → Bool → TopologyBoardNode
unfolding local_discovery_timesync_sources router_local_discovery_endpoints live_connections
local_topology_board s (router sender locals ts) now routes link_local_enabled = record {
  sender_id = sender;
  reachable_endpoints = router_local_discovery_endpoints s locals ts link_local_enabled;
  reachable_timesync_sources = local_discovery_timesync_sources ts;
  connections = sort_dedup_strings (live_connections now routes);
}
local_topology_board s relay now routes link_local_enabled = record {
  sender_id = codes "RELAY";
  reachable_endpoints = [];
  reachable_timesync_sources = [];
  connections = sort_dedup_strings (live_connections now routes);
}

-- The announcer's own board is told to be connected to this one.
connect : Text → Text → List TopologyBoardNode → List TopologyBoardNode
connect announcer local_sender [] = []
connect announcer local_sender (board ∷ boards) =
    if text_eq board.sender_id announcer
    then record board { connections = board.connections ++ (local_sender ∷ []) } ∷ boards
    else board ∷ connect announcer local_sender boards

unfoldable pub sender_boards : Text → Text → SenderState → List TopologyBoardNode
unfolding connect
sender_boards announcer local_sender state =
    if is_empty state.topology_boards
    then record {
      sender_id = announcer;
      reachable_endpoints = state.endpoints;
      reachable_timesync_sources = state.timesync_sources;
      connections = local_sender ∷ [];
    }
      ∷ []
    else connect announcer local_sender state.topology_boards

module _ (s : Schema) (link_local_enabled : Bool) (now : ℕ) (local_sender : Text) where
  unfoldable pub merge_senders :
      List (Text × SenderState) → List TopologyBoardNode → List TopologyBoardNode
  unfolding sender_boards allowed_board
  merge_senders [] boards = boards
  merge_senders ((announcer, state) ∷ rest) boards = merge_senders rest (
      if is_expired now state.last_seen_ms
      then boards
      else merge_topology_boards boards
          (map (allowed_board s link_local_enabled) (sender_boards announcer local_sender state)))

  unfoldable pub merge_routes :
      List (ℤ × DiscoveryRoute) → List TopologyBoardNode → List TopologyBoardNode
  unfolding merge_senders
  merge_routes [] boards = boards
  merge_routes ((side_id, route) ∷ routes) boards =
      merge_routes routes (
        if is_expired now route.last_seen_ms then boards else merge_senders route.announcers boards)

module _ (s : Schema) (owner : Advertiser) (link : Owner) (routes : List (ℤ × DiscoveryRoute)) where
  unfoldable pub advertised_discovery_topology_for_side : ℤ → List TopologyBoardNode
  unfolding merge_routes local_topology_board advertiser_name
  advertised_discovery_topology_for_side dst_side =
      let local = is_link_local_side (elem_at link.sides dst_side) in
      normalize_topology_boards (
        merge_routes s local link.clock (advertiser_name owner) routes
          (local_topology_board s owner link.clock routes local ∷ []))

  unfoldable pub advertised_endpoints_for_side : ℤ → List ℕ
  unfolding advertised_discovery_topology_for_side
  advertised_endpoints_for_side dst_side =
      filter
        (λ ep. not (
          ep == ep_discovery
          || (not (is_link_local_side (elem_at link.sides dst_side))
              && endpoint_link_local_only s ep)))
        (summarize_topology_boards (advertised_discovery_topology_for_side dst_side)).0

  unfoldable pub advertised_timesync_sources_for_side : ℤ → List Text
  unfolding advertised_discovery_topology_for_side
  advertised_timesync_sources_for_side dst_side =
      (summarize_topology_boards (advertised_discovery_topology_for_side dst_side)).1

  -- A packet to the side goes to the front of the transmit queue.
  send_first : Owner → ℤ → ℕ → List ℕ → Owner
  send_first to dst_side ty payload = record to {
    tx_queue =
        (enqueue_bounded tx_cost to.tx_queue
          (record {
            pkt = make_internal_packet s (advertiser_name owner) ty link.clock payload;
            src_side = none;
            dst_side = some dst_side;
            deliver_local = false;
          })
          true to.max_queue_budget).0;
  }

  -- `build_discovery_topology` names the one endpoint itself.
  send_topology : Owner → ℤ → List TopologyBoardNode → Owner
  send_topology to dst_side boards = record to {
    tx_queue =
        (enqueue_bounded tx_cost to.tx_queue
          (record {
            pkt = record {
              ty = dt_discovery_topology;
              sender = advertiser_name owner;
              endpoints = ep_discovery ∷ [];
              timestamp = link.clock;
              payload = encode_topology boards;
            };
            src_side = none;
            dst_side = some dst_side;
            deliver_local = false;
          })
          true to.max_queue_budget).0;
  }

  queue_for_side : Owner → ℤ → Owner
  unfolding send_first send_topology advertised_timesync_sources_for_side
      advertised_endpoints_for_side
  queue_for_side to dst_side =
      let topology = advertised_discovery_topology_for_side dst_side in
      let sources = advertised_timesync_sources_for_side dst_side in
      let told = if is_empty topology then to else send_topology to dst_side topology in
      let sourced =
        if is_empty sources
        then told
        else send_first told dst_side dt_discovery_timesync_sources
            (append_le 4 (length sources) ++ encode_strings sources) in
      send_first sourced dst_side dt_discovery_announce
        (encode_words (advertised_endpoints_for_side dst_side))

  unfoldable pub queue_for_sides : List Side → ℕ → Owner → Owner
  unfolding queue_for_side
  queue_for_sides [] side_id to = to
  queue_for_sides (side ∷ sides) side_id to =
      queue_for_sides sides (side_id + 1)
        (if side.egress_enabled then queue_for_side to (pos side_id) else to)

-- The routes that were not heard of are forgotten first; the interval to the next time doubles.
unfoldable pub queue_discovery_packets : Schema → Advertiser → Owner → Discovery → Owner × Discovery
unfolding queue_for_sides
queue_discovery_packets s owner link d =
    let now = link.clock in
    let pruned = prune_discovery_routes now d.discovery_routes in
    let left = record d { discovery_routes = pruned.0 } in
    let noted = if pruned.1 then note_discovery_topology_change now left else left in
    let doubled = noted.discovery_interval_ms * 2 % 2 ^ 64 in
    (
      queue_for_sides s owner link (pruned.0) link.sides 0 link,
      record noted {
        discovery_next_ms = add64 now noted.discovery_interval_ms;
        discovery_interval_ms =
            if ltb discovery_slow_ms doubled then discovery_slow_ms else doubled;
      },
    )
