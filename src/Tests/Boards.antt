-- ===== src/Tests/Boards.antt =====
-- The results on end-to-end reliability, discovery and the relay, applied.
use sedsnet_cpp.Common.{
  ℕ, ◌^◌, ◌<◌, true, false, none, some, List, [], ◌∷◌, ◌++◌, codes, text_eq, length, ◌+◌, replicate,
  All, ◌==◌, max, ◌≡◌, refl, arith,
}
use sedsnet_cpp.Common.Int.{ℤ, pos, elem_at}
use sedsnet_cpp.Common.Words.{append_le, read_le}
use sedsnet_cpp.Common.Sorting.{sort_dedup}
use sedsnet_cpp.Common.Assoc.{find}
use sedsnet_cpp.Schema.{
  Schema, PacketData, no_type, valid_endpoint, is_reliable_type, is_endpoint_name,
  is_internal_control_type,
}
use sedsnet_cpp.Schema.LinkLocal.{endpoint_link_local_only, only_link_local}
use sedsnet_cpp.Side.{Side}
use sedsnet_cpp.Packets.{make_e2e_reliable_ack_packet}
use sedsnet_cpp.Queue.{enqueue_bounded}
use sedsnet_cpp.Queue.Items.{tx_cost}
use sedsnet_cpp.Wire.Checksum.{sender_hash, source_packet_id}
use sedsnet_cpp.Reliable.{Owner}
use sedsnet_cpp.Routing.Policy.{RoutePolicy, fanout}
use sedsnet_cpp.Topology.{TopologyBoardNode, SenderState, DiscoveryRoute}
use sedsnet_cpp.TimeSync.{TimeSyncRuntime, word_at-append_le}
use sedsnet_cpp.EndToEnd.{
  Cache, EndToEndLimits, EndToEndReliableSent, remember_entry, acknowledge_end_to_end,
  encode_end_to_end_ack_sender, is_end_to_end_ack_sender,
}
use sedsnet_cpp.EndToEnd.Caches.{IsCache, remember_entry-IsCache}
use sedsnet_cpp.EndToEnd.Answers.{without_maybe, acknowledge_end_to_end-acknowledged}
use sedsnet_cpp.EndToEnd.Timeouts.{process_end_to_end_reliable_timeouts}
use sedsnet_cpp.EndToEnd.Retries.{IsWithin, process_end_to_end_reliable_timeouts-IsWithin}
use sedsnet_cpp.Discovery.{prune_discovery_routes, learn_announce}
use sedsnet_cpp.Discovery.Payload.{
  decode_discovery_endpoints, decode_many, decode_board, decode_boards, encode_board,
}
use sedsnet_cpp.Discovery.Payload.Ends.{Counts, decode_boards_ends}
use sedsnet_cpp.Discovery.Advertise.{router, advertised_discovery_topology_for_side}
use sedsnet_cpp.Discovery.LinkLocal.{IsClean, advertised_discovery_topology_for_side-IsClean}
use sedsnet_cpp.Discovery.Expiry.{Prunes, prune_discovery_routes-Prunes}
use sedsnet_cpp.Discovery.Repeats.{learn_announce-changes}
use sedsnet_cpp.Relay.{Relay, relay_receive}
use sedsnet_cpp.Relay.Return.{relay_receive-returns}
use sedsnet_cpp.Tests.{schema, gps}

abbrev limits : EndToEndLimits
limits = record { max_return_routes = 2; max_end_to_end_pending = 2; max_end_to_end_ack_cache = 2 }

abbrev routes_seen : Cache ℤ
routes_seen = record { entries = (7, pos 0) ∷ (8, pos 1) ∷ []; order = 7 ∷ 8 ∷ [] }

routes_seen-IsCache : IsCache (max 1 2) routes_seen
routes_seen-IsCache = record {
  known = λ k h. h;
  distinct = (refl, (refl, tt));
  bounded = omega arith;
}

remember_entry-IsCache_example :
    IsCache (max 1 2) (remember_entry 2 9 (pos 3) routes_seen)
    × (find (remember_entry 2 9 (pos 3) routes_seen).entries 9 ≡ some (pos 3))
remember_entry-IsCache_example = remember_entry-IsCache 2 9 (pos 3) routes_seen routes_seen-IsCache

abbrev waiting : Cache EndToEndReliableSent
waiting = record {
  entries =
      (
        42,
        record {
          pkt = gps;
          pending_destinations = (sender_hash (codes "SD"), pos 0) ∷ [];
          tracked_destinations = true;
          last_send_ms = 100;
          retries = 3;
          queued = false;
        },
      )
      ∷ [];
  order = 42 ∷ [];
}

acknowledge_end_to_end-acknowledged_example :
    (find
        (acknowledge_end_to_end
          (make_e2e_reliable_ack_packet schema 42 7 (encode_end_to_end_ack_sender (83 ∷ 68 ∷ [])))
          waiting).entries
        42
      ≡ without_maybe (sender_hash (83 ∷ 68 ∷ [])) (find waiting.entries 42))
    × ((j : ℕ)
        → (42 == j) ≡ false
        → find
            (acknowledge_end_to_end
              (make_e2e_reliable_ack_packet schema 42 7
                (encode_end_to_end_ack_sender (83 ∷ 68 ∷ [])))
              waiting).entries
            j
          ≡ find waiting.entries j)
acknowledge_end_to_end-acknowledged_example =
    acknowledge_end_to_end-acknowledged schema 42 7 83 (68 ∷ []) waiting (omega arith)

abbrev plain_side : Side
plain_side = record {
  name = codes "UART";
  serialized_tx = true;
  packet_tx = false;
  reliable_enabled = true;
  link_local_enabled = false;
  ingress_enabled = true;
  egress_enabled = true;
}

abbrev link : Owner
link = record {
  sides = plain_side ∷ plain_side ∷ [];
  tx_queue = record { items = []; bytes = 0 };
  reliable_released_rx = [];
  reliable_tx = [];
  reliable_rx = [];
  max_queue_budget = 4096;
  sender = codes "NODE";
  clock = 40000;
  side_tx_active = false;
  side_tx_deferred = false;
  calls = [];
}

abbrev quiet : TimeSyncRuntime
quiet = record {
  enabled = false;
  role = 0;
  priority = 100;
  source_timeout_ms = 5000;
  announce_interval_ms = 1000;
  request_interval_ms = 1000;
  last_announce_ms = 0;
  last_request_ms = 0;
  has_network_time = false;
  network_anchor_local_ms = 0;
  network_anchor_unix_ms = 0;
  current_source = [];
  current_source_priority = 0;
  sources = [];
}

abbrev board : TopologyBoardNode
board = record {
  sender_id = codes "SD";
  reachable_endpoints = 100 ∷ [];
  reachable_timesync_sources = [];
  connections = [];
}

abbrev announcer : ℕ → SenderState
announcer seen = record {
  endpoints = 100 ∷ [];
  timesync_sources = [];
  topology_boards = board ∷ [];
  last_seen_ms = seen;
}

abbrev routes : List (ℤ × DiscoveryRoute)
routes =
    (
      pos 0,
      record {
        endpoints = 100 ∷ [];
        timesync_sources = [];
        last_seen_ms = 39000;
        announcers = (codes "SD", announcer 39000) ∷ (codes "OLD", announcer 5000) ∷ [];
      },
    )
    ∷ []

process_end_to_end_reliable_timeouts-IsWithin_example :
    All IsWithin (process_end_to_end_reliable_timeouts schema link routes waiting).1.entries
process_end_to_end_reliable_timeouts-IsWithin_example =
    process_end_to_end_reliable_timeouts-IsWithin schema link routes waiting (omega arith, tt)

prune_discovery_routes-Prunes_example :
    Prunes 40000 routes
      (prune_discovery_routes 40000 routes).0
      (prune_discovery_routes 40000 routes).1
prune_discovery_routes-Prunes_example =
    prune_discovery_routes-Prunes 40000 routes (omega arith) ((omega arith, (omega arith, tt)), tt)

abbrev two_boards : List ℕ
two_boards = encode_board board ++ encode_board board

decode_boards_ends_example :
    (decode_many decode_board (5 + length two_boards) 2 two_boards ≡ decode_boards 2 two_boards)
    × Counts 2 two_boards (decode_boards 2 two_boards)
decode_boards_ends_example = decode_boards_ends 2 5 two_boards

-- Endpoint 101 is named by the type of this schema alone, which is link-local.
abbrev local_schema : Schema
local_schema = record {
  type_info =
      record no_type { name = some (codes "NEAR"); link_local_only = true; endpoints = 101 ∷ [] }
      ∷ [];
  endpoint_names = replicate 101 none ++ (some (codes "NEAR") ∷ []);
}

advertised_discovery_topology_for_side-IsClean_example : All (IsClean local_schema) (
    advertised_discovery_topology_for_side local_schema
      (router (codes "NODE") (101 ∷ 100 ∷ []) quiet)
      link
      routes
      (pos 0))
unfolding elem_at endpoint_link_local_only valid_endpoint is_endpoint_name
advertised_discovery_topology_for_side-IsClean_example =
    advertised_discovery_topology_for_side-IsClean local_schema
      (router (codes "NODE") (101 ∷ 100 ∷ []) quiet) link routes (pos 0) refl refl

abbrev near : PacketData
near = record gps { ty = 7; sender = codes "SD"; payload = 101 ∷ 0 ∷ 0 ∷ 0 ∷ [] }

learn_announce-changes_example :
    ((learn_announce local_schema false near (announcer 39000)).1 ≡ true)
    × All
        (IsClean local_schema)
        (learn_announce local_schema false near (announcer 39000)).0.topology_boards
unfolding endpoint_link_local_only valid_endpoint is_endpoint_name only_link_local
    decode_discovery_endpoints sort_dedup read_le
learn_announce-changes_example =
    learn_announce-changes local_schema near (announcer 39000) 101 refl refl ((refl, tt), tt)

abbrev answers : List (ℤ × List ℕ) → ℤ → List ℕ → ℤ
answers calls side_id bytes = pos 0

abbrev no_policy : RoutePolicy
no_policy = record { mode = fanout; weights = []; priorities = []; rr_counter = 0 }

abbrev relay : Relay
relay = record {
  link = link;
  discovery = record { discovery_routes = []; discovery_interval_ms = 250; discovery_next_ms = 0 };
  local_policy = no_policy;
  source_policy = [];
  route_overrides = [];
  typed_route_overrides = [];
  reliable_return_routes = record { entries = []; order = [] };
  end_to_end_acked_destinations = record { entries = []; order = [] };
  packet_calls = [];
}

abbrev ack : PacketData
ack = make_e2e_reliable_ack_packet schema (source_packet_id schema gps) 7 (codes "E2EACK:SD")

abbrev after_gps : Relay
after_gps = relay_receive schema limits answers relay gps (some (pos 0))

source-IsU64 : source_packet_id schema gps < 2 ^ 64
unfolding source_packet_id append_le
source-IsU64 = omega arith

relay_receive-returns_example :
    (relay_receive schema limits answers after_gps ack (some (pos 1))).link.tx_queue
    ≡ (enqueue_bounded tx_cost after_gps.link.tx_queue
        (record {
          pkt = ack;
          src_side = some (pos 1);
          dst_side = some (pos 0);
          deliver_local = false;
        })
        false
        after_gps.link.max_queue_budget).0
unfolding is_reliable_type is_internal_control_type make_e2e_reliable_ack_packet
    is_end_to_end_ack_sender text_eq append_le
relay_receive-returns_example =
    relay_receive-returns schema limits answers relay gps ack (pos 0) (pos 1) refl refl refl refl
      refl (word_at-append_le (source_packet_id schema gps) source-IsU64)
