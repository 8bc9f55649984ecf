-- ===== src/EndToEnd/Timeouts.antt =====
-- src/router_core.cpp: the packets that a router keeps until their boards have answered.
use sedsnet_cpp.Common.{
  ℕ, ◌+◌, ◌%◌, ◌^◌, Bool, true, false, not, ◌&&◌, ◌||◌, Option, none, some, List, [], ◌∷◌, Text,
  any, map, is_empty, filter, ltb, leb, ◌==◌, if◌then◌else◌,
}
use sedsnet_cpp.Common.Int.{ℤ, int_eq, elem_at}
use sedsnet_cpp.Common.Assoc.{find, put, erase}
use sedsnet_cpp.Common.Keyed.{lookup}
use sedsnet_cpp.Schema.{Schema, PacketData, is_reliable_type, is_internal_control_type}
use sedsnet_cpp.Schema.LinkLocal.{packet_requires_link_local}
use sedsnet_cpp.Side.{Side}
use sedsnet_cpp.Queue.{sub64, enqueue_bounded}
use sedsnet_cpp.Queue.Items.{TxItem, tx_cost}
use sedsnet_cpp.Wire.Checksum.{sender_hash, packet_id}
use sedsnet_cpp.Topology.{TopologyBoardNode, SenderState, DiscoveryRoute}
use sedsnet_cpp.Reliable.{Owner}
use sedsnet_cpp.Routing.{discovery_ttl_ms, sort_unique}
use sedsnet_cpp.EndToEnd.{
  Cache, EndToEndReliableSent, EndToEndLimits, is_end_to_end_destination_sender, remember_entry,
}
use sedsnet_cpp.EndToEnd.Destinations.{expected_end_to_end_destinations, may_lead}

-- Whether a sender, or one of its boards, is still known under the hash.
is_known_board : ℕ → TopologyBoardNode → Bool
is_known_board hash board =
    is_end_to_end_destination_sender board.sender_id && sender_hash board.sender_id == hash

is_known_sender : ℕ → Text × SenderState → Bool
unfolding is_known_board
is_known_sender hash (sender, state) =
    any (is_known_board hash) state.topology_boards
    || is_empty state.topology_boards
      && is_end_to_end_destination_sender sender
      && sender_hash sender == hash

is_known_route : ℕ → ℕ → Option DiscoveryRoute → Bool
unfolding is_known_sender
is_known_route now hash none = false
is_known_route now hash (some route) =
    leb (sub64 now route.last_seen_ms) discovery_ttl_ms
    && any (is_known_sender hash) route.announcers

module _ (s : Schema) (link : Owner) (routes : List (ℤ × DiscoveryRoute)) where
  unfoldable pub is_reachable : PacketData → ℕ × ℤ → Bool
  unfolding is_known_route may_lead
  is_reachable pkt (hash, side) =
      may_lead (packet_requires_link_local s pkt) (elem_at link.sides side)
      && is_known_route link.clock hash (lookup int_eq routes side)

  unfoldable pub reconcile_entries :
      List (ℕ × EndToEndReliableSent) → List (ℕ × EndToEndReliableSent)
  unfolding is_reachable
  reconcile_entries [] = []
  reconcile_entries ((id, sent) ∷ rest) =
      let later = reconcile_entries rest in
      let left = filter (is_reachable sent.pkt) sent.pending_destinations in
      if not sent.tracked_destinations
      then (id, sent) ∷ later
      else (if is_empty left
          then later
          else (id, record sent { pending_destinations = left }) ∷ later)

  unfoldable pub reconcile_end_to_end_reliable_destinations :
      Cache EndToEndReliableSent → Cache EndToEndReliableSent
  unfolding reconcile_entries
  reconcile_end_to_end_reliable_destinations tx = record tx {
    entries = reconcile_entries tx.entries;
  }

abbrev pub end_to_end_retransmit_ms : ℕ
end_to_end_retransmit_ms = 200

abbrev pub end_to_end_max_retries : ℕ
end_to_end_max_retries = 8

-- The first loop: the packets that are due, counted, and the ids of those to send again.
unfoldable pub count_retries :
    ℕ → List (ℕ × EndToEndReliableSent) → List (ℕ × EndToEndReliableSent) × List ℕ
count_retries now [] = ([], [])
count_retries now ((id, sent) ∷ rest) =
    let later = count_retries now rest in
    if sent.queued || ltb (sub64 now sent.last_send_ms) end_to_end_retransmit_ms
    then ((id, sent) ∷ later.0, later.1)
    else (if leb end_to_end_max_retries sent.retries then later else (
      (id, record sent { retries = (sent.retries + 1) % 2 ^ 32; queued = true }) ∷ later.0,
      id ∷ later.1,
    ))

abbrev pub send_item : PacketData → Option ℤ → TxItem
send_item pkt dst_side = record {
  pkt = pkt;
  src_side = none;
  dst_side = dst_side;
  deliver_local = false;
}

abbrev pub enqueue_front : Owner → TxItem → Owner
enqueue_front link item = record link {
  tx_queue = (enqueue_bounded tx_cost link.tx_queue item true link.max_queue_budget).0;
}

unfoldable pub enqueue_sides : Owner → PacketData → List ℤ → Owner
enqueue_sides link pkt [] = link
enqueue_sides link pkt (side ∷ sides) =
    enqueue_sides (enqueue_front link (send_item pkt (some side))) pkt sides

abbrev pub side_of : ℕ × ℤ → ℤ
side_of (hash, side) = side

-- The second loop, for one id.
unfoldable pub requeue_sent :
    ℕ
    → Option EndToEndReliableSent
    → Owner
    → List (ℕ × EndToEndReliableSent)
    → Owner × List (ℕ × EndToEndReliableSent)
unfolding enqueue_sides
requeue_sent id none link entries = (link, entries)
requeue_sent id (some sent) link entries =
    let sides = sort_unique (map side_of sent.pending_destinations) in
    let queued = enqueue_sides link sent.pkt sides in
    if sent.tracked_destinations && is_empty sides then (link, erase entries id) else (
      if sent.tracked_destinations then queued else enqueue_front queued (send_item sent.pkt none),
      put entries id (record sent { last_send_ms = link.clock; queued = false }),
    )

unfoldable pub requeue :
    List ℕ → Owner → List (ℕ × EndToEndReliableSent) → Owner × List (ℕ × EndToEndReliableSent)
unfolding requeue_sent
requeue [] link entries = (link, entries)
requeue (id ∷ ids) link entries =
    let next = requeue_sent id (find entries id) link entries in requeue ids (next.0) (next.1)

unfoldable pub process_end_to_end_reliable_timeouts :
    Schema
    → Owner
    → List (ℤ × DiscoveryRoute)
    → Cache EndToEndReliableSent
    → Owner × Cache EndToEndReliableSent
unfolding reconcile_end_to_end_reliable_destinations count_retries requeue
process_end_to_end_reliable_timeouts s link routes tx =
    let known = reconcile_end_to_end_reliable_destinations s link routes tx in
    let counted = count_retries link.clock known.entries in
    let sent = requeue (counted.1) link (counted.0) in (sent.0, record known { entries = sent.1 })

unfoldable pub is_reliable_side : Option Side → Bool
is_reliable_side none = false
is_reliable_side (some side) = side.reliable_enabled && side.serialized_tx

-- The part of `transmit_item` that keeps a reliable packet until its boards have answered.
module _ (s : Schema) (limits : EndToEndLimits) where
  unfoldable pub track_end_to_end :
      Owner
      → List (ℤ × DiscoveryRoute)
      → PacketData
      → List ℤ
      → Cache EndToEndReliableSent
      → Cache EndToEndReliableSent
  unfolding is_reliable_side
  track_end_to_end link routes pkt targets tx =
      let pending =
        expected_end_to_end_destinations s limits.max_end_to_end_pending link pkt routes in
      if is_reliable_type s pkt.ty
        && not (is_internal_control_type pkt.ty)
        && any (λ side_id. is_reliable_side (elem_at link.sides side_id)) targets
        && not (is_empty pending)
      then remember_entry limits.max_end_to_end_pending (packet_id s pkt)
          (record {
            pkt = pkt;
            pending_destinations = pending;
            tracked_destinations = true;
            last_send_ms = link.clock;
            retries = 0;
            queued = false;
          })
          tx
      else tx
