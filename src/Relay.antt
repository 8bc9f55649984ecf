-- ===== src/Relay.antt =====
-- `SedsRelay` of Cpp-Headers/internal.hpp, and what src/router_core.cpp does for it: receive a
-- packet, and send an item of the transmit queue to its sides.
-- The transmit callbacks are parameters: `serialized_tx` answers for the bytes of a frame and
-- `packet_tx` for a packet, each given the calls made before.
pub mod Return
use sedsnet_cpp.Common.{
  ℕ, ◌+◌, Bool, true, false, not, ◌&&◌, ◌||◌, Option, none, some, List, [], ◌∷◌, Text, length, drop,
  ◌==◌, if◌then◌else◌,
}
use sedsnet_cpp.Common.Int.{ℤ, negsuc, int_eq, elem_at}
use sedsnet_cpp.Common.Words.{read_le}
use sedsnet_cpp.Common.Assoc.{find}
use sedsnet_cpp.Common.Keyed.{lookup, store}
use sedsnet_cpp.Schema.{
  Schema, PacketData, dt_reliable_ack, dt_reliable_partial_ack, is_reliable_type,
  is_internal_control_type,
}
use sedsnet_cpp.Side.{Side}
use sedsnet_cpp.Queue.{enqueue_bounded}
use sedsnet_cpp.Queue.Items.{TxItem, tx_cost}
use sedsnet_cpp.Wire.Ids.{local_type_id}
use sedsnet_cpp.Wire.Checksum.{packet_id, source_packet_id}
use sedsnet_cpp.Wire.Compress.{Zstd}
use sedsnet_cpp.Reliable.{Owner, Tuning}
use sedsnet_cpp.Reliable.Egress.{
  handle_ack, handle_partial_ack, handle_packet_request, send_serialized_with_reliable, result_ok,
  result_io,
}
use sedsnet_cpp.Routing.{RouteKey, TypedRouteKey, select_destinations}
use sedsnet_cpp.Routing.Policy.{RoutePolicy, fanout}
use sedsnet_cpp.TimeSync.{word_at}
use sedsnet_cpp.EndToEnd.{
  Cache, EndToEndLimits, is_end_to_end_ack_sender, decode_end_to_end_ack_sender_hash,
  note_reliable_return_route, note_end_to_end_acked_destination,
}
use sedsnet_cpp.EndToEnd.Destinations.{filter_end_to_end_satisfied_sides}
use sedsnet_cpp.Discovery.{
  Discovery, handle_discovery_packet, dt_discovery_announce, dt_discovery_timesync_sources,
  dt_discovery_topology, dt_discovery_leave,
}

pub record Relay : Type 0 where
  pub link : Owner
  pub discovery : Discovery
  pub local_policy : RoutePolicy
  pub source_policy : List (ℤ × RoutePolicy)
  pub route_overrides : List (RouteKey × Bool)
  pub typed_route_overrides : List (TypedRouteKey × Bool)
  pub reliable_return_routes : Cache ℤ
  pub end_to_end_acked_destinations : Cache (List ℕ)
  pub packet_calls : List (ℤ × PacketData)

abbrev pub result_handler_error : ℤ
result_handler_error = negsuc 8

unfoldable pub is_discovery_control_type : ℕ → Bool
is_discovery_control_type ty =
    ty == dt_discovery_announce
    || ty == dt_discovery_timesync_sources
    || ty == dt_discovery_topology
    || ty == dt_discovery_leave

-- To the back of the transmit queue.
unfoldable pub enqueue : Relay → PacketData → Option ℤ → Option ℤ → Relay
enqueue relay pkt src_side dst_side =
    let link = relay.link in
    record relay {
      link = record link {
        tx_queue =
            (enqueue_bounded tx_cost link.tx_queue
              (record {
                pkt = pkt;
                src_side = src_side;
                dst_side = dst_side;
                deliver_local = false;
              })
              false link.max_queue_budget).0;
      };
    }

half_at : ℕ → List ℕ → ℕ
half_at off payload = elim (read_le 4 (drop off payload)) [ none ↦ 0 | some (v, rest) ↦ v ]

or_wire_type : Option ℕ → ℕ → ℕ
or_wire_type none wire = wire
or_wire_type (some ty) wire = ty

module _ (s : Schema) (limits : EndToEndLimits) where
  note_route : Relay → ℤ → ℕ → Relay
  note_route relay side_id id = record relay {
    reliable_return_routes =
        note_reliable_return_route limits relay.reliable_return_routes side_id id;
  }

  -- Where a reliable packet came from, under both of its ids where they differ.
  unfoldable pub note_return : Relay → PacketData → Option ℤ → Relay
  unfolding note_route
  note_return relay pkt none = relay
  note_return relay pkt (some side_id) =
      let id = packet_id s pkt in
      let source_id = source_packet_id s pkt in
      let noted = note_route relay side_id id in
      if is_reliable_type s pkt.ty && not (is_internal_control_type pkt.ty)
      then (if source_id == id then noted else note_route noted side_id source_id)
      else relay

  note_acked : Option ℕ → Relay → ℕ → Relay
  note_acked none relay acked_id = relay
  note_acked (some hash) relay acked_id = record relay {
    end_to_end_acked_destinations =
        note_end_to_end_acked_destination limits relay.end_to_end_acked_destinations acked_id hash;
  }

  send_back : Option ℤ → Option ℤ → Relay → PacketData → Relay
  unfolding enqueue
  send_back none back relay pkt = relay
  send_back (some src_side) none relay pkt = relay
  send_back (some src_side) (some side) relay pkt = enqueue relay pkt (some src_side) (some side)

  -- An acknowledgement from a board goes back to where the packet came from.
  unfoldable pub forward_ack : Relay → PacketData → Option ℤ → Relay
  unfolding note_acked send_back word_at
  forward_ack relay pkt src_side =
      let acked_id = word_at 0 pkt.payload in
      let noted = note_acked (decode_end_to_end_ack_sender_hash pkt.sender) relay acked_id in
      send_back src_side (find noted.reliable_return_routes.entries acked_id) noted pkt

  module _ (serialized_tx : List (ℤ × List ℕ) → ℤ → List ℕ → ℤ) where
    -- A control packet of the reliable link: its type and sequence number.
    unfoldable pub handle_control : Relay → PacketData → Option ℤ → Relay
    unfolding half_at or_wire_type
    handle_control relay pkt none = relay
    handle_control relay pkt (some side_id) =
        let wire = half_at 0 pkt.payload in
        let ty = or_wire_type (local_type_id s wire) wire in
        let seq = half_at 4 pkt.payload in
        if length pkt.payload == 8
        then record relay {
          link =
              if pkt.ty == dt_reliable_ack
              then handle_ack s relay.link side_id ty seq
              else (if pkt.ty == dt_reliable_partial_ack
                  then handle_partial_ack relay.link side_id ty seq
                  else handle_packet_request serialized_tx relay.link side_id ty seq);
        }
        else relay

    -- What follows the note of where the packet came from.
    unfoldable pub dispatch : Relay → PacketData → Option ℤ → Relay
    unfolding forward_ack handle_control enqueue is_discovery_control_type
    dispatch relay pkt src_side =
        let learned = record relay {
          discovery =
              handle_discovery_packet s relay.link.sides relay.link.clock none pkt src_side
                relay.discovery;
        } in
        if is_internal_control_type pkt.ty
        then (if pkt.ty == dt_reliable_ack
              && is_end_to_end_ack_sender pkt.sender
              && length pkt.payload == 8
            then forward_ack relay pkt src_side
            else handle_control relay pkt src_side)
        else enqueue (if is_discovery_control_type pkt.ty then learned else relay) pkt src_side none

    unfoldable pub relay_receive : Relay → PacketData → Option ℤ → Relay
    unfolding note_return dispatch
    relay_receive relay pkt src_side = dispatch (note_return relay pkt src_side) pkt src_side

-- `source_policy[src]` makes a policy where there is none.
abbrev new_policy : RoutePolicy
new_policy = record { mode = fanout; weights = []; priorities = []; rr_counter = 0 }

or_new_policy : Option RoutePolicy → RoutePolicy
or_new_policy none = new_policy
or_new_policy (some policy) = policy

unfoldable pub policy_for : Relay → Option ℤ → RoutePolicy
unfolding or_new_policy
policy_for relay none = relay.local_policy
policy_for relay (some src) = or_new_policy (lookup int_eq relay.source_policy src)

unfoldable pub put_policy : Relay → Option ℤ → RoutePolicy → Relay
put_policy relay none policy = record relay { local_policy = policy }
put_policy relay (some src) policy = record relay {
  source_policy = store int_eq relay.source_policy src policy;
}

module _ (serialized_tx : List (ℤ × List ℕ) → ℤ → List ℕ → ℤ)
    (packet_tx : List (ℤ × PacketData) → ℤ → PacketData → ℤ) (s : Schema) (z : Zstd) (threshold : ℕ)
    (t : Tuning) where
  -- What the sides answer ends the loop unless it is `SEDS_OK`.
  unfoldable pub after_send : Relay → Owner × ℤ → Relay × ℤ
  after_send relay (link, rc) =
      let sent = record relay { link = link } in
      if int_eq rc result_ok
      then (sent, result_ok)
      else (if int_eq rc result_io && link.side_tx_deferred
          then (record sent { link = record link { side_tx_deferred = false } }, result_io)
          else (sent, result_handler_error))

  call_packet_tx : Relay → ℤ → PacketData → Relay × ℤ
  call_packet_tx relay side_id pkt =
      let rc = packet_tx relay.packet_calls side_id pkt in
      (
        record relay { packet_calls = (side_id, pkt) ∷ relay.packet_calls },
        if int_eq rc result_ok then result_ok else result_handler_error,
      )

  unfoldable pub send_to : Option Side → Relay → ℤ → PacketData → Relay × ℤ
  unfolding after_send call_packet_tx
  send_to none relay side_id pkt = (relay, result_ok)
  send_to (some side) relay side_id pkt =
      if not side.egress_enabled
      then (relay, result_ok)
      else (if side.serialized_tx
          then after_send relay
              (send_serialized_with_reliable serialized_tx s z threshold t relay.link side_id pkt)
          else (if side.packet_tx then call_packet_tx relay side_id pkt else (relay, result_ok)))

  unfoldable pub send_to_sides : List ℤ → Relay → PacketData → Relay × ℤ
  unfolding send_to
  send_to_sides [] relay pkt = (relay, result_ok)
  send_to_sides (side_id ∷ rest) relay pkt =
      let first = send_to (elem_at relay.link.sides side_id) relay side_id pkt in
      let later = send_to_sides rest (first.0) pkt in
      if int_eq (first.1) result_ok then later else first

  unfoldable pub transmit_item : Relay → TxItem → Relay × ℤ
  unfolding policy_for put_policy send_to_sides
  transmit_item relay item =
      let chosen =
        select_destinations s relay.link.sides item.pkt item.src_side relay.link.clock
          relay.route_overrides relay.typed_route_overrides relay.discovery.discovery_routes
          (policy_for relay item.src_side) item.dst_side none in
      let targets =
        filter_end_to_end_satisfied_sides s relay.end_to_end_acked_destinations
          relay.discovery.discovery_routes item.pkt (chosen.1) in
      send_to_sides targets (put_policy relay item.src_side (chosen.0)) item.pkt
