-- ===== src/Peer/Streams.antt =====
-- src/upstream_api_compat.cpp: streams between the ports of two routers: their ids, opening, sending,
-- closing, and what a router does with a frame or a datagram that arrives.
use sedsnet_cpp.Common.{
  ℕ, zero, suc, ◌+◌, ◌-◌, ◌%◌, ◌^◌, max, true, false, ◌&&◌, ◌||◌, Option, none, some, List, [],
  Text, ◌==◌, if◌then◌else◌, is_some,
}
use sedsnet_cpp.Common.Int.{ℤ, int_eq}
use sedsnet_cpp.Common.Bits.{has_bit}
use sedsnet_cpp.Common.Assoc.{find, put, erase}
use sedsnet_cpp.Schema.{Schema, PacketData}
use sedsnet_cpp.Packets.{make_internal_packet}
use sedsnet_cpp.Queue.{enqueue_bounded}
use sedsnet_cpp.Queue.Items.{tx_cost}
use sedsnet_cpp.Wire.Ids.{local_type_id}
use sedsnet_cpp.TimeSync.{current_network_ms}
use sedsnet_cpp.Reliable.Egress.{result_ok, result_io}
use sedsnet_cpp.Router.{Router, P2pStreamSession, result_bad_arg}
use sedsnet_cpp.Peer.Payload.{encode_p2p_payload, encode_p2p_stream_payload}
use sedsnet_cpp.Peer.Addresses.{with_address, resolve_p2p_host, resolve_p2p_address}

abbrev pub stream_syn : ℕ
stream_syn = 0x01

abbrev pub stream_ack : ℕ
stream_ack = 0x02

abbrev pub stream_fin : ℕ
stream_fin = 0x04

abbrev pub stream_rst : ℕ
stream_rst = 0x08

abbrev pub stream_data : ℕ
stream_data = 0x10

-- `std::max<uint32_t>(1u, r.p2p_next_stream_id)` and the step to the next one.
unfoldable pub stream_id_at : ℕ → ℕ
stream_id_at next = max 1 next

unfoldable pub next_stream_id : ℕ → ℕ
next_stream_id next = max 1 ((next + 1) % 2 ^ 32)

-- The loop takes the number of tries for fuel, and answers the next id to try and the one found.
unfoldable pub allocate_loop : ℕ → List (ℕ × P2pStreamSession) → ℕ → ℕ × ℕ
unfolding stream_id_at next_stream_id
allocate_loop zero sessions next = (next, 0)
allocate_loop (suc tries) sessions next = elim (is_some (find sessions (stream_id_at next))) [
  | false ↦ (next_stream_id next, stream_id_at next)
  | true ↦ allocate_loop tries sessions (next_stream_id next)
]

-- `UINT32_MAX`
abbrev pub max_tries : ℕ
max_tries = 2 ^ 32 - 1

unfoldable pub allocate_p2p_stream_id : Router → Router × ℕ
unfolding allocate_loop
allocate_p2p_stream_id r =
    let found = allocate_loop max_tries r.p2p_stream_sessions r.p2p_next_stream_id in
    (record r { p2p_next_stream_id = found.0 }, found.1)

or_p2p_type : Option ℕ → ℕ
or_p2p_type none = 1018
or_p2p_type (some ty) = ty

unfoldable pub p2p_type_id : Schema → ℕ
unfolding or_p2p_type
p2p_type_id s = or_p2p_type (local_type_id s 18)

unfoldable pub queue_packet : Router → PacketData → Router
queue_packet r pkt =
    let link = r.link in
    record r {
      link = record link {
        tx_queue =
            (enqueue_bounded tx_cost link.tx_queue
              (record { pkt = pkt; src_side = none; dst_side = none; deliver_local = false }) false
              link.max_queue_budget).0;
      };
    }

unfoldable pub put_session : Router → ℕ → P2pStreamSession → Router
put_session r id session = record r { p2p_stream_sessions = put r.p2p_stream_sessions id session }

unfoldable pub drop_session : Router → ℕ → Router
drop_session r id = record r { p2p_stream_sessions = erase r.p2p_stream_sessions id }

unfoldable pub finish_control : ℕ → ℕ → Router × ℤ → Router × ℤ
unfolding drop_session
finish_control stream_id flags (r, rc) = (
  if int_eq rc result_ok && has_bit flags (stream_fin + stream_rst)
      then drop_session r stream_id
      else r,
  rc,
)

module _ (s : Schema) where
  -- The packet that `enqueue_p2p_packet` makes of a router that has its address.
  unfoldable pub p2p_packet : Router → ℕ → ℕ → List ℕ → PacketData
  p2p_packet r dst_port src_port payload =
      make_internal_packet s r.link.sender (p2p_type_id s)
        (current_network_ms r.link.clock r.timesync)
        (encode_p2p_payload r.link.sender r.p2p_address src_port dst_port payload)

  unfoldable pub enqueue_p2p_packet : Router → ℕ → ℕ → List ℕ → Router × ℤ
  unfolding with_address p2p_packet queue_packet
  enqueue_p2p_packet r dst_port src_port payload =
      let r' = with_address r in
      if dst_port == 0
      then (r, result_bad_arg)
      else (queue_packet r' (p2p_packet r' dst_port src_port payload), result_ok)

  send_resolved : Router × Option (Text × ℕ) → ℕ → ℕ → List ℕ → Router × ℤ
  send_resolved (r, none) dst_port src_port payload = (r, result_bad_arg)
  send_resolved (r, some peer) dst_port src_port payload =
      enqueue_p2p_packet r dst_port src_port payload

  unfoldable pub send_p2p_to_hostname : Router → Text → ℕ → ℕ → List ℕ → Router × ℤ
  unfolding resolve_p2p_host send_resolved enqueue_p2p_packet
  send_p2p_to_hostname r hostname dst_port src_port payload =
      send_resolved (resolve_p2p_host r hostname) dst_port src_port payload

  unfoldable pub send_p2p_to_address : Router → ℕ → ℕ → ℕ → List ℕ → Router × ℤ
  unfolding resolve_p2p_address send_resolved enqueue_p2p_packet
  send_p2p_to_address r address dst_port src_port payload =
      send_resolved (resolve_p2p_address r address) dst_port src_port payload

  unfoldable pub open_with_id : Router × ℕ → Text × ℕ → ℕ → ℕ → Router × ℤ × ℕ
  unfolding put_session
  open_with_id (r, id) (hostname, address) dst_port src_port =
      let session : P2pStreamSession = record {
        peer_hostname = hostname;
        peer_address = address;
        local_port = src_port;
        peer_port = dst_port;
        peer_stream_id = 0;
        next_sequence = 1;
        connected = false;
      } in
      let sent =
        enqueue_p2p_packet (put_session r id session) dst_port src_port
          (encode_p2p_stream_payload stream_syn id 0 0 []) in
      if id == 0 then (r, result_io, 0) else (sent.0, sent.1, id)

  unfoldable pub open_resolved : Router × Option (Text × ℕ) → ℕ → ℕ → Router × ℤ × ℕ
  unfolding open_with_id allocate_p2p_stream_id
  open_resolved (r, none) dst_port src_port = (r, result_bad_arg, 0)
  open_resolved (r, some peer) dst_port src_port =
      if dst_port == 0 || src_port == 0
      then (r, result_bad_arg, 0)
      else open_with_id (allocate_p2p_stream_id r) peer dst_port src_port

  -- The result and the stream's id, 0 where there is none.
  unfoldable pub open_p2p_stream_to_hostname : Router → Text → ℕ → ℕ → Router × ℤ × ℕ
  unfolding open_resolved
  open_p2p_stream_to_hostname r hostname dst_port src_port =
      open_resolved (resolve_p2p_host r hostname) dst_port src_port

  -- Here the ports are tested before the address is looked up.
  unfoldable pub open_p2p_stream_to_address : Router → ℕ → ℕ → ℕ → Router × ℤ × ℕ
  unfolding open_resolved
  open_p2p_stream_to_address r address dst_port src_port =
      if dst_port == 0 || src_port == 0
      then (r, result_bad_arg, 0)
      else open_resolved (resolve_p2p_address r address) dst_port src_port

  -- The sequence number is used up, whether or not the packet is queued.
  unfoldable pub control_on : Option P2pStreamSession → Router → ℕ → ℕ → List ℕ → Router × ℤ
  unfolding finish_control put_session
  control_on none r stream_id flags payload = (r, result_bad_arg)
  control_on (some session) r stream_id flags payload =
      let used =
        put_session r stream_id
          (record session { next_sequence = max 1 ((session.next_sequence + 1) % 2 ^ 32) }) in
      finish_control stream_id flags (
        enqueue_p2p_packet used session.peer_port session.local_port (
          encode_p2p_stream_payload flags stream_id session.peer_stream_id session.next_sequence
            payload))

  unfoldable pub send_p2p_stream_control : Router → ℕ → ℕ → List ℕ → Router × ℤ
  unfolding control_on
  send_p2p_stream_control r stream_id flags payload =
      control_on (find r.p2p_stream_sessions stream_id) r stream_id flags payload

  unfoldable pub send_p2p_stream : Router → ℕ → List ℕ → Router × ℤ
  unfolding send_p2p_stream_control
  send_p2p_stream r stream_id payload = send_p2p_stream_control r stream_id stream_data payload

  unfoldable pub close_p2p_stream : Router → ℕ → Router × ℤ
  unfolding send_p2p_stream_control
  close_p2p_stream r stream_id = send_p2p_stream_control r stream_id stream_fin []

  unfoldable pub reset_p2p_stream : Router → ℕ → Router × ℤ
  unfolding send_p2p_stream_control
  reset_p2p_stream r stream_id = send_p2p_stream_control r stream_id stream_rst []
