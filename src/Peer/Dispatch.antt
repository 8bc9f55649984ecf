-- ===== src/Peer/Dispatch.antt =====
-- src/upstream_api_compat.cpp: what a router does with a datagram or a stream frame that arrives.
use sedsnet_cpp.Common.{
  ℕ, Bool, true, false, not, ◌&&◌, ◌||◌, Option, none, some, List, [], ◌∷◌, text_eq, is_empty, ◌==◌,
  if◌then◌else◌, ◌+◌,
}
use sedsnet_cpp.Common.Int.{ℤ, int_eq}
use sedsnet_cpp.Common.Bits.{has_bit}
use sedsnet_cpp.Common.Assoc.{find, put, emplace}
use sedsnet_cpp.Common.Keyed.{store}
use sedsnet_cpp.Schema.{Schema, PacketData}
use sedsnet_cpp.Reliable.Egress.{result_ok, result_io}
use sedsnet_cpp.Router.{
  Router, PortHandler, P2pStreamSession, MessageView, StreamEventView, Callbacks,
  result_handler_error, result_deserialize,
}
use sedsnet_cpp.Peer.Payload.{
  P2pDatagram, P2pStreamFrame, decode_p2p_payload, encode_p2p_stream_payload,
  decode_p2p_stream_payload,
}
use sedsnet_cpp.Peer.Addresses.{handlers_of}
use sedsnet_cpp.Peer.Streams.{
  stream_syn, stream_ack, stream_fin, stream_rst, allocate_p2p_stream_id, p2p_type_id,
  enqueue_p2p_packet, put_session, drop_session,
}

-- The session of a peer's stream: 0 where there is none.
unfoldable pub is_session_of : P2pDatagram → P2pStreamFrame → P2pStreamSession → Bool
is_session_of msg frame session =
    session.peer_stream_id == frame.source_stream_id
    && session.local_port == msg.destination_port
    && session.peer_port == msg.source_port
    && session.peer_address == msg.source_address
    && text_eq session.peer_hostname msg.source_hostname

unfoldable pub session_id_of : P2pDatagram → P2pStreamFrame → List (ℕ × P2pStreamSession) → ℕ
unfolding is_session_of
session_id_of msg frame [] = 0
session_id_of msg frame ((id, session) ∷ rest) =
    if is_session_of msg frame session then id else session_id_of msg frame rest

unfoldable pub event_of : ℕ → ℕ → P2pStreamSession → P2pStreamFrame → StreamEventView
event_of kind id session frame = record {
  kind = kind;
  stream_id = id;
  peer_stream_id = frame.source_stream_id;
  sequence = frame.sequence;
  peer_hostname = session.peer_hostname;
  peer_address = session.peer_address;
  local_port = session.local_port;
  peer_port = session.peer_port;
  payload = frame.payload;
}

-- `5` reset, `4` closed, `3` data.
unfoldable pub kind_of : ℕ → ℕ
kind_of flags = if has_bit flags stream_rst then 5 else (if has_bit flags stream_fin then 4 else 3)

unfoldable pub accepted : P2pDatagram → P2pStreamFrame → P2pStreamSession
accepted msg frame = record {
  peer_hostname = msg.source_hostname;
  peer_address = msg.source_address;
  local_port = msg.destination_port;
  peer_port = msg.source_port;
  peer_stream_id = frame.source_stream_id;
  next_sequence = 1;
  connected = true;
}

unfoldable pub handled : Router × Bool → Router × ℤ
handled (r, false) = (r, result_handler_error)
handled (r, true) = (r, result_ok)

unfoldable pub end_after : ℕ → ℕ → Router × Bool → Router × ℤ
unfolding drop_session
end_after kind id (r, false) = (r, result_handler_error)
end_after kind id (r, true) = (if kind == 4 || kind == 5 then drop_session r id else r, result_ok)

-- The sender of a datagram is noted under its name and its address.
unfoldable pub note_peer : Router → P2pDatagram → Router
note_peer r msg = if is_empty msg.source_hostname then r else record r {
  p2p_address_book = store text_eq r.p2p_address_book msg.source_hostname msg.source_address;
  p2p_host_by_address = put r.p2p_host_by_address msg.source_address msg.source_hostname;
}

unfoldable pub message_of : P2pDatagram → MessageView
message_of msg = record {
  source_hostname = msg.source_hostname;
  source_address = msg.source_address;
  source_port = msg.source_port;
  destination_port = msg.destination_port;
  payload = msg.payload;
}

module _ (c : Callbacks) where
  -- A handler that does not answer `SEDS_OK` ends the loop.
  unfoldable pub tell_stream : List PortHandler → Router → StreamEventView → Router × Bool
  tell_stream [] r view = (r, true)
  tell_stream (handler ∷ rest) r view =
      let told = record r { stream_calls = (handler, view) ∷ r.stream_calls } in
      let here = if handler.cb then told else r in
      let later = tell_stream rest here view in
      if not handler.cb || int_eq (c.on_stream r.stream_calls handler view) result_ok
      then later
      else (told, false)

  -- `r.p2p_stream_handlers[port]`
  unfoldable pub tell_port : Router → ℕ → StreamEventView → Router × Bool
  unfolding tell_stream
  tell_port r port view =
      let r' = record r { p2p_stream_handlers = emplace r.p2p_stream_handlers port [] } in
      tell_stream (handlers_of (find r'.p2p_stream_handlers port)) r' view

  unfoldable pub tell_message : List PortHandler → Router → MessageView → Router × ℤ
  tell_message [] r view = (r, result_ok)
  tell_message (handler ∷ rest) r view =
      let told = record r { message_calls = (handler, view) ∷ r.message_calls } in
      let here = if handler.cb then told else r in
      let later = tell_message rest here view in
      if not handler.cb || int_eq (c.on_message r.message_calls handler view) result_ok
      then later
      else (told, result_handler_error)

  unfoldable pub join_stream : Option P2pStreamSession → Router → P2pStreamFrame → Router × ℤ
  unfolding handled tell_port event_of
  join_stream none r frame = (r, result_ok)
  join_stream (some session) r frame =
      let id = frame.destination_stream_id in
      let joined = record session { peer_stream_id = frame.source_stream_id; connected = true } in
      handled (tell_port (put_session r id joined) joined.local_port (event_of 2 id joined frame))

  unfoldable pub pass_on : Option P2pStreamSession → ℕ → Router → P2pStreamFrame → Router × ℤ
  unfolding end_after tell_port event_of kind_of
  pass_on none id r frame = (r, result_ok)
  pass_on (some session) id r frame =
      let kind = kind_of frame.flags in
      end_after kind id (tell_port r session.local_port (event_of kind id session frame))

  unfoldable pub dispatch_frame : Router → P2pDatagram → P2pStreamFrame → Router × ℤ
  unfolding session_id_of pass_on
  dispatch_frame r msg frame =
      let id =
        if frame.destination_stream_id == 0
        then session_id_of msg frame r.p2p_stream_sessions
        else frame.destination_stream_id in
      pass_on (find r.p2p_stream_sessions id) id r frame

  unfoldable pub dispatch_message : Router → P2pDatagram → Router × ℤ
  unfolding tell_message message_of
  dispatch_message r msg =
      let r' = record r { p2p_handlers = emplace r.p2p_handlers msg.destination_port [] } in
      tell_message (handlers_of (find r'.p2p_handlers msg.destination_port)) r' (message_of msg)

  module _ (s : Schema) where
    unfoldable pub reply_syn_ack : Router → ℕ → P2pDatagram → P2pStreamFrame → Router × ℤ
    reply_syn_ack r local_id msg frame =
        enqueue_p2p_packet s r msg.source_port msg.destination_port
          (encode_p2p_stream_payload (stream_syn + stream_ack) local_id frame.source_stream_id 0 [])

    unfoldable pub after_told : Router × Bool → ℕ → P2pDatagram → P2pStreamFrame → Router × ℤ
    unfolding reply_syn_ack
    after_told (r, false) local_id msg frame = (r, result_handler_error)
    after_told (r, true) local_id msg frame = reply_syn_ack r local_id msg frame

    unfoldable pub accept_stream : Router × ℕ → P2pDatagram → P2pStreamFrame → Router × ℤ
    unfolding accepted after_told tell_port event_of
    accept_stream (r, id) msg frame =
        let session = accepted msg frame in
        let told =
          tell_port (put_session r id session) msg.destination_port (event_of 1 id session frame) in
        if id == 0 then (r, result_io) else after_told told id msg frame

    unfoldable pub dispatch_syn : Router → P2pDatagram → P2pStreamFrame → Router × ℤ
    unfolding session_id_of accept_stream reply_syn_ack
    dispatch_syn r msg frame =
        let known = session_id_of msg frame r.p2p_stream_sessions in
        if known == 0
        then accept_stream (allocate_p2p_stream_id r) msg frame
        else reply_syn_ack r known msg frame

    unfoldable pub dispatch_p2p_stream : Router → P2pDatagram → P2pStreamFrame → Router × ℤ
    unfolding dispatch_syn join_stream dispatch_frame
    dispatch_p2p_stream r msg frame =
        if frame.flags == 0
        then (r, result_deserialize)
        else (if has_bit frame.flags stream_syn
            then (if has_bit frame.flags stream_ack
                then join_stream (find r.p2p_stream_sessions frame.destination_stream_id) r frame
                else dispatch_syn r msg frame)
            else dispatch_frame r msg frame)

    unfoldable pub dispatch_body : Option P2pStreamFrame → Router → P2pDatagram → Router × ℤ
    unfolding dispatch_message dispatch_p2p_stream
    dispatch_body none r msg = dispatch_message r msg
    dispatch_body (some frame) r msg = dispatch_p2p_stream r msg frame

    unfoldable pub dispatch_datagram : Option P2pDatagram → Router → Router × ℤ
    unfolding dispatch_body note_peer
    dispatch_datagram none r = (r, result_deserialize)
    dispatch_datagram (some msg) r =
        dispatch_body (decode_p2p_stream_payload msg.payload) (note_peer r msg) msg

    unfoldable pub dispatch_p2p_packet : Router → PacketData → Router × ℤ
    unfolding dispatch_datagram
    dispatch_p2p_packet r pkt =
        if pkt.ty == p2p_type_id s
        then dispatch_datagram (decode_p2p_payload pkt.payload) r
        else (r, result_ok)
