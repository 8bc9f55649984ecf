-- ===== src/Peer/Invariant.antt =====
-- Whatever a router does with its streams, and whatever packets arrive, its streams keep their
-- invariant.
use sedsnet_cpp.Common.{
  ℕ, Bool, true, false, Option, none, some, List, [], Text, ◌==◌, ◌≡◌, refl, inl, inr, Bool-cases,
  both_branches,
}
use sedsnet_cpp.Common.Int.{ℤ}
use sedsnet_cpp.Common.Bits.{has_bit}
use sedsnet_cpp.Common.Assoc.{find}
use sedsnet_cpp.Schema.{Schema, PacketData}
use sedsnet_cpp.Router.{Router, P2pStreamSession, Callbacks}
use sedsnet_cpp.Peer.Payload.{
  P2pDatagram, P2pStreamFrame, encode_p2p_stream_payload, decode_p2p_payload,
  decode_p2p_stream_payload,
}
use sedsnet_cpp.Peer.Streams.{
  allocate_p2p_stream_id, open_p2p_stream_to_hostname, open_p2p_stream_to_address, put_session,
  stream_syn, stream_fin, stream_rst, stream_data, send_p2p_stream, close_p2p_stream,
  reset_p2p_stream,
}
use sedsnet_cpp.Peer.Dispatch.{
  tell_port, dispatch_p2p_packet, dispatch_p2p_stream, dispatch_syn, join_stream, dispatch_frame,
  note_peer, accept_stream, pass_on, after_told, handled, end_after, event_of, accepted,
  dispatch_message, dispatch_body, dispatch_datagram, session_id_of, kind_of,
}
use sedsnet_cpp.Peer.Sessions.{
  IsStream, KeepsStreams, All-find, carry, dispatch_message-streams, note_peer-streams,
}
use sedsnet_cpp.Peer.Uses.{
  put_session-KeepsStreams, drop_session-KeepsStreams, IsId, allocate-KeepsStreams, allocate-IsId,
  enqueue-KeepsStreams, tell_port-KeepsStreams, new-IsStream, send_p2p_stream_control-KeepsStreams,
  open_p2p_stream_to_hostname-KeepsStreams, open_p2p_stream_to_address-KeepsStreams,
}

module _ (c : Callbacks) (s : Schema) where
  after_told-KeepsStreams :
      (out : Router × Bool) (id : ℕ) (msg : P2pDatagram) (frame : P2pStreamFrame)
      → KeepsStreams out.0
      → KeepsStreams (after_told c s out id msg frame).0
  unfolding after_told
  after_told-KeepsStreams (r, false) id msg frame k = k
  after_told-KeepsStreams (r, true) id msg frame k =
      enqueue-KeepsStreams r k s msg.source_port msg.destination_port
        (encode_p2p_stream_payload 3 id frame.source_stream_id 0 [])

  accept_stream-KeepsStreams :
      (out : Router × ℕ) (msg : P2pDatagram) (frame : P2pStreamFrame)
      → KeepsStreams out.0
      → IsId out.1
      → KeepsStreams (accept_stream c s out msg frame).0
  unfolding accept_stream
  accept_stream-KeepsStreams (r, id) msg frame k h =
      let session = accepted msg frame in
      let view = event_of 1 id session frame in
      elim (Bool-cases (id == 0)) [
        | inl z ↦ rw z k
        | inr z ↦
            let opened =
              put_session-KeepsStreams r id session (new-IsStream id session h z refl) k in
            rw z (
              after_told-KeepsStreams
                (tell_port c (put_session r id session) msg.destination_port view) id msg frame
                (tell_port-KeepsStreams (put_session r id session) opened c msg.destination_port
                  view))
      ]

  dispatch_syn-KeepsStreams :
      (r : Router) (msg : P2pDatagram) (frame : P2pStreamFrame)
      → KeepsStreams r
      → KeepsStreams (dispatch_syn c s r msg frame).0
  unfolding dispatch_syn
  dispatch_syn-KeepsStreams r msg frame k =
      both_branches {A = Router × ℤ} (λ x. KeepsStreams x.0) _ _ _
        (accept_stream-KeepsStreams (allocate_p2p_stream_id r) msg frame (allocate-KeepsStreams r k)
          (allocate-IsId r k))
        (enqueue-KeepsStreams r k s msg.source_port msg.destination_port (
          encode_p2p_stream_payload 3 (session_id_of msg frame r.p2p_stream_sessions)
            frame.source_stream_id 0 []))

  handled-KeepsStreams : (out : Router × Bool) → KeepsStreams out.0 → KeepsStreams (handled out).0
  unfolding handled
  handled-KeepsStreams (r, false) k = k
  handled-KeepsStreams (r, true) k = k

  join_stream-KeepsStreams :
      (found : Option P2pStreamSession) (r : Router) (frame : P2pStreamFrame)
      → find r.p2p_stream_sessions frame.destination_stream_id ≡ found
      → KeepsStreams r
      → KeepsStreams (join_stream c found r frame).0
  unfolding join_stream
  join_stream-KeepsStreams none r frame e k = k
  join_stream-KeepsStreams (some session) r frame e k =
      let id = frame.destination_stream_id in
      let joined = record session { peer_stream_id = frame.source_stream_id; connected = true } in
      let held = All-find IsStream r.p2p_stream_sessions id session e k.all in
      let kept =
        put_session-KeepsStreams r id joined
          (record {
            positive = held.positive;
            fits = held.fits;
            counted = held.counted;
            counts = held.counts;
          })
          k in
      let view = event_of 2 id joined frame in
      handled-KeepsStreams (tell_port c (put_session r id joined) joined.local_port view)
        (tell_port-KeepsStreams (put_session r id joined) kept c joined.local_port view)

  end_after-KeepsStreams :
      (kind id : ℕ) (out : Router × Bool)
      → KeepsStreams out.0
      → KeepsStreams (end_after kind id out).0
  unfolding end_after
  end_after-KeepsStreams kind id (r, false) k = k
  end_after-KeepsStreams kind id (r, true) k =
      both_branches {A = Router} KeepsStreams _ _ _ (drop_session-KeepsStreams r id k) k

  pass_on-KeepsStreams :
      (found : Option P2pStreamSession) (id : ℕ) (r : Router) (frame : P2pStreamFrame)
      → KeepsStreams r
      → KeepsStreams (pass_on c found id r frame).0
  unfolding pass_on
  pass_on-KeepsStreams none id r frame k = k
  pass_on-KeepsStreams (some session) id r frame k =
      let kind = kind_of frame.flags in
      let view = event_of kind id session frame in
      end_after-KeepsStreams kind id (tell_port c r session.local_port view)
        (tell_port-KeepsStreams r k c session.local_port view)

  dispatch_p2p_stream-KeepsStreams :
      (r : Router) (msg : P2pDatagram) (frame : P2pStreamFrame)
      → KeepsStreams r
      → KeepsStreams (dispatch_p2p_stream c s r msg frame).0
  unfolding dispatch_p2p_stream dispatch_frame
  dispatch_p2p_stream-KeepsStreams r msg frame k =
      let id = frame.destination_stream_id in
      elim (Bool-cases (frame.flags == 0)) [
        | inl z ↦ rw z k
        | inr z ↦ rw z (elim (Bool-cases (has_bit frame.flags stream_syn)) [
          | inl syn ↦ rw syn (
              both_branches {A = Router × ℤ} (λ x. KeepsStreams x.0) _ _ _
                (join_stream-KeepsStreams (find r.p2p_stream_sessions id) r frame refl k)
                (dispatch_syn-KeepsStreams r msg frame k))
          | inr other ↦ rw other (pass_on-KeepsStreams _ _ r frame k)
        ])
      ]

  dispatch_body-KeepsStreams :
      (frame : Option P2pStreamFrame) (r : Router) (msg : P2pDatagram)
      → KeepsStreams r
      → KeepsStreams (dispatch_body c s frame r msg).0
  unfolding dispatch_body
  dispatch_body-KeepsStreams none r msg k =
      carry r (dispatch_message c r msg).0 (dispatch_message-streams c r msg) k
  dispatch_body-KeepsStreams (some frame) r msg k = dispatch_p2p_stream-KeepsStreams r msg frame k

  dispatch_datagram-KeepsStreams :
      (msg : Option P2pDatagram) (r : Router)
      → KeepsStreams r
      → KeepsStreams (dispatch_datagram c s msg r).0
  unfolding dispatch_datagram
  dispatch_datagram-KeepsStreams none r k = k
  dispatch_datagram-KeepsStreams (some msg) r k =
      dispatch_body-KeepsStreams (decode_p2p_stream_payload msg.payload) (note_peer r msg) msg
        (carry r (note_peer r msg) (note_peer-streams r msg) k)

  dispatch_p2p_packet-KeepsStreams :
      (r : Router) (pkt : PacketData)
      → KeepsStreams r
      → KeepsStreams (dispatch_p2p_packet c s r pkt).0
  unfolding dispatch_p2p_packet
  dispatch_p2p_packet-KeepsStreams r pkt k =
      both_branches {A = Router × ℤ} (λ x. KeepsStreams x.0) _ _ _
        (dispatch_datagram-KeepsStreams (decode_p2p_payload pkt.payload) r k) k

  -- What a program and the network do with the streams of a router.
  pub data PeerStep (r : Router) : Router → Type 0 where
    opens_by_name :
        (hostname : Text) (dst src : ℕ)
        → PeerStep r (open_p2p_stream_to_hostname s r hostname dst src).0
    opens_by_address :
        (address dst src : ℕ) → PeerStep r (open_p2p_stream_to_address s r address dst src).0
    sends : (id : ℕ) (payload : List ℕ) → PeerStep r (send_p2p_stream s r id payload).0
    closes : (id : ℕ) → PeerStep r (close_p2p_stream s r id).0
    resets : (id : ℕ) → PeerStep r (reset_p2p_stream s r id).0
    hears : (pkt : PacketData) → PeerStep r (dispatch_p2p_packet c s r pkt).0

  pub data PeerSteps (r : Router) : Router → Type 0 where
    here : PeerSteps r r
    next : {t u : Router} → PeerSteps r t → PeerStep t u → PeerSteps r u

  PeerStep-KeepsStreams : {r t : Router} → PeerStep r t → KeepsStreams r → KeepsStreams t
  unfolding send_p2p_stream close_p2p_stream reset_p2p_stream
  PeerStep-KeepsStreams {r} (opens_by_name hostname dst src) k =
      open_p2p_stream_to_hostname-KeepsStreams s r hostname dst src k
  PeerStep-KeepsStreams {r} (opens_by_address address dst src) k =
      open_p2p_stream_to_address-KeepsStreams s r address dst src k
  PeerStep-KeepsStreams {r} (sends id payload) k =
      send_p2p_stream_control-KeepsStreams s r id stream_data payload k
  PeerStep-KeepsStreams {r} (closes id) k =
      send_p2p_stream_control-KeepsStreams s r id stream_fin [] k
  PeerStep-KeepsStreams {r} (resets id) k =
      send_p2p_stream_control-KeepsStreams s r id stream_rst [] k
  PeerStep-KeepsStreams {r} (hears pkt) k = dispatch_p2p_packet-KeepsStreams r pkt k

  -- Through any sequence of opening, sending, closing, resetting and of packets that arrive, whatever
  -- the handlers answer, each open stream keeps an id and a next sequence number from 1 to
  -- 2 ^ 32 - 1, and so does the next id to try.
  pub PeerSteps-KeepsStreams : {r t : Router} → KeepsStreams r → PeerSteps r t → KeepsStreams t
  PeerSteps-KeepsStreams k here = k
  PeerSteps-KeepsStreams k (next before step) =
      PeerStep-KeepsStreams step (PeerSteps-KeepsStreams k before)
