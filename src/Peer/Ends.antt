-- ===== src/Peer/Ends.antt =====
-- The end of a stream: what a frame from another router does to the stream that it names, and a
-- stream that cannot be ended.
use sedsnet_cpp.Common.{
  ℕ, ◌+◌, ◌^◌, ◌%◌, ◌<◌, max, Bool, true, false, ◌||◌, none, some, List, [], ◌==◌, ◌≡◌, ◌⊎◌, refl,
  ap, ◌∙◌, inl, inr, arith, if◌then◌else◌,
}
use sedsnet_cpp.Common.Bits.{has_bit}
use sedsnet_cpp.Common.Assoc.{find, find-erase, find-put}
use sedsnet_cpp.Schema.{Schema}
use sedsnet_cpp.Reliable.Egress.{result_ok}
use sedsnet_cpp.Router.{Router, P2pStreamSession, Callbacks, result_bad_arg}
use sedsnet_cpp.Peer.Payload.{P2pDatagram, P2pStreamFrame, encode_p2p_stream_payload}
use sedsnet_cpp.Peer.Streams.{
  p2p_packet, put_session, drop_session, send_p2p_stream_control, control_on, finish_control,
  enqueue_p2p_packet,
}
use sedsnet_cpp.Peer.Dispatch.{
  tell_port, dispatch_p2p_packet, dispatch_p2p_stream, dispatch_frame, pass_on, end_after,
  note_peer, event_of, kind_of,
}
use sedsnet_cpp.Peer.Sessions.{note_peer-streams}
use sedsnet_cpp.Peer.Handshake.{
  CanSend, Answers, datagram_of, frame_with, arrives, tell_port-answered,
}

-- The session of a stream after one more frame was sent on it.
abbrev pub used : P2pStreamSession → P2pStreamSession
used session = record session { next_sequence = max 1 ((session.next_sequence + 1) % 2 ^ 32) }

module _ (c : Callbacks) (s : Schema) (ok : Answers c s) where
  end_after-answered :
      (kind id : ℕ) (out : Router × Bool)
      → out.1 ≡ true
      → end_after kind id out
        ≡ (if kind == 4 || kind == 5 then drop_session out.0 id else out.0, result_ok)
  unfolding end_after
  end_after-answered kind id (r, true) e = refl
  end_after-answered kind id (r, false) e = cc

  -- A frame without a SYN for a stream that is open.
  pub passes :
      (r : Router) (msg : P2pDatagram) (frame : P2pStreamFrame) (session : P2pStreamSession)
      → (frame.flags == 0) ≡ false
      → has_bit frame.flags 1 ≡ false
      → (frame.destination_stream_id == 0) ≡ false
      → find r.p2p_stream_sessions frame.destination_stream_id ≡ some session
      → let id = frame.destination_stream_id in
        let kind = kind_of frame.flags in
        let told = tell_port c r session.local_port (event_of kind id session frame) in
        dispatch_p2p_stream c s r msg frame
        ≡ (if kind == 4 || kind == 5 then drop_session told.0 id else told.0, result_ok)
  unfolding dispatch_p2p_stream dispatch_frame pass_on
  passes r msg frame session hf hs hi held =
      let id = frame.destination_stream_id in
      let kind = kind_of frame.flags in
      let view = event_of kind id session frame in
      rw (hf, hs, hi, dispatch_p2p_stream, dispatch_frame)
        (ap (λ found. pass_on c found id r frame) held
          ∙ end_after-answered kind id (tell_port c r session.local_port view)
              (tell_port-answered c s ok r session.local_port view))

  end_flags :
      (flags : ℕ)
      → (flags ≡ 4) ⊎ (flags ≡ 8)
      → ((flags == 0) ≡ false)
        × (has_bit flags 1 ≡ false)
        × ((kind_of flags == 4 || kind_of flags == 5) ≡ true)
  unfolding has_bit kind_of
  end_flags flags (inl e) = rw e (refl, refl, refl)
  end_flags flags (inr e) = rw e (refl, refl, refl)

  -- A FIN or a RST (`flags` is 4 or 8) that any router sends, from any of its ports and streams, to
  -- any port, closes the receiver's stream with the id that it names, which is not 0, whoever that
  -- stream's peer is; the sender's name and address, the ports, the ids and the sequence number fit
  -- their fields, and the handlers answer `SEDS_OK`.
  pub dispatch_p2p_packet-closes :
      (q r : Router) (dst src flags source id sequence : ℕ) (session : P2pStreamSession)
      → (flags ≡ 4) ⊎ (flags ≡ 8)
      → CanSend q
      → dst < 2 ^ 16
      → src < 2 ^ 16
      → source < 2 ^ 32
      → id < 2 ^ 32
      → sequence < 2 ^ 32
      → (id == 0) ≡ false
      → find r.p2p_stream_sessions id ≡ some session
      → let pkt = p2p_packet s q dst src (encode_p2p_stream_payload flags source id sequence []) in
        find (dispatch_p2p_packet c s r pkt).0.p2p_stream_sessions id ≡ none
  unfolding drop_session
  dispatch_p2p_packet-closes q r dst src flags source id sequence session hf h hd hs hso hi hq hz
        held =
      let frame = frame_with flags source id sequence [] in
      let msg = datagram_of q dst src (encode_p2p_stream_payload flags source id sequence []) in
      let noted = note_peer r msg in
      let there = ap (λ p. find p.0 id) (note_peer-streams r msg) ∙ held in
      let told = tell_port c noted session.local_port (event_of (kind_of flags) id session frame) in
      let (some_flag, no_syn, ends) = end_flags flags hf in
      ap (λ out. find out.0.p2p_stream_sessions id)
        (arrives c s q r dst src flags source id sequence [] h hd hs hso hi hq (omega arith)
          ∙ passes noted msg frame session some_flag no_syn hz there
          ∙ ap (λ (b : Bool). (if b then drop_session told.0 id else told.0, result_ok)) ends)
      ∙ find-erase told.0.p2p_stream_sessions id

refused :
    (s : Schema) (r : Router) (dst src : ℕ) (payload : List ℕ)
    → (dst == 0) ≡ true
    → enqueue_p2p_packet s r dst src payload ≡ (r, result_bad_arg)
unfolding enqueue_p2p_packet
refused s r dst src payload h = rw (h, enqueue_p2p_packet) refl

kept_open :
    (i flags : ℕ) (r : Router) → finish_control i flags (r, result_bad_arg) ≡ (r, result_bad_arg)
unfolding finish_control
kept_open i flags r = refl

held_put :
    (r : Router) (i : ℕ) (x : P2pStreamSession)
    → find (put_session r i x).p2p_stream_sessions i ≡ some x
unfolding put_session
held_put r i x = find-put r.p2p_stream_sessions i x

-- A stream whose peer has port 0, as a datagram from port 0 makes it, can be neither used nor ended by
-- its router: each call fails with `SEDS_BAD_ARG`, uses up a sequence number and keeps the stream.
pub send_p2p_stream_control-stays :
    (s : Schema) (r : Router) (id flags : ℕ) (payload : List ℕ) (session : P2pStreamSession)
    → find r.p2p_stream_sessions id ≡ some session
    → (session.peer_port == 0) ≡ true
    → ((send_p2p_stream_control s r id flags payload).1 ≡ result_bad_arg)
      × (find (send_p2p_stream_control s r id flags payload).0.p2p_stream_sessions id
          ≡ some (used session))
unfolding send_p2p_stream_control control_on
send_p2p_stream_control-stays s r id flags payload session held hp =
    let frame =
      encode_p2p_stream_payload flags id session.peer_stream_id session.next_sequence payload in
    let e : send_p2p_stream_control s r id flags payload
        ≡ (put_session r id (used session), result_bad_arg) =
      ap (λ found. control_on s found r id flags payload) held
      ∙ ap (finish_control id flags) (
          refused s (put_session r id (used session)) session.peer_port session.local_port frame hp)
      ∙ kept_open id flags (put_session r id (used session)) in
    (
      ap (λ out. out.1) e,
      ap (λ out. find out.0.p2p_stream_sessions id) e ∙ held_put r id (used session),
    )
