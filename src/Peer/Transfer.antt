-- ===== src/Peer/Transfer.antt =====
-- Data on a stream: what the handlers of the other end are told.
use sedsnet_cpp.Common.{
  ℕ, ◌+◌, ◌^◌, ◌<◌, false, some, List, [], ◌∷◌, length, ◌==◌, ◌≡◌, refl, ap, ◌∙◌, inl, inr,
  Bool-cases, arith, if◌then◌else◌, is_empty, both_branches,
}
use sedsnet_cpp.Common.Bits.{has_bit}
use sedsnet_cpp.Common.Assoc.{find, emplace, find-put}
use sedsnet_cpp.Schema.{Schema, PacketData}
use sedsnet_cpp.Reliable.Egress.{result_ok}
use sedsnet_cpp.Router.{Router, P2pStreamSession, PortHandler, StreamEventView, Callbacks}
use sedsnet_cpp.Peer.Payload.{P2pDatagram, encode_p2p_stream_payload}
use sedsnet_cpp.Peer.Addresses.{with_address, handlers_of}
use sedsnet_cpp.Peer.Streams.{
  p2p_packet, queue_packet, put_session, send_p2p_stream, send_p2p_stream_control, control_on,
  finish_control, stream_data,
}
use sedsnet_cpp.Peer.Dispatch.{
  tell_stream, tell_port, dispatch_p2p_packet, note_peer, event_of, kind_of,
}
use sedsnet_cpp.Peer.Sessions.{with_address-streams, tell_port-streams, note_peer-streams}
use sedsnet_cpp.Peer.Ends.{used, passes}
use sedsnet_cpp.Peer.Handshake.{
  CanSend, Answers, with_address-CanSend, datagram_of, frame_with, arrives, sends,
}

-- The log of a port's handlers after an event: each that is not null is told once, in order.
abbrev pub told_to :
    List PortHandler
    → StreamEventView
    → List (PortHandler × StreamEventView)
    → List (PortHandler × StreamEventView)
told_to [] view log = log
told_to (handler ∷ rest) view log =
    told_to rest view (if handler.cb then (handler, view) ∷ log else log)

module _ (c : Callbacks) (s : Schema) (ok : Answers c s) where
  tell_stream-log :
      (handlers : List PortHandler) (r : Router) (view : StreamEventView)
      → (tell_stream c handlers r view).0.stream_calls ≡ told_to handlers view r.stream_calls
  unfolding tell_stream
  tell_stream-log [] r view = refl
  tell_stream-log (handler ∷ rest) r view =
      let e = ok r.stream_calls handler view in
      let told = record r { stream_calls = (handler, view) ∷ r.stream_calls } in
      ground (arith, e, tell_stream-log rest told view, tell_stream-log rest r view)

  tell_port-log :
      (r : Router) (port : ℕ) (view : StreamEventView)
      → (tell_port c r port view).0.stream_calls
        ≡ told_to
            (handlers_of (find (emplace r.p2p_stream_handlers port []) port))
            view
            r.stream_calls
  unfolding tell_port
  tell_port-log r port view =
      let r' = record r { p2p_stream_handlers = emplace r.p2p_stream_handlers port [] } in
      tell_stream-log (handlers_of (find r'.p2p_stream_handlers port)) r' view

  note_peer-log :
      (r : Router) (msg : P2pDatagram)
      → ((note_peer r msg).stream_calls ≡ r.stream_calls)
        × ((note_peer r msg).p2p_stream_handlers ≡ r.p2p_stream_handlers)
  unfolding note_peer
  note_peer-log r msg =
      both_branches {A = Router}
        (λ x. (x.stream_calls ≡ r.stream_calls) × (x.p2p_stream_handlers ≡ r.p2p_stream_handlers))
        (is_empty msg.source_hostname) _ _ (refl, refl) (refl, refl)

  handlers_of-emplace :
      (table : List (ℕ × List PortHandler)) (port : ℕ)
      → handlers_of (find (emplace table port []) port) ≡ handlers_of (find table port)
  handlers_of-emplace [] port = ground arith
  handlers_of-emplace ((j, hs) ∷ rest) port = elim (Bool-cases (j == port)) [
    | inl e ↦ rw e (rw e refl)
    | inr e ↦ rw e (rw e (handlers_of-emplace rest port))
  ]

  keeps_open : (i : ℕ) (r : Router) → finish_control i 16 (r, result_ok) ≡ (r, result_ok)
  unfolding finish_control has_bit
  keeps_open i r = refl

  -- The packet that a send queues, and what it does where it arrives.
  pub record IsDelivered (a b : Router) (id : ℕ) (session theirs : P2pStreamSession)
      (payload : List ℕ) : Type 0 where
    pub packet : PacketData
    pub sender : Router
    pub queued : send_p2p_stream s a id payload ≡ (queue_packet sender packet, result_ok)
    pub counted : find sender.p2p_stream_sessions id ≡ some (used session)
    pub accepted : (dispatch_p2p_packet c s b packet).1 ≡ result_ok
    pub told :
        (dispatch_p2p_packet c s b packet).0.stream_calls
        ≡ told_to
            (handlers_of (find b.p2p_stream_handlers theirs.local_port))
            (record {
              kind = 3;
              stream_id = session.peer_stream_id;
              peer_stream_id = id;
              sequence = session.next_sequence;
              peer_hostname = theirs.peer_hostname;
              peer_address = theirs.peer_address;
              local_port = theirs.local_port;
              peer_port = theirs.peer_port;
              payload = payload;
            })
            b.stream_calls
    pub unchanged : (dispatch_p2p_packet c s b packet).0.p2p_stream_sessions ≡ b.p2p_stream_sessions

  sends_data :
      (a : Router) (id : ℕ) (session : P2pStreamSession) (payload : List ℕ)
      → find a.p2p_stream_sessions id ≡ some session
      → (session.peer_port == 0) ≡ false
      → let sender = with_address (put_session a id (used session)) in
        send_p2p_stream s a id payload ≡ (
          queue_packet sender (
              p2p_packet s sender session.peer_port session.local_port (
                encode_p2p_stream_payload 16 id session.peer_stream_id session.next_sequence
                  payload)),
          result_ok,
        )
  unfolding send_p2p_stream send_p2p_stream_control control_on
  sends_data a id session payload held hp =
      let frame =
        encode_p2p_stream_payload 16 id session.peer_stream_id session.next_sequence payload in
      ap (λ found. control_on s found a id stream_data payload) held
      ∙ ap (finish_control id 16) (
          sends c s (put_session a id (used session)) session.peer_port session.local_port frame hp)
      ∙ keeps_open id _

  sender-CanSend :
      (a : Router) (id : ℕ) (session : P2pStreamSession)
      → CanSend a
      → CanSend (with_address (put_session a id (used session)))
  unfolding put_session
  sender-CanSend a id session h =
      with_address-CanSend (put_session a id (used session))
        (record { named = h.named; addressed = h.addressed })

  counted_lem :
      (a : Router) (id : ℕ) (session : P2pStreamSession)
      → find (with_address (put_session a id (used session))).p2p_stream_sessions id
        ≡ some (used session)
  unfolding put_session
  counted_lem a id session =
      ap (λ p. find p.0 id) (with_address-streams (put_session a id (used session)))
      ∙ find-put a.p2p_stream_sessions id (used session)

  -- A router with a name and an address that fit a datagram has a stream, and another router one with
  -- the id that this stream has for its peer. The peer's port and id are not 0, the ids, the ports, the
  -- sequence number and the length fit their fields, and the handlers answer `SEDS_OK`. Then sending on
  -- the stream queues a packet and counts it; if the packet arrives at the other router, each handler of
  -- its stream's port is told of the payload, once and in the order of registration, and its streams
  -- stay as they are.
  pub send_p2p_stream-IsDelivered :
      (a b : Router) (id : ℕ) (session theirs : P2pStreamSession) (payload : List ℕ)
      → CanSend a
      → find a.p2p_stream_sessions id ≡ some session
      → find b.p2p_stream_sessions session.peer_stream_id ≡ some theirs
      → (session.peer_port == 0) ≡ false
      → (session.peer_stream_id == 0) ≡ false
      → session.peer_port < 2 ^ 16
      → session.local_port < 2 ^ 16
      → id < 2 ^ 32
      → session.peer_stream_id < 2 ^ 32
      → session.next_sequence < 2 ^ 32
      → length payload + 22 < 2 ^ 32
      → IsDelivered a b id session theirs payload
  unfolding event_of kind_of has_bit
  send_p2p_stream-IsDelivered a b id session theirs payload h held there hp hz fp fl fi fd fq fb =
      let sender = with_address (put_session a id (used session)) in
      let body =
        encode_p2p_stream_payload 16 id session.peer_stream_id session.next_sequence payload in
      let frame = frame_with 16 id session.peer_stream_id session.next_sequence payload in
      let msg = datagram_of sender session.peer_port session.local_port body in
      let noted = note_peer b msg in
      let view = event_of 3 session.peer_stream_id theirs frame in
      let out : dispatch_p2p_packet c s b
            (p2p_packet s sender session.peer_port session.local_port body)
          ≡ ((tell_port c noted theirs.local_port view).0, result_ok) =
        arrives c s sender b session.peer_port session.local_port 16 id session.peer_stream_id
          session.next_sequence payload (sender-CanSend a id session h) fp fl fi fd fq fb
        ∙ passes c s ok noted msg frame theirs refl refl hz
            (ap (λ p. find p.0 session.peer_stream_id) (note_peer-streams b msg) ∙ there) in
      record {
        packet = p2p_packet s sender session.peer_port session.local_port body;
        sender = sender;
        queued = sends_data a id session payload held hp;
        counted = counted_lem a id session;
        accepted = ap (λ p. p.1) out;
        told =
            ap (λ p. p.0.stream_calls) out
            ∙ tell_port-log noted theirs.local_port view
            ∙ ap (λ hs. told_to hs view noted.stream_calls)
                (handlers_of-emplace noted.p2p_stream_handlers theirs.local_port
                  ∙ ap (λ table. handlers_of (find table theirs.local_port))
                      (note_peer-log b msg).1)
            ∙ ap (told_to (handlers_of (find b.p2p_stream_handlers theirs.local_port)) view)
                (note_peer-log b msg).0;
        unchanged =
            ap (λ p. p.0.p2p_stream_sessions) out
            ∙ ap (λ p. p.0)
                (tell_port-streams c noted theirs.local_port view ∙ note_peer-streams b msg);
      }
