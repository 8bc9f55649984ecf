-- ===== src/Peer/Accepting.antt =====
-- The two ends of an opening: the stream that is asked for, and the one that is accepted.
use sedsnet_cpp.Common.{
  ℕ, true, false, ◌&&◌, some, List, [], ◌∷◌, Text, text_eq, All, ◌==◌, ◌≡◌, refl, ap, ◌∙◌, arith,
  both_branches,
}
use sedsnet_cpp.Common.Bits.{has_bit}
use sedsnet_cpp.Common.Assoc.{find, find-put}
use sedsnet_cpp.Common.Keyed.{lookup}
use sedsnet_cpp.Schema.{Schema, PacketData}
use sedsnet_cpp.Reliable.Egress.{result_ok}
use sedsnet_cpp.Router.{Router, P2pStreamSession, Callbacks}
use sedsnet_cpp.Peer.Payload.{P2pDatagram, P2pStreamFrame, encode_p2p_stream_payload}
use sedsnet_cpp.Peer.Addresses.{with_address, set_address, resolve_p2p_host}
use sedsnet_cpp.Peer.Streams.{
  allocate_p2p_stream_id, p2p_packet, queue_packet, open_p2p_stream_to_hostname, put_session,
  open_resolved, open_with_id, stream_syn,
}
use sedsnet_cpp.Peer.Dispatch.{
  tell_port, dispatch_p2p_stream, dispatch_syn, join_stream, accept_stream, reply_syn_ack, event_of,
  accepted, session_id_of, is_session_of,
}
use sedsnet_cpp.Peer.Sessions.{tell_port-streams}
use sedsnet_cpp.Peer.Handshake.{
  Answers, frame_of, sends, tell_port-answered, after_told-answered, handled-answered,
}

-- A stream of a router that its peer has not answered yet.
abbrev pub asked : Text → ℕ → ℕ → ℕ → P2pStreamSession
asked host address dst src = record {
  peer_hostname = host;
  peer_address = address;
  local_port = src;
  peer_port = dst;
  peer_stream_id = 0;
  next_sequence = 1;
  connected = false;
}

pub no_session :
    (sessions : List (ℕ × P2pStreamSession)) (msg : P2pDatagram) (frame : P2pStreamFrame)
    → All
        (λ entry.
          (entry.1.peer_port == msg.source_port
            && text_eq entry.1.peer_hostname msg.source_hostname)
          ≡ false)
        sessions
    → session_id_of msg frame sessions ≡ 0
unfolding session_id_of is_session_of
no_session [] msg frame h = refl
no_session ((id, session) ∷ rest) msg frame h = ground (arith, h.0, no_session rest msg frame h.1)

pub with_address-link : (r : Router) → (with_address r).link ≡ r.link
unfolding with_address set_address
with_address-link r =
    both_branches {A = Router} (λ x. x.link ≡ r.link) (r.p2p_address == 0) _ _ refl refl

module _ (c : Callbacks) (s : Schema) (a : Router) (host : Text) (address dst src : ℕ) where
  abbrev pub opener : Router
  opener = with_address (
      put_session (allocate_p2p_stream_id a).0 (allocate_p2p_stream_id a).1
        (asked host address dst src))

  abbrev pub request_of : PacketData
  request_of =
      p2p_packet s opener dst src
        (encode_p2p_stream_payload stream_syn (allocate_p2p_stream_id a).1 0 0 [])

  resolves :
      text_eq host a.link.sender ≡ false
      → lookup text_eq a.p2p_address_book host ≡ some address
      → resolve_p2p_host a host ≡ (a, some (host, address))
  unfolding resolve_p2p_host
  resolves other known = rw (other, known, resolve_p2p_host) refl

  opens_resolved :
      (dst == 0) ≡ false
      → (src == 0) ≡ false
      → open_resolved s (a, some (host, address)) dst src
        ≡ open_with_id s (allocate_p2p_stream_id a) (host, address) dst src
  unfolding open_resolved
  opens_resolved hd hs = rw (hd, hs, open_resolved) refl

  opens_with_id :
      ((allocate_p2p_stream_id a).1 == 0) ≡ false
      → (dst == 0) ≡ false
      → open_with_id s (allocate_p2p_stream_id a) (host, address) dst src
        ≡ (queue_packet opener request_of, result_ok, (allocate_p2p_stream_id a).1)
  unfolding open_with_id
  opens_with_id hi hd =
      let id = (allocate_p2p_stream_id a).1 in
      rw (hi, open_with_id)
        (ap (λ out. (out.0, out.1, id))
          (sends c s (put_session (allocate_p2p_stream_id a).0 id (asked host address dst src)) dst
            src (encode_p2p_stream_payload stream_syn id 0 0 []) hd))

  pub opening :
      text_eq host a.link.sender ≡ false
      → lookup text_eq a.p2p_address_book host ≡ some address
      → (dst == 0) ≡ false
      → (src == 0) ≡ false
      → ((allocate_p2p_stream_id a).1 == 0) ≡ false
      → open_p2p_stream_to_hostname s a host dst src
        ≡ (queue_packet opener request_of, result_ok, (allocate_p2p_stream_id a).1)
  unfolding open_p2p_stream_to_hostname
  opening other known hd hs hi =
      ap (λ out. open_resolved s out dst src) (resolves other known)
      ∙ opens_resolved hd hs
      ∙ opens_with_id hi hd

module _ (c : Callbacks) (s : Schema) (b : Router) (msg : P2pDatagram) (id : ℕ) where
  abbrev pub accepting : Router
  accepting =
      let found = allocate_p2p_stream_id b in
      with_address
        (tell_port c (put_session found.0 found.1 (accepted msg (frame_of 1 id 0)))
          msg.destination_port
          (event_of 1 found.1 (accepted msg (frame_of 1 id 0)) (frame_of 1 id 0))).0

  syn_lem :
      session_id_of msg (frame_of 1 id 0) b.p2p_stream_sessions ≡ 0
      → dispatch_syn c s b msg (frame_of 1 id 0)
        ≡ accept_stream c s (allocate_p2p_stream_id b) msg (frame_of 1 id 0)
  unfolding dispatch_syn
  syn_lem new = rw (new, dispatch_syn) refl

  accept_lem :
      Answers c s
      → ((allocate_p2p_stream_id b).1 == 0) ≡ false
      → (msg.source_port == 0) ≡ false
      → accept_stream c s (allocate_p2p_stream_id b) msg (frame_of 1 id 0) ≡ (
        queue_packet accepting (
            p2p_packet s accepting msg.source_port msg.destination_port
              (encode_p2p_stream_payload 3 (allocate_p2p_stream_id b).1 id 0 [])),
        result_ok,
      )
  unfolding accept_stream reply_syn_ack
  accept_lem ok hi hp =
      let frame = frame_of 1 id 0 in
      let found = allocate_p2p_stream_id b in
      let session = accepted msg frame in
      let view = event_of 1 found.1 session frame in
      let opened = put_session found.0 found.1 session in
      let told = tell_port c opened msg.destination_port view in
      rw (hi, accept_stream)
        (after_told-answered c s told found.1 msg frame
            (tell_port-answered c s ok opened msg.destination_port view)
          ∙ sends c s told.0 msg.source_port msg.destination_port
              (encode_p2p_stream_payload 3 found.1 id 0 []) hp)

  pub accepting_lem :
      Answers c s
      → session_id_of msg (frame_of 1 id 0) b.p2p_stream_sessions ≡ 0
      → ((allocate_p2p_stream_id b).1 == 0) ≡ false
      → (msg.source_port == 0) ≡ false
      → dispatch_p2p_stream c s b msg (frame_of 1 id 0) ≡ (
        queue_packet accepting (
            p2p_packet s accepting msg.source_port msg.destination_port
              (encode_p2p_stream_payload 3 (allocate_p2p_stream_id b).1 id 0 [])),
        result_ok,
      )
  unfolding dispatch_p2p_stream has_bit
  accepting_lem ok new hi hp = syn_lem new ∙ accept_lem ok hi hp

-- A stream that was asked for takes the id that its peer answers with.
pub joining :
    (c : Callbacks) (s : Schema) (r : Router) (msg : P2pDatagram) (peer_id id : ℕ)
    (session : P2pStreamSession)
    → Answers c s
    → find r.p2p_stream_sessions id ≡ some session
    → let out = dispatch_p2p_stream c s r msg (frame_of 3 peer_id id) in
      (out.1 ≡ result_ok)
      × (find out.0.p2p_stream_sessions id
          ≡ some (record session { peer_stream_id = peer_id; connected = true }))
unfolding dispatch_p2p_stream join_stream has_bit put_session
joining c s r msg peer_id id session ok held =
    let frame = frame_of 3 peer_id id in
    let joined = record session { peer_stream_id = peer_id; connected = true } in
    let view = event_of 2 id joined frame in
    let put_in = put_session r id joined in
    let told = tell_port c put_in joined.local_port view in
    let e : dispatch_p2p_stream c s r msg frame ≡ (told.0, result_ok) =
      ap (λ found. join_stream c found r frame) held
      ∙ handled-answered c s told (tell_port-answered c s ok put_in joined.local_port view) in
    (
      ap (λ out. out.1) e,
      ap (λ out. find out.0.p2p_stream_sessions id) e
          ∙ ap (λ p. find p.0 id) (tell_port-streams c put_in joined.local_port view)
          ∙ held_put r id joined,
    )
  where
    held_put :
        (q : Router) (i : ℕ) (x : P2pStreamSession)
        → find (put_session q i x).p2p_stream_sessions i ≡ some x
    held_put q i x = find-put q.p2p_stream_sessions i x

-- A router that can open one more stream.
