-- ===== src/Peer/Connect.antt =====
-- Two routers that open a stream: after the request and its answer each holds the other's id.
use sedsnet_cpp.Common.{
  ℕ, ◌-◌, ◌^◌, ◌<◌, true, false, ◌&&◌, some, [], Text, text_eq, All, length, ◌==◌, ◌≡◌, sym, ap,
  ◌∙◌, arith, is_empty, both_branches,
}
use mathlib.Core.Path.{subst}
use sedsnet_cpp.Common.Assoc.{find, find-put}
use sedsnet_cpp.Common.Keyed.{lookup}
use sedsnet_cpp.Schema.{Schema, PacketData}
use sedsnet_cpp.Reliable.Egress.{result_ok}
use sedsnet_cpp.Router.{Router, P2pStreamSession, StreamEventView, Callbacks}
use sedsnet_cpp.Peer.Payload.{P2pDatagram, encode_p2p_stream_payload}
use sedsnet_cpp.Peer.Streams.{
  allocate_p2p_stream_id, p2p_packet, queue_packet, open_p2p_stream_to_hostname, put_session,
  stream_syn,
}
use sedsnet_cpp.Peer.Dispatch.{
  tell_port, dispatch_p2p_packet, note_peer, event_of, accepted, session_id_of,
}
use sedsnet_cpp.Peer.Ids.{allocate_p2p_stream_id-IsAllocated}
use sedsnet_cpp.Peer.Sessions.{
  KeepsStreams, with_address-streams, tell_port-streams, note_peer-streams,
}
use sedsnet_cpp.Peer.Handshake.{
  CanSend, Answers, with_address-CanSend, datagram_of, frame_of, arrives, tell_port-identity,
}
use sedsnet_cpp.Peer.Accepting.{
  asked, no_session, with_address-link, opener, request_of, opening, accepting, accepting_lem,
  joining,
}

-- The request of `a`, the answer of `b`, and what the two hold.
pub record IsHandshake (c : Callbacks) (s : Schema) (a b : Router) (host : Text)
    (address dst src : ℕ) : Type 0 where
  pub id : ℕ
  pub request : PacketData
  pub opened : Router
  pub opens :
      open_p2p_stream_to_hostname s a host dst src ≡ (queue_packet opened request, result_ok, id)
  pub peer_id : ℕ
  pub answer : PacketData
  pub answered : Router
  pub accepts : dispatch_p2p_packet c s b request ≡ (queue_packet answered answer, result_ok)
  pub held_there :
      find answered.p2p_stream_sessions peer_id
      ≡ some (record {
        peer_hostname = a.link.sender;
        peer_address = opened.p2p_address;
        local_port = dst;
        peer_port = src;
        peer_stream_id = id;
        next_sequence = 1;
        connected = true;
      })
  pub joins : (dispatch_p2p_packet c s (queue_packet opened request) answer).1 ≡ result_ok
  pub held_here :
      find (dispatch_p2p_packet c s (queue_packet opened request) answer).0.p2p_stream_sessions id
      ≡ some (record (asked host address dst src) { peer_stream_id = peer_id; connected = true })

pub record IsReady (r : Router) : Type 0 where
  pub sends : CanSend r
  pub keeps : KeepsStreams r
  pub room : length r.p2p_stream_sessions < 2 ^ 32 - 1

-- An allocated id, as the code tests it.
taken_id : (r : Router) → IsReady r → ((allocate_p2p_stream_id r).1 == 0) ≡ false
taken_id r h =
    let got = allocate_p2p_stream_id-IsAllocated r h.keeps.next_positive h.keeps.next_fits h.room in
    positive_eq got.positive
  where
    positive_eq : {n : ℕ} → 0 < n → (n == 0) ≡ false
    positive_eq p = ground arith

id_fits : (r : Router) → IsReady r → (allocate_p2p_stream_id r).1 < 2 ^ 32
id_fits r h =
    (allocate_p2p_stream_id-IsAllocated r h.keeps.next_positive h.keeps.next_fits h.room).fits

opened-CanSend :
    (r : Router) (session : P2pStreamSession)
    → CanSend r
    → CanSend (put_session (allocate_p2p_stream_id r).0 (allocate_p2p_stream_id r).1 session)
unfolding put_session allocate_p2p_stream_id
opened-CanSend r session h = record { named = h.named; addressed = h.addressed }

note_peer-IsReady : (r : Router) (msg : P2pDatagram) → IsReady r → IsReady (note_peer r msg)
unfolding note_peer
note_peer-IsReady r msg h =
    both_branches {A = Router} IsReady (is_empty msg.source_hostname) _ _ h (record {
      sends = record { named = h.sends.named; addressed = h.sends.addressed };
      keeps = h.keeps;
      room = h.room;
    })

told-CanSend :
    (c : Callbacks) (s : Schema) (r : Router) (port : ℕ) (view : StreamEventView)
    → CanSend r
    → CanSend (tell_port c r port view).0
told-CanSend c s r port view h =
    let e = tell_port-identity c s r port view in
    record { named = rw (ap (λ p. p.0) e) h.named; addressed = rw (ap (λ p. p.1) e) h.addressed }

module _ (c : Callbacks) (s : Schema) (a b : Router) (host : Text) (address dst src : ℕ)
    (ok : Answers c s) (ra : IsReady a) (rb : IsReady b)
    (fresh : All
      (λ entry. (entry.1.peer_port == src && text_eq entry.1.peer_hostname a.link.sender) ≡ false)
      b.p2p_stream_sessions) where
  abbrev id_here : ℕ
  id_here = (allocate_p2p_stream_id a).1

  abbrev message : P2pDatagram
  message =
      datagram_of (opener c s a host address dst src) dst src
        (encode_p2p_stream_payload stream_syn id_here 0 0 [])

  abbrev noted : Router
  noted = note_peer b message

  abbrev acceptor : Router
  acceptor = accepting c s noted message id_here

  abbrev id_there : ℕ
  id_there = (allocate_p2p_stream_id noted).1

  abbrev answer_of : PacketData
  answer_of = p2p_packet s acceptor src dst (encode_p2p_stream_payload 3 id_there id_here 0 [])

  opener-CanSend : CanSend (opener c s a host address dst src)
  opener-CanSend = with_address-CanSend _ (opened-CanSend a (asked host address dst src) ra.sends)

  acceptor-CanSend : CanSend acceptor
  acceptor-CanSend =
      with_address-CanSend _
        (told-CanSend c s _ dst _ (opened-CanSend noted _ (note_peer-IsReady b message rb).sends))

  sender_here : (opener c s a host address dst src).link.sender ≡ a.link.sender
  unfolding put_session allocate_p2p_stream_id
  sender_here =
      ap (λ l. l.sender)
        (with_address-link
          (put_session (allocate_p2p_stream_id a).0 id_here (asked host address dst src)))

  is_new : session_id_of message (frame_of 1 id_here 0) noted.p2p_stream_sessions ≡ 0
  is_new =
      ap (λ p. session_id_of message (frame_of 1 id_here 0) p.0) (note_peer-streams b message)
      ∙ no_session b.p2p_stream_sessions message (frame_of 1 id_here 0) (
          subst
            (λ (name : Text).
              All
                (λ entry. (entry.1.peer_port == src && text_eq entry.1.peer_hostname name) ≡ false)
                b.p2p_stream_sessions)
            (sym sender_here) fresh)

  accepting_here :
      (dst == 0) ≡ false
      → (src == 0) ≡ false
      → dst < 2 ^ 16
      → src < 2 ^ 16
      → dispatch_p2p_packet c s b (request_of c s a host address dst src)
        ≡ (queue_packet acceptor answer_of, result_ok)
  accepting_here hd hs fd fs =
      arrives c s (opener c s a host address dst src) b dst src 1 id_here 0 0 [] opener-CanSend fd
        fs (id_fits a ra) (omega arith) (omega arith) (omega arith)
      ∙ accepting_lem c s noted message id_here ok is_new
          (taken_id noted (note_peer-IsReady b message rb)) hs

  held_there_lem :
      find acceptor.p2p_stream_sessions id_there ≡ some (accepted message (frame_of 1 id_here 0))
  unfolding put_session
  held_there_lem =
      let session = accepted message (frame_of 1 id_here 0) in
      let found = allocate_p2p_stream_id noted in
      let opened = put_session found.0 found.1 session in
      let view = event_of 1 found.1 session (frame_of 1 id_here 0) in
      ap (λ p. find p.0 id_there)
        (with_address-streams (tell_port c opened dst view).0 ∙ tell_port-streams c opened dst view)
      ∙ find-put found.0.p2p_stream_sessions found.1 session

  asked_lem :
      find (opener c s a host address dst src).p2p_stream_sessions id_here
      ≡ some (asked host address dst src)
  unfolding put_session
  asked_lem =
      ap (λ p. find p.0 id_here)
        (with_address-streams
          (put_session (allocate_p2p_stream_id a).0 id_here (asked host address dst src)))
      ∙ find-put (allocate_p2p_stream_id a).0.p2p_stream_sessions id_here
          (asked host address dst src)

  -- Take two routers whose streams keep their invariant, with fewer than 2 ^ 32 - 1 of them, and
  -- whose name and address fit a datagram. The first knows an address of the host, which is not its
  -- own name, the ports fit 16 bits and are not 0, the second has no stream to that port of a peer of
  -- the first one's name, and the handlers answer `SEDS_OK`. Then opening a stream queues a packet; if
  -- it arrives at the second router, that opens a stream and queues an answer; and if this arrives at
  -- the first, both streams are connected and each holds the id of the other.
  pub open_p2p_stream-IsHandshake :
      text_eq host a.link.sender ≡ false
      → lookup text_eq a.p2p_address_book host ≡ some address
      → (dst == 0) ≡ false
      → (src == 0) ≡ false
      → dst < 2 ^ 16
      → src < 2 ^ 16
      → IsHandshake c s a b host address dst src
  unfolding accepted queue_packet
  open_p2p_stream-IsHandshake other known hd hs fd fs =
      let here = opener c s a host address dst src in
      let sent = queue_packet here (request_of c s a host address dst src) in
      let reply =
        datagram_of acceptor src dst (encode_p2p_stream_payload 3 id_there id_here 0 []) in
      let arrived =
        arrives c s acceptor sent src dst 3 id_there id_here 0 [] acceptor-CanSend fs fd
          (id_fits noted (note_peer-IsReady b message rb)) (id_fits a ra) (omega arith)
          (omega arith) in
      let joined =
        joining c s (note_peer sent reply) reply id_there id_here (asked host address dst src) ok
          (ap (λ p. find p.0 id_here) (note_peer-streams sent reply) ∙ asked_lem) in
      record {
        id = id_here;
        request = request_of c s a host address dst src;
        opened = here;
        opens = opening c s a host address dst src other known hd hs (taken_id a ra);
        peer_id = id_there;
        answer = answer_of;
        answered = acceptor;
        accepts = accepting_here hd hs fd fs;
        held_there =
            held_there_lem
            ∙ ap
                (λ name.
                  some (record (accepted message (frame_of 1 id_here 0)) { peer_hostname = name }))
                sender_here;
        joins = ap (λ out. out.1) arrived ∙ joined.0;
        held_here = ap (λ out. find out.0.p2p_stream_sessions id_here) arrived ∙ joined.1;
      }
