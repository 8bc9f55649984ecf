-- ===== src/Peer/Handshake.antt =====
-- Opening a stream: the frame that asks for it, the answer of the other router, and what both hold
-- when the answer has arrived.
use sedsnet_cpp.Common.{
  ℕ, ◌+◌, ◌^◌, ◌<◌, Bool, true, false, List, [], ◌∷◌, Text, length, ◌==◌, ==_refl, ◌≡◌, refl, ap,
  ◌∙◌, arith, if◌then◌else◌, both_branches,
}
use sedsnet_cpp.Common.Int.{int_eq}
use sedsnet_cpp.Common.Assoc.{find, emplace}
use sedsnet_cpp.Schema.{Schema}
use sedsnet_cpp.Packets.{make_internal_packet}
use sedsnet_cpp.Reliable.{Owner}
use sedsnet_cpp.Reliable.Egress.{result_ok}
use sedsnet_cpp.Router.{Router, PortHandler, StreamEventView, Callbacks}
use sedsnet_cpp.Peer.Payload.{
  P2pDatagram, P2pStreamFrame, encode_p2p_stream_payload, encode_p2p_payload, decode_p2p_payload,
}
use sedsnet_cpp.Peer.RoundTrip.{
  decode_p2p_payload-encode_p2p_payload, decode_p2p_stream_payload-encode_p2p_stream_payload,
  length-framed,
}
use sedsnet_cpp.Peer.Addresses.{with_address, address_for_sender, set_address, handlers_of}
use sedsnet_cpp.Peer.Streams.{p2p_type_id, p2p_packet, queue_packet, enqueue_p2p_packet}
use sedsnet_cpp.Peer.Dispatch.{
  tell_stream, tell_port, dispatch_p2p_packet, dispatch_p2p_stream, dispatch_datagram,
  dispatch_body, note_peer, reply_syn_ack, after_told, handled,
}

-- A router whose name and address fit the fields of a datagram.
pub record CanSend (r : Router) : Type 0 where
  pub named : length r.link.sender < 2 ^ 16
  pub addressed : r.p2p_address < 2 ^ 32

address_for_sender-lt : (sender : Text) → address_for_sender sender < 2 ^ 32
unfolding address_for_sender
address_for_sender-lt sender = ground arith

pub with_address-CanSend : (r : Router) → CanSend r → CanSend (with_address r)
unfolding with_address set_address
with_address-CanSend r h =
    both_branches {A = Router} CanSend (r.p2p_address == 0) _ _
      (record { named = h.named; addressed = address_for_sender-lt r.link.sender }) h

-- The datagram that a router sends, as it is decoded.
abbrev pub datagram_of : Router → ℕ → ℕ → List ℕ → P2pDatagram
datagram_of r dst src payload = record {
  source_hostname = r.link.sender;
  source_address = r.p2p_address;
  source_port = src;
  destination_port = dst;
  payload = payload;
}

abbrev pub frame_with : ℕ → ℕ → ℕ → ℕ → List ℕ → P2pStreamFrame
frame_with flags source destination sequence body = record {
  flags = flags;
  source_stream_id = source;
  destination_stream_id = destination;
  sequence = sequence;
  payload = body;
}

-- The frames that open a stream are empty and have no number.
abbrev pub frame_of : ℕ → ℕ → ℕ → P2pStreamFrame
frame_of flags source destination = frame_with flags source destination 0 []

module _ (c : Callbacks) (s : Schema) where
  -- A frame that arrives is dispatched as it was sent.
  pub arrives :
      (q r : Router) (dst src flags source destination sequence : ℕ) (body : List ℕ)
      → CanSend q
      → dst < 2 ^ 16
      → src < 2 ^ 16
      → source < 2 ^ 32
      → destination < 2 ^ 32
      → sequence < 2 ^ 32
      → length body + 22 < 2 ^ 32
      → let payload = encode_p2p_stream_payload flags source destination sequence body in
        let msg = datagram_of q dst src payload in
        dispatch_p2p_packet c s r (p2p_packet s q dst src payload)
        ≡ dispatch_p2p_stream c s
            (note_peer r msg)
            msg
            (frame_with flags source destination sequence body)
  unfolding dispatch_p2p_packet p2p_packet make_internal_packet dispatch_datagram dispatch_body
  arrives q r dst src flags source destination sequence body h hd hs hso hde hq hb =
      let payload = encode_p2p_stream_payload flags source destination sequence body in
      let msg = datagram_of q dst src payload in
      let short : length payload < 2 ^ 32 =
        omega (arith, length-framed flags source destination sequence body) in
      let outer =
        decode_p2p_payload-encode_p2p_payload q.link.sender q.p2p_address src dst payload hd hs
          h.addressed h.named short in
      let inner =
        decode_p2p_stream_payload-encode_p2p_stream_payload flags source destination sequence body
          hso hde hq (omega arith) in
      let bytes = encode_p2p_payload q.link.sender q.p2p_address src dst payload in
      ap (λ b. if b then dispatch_datagram c s (decode_p2p_payload bytes) r else (r, result_ok))
        (==_refl (p2p_type_id s))
      ∙ ap (λ m. dispatch_datagram c s m r) outer
      ∙ ap (λ f. dispatch_body c s f (note_peer r msg) msg) inner

  pub sends :
      (r : Router) (dst src : ℕ) (payload : List ℕ)
      → (dst == 0) ≡ false
      → enqueue_p2p_packet s r dst src payload
        ≡ (queue_packet (with_address r) (p2p_packet s (with_address r) dst src payload), result_ok)
  unfolding enqueue_p2p_packet
  sends r dst src payload h = rw (h, enqueue_p2p_packet) refl

  -- Handlers that answer `SEDS_OK`.
  abbrev pub Answers : Type 0
  Answers =
      (log : List (PortHandler × StreamEventView)) (handler : PortHandler) (view : StreamEventView)
      → int_eq (c.on_stream log handler view) result_ok ≡ true

  tell_stream-answered :
      Answers
      → (handlers : List PortHandler) (r : Router) (view : StreamEventView)
      → (tell_stream c handlers r view).1 ≡ true
  unfolding tell_stream
  tell_stream-answered ok [] r view = refl
  tell_stream-answered ok (handler ∷ rest) r view =
      let e = ok r.stream_calls handler view in
      ground (
        arith,
        e,
        tell_stream-answered ok rest
            (if handler.cb then record r { stream_calls = (handler, view) ∷ r.stream_calls } else r)
            view,
      )

  -- The name, the address and the link of a router, which no handler changes.
  abbrev pub identity : Router → Owner × ℕ
  identity r = (r.link, r.p2p_address)

  tell_stream-identity :
      (handlers : List PortHandler) (r : Router) (view : StreamEventView)
      → identity (tell_stream c handlers r view).0 ≡ identity r
  unfolding tell_stream
  tell_stream-identity [] r view = refl
  tell_stream-identity (handler ∷ rest) r view =
      let told = record r { stream_calls = (handler, view) ∷ r.stream_calls } in
      let here = if handler.cb then told else r in
      let later = tell_stream-identity rest here view in
      let same =
        both_branches {A = Router} (λ x. identity x ≡ identity r) handler.cb told r refl refl in
      both_branches {A = Router × Bool} (λ x. identity x.0 ≡ identity r) _ _ _ (later ∙ same) refl

  pub tell_port-answered :
      Answers
      → (r : Router) (port : ℕ) (view : StreamEventView) → (tell_port c r port view).1 ≡ true
  unfolding tell_port
  tell_port-answered ok r port view =
      let r' = record r { p2p_stream_handlers = emplace r.p2p_stream_handlers port [] } in
      tell_stream-answered ok (handlers_of (find r'.p2p_stream_handlers port)) r' view

  pub tell_port-identity :
      (r : Router) (port : ℕ) (view : StreamEventView)
      → identity (tell_port c r port view).0 ≡ identity r
  unfolding tell_port
  tell_port-identity r port view =
      let r' = record r { p2p_stream_handlers = emplace r.p2p_stream_handlers port [] } in
      tell_stream-identity (handlers_of (find r'.p2p_stream_handlers port)) r' view

  pub after_told-answered :
      (out : Router × Bool) (id : ℕ) (msg : P2pDatagram) (frame : P2pStreamFrame)
      → out.1 ≡ true
      → after_told c s out id msg frame ≡ reply_syn_ack c s out.0 id msg frame
  unfolding after_told
  after_told-answered (r, true) id msg frame e = refl
  after_told-answered (r, false) id msg frame e = cc

  pub handled-answered : (out : Router × Bool) → out.1 ≡ true → handled out ≡ (out.0, result_ok)
  unfolding handled
  handled-answered (r, true) e = refl
  handled-answered (r, false) e = cc
