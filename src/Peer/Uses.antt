-- ===== src/Peer/Uses.antt =====
-- What a program does with its own streams keeps their invariant.
use sedsnet_cpp.Common.{
  ℕ, ◌+◌, ◌^◌, ◌%◌, ◌<◌, max, false, Option, none, some, List, [], Text, ◌==◌, ◌≡◌, ◌≢◌, refl, inl,
  inr, Bool-cases, arith, both_branches,
}
use sedsnet_cpp.Common.Int.{ℤ}
use sedsnet_cpp.Common.Assoc.{find}
use sedsnet_cpp.Schema.{Schema}
use sedsnet_cpp.Router.{Router, P2pStreamSession, StreamEventView, Callbacks}
use sedsnet_cpp.Peer.Payload.{encode_p2p_stream_payload}
use sedsnet_cpp.Peer.Addresses.{with_address, resolve_p2p_host, resolve_p2p_address}
use sedsnet_cpp.Peer.Streams.{
  allocate_p2p_stream_id, max_tries, enqueue_p2p_packet, send_p2p_stream_control,
  open_p2p_stream_to_hostname, open_p2p_stream_to_address, put_session, drop_session, open_resolved,
  open_with_id, control_on, finish_control, stream_syn,
}
use sedsnet_cpp.Peer.Dispatch.{tell_port}
use sedsnet_cpp.Peer.Ids.{loop_finds, loop_next}
use sedsnet_cpp.Peer.Sessions.{
  IsStream, KeepsStreams, All-put, All-erase, All-find, carry, with_address-streams,
  enqueue-streams, tell_port-streams,
}

pub put_session-KeepsStreams :
    (r : Router) (id : ℕ) (session : P2pStreamSession)
    → IsStream id session
    → KeepsStreams r
    → KeepsStreams (put_session r id session)
unfolding put_session
put_session-KeepsStreams r id session h k = record {
  all = All-put IsStream r.p2p_stream_sessions id session h k.all;
  next_positive = k.next_positive;
  next_fits = k.next_fits;
}

pub drop_session-KeepsStreams :
    (r : Router) (id : ℕ) → KeepsStreams r → KeepsStreams (drop_session r id)
unfolding drop_session
drop_session-KeepsStreams r id k = record {
  all = All-erase IsStream r.p2p_stream_sessions id k.all;
  next_positive = k.next_positive;
  next_fits = k.next_fits;
}

-- A numeral test that fails.
nonzero : {n : ℕ} → (n == 0) ≡ false → n ≢ 0
nonzero h = ground arith

-- An id that was allocated, where one was found.
abbrev pub IsId : ℕ → Type 0
IsId id = (id == 0) ≡ false → (0 < id) × (id < 2 ^ 32)

module _ (r : Router) (k : KeepsStreams r) where
  pub allocate-KeepsStreams : KeepsStreams (allocate_p2p_stream_id r).0
  unfolding allocate_p2p_stream_id
  allocate-KeepsStreams =
      let after =
        loop_next max_tries r.p2p_stream_sessions r.p2p_next_stream_id k.next_positive
          k.next_fits in
      record { all = k.all; next_positive = after.0; next_fits = after.1 }

  pub allocate-IsId : IsId (allocate_p2p_stream_id r).1
  unfolding allocate_p2p_stream_id
  allocate-IsId h =
      let found =
        loop_finds max_tries r.p2p_stream_sessions r.p2p_next_stream_id k.next_fits (nonzero h) in
      (omega (arith, nonzero h), found.1)

  pub enqueue-KeepsStreams :
      (s : Schema) (dst src : ℕ) (payload : List ℕ)
      → KeepsStreams (enqueue_p2p_packet s r dst src payload).0
  enqueue-KeepsStreams s dst src payload =
      carry r (enqueue_p2p_packet s r dst src payload).0 (enqueue-streams s r dst src payload) k

  pub tell_port-KeepsStreams :
      (c : Callbacks) (port : ℕ) (view : StreamEventView) → KeepsStreams (tell_port c r port view).0
  tell_port-KeepsStreams c port view =
      carry r (tell_port c r port view).0 (tell_port-streams c r port view) k

pub new-IsStream :
    (id : ℕ) (session : P2pStreamSession)
    → IsId id
    → (id == 0) ≡ false
    → session.next_sequence ≡ 1
    → IsStream id session
new-IsStream id session h z e = record {
  positive = (h z).0;
  fits = (h z).1;
  counted = omega arith;
  counts = omega arith;
}

finish_control-KeepsStreams :
    (id flags : ℕ) (out : Router × ℤ)
    → KeepsStreams out.0
    → KeepsStreams (finish_control id flags out).0
unfolding finish_control
finish_control-KeepsStreams id flags (r, rc) k =
    both_branches {A = Router} KeepsStreams _ _ _ (drop_session-KeepsStreams r id k) k

module _ (s : Schema) where
  control_on-KeepsStreams :
      (found : Option P2pStreamSession) (r : Router) (id flags : ℕ) (payload : List ℕ)
      → find r.p2p_stream_sessions id ≡ found
      → KeepsStreams r
      → KeepsStreams (control_on s found r id flags payload).0
  unfolding control_on
  control_on-KeepsStreams none r id flags payload e k = k
  control_on-KeepsStreams (some session) r id flags payload e k =
      let used = record session { next_sequence = max 1 ((session.next_sequence + 1) % 2 ^ 32) } in
      let held = All-find IsStream r.p2p_stream_sessions id session e k.all in
      let kept : KeepsStreams (put_session r id used) =
        put_session-KeepsStreams r id used
          (record {
            positive = held.positive;
            fits = held.fits;
            counted = omega arith;
            counts = omega arith;
          })
          k in
      let frame =
        encode_p2p_stream_payload flags id session.peer_stream_id session.next_sequence payload in
      let out =
        enqueue_p2p_packet s (put_session r id used) session.peer_port session.local_port frame in
      finish_control-KeepsStreams id flags out (
        enqueue-KeepsStreams (put_session r id used) kept s session.peer_port session.local_port
          frame)

  pub send_p2p_stream_control-KeepsStreams :
      (r : Router) (id flags : ℕ) (payload : List ℕ)
      → KeepsStreams r
      → KeepsStreams (send_p2p_stream_control s r id flags payload).0
  unfolding send_p2p_stream_control
  send_p2p_stream_control-KeepsStreams r id flags payload k =
      control_on-KeepsStreams (find r.p2p_stream_sessions id) r id flags payload refl k

  open_with_id-KeepsStreams :
      (out : Router × ℕ) (peer : Text × ℕ) (dst src : ℕ)
      → KeepsStreams out.0
      → IsId out.1
      → KeepsStreams (open_with_id s out peer dst src).0
  unfolding open_with_id
  open_with_id-KeepsStreams (r, id) (hostname, address) dst src k h = elim (Bool-cases (id == 0)) [
    | inl z ↦ rw z k
    | inr z ↦ rw z (
        enqueue-KeepsStreams _ (put_session-KeepsStreams r id _ (new-IsStream id _ h z refl) k) s
          dst src (encode_p2p_stream_payload stream_syn id 0 0 []))
  ]

  open_resolved-KeepsStreams :
      (out : Router × Option (Text × ℕ)) (dst src : ℕ)
      → KeepsStreams out.0
      → KeepsStreams (open_resolved s out dst src).0
  unfolding open_resolved
  open_resolved-KeepsStreams (r, none) dst src k = k
  open_resolved-KeepsStreams (r, some peer) dst src k =
      both_branches {A = Router × ℤ × ℕ} (λ x. KeepsStreams x.0) _ _ _ k
        (open_with_id-KeepsStreams (allocate_p2p_stream_id r) peer dst src
          (allocate-KeepsStreams r k) (allocate-IsId r k))

  with_address-KeepsStreams : (r : Router) → KeepsStreams r → KeepsStreams (with_address r)
  with_address-KeepsStreams r k = carry r (with_address r) (with_address-streams r) k

  resolve_p2p_host-KeepsStreams :
      (r : Router) (hostname : Text) → KeepsStreams r → KeepsStreams (resolve_p2p_host r hostname).0
  unfolding resolve_p2p_host
  resolve_p2p_host-KeepsStreams r hostname k =
      both_branches {A = Router × Option (Text × ℕ)} (λ x. KeepsStreams x.0) _ _ _
        (with_address-KeepsStreams r k) k

  resolve_p2p_address-KeepsStreams :
      (r : Router) (address : ℕ) → KeepsStreams r → KeepsStreams (resolve_p2p_address r address).0
  unfolding resolve_p2p_address
  resolve_p2p_address-KeepsStreams r address k =
      let kept = with_address-KeepsStreams r k in
      both_branches {A = Router × Option (Text × ℕ)} (λ x. KeepsStreams x.0) _ _ _ kept kept

  pub open_p2p_stream_to_hostname-KeepsStreams :
      (r : Router) (hostname : Text) (dst src : ℕ)
      → KeepsStreams r
      → KeepsStreams (open_p2p_stream_to_hostname s r hostname dst src).0
  unfolding open_p2p_stream_to_hostname
  open_p2p_stream_to_hostname-KeepsStreams r hostname dst src k =
      open_resolved-KeepsStreams (resolve_p2p_host r hostname) dst src
        (resolve_p2p_host-KeepsStreams r hostname k)

  pub open_p2p_stream_to_address-KeepsStreams :
      (r : Router) (address dst src : ℕ)
      → KeepsStreams r
      → KeepsStreams (open_p2p_stream_to_address s r address dst src).0
  unfolding open_p2p_stream_to_address
  open_p2p_stream_to_address-KeepsStreams r address dst src k =
      both_branches {A = Router × ℤ × ℕ} (λ x. KeepsStreams x.0) _ _ _ k
        (open_resolved-KeepsStreams (resolve_p2p_address r address) dst src
          (resolve_p2p_address-KeepsStreams r address k))
