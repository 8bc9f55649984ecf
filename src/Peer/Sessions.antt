-- ===== src/Peer/Sessions.antt =====
-- What the operations on streams leave alone, and the invariant that they keep.
use sedsnet_cpp.Common.{
  ℕ, ◌^◌, ◌<◌, Bool, some, List, [], ◌∷◌, All, ◌==◌, ==_iff, ◌≡◌, refl, sym, ap, ◌∙◌, inl, inr,
  Bool-cases, if◌then◌else◌, is_empty, both_branches,
}
use mathlib.Core.Path.{subst, subst₂}
use mathlib.Core.Option.{none-ne-some, some-injective}
use sedsnet_cpp.Common.Int.{ℤ}
use sedsnet_cpp.Common.Assoc.{find, put, erase, emplace}
use sedsnet_cpp.Schema.{Schema}
use sedsnet_cpp.Router.{
  Router, PortHandler, P2pStreamSession, StreamEventView, MessageView, Callbacks,
}
use sedsnet_cpp.Peer.Payload.{P2pDatagram}
use sedsnet_cpp.Peer.Addresses.{with_address, handlers_of}
use sedsnet_cpp.Peer.Streams.{enqueue_p2p_packet}
use sedsnet_cpp.Peer.Dispatch.{
  tell_stream, tell_port, tell_message, note_peer, message_of, dispatch_message,
}

-- The id of an open stream and its next sequence number are from 1 to 2 ^ 32 - 1.
pub record IsStream (id : ℕ) (session : P2pStreamSession) : Type 0 where
  pub positive : 0 < id
  pub fits : id < 2 ^ 32
  pub counted : 0 < session.next_sequence
  pub counts : session.next_sequence < 2 ^ 32

-- So is the next id to try.
pub record AreStreams (sessions : List (ℕ × P2pStreamSession)) (next : ℕ) : Type 0 where
  pub all : All (λ entry. IsStream entry.0 entry.1) sessions
  pub next_positive : 0 < next
  pub next_fits : next < 2 ^ 32

abbrev pub KeepsStreams : Router → Type 0
KeepsStreams r = AreStreams r.p2p_stream_sessions r.p2p_next_stream_id

module _ {ℓ κ} {A : Type ℓ} (P : ℕ → A → Type κ) where
  abbrev AllEntries : List (ℕ × A) → Type κ
  AllEntries m = All (λ entry. P entry.0 entry.1) m

  pub All-put : (m : List (ℕ × A)) (k : ℕ) (a : A) → P k a → AllEntries m → AllEntries (put m k a)
  All-put [] k a h hs = (h, tt)
  All-put ((j, b) ∷ m) k a h hs = elim (Bool-cases (j == k)) [
    | inl e ↦ rw e (subst (λ i. P i a) (sym ((==_iff j k).0 e)) h, hs.1)
    | inr e ↦ rw e (hs.0, All-put m k a h hs.1)
  ]

  pub All-erase : (m : List (ℕ × A)) (k : ℕ) → AllEntries m → AllEntries (erase m k)
  All-erase [] k hs = tt
  All-erase ((j, b) ∷ m) k hs = elim (Bool-cases (j == k)) [
    | inl e ↦ rw e (All-erase m k hs.1)
    | inr e ↦ rw e (hs.0, All-erase m k hs.1)
  ]

  pub All-find : (m : List (ℕ × A)) (k : ℕ) (a : A) → find m k ≡ some a → AllEntries m → P k a
  All-find [] k a e hs = absurd (none-ne-some a e)
  All-find ((j, b) ∷ m) k a e hs = elim (Bool-cases (j == k)) [
    | inl h ↦
        let here : some b ≡ some a = sym (ap (λ c. if c then some b else find m k) h) ∙ e in
        subst₂ P ((==_iff j k).0 h) (some-injective b a here) hs.0
    | inr h ↦
        let later : find m k ≡ some a = sym (ap (λ c. if c then some b else find m k) h) ∙ e in
        All-find m k a later hs.1
  ]

-- The parts of a router that streams stand in.
abbrev pub streams : Router → List (ℕ × P2pStreamSession) × ℕ
streams r = (r.p2p_stream_sessions, r.p2p_next_stream_id)

pub carry : (r r' : Router) → streams r' ≡ streams r → KeepsStreams r → KeepsStreams r'
carry r r' e h = rw (ap (λ p. p.0) e, ap (λ p. p.1) e) h

pub with_address-streams : (r : Router) → streams (with_address r) ≡ streams r
unfolding with_address
with_address-streams r =
    both_branches (λ x. streams x ≡ streams r) (r.p2p_address == 0) _ _ refl refl

pub enqueue-streams :
    (s : Schema) (r : Router) (dst src : ℕ) (payload : List ℕ)
    → streams (enqueue_p2p_packet s r dst src payload).0 ≡ streams r
unfolding enqueue_p2p_packet
enqueue-streams s r dst src payload =
    both_branches {A = Router × ℤ} (λ x. streams x.0 ≡ streams r) (dst == 0) _ _ refl
      (with_address-streams r)

pub note_peer-streams : (r : Router) (msg : P2pDatagram) → streams (note_peer r msg) ≡ streams r
unfolding note_peer
note_peer-streams r msg =
    both_branches {A = Router} (λ x. streams x ≡ streams r) (is_empty msg.source_hostname) _ _ refl
      refl

module _ (c : Callbacks) where
  tell_stream-streams :
      (handlers : List PortHandler) (r : Router) (view : StreamEventView)
      → streams (tell_stream c handlers r view).0 ≡ streams r
  unfolding tell_stream
  tell_stream-streams [] r view = refl
  tell_stream-streams (handler ∷ rest) r view =
      let told = record r { stream_calls = (handler, view) ∷ r.stream_calls } in
      let here = if handler.cb then told else r in
      let later = tell_stream-streams rest here view in
      let same =
        both_branches {A = Router} (λ x. streams x ≡ streams r) handler.cb told r refl refl in
      both_branches {A = Router × Bool} (λ x. streams x.0 ≡ streams r) _ _ _ (later ∙ same) refl

  tell_message-streams :
      (handlers : List PortHandler) (r : Router) (view : MessageView)
      → streams (tell_message c handlers r view).0 ≡ streams r
  unfolding tell_message
  tell_message-streams [] r view = refl
  tell_message-streams (handler ∷ rest) r view =
      let told = record r { message_calls = (handler, view) ∷ r.message_calls } in
      let here = if handler.cb then told else r in
      let later = tell_message-streams rest here view in
      let same =
        both_branches {A = Router} (λ x. streams x ≡ streams r) handler.cb told r refl refl in
      both_branches {A = Router × ℤ} (λ x. streams x.0 ≡ streams r) _ _ _ (later ∙ same) refl

  pub tell_port-streams :
      (r : Router) (port : ℕ) (view : StreamEventView)
      → streams (tell_port c r port view).0 ≡ streams r
  unfolding tell_port
  tell_port-streams r port view =
      let r' = record r { p2p_stream_handlers = emplace r.p2p_stream_handlers port [] } in
      tell_stream-streams (handlers_of (find r'.p2p_stream_handlers port)) r' view

  pub dispatch_message-streams :
      (r : Router) (msg : P2pDatagram) → streams (dispatch_message c r msg).0 ≡ streams r
  unfolding dispatch_message
  dispatch_message-streams r msg =
      let r' = record r { p2p_handlers = emplace r.p2p_handlers msg.destination_port [] } in
      tell_message-streams (handlers_of (find r'.p2p_handlers msg.destination_port)) r'
        (message_of msg)
