-- ===== src/Peer/Ids.antt =====
-- The ids of streams: as long as fewer than 2 ^ 32 - 1 streams are open, the search ends with an id
-- that is free.
use sedsnet_cpp.Common.{
  ℕ, zero, suc, ◌+◌, ◌-◌, ◌%◌, ◌^◌, ◌≤◌, ◌<◌, true, false, Option, none, some, List, length, ◌==◌,
  is_some, ==_iff, ◌≡◌, ◌≢◌, refl, sym, ap, ◌∙◌, inl, inr, Bool-cases, Option-cases, arith,
}
use sedsnet_cpp.Common.Assoc.{find, erase, find-erase_other, length-erase_lt}
use sedsnet_cpp.Router.{Router, P2pStreamSession}
use sedsnet_cpp.Peer.Streams.{
  stream_id_at, next_stream_id, allocate_loop, allocate_p2p_stream_id, max_tries,
}

none-is_some {ℓ} : {A : Type ℓ} {o : Option A} → o ≡ none → is_some o ≡ true → ⊥
none-is_some e h = cc (ap is_some e)

-- A map that has an entry under each of `n` different keys has `n` entries or more.
pigeonhole {ℓ} :
    {A : Type ℓ} (n : ℕ) (m : List (ℕ × A)) (key : ℕ → ℕ)
    → ((k : ℕ) → k < n → is_some (find m (key k)) ≡ true)
    → ((j k : ℕ) → j < k → k < n → key j ≢ key k)
    → n ≤ length m
pigeonhole zero m key taken different = omega arith
pigeonhole (suc n) m key taken different = elim (Option-cases (find m (key n))) [
  | inl e ↦ absurd (none-is_some e (taken n (omega arith)))
  | inr (a, e) ↦
      let left =
        pigeonhole n (erase m (key n)) key
          (λ k h.
            ap is_some (find-erase_other m (key n) (key k) (apart k h)) ∙ taken k (omega arith))
          (λ j k jk h. different j k jk (omega arith)) in
      omega (arith, length-erase_lt m (key n) a e)
]
  where
    apart : (k : ℕ) → k < n → (key n == key k) ≡ false
    apart k h = elim (Bool-cases (key n == key k)) [
      | inl e ↦ absurd (different k n h (omega arith) (sym ((==_iff _ _).0 e)))
      | inr e ↦ e
    ]

-- The key of the k-th try that follows `next`.
tried : ℕ → ℕ → ℕ
tried next k = (next - 1 + k) % (2 ^ 32 - 1) + 1

tried_different : (next j k : ℕ) → j < k → k < 2 ^ 32 - 1 → tried next j ≢ tried next k
unfolding tried
tried_different next j k lt h = omega arith

tried_first : (next : ℕ) → next < 2 ^ 32 → stream_id_at next ≡ tried next 0
unfolding tried stream_id_at
tried_first next h = omega arith

tried_later :
    (next k : ℕ) → 0 < next → next < 2 ^ 32 → tried (next_stream_id next) k ≡ tried next (suc k)
unfolding tried next_stream_id
tried_later next k h0 h = omega arith

next_in_range : (next : ℕ) → (0 < next_stream_id next) × (next_stream_id next < 2 ^ 32)
unfolding next_stream_id
next_in_range next = omega arith

id_in_range : (next : ℕ) → next < 2 ^ 32 → (0 < stream_id_at next) × (stream_id_at next < 2 ^ 32)
unfolding stream_id_at
id_in_range next h = omega arith

loop_empty : (m : List (ℕ × P2pStreamSession)) (next : ℕ) → allocate_loop zero m next ≡ (next, 0)
unfolding allocate_loop
loop_empty m next = refl

module _ (tries : ℕ) (m : List (ℕ × P2pStreamSession)) (next : ℕ) where
  loop_free :
      is_some (find m (stream_id_at next)) ≡ false
      → allocate_loop (suc tries) m next ≡ (next_stream_id next, stream_id_at next)
  unfolding allocate_loop
  loop_free free = rw (free, allocate_loop) refl

  loop_used :
      is_some (find m (stream_id_at next)) ≡ true
      → allocate_loop (suc tries) m next ≡ allocate_loop tries m (next_stream_id next)
  unfolding allocate_loop
  loop_used used = rw (used, allocate_loop) refl

-- The search ends empty-handed only where every id that it tried is in use.
loop_fails :
    (tries : ℕ) (m : List (ℕ × P2pStreamSession)) (next : ℕ)
    → 0 < next
    → next < 2 ^ 32
    → (allocate_loop tries m next).1 ≡ 0
    → (k : ℕ) → k < tries
    → is_some (find m (tried next k)) ≡ true
loop_fails zero m next h0 h e k lt = absurd (omega arith)
loop_fails (suc tries) m next h0 h e k lt =
    elim (Bool-cases (is_some (find m (stream_id_at next)))) [
      | inr free ↦
          absurd (omega (arith, id_in_range next h, ap (λ p. p.1) (loop_free tries m next free)))
      | inl used ↦ at k lt used (
          loop_fails tries m (next_stream_id next) (next_in_range next).0 (next_in_range next).1
            (sym (ap (λ p. p.1) (loop_used tries m next used)) ∙ e))
    ]
  where
    at :
        (j : ℕ)
        → j < suc tries
        → is_some (find m (stream_id_at next)) ≡ true
        → ((i : ℕ) → i < tries → is_some (find m (tried (next_stream_id next) i)) ≡ true)
        → is_some (find m (tried next j)) ≡ true
    at zero jl used later = ap (λ i. is_some (find m i)) (sym (tried_first next h)) ∙ used
    at (suc j) jl used later =
        ap (λ i. is_some (find m i)) (sym (tried_later next j h0 h)) ∙ later j (omega arith)

-- What the search finds is free, and fits 32 bits.
pub loop_finds :
    (tries : ℕ) (m : List (ℕ × P2pStreamSession)) (next : ℕ)
    → next < 2 ^ 32
    → (allocate_loop tries m next).1 ≢ 0
    → (is_some (find m ((allocate_loop tries m next).1)) ≡ false)
      × ((allocate_loop tries m next).1 < 2 ^ 32)
loop_finds zero m next h e = absurd (e (ap (λ p. p.1) (loop_empty m next)))
loop_finds (suc tries) m next h e = elim (Bool-cases (is_some (find m (stream_id_at next)))) [
  | inr free ↦ rw (loop_free tries m next free) (free, (id_in_range next h).1)
  | inl used ↦ rw (loop_used tries m next used) (
      loop_finds tries m (next_stream_id next) (next_in_range next).1
        (λ z. e (ap (λ p. p.1) (loop_used tries m next used) ∙ z)))
]

pub loop_next :
    (tries : ℕ) (m : List (ℕ × P2pStreamSession)) (next : ℕ)
    → 0 < next
    → next < 2 ^ 32
    → (0 < (allocate_loop tries m next).0) × ((allocate_loop tries m next).0 < 2 ^ 32)
loop_next zero m next h0 h = rw loop_empty (h0, h)
loop_next (suc tries) m next h0 h = elim (Bool-cases (is_some (find m (stream_id_at next)))) [
  | inr free ↦ rw (loop_free tries m next free) (next_in_range next)
  | inl used ↦
      rw (loop_used tries m next used)
        (loop_next tries m (next_stream_id next) (next_in_range next).0 (next_in_range next).1)
]

-- What an allocation leaves and finds.
pub record IsAllocated (r : Router) : Type 0 where
  pub positive : 0 < (allocate_p2p_stream_id r).1
  pub fits : (allocate_p2p_stream_id r).1 < 2 ^ 32
  pub fresh : find r.p2p_stream_sessions ((allocate_p2p_stream_id r).1) ≡ none
  pub next_positive : 0 < (allocate_p2p_stream_id r).0.p2p_next_stream_id
  pub next_fits : (allocate_p2p_stream_id r).0.p2p_next_stream_id < 2 ^ 32
  pub sessions : (allocate_p2p_stream_id r).0.p2p_stream_sessions ≡ r.p2p_stream_sessions

pub is_some-false {ℓ} : {A : Type ℓ} (o : Option A) → is_some o ≡ false → o ≡ none
is_some-false none h = refl
is_some-false (some a) h = cc

-- With fewer than 2 ^ 32 - 1 open streams, and a next id from 1 to 2 ^ 32 - 1, the search for a
-- stream id finds one: it is not 0, fits 32 bits and is no open stream's. The next id stays in its
-- range, and the streams stay as they are.
pub allocate_p2p_stream_id-IsAllocated :
    (r : Router)
    → 0 < r.p2p_next_stream_id
    → r.p2p_next_stream_id < 2 ^ 32
    → length r.p2p_stream_sessions < 2 ^ 32 - 1
    → IsAllocated r
unfolding allocate_p2p_stream_id
allocate_p2p_stream_id-IsAllocated r h0 h room =
    let m = r.p2p_stream_sessions in
    let next = r.p2p_next_stream_id in
    let found : (allocate_loop max_tries m next).1 ≢ 0 = λ e. absurd (
      omega (
        arith,
        pigeonhole max_tries m (tried next) (loop_fails max_tries m next h0 h e)
            (λ j k jk kh. tried_different next j k jk kh),
      )) in
    let good = loop_finds max_tries m next h found in
    let after = loop_next max_tries m next h0 h in
    record {
      positive = omega arith;
      fits = good.1;
      fresh = is_some-false _ (good.0);
      next_positive = after.0;
      next_fits = after.1;
      sessions = refl;
    }
