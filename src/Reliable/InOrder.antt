-- ===== src/Reliable/InOrder.antt =====
-- In-order delivery on an ordered reliable channel.
use sedsnet_cpp.Common.{
  ℕ, zero, suc, ◌≤◌, ◌<◌, false, none, some, List, [], ◌∷◌, All, length, map, ltb, ◌==◌,
  if◌then◌else◌, ◌≡◌, refl, ap, sym, ◌∙◌, inl, inr, Bool-cases, Option-cases, arith,
}
use mathlib.Core.Option.{none-ne-some, some-injective}
use sedsnet_cpp.Common.Assoc.{find, erase, emplace, length-erase_lt, length-emplace_le}
use sedsnet_cpp.Reliable.{Buffered, ReliableRxState, Tuning, next_seq_after}
use sedsnet_cpp.Reliable.Ingress.{release_loop, accept, hold}

-- The `n` sequence numbers from `seq` on, and the number after them.
abbrev pub upcoming : ℕ → ℕ → List ℕ
upcoming zero seq = []
upcoming (suc n) seq = seq ∷ upcoming n (next_seq_after seq)

abbrev pub advance : ℕ → ℕ → ℕ
advance zero seq = seq
advance (suc n) seq = advance n (next_seq_after seq)

module _ (stream : ℕ → Buffered) where
  -- Every buffered packet is the stream's packet of its number.
  abbrev pub Carries : List (ℕ × Buffered) → Type 0
  Carries = All (λ entry. entry.1 ≡ stream (entry.0))

  Carries-erase : (m : List (ℕ × Buffered)) (k : ℕ) → Carries m → Carries (erase m k)
  Carries-erase [] k h = h
  Carries-erase ((j, b) ∷ m) k h = elim (Bool-cases (j == k)) [
    | inl e ↦ rw e (Carries-erase m k (h.1))
    | inr e ↦ rw e (h.0, Carries-erase m k (h.1))
  ]

  Carries-emplace :
      (m : List (ℕ × Buffered)) (k : ℕ) (b : Buffered)
      → b ≡ stream k
      → Carries m
      → Carries (emplace m k b)
  Carries-emplace [] k b e h = (e, h)
  Carries-emplace ((j, c) ∷ m) k b e h = elim (Bool-cases (j == k)) [
    | inl q ↦ rw q h
    | inr q ↦ rw q (h.0, Carries-emplace m k b e (h.1))
  ]

  Carries-find :
      (m : List (ℕ × Buffered)) (k : ℕ) (b : Buffered)
      → Carries m
      → find m k ≡ some b
      → b ≡ stream k
  Carries-find [] k b h e = absurd (none-ne-some b e)
  Carries-find ((j, c) ∷ m) k b h e = elim (Bool-cases (j == k)) [
    | inl q ↦
        let found : some c ≡ some b = sym (ap (λ t. if t then some c else find m k) q) ∙ e in
        let same : j ≡ k = ground arith in sym (some-injective c b found) ∙ h.0 ∙ ap stream same
    | inr q ↦
        let found : find m k ≡ some b = sym (ap (λ t. if t then some c else find m k) q) ∙ e in
        Carries-find m k b (h.1) found
  ]

  -- What the release of buffered packets does to a channel that expects `seq`.
  pub record Releases (seq : ℕ) (max : ℕ) (r : ReliableRxState × List Buffered) : Type 0 where
    pub count : ℕ
    pub released : r.1 ≡ map stream (upcoming count seq)
    pub expects : r.0.expected_seq ≡ advance count seq
    pub carries : Carries r.0.buffered
    pub bounded : length r.0.buffered ≤ max
    pub nothing_next : find r.0.buffered r.0.expected_seq ≡ none

  released_more :
      (seq max : ℕ) (b : Buffered) (r : ReliableRxState × List Buffered) (n : ℕ)
      → b ≡ stream seq
      → Releases (next_seq_after seq) n r
      → n ≤ max
      → Releases seq max (r.0, b ∷ r.1)
  released_more seq max b r n e h hn = record {
    count = suc h.count;
    released = rw (e, h.released) refl;
    expects = h.expects;
    carries = h.carries;
    bounded = omega (arith, h.bounded);
    nothing_next = h.nothing_next;
  }

  released_none :
      (rx : ReliableRxState)
      → Carries rx.buffered
      → find rx.buffered rx.expected_seq ≡ none
      → Releases rx.expected_seq (length rx.buffered) (rx, [])
  released_none rx hc e = record {
    count = 0;
    released = refl;
    expects = refl;
    carries = hc;
    bounded = omega arith;
    nothing_next = e;
  }

  release_loop-Releases :
      (fuel : ℕ) (rx : ReliableRxState)
      → length rx.buffered ≤ fuel
      → Carries rx.buffered
      → Releases rx.expected_seq (length rx.buffered) (release_loop fuel rx)
  unfolding release_loop
  release_loop-Releases zero rx hf hc = elim (Option-cases (find rx.buffered rx.expected_seq)) [
    | inl e ↦ released_none rx hc e
    | inr (b, e) ↦ absurd (omega (arith, hf, length-erase_lt rx.buffered rx.expected_seq b e))
  ]
  release_loop-Releases (suc fuel) rx hf hc =
      elim (Option-cases (find rx.buffered rx.expected_seq)) [
        | inl e ↦ rw (release_loop, e) (released_none rx hc e)
        | inr (b, e) ↦
            let next : ReliableRxState = record {
              expected_seq = next_seq_after rx.expected_seq;
              last_ack = rx.expected_seq;
              buffered = erase rx.buffered rx.expected_seq;
            } in
            let fewer = length-erase_lt rx.buffered rx.expected_seq b e in
            let rest =
              release_loop-Releases fuel next (omega (arith, hf, fewer))
                (Carries-erase rx.buffered rx.expected_seq hc) in
            let own = Carries-find rx.buffered rx.expected_seq b hc e in
            rw (release_loop, e)
              (released_more rx.expected_seq _ b (release_loop fuel next) _ own rest
                (omega (arith, fewer)))
      ]

  -- A channel whose buffer holds the stream's packets, at most `max` of them, and not the next.
  pub record IsChannel (max : ℕ) (rx : ReliableRxState) : Type 0 where
    pub carries : Carries rx.buffered
    pub bounded : length rx.buffered ≤ max
    pub waits : find rx.buffered rx.expected_seq ≡ none

  pub accept-Releases :
      (rx : ReliableRxState)
      → Carries rx.buffered
      → Releases (next_seq_after rx.expected_seq) (length rx.buffered) (accept rx rx.expected_seq)
  unfolding accept
  accept-Releases rx hc =
      release_loop-Releases (length rx.buffered)
        (record rx { expected_seq = next_seq_after rx.expected_seq; last_ack = rx.expected_seq })
        (omega arith) hc

  find-emplace_other :
      (m : List (ℕ × Buffered)) (k j : ℕ) (b : Buffered)
      → (k == j) ≡ false
      → find m j ≡ none
      → find (emplace m k b) j ≡ none
  find-emplace_other [] k j b h e = rw h refl
  find-emplace_other ((i, c) ∷ m) k j b h e = elim (Bool-cases (i == j)) [
    | inl q ↦ absurd (none-ne-some c (sym e ∙ ap (λ t. if t then some c else find m j) q))
    | inr q ↦
        let later : find m j ≡ none = sym (ap (λ t. if t then some c else find m j) q) ∙ e in
        elim (Bool-cases (i == k)) [
          | inl w ↦ rw w (rw q later)
          | inr w ↦ rw w (rw q (find-emplace_other m k j b h later))
        ]
  ]

  pub hold-IsChannel :
      (t : Tuning) (rx : ReliableRxState) (seq : ℕ) (b : Buffered)
      → b ≡ stream seq
      → rx.expected_seq < seq
      → IsChannel t.max_pending rx
      → IsChannel t.max_pending (hold t rx seq b)
  unfolding hold
  hold-IsChannel t rx seq b e hs h = elim (Bool-cases (ltb (length rx.buffered) t.max_pending)) [
    | inl q ↦ rw q (record {
      carries = Carries-emplace rx.buffered seq b e h.carries;
      bounded = ground (arith, length-emplace_le rx.buffered seq b);
      waits = find-emplace_other rx.buffered seq rx.expected_seq b (ground arith) h.waits;
    })
    | inr q ↦ rw q h
  ]
