-- ===== src/Crypto/Streaming.antt =====
-- The hash takes its input in pieces: how it is cut makes no difference.
use sedsnet_cpp.Common.{
  ℕ, zero, suc, ◌+◌, ◌-◌, ◌*◌, ◌%◌, ◌^◌, ◌≤◌, ◌<◌, true, false, List, [], ◌∷◌, ◌++◌, length, take,
  drop, is_empty, leb, leb→le, ◌==◌, if◌then◌else◌, length-append, length-take, length-drop,
  take-append-drop, Bool-cases, both_branches, inl, inr, ◌≡◌, refl, sym, ap, ◌∙◌, arith,
}
use Prim.Native.Nat.{min}
use mathlib.Core.List.{append-nil, append_assoc}
use sedsnet_cpp.Crypto.Sha256.{
  Words, Sha256, compress, fill_buffer, whole_blocks, keep_rest, update, work_in,
}

-- One byte at a time.
abbrev push : Words × List ℕ → ℕ → Words × List ℕ
push (v, buffer) x =
    let full = buffer ++ (x ∷ []) in if length full == 64 then (compress v full, []) else (v, full)

absorb : Words × List ℕ → List ℕ → Words × List ℕ
absorb p [] = p
absorb p (x ∷ xs) = absorb (push p x) xs

absorb-append :
    (p : Words × List ℕ) (xs ys : List ℕ) → absorb p (xs ++ ys) ≡ absorb (absorb p xs) ys
unfolding absorb
absorb-append p [] ys = refl
absorb-append p (x ∷ xs) ys = absorb-append (push p x) xs ys

push_short :
    (v : Words) (buffer : List ℕ) (x : ℕ)
    → length buffer + 1 < 64
    → push (v, buffer) x ≡ (v, buffer ++ (x ∷ []))
push_short v buffer x h =
    let short : (length (buffer ++ (x ∷ [])) == 64) ≡ false =
      ground (arith, length-append buffer (x ∷ [])) in
    rw short refl

push_full :
    (v : Words) (buffer : List ℕ) (x : ℕ)
    → length buffer + 1 ≡ 64
    → push (v, buffer) x ≡ (compress v (buffer ++ (x ∷ [])), [])
push_full v buffer x h =
    let full : (length (buffer ++ (x ∷ [])) == 64) ≡ true =
      ground (arith, length-append buffer (x ∷ [])) in
    rw full refl

absorb_short :
    (v : Words) (buffer xs : List ℕ)
    → length buffer + length xs < 64
    → absorb (v, buffer) xs ≡ (v, buffer ++ xs)
unfolding absorb
absorb_short v buffer [] h = rw append-nil refl
absorb_short v buffer (x ∷ xs) h =
    ap (λ p. absorb p xs) (push_short v buffer x (omega arith))
    ∙ absorb_short v (buffer ++ (x ∷ [])) xs (omega (arith, length-append {0} buffer (x ∷ [])))
    ∙ ap (λ b. (v, b)) (append_assoc buffer (x ∷ []) xs)

absorb_full :
    (v : Words) (buffer : List ℕ) (x : ℕ) (xs : List ℕ)
    → length buffer + length xs + 1 ≡ 64
    → absorb (v, buffer) (x ∷ xs) ≡ (compress v (buffer ++ (x ∷ xs)), [])
unfolding absorb
absorb_full v buffer x [] h = push_full v buffer x (omega arith)
absorb_full v buffer x (y ∷ ys) h =
    ap (λ p. absorb p (y ∷ ys)) (push_short v buffer x (omega arith))
    ∙ absorb_full v (buffer ++ (x ∷ [])) y ys (omega (arith, length-append {0} buffer (x ∷ [])))
    ∙ ap (λ b. (compress v b, [])) (append_assoc buffer (x ∷ []) (y ∷ ys))

absorb_block :
    (v : Words) (buffer xs : List ℕ)
    → 0 < length xs
    → length buffer + length xs ≡ 64
    → absorb (v, buffer) xs ≡ (compress v (buffer ++ xs), [])
absorb_block v buffer [] h e = absurd (omega arith)
absorb_block v buffer (x ∷ xs) h e = absorb_full v buffer x xs (omega arith)

-- The loop over whole blocks leaves less than a block.
whole_blocks-absorb :
    (fuel : ℕ) (v : Words) (input : List ℕ)
    → length input ≤ fuel
    → (absorb (v, []) input ≡ whole_blocks fuel v input)
      × (length (whole_blocks fuel v input).1 < 64)
unfolding whole_blocks
whole_blocks-absorb zero v input h = (absorb_short v [] input (omega arith), omega arith)
whole_blocks-absorb (suc fuel) v input h = elim (Bool-cases (leb 64 (length input))) [
  | inr less ↦ rw less (absorb_short v [] input (omega (arith, less_than less)), less_than less)
  | inl more ↦
      let enough : 64 ≤ length input = leb→le 64 (length input) more in
      let block = take 64 input in
      let size : length block ≡ 64 = omega (arith, length-take {0} 64 input) in
      let (same, left) =
        whole_blocks-absorb fuel (compress v block) (drop 64 input)
          (omega (arith, length-drop {0} 64 input)) in
      rw more (
        ap (absorb (v, [])) (sym (take-append-drop 64 input))
            ∙ absorb-append (v, []) block (drop 64 input)
            ∙ ap (λ p. absorb p (drop 64 input))
                (absorb_block v [] block (omega (arith, size)) (omega (arith, size)))
            ∙ same,
        left,
      )
]
  where
    less_than : leb 64 (length input) ≡ false → length input < 64
    less_than e = ground arith

-- The words and the buffer of a hash.
abbrev held : Sha256 → Words × List ℕ
held s = (s.state, s.buffer)

keep_rest-held : (s : Sha256) (p : Words × List ℕ) → s.buffer ≡ [] → held (keep_rest s p) ≡ p
unfolding keep_rest
keep_rest-held s (v, []) e = ap (λ b. (v, b)) e
keep_rest-held s (v, x ∷ xs) e = refl

work_in-held :
    (s : Sha256) (rest : List ℕ) → s.buffer ≡ [] → held (work_in (s, rest)) ≡ absorb (held s) rest
unfolding work_in
work_in-held s rest e =
    keep_rest-held s (whole_blocks (length rest) s.state rest) e
    ∙ sym (whole_blocks-absorb (length rest) s.state rest (omega arith)).0
    ∙ ap (λ b. absorb (s.state, b) rest) (sym e)

work_in-nothing : (s : Sha256) → held (work_in (s, [])) ≡ held s
unfolding work_in whole_blocks keep_rest
work_in-nothing s = refl

is_empty-eq {ℓ} : {A : Type ℓ} (xs : List A) → is_empty xs ≡ true → xs ≡ []
is_empty-eq [] e = refl
is_empty-eq (x ∷ xs) e = cc

take-all {ℓ} : {A : Type ℓ} (n : ℕ) (xs : List A) → length xs ≤ n → take n xs ≡ xs
take-all zero [] h = refl
take-all zero (x ∷ xs) h = absurd (omega arith)
take-all (suc n) [] h = refl
take-all (suc n) (x ∷ xs) h = ap (λ ys. x ∷ ys) (take-all n xs (omega arith))

drop-all {ℓ} : {A : Type ℓ} (n : ℕ) (xs : List A) → length xs ≤ n → drop n xs ≡ []
drop-all zero [] h = refl
drop-all zero (x ∷ xs) h = absurd (omega arith)
drop-all (suc n) [] h = refl
drop-all (suc n) (x ∷ xs) h = drop-all n xs (omega arith)

module _ (s : Sha256) (input : List ℕ) where
  abbrev count : ℕ
  count = min (64 - length s.buffer) (length input)

  filled_size :
      length s.buffer < 64 → length (s.buffer ++ take count input) ≡ length s.buffer + count
  filled_size h =
      omega (arith, length-append {0} s.buffer (take count input), length-take {0} count input)

  fill_empty : is_empty s.buffer ≡ true → fill_buffer s input ≡ (s, input)
  unfolding fill_buffer
  fill_empty e = rw (e, fill_buffer) refl

  fill_short :
      is_empty s.buffer ≡ false
      → length s.buffer + length input < 64
      → fill_buffer s input ≡ (record s { buffer = s.buffer ++ input }, [])
  unfolding fill_buffer
  fill_short e h =
      let all : take count input ≡ input = take-all count input (omega arith) in
      let none_left : drop count input ≡ [] = drop-all count input (omega arith) in
      let not_full : (length (s.buffer ++ input) == 64) ≡ false =
        ground (arith, length-append s.buffer input) in
      rw (e, all, none_left, not_full, fill_buffer) refl

  fill_full :
      is_empty s.buffer ≡ false
      → length s.buffer < 64
      → 64 ≤ length s.buffer + length input
      → fill_buffer s input ≡ (
        record s { state = compress s.state (s.buffer ++ take count input); buffer = [] },
        drop count input,
      )
  unfolding fill_buffer
  fill_full e h more =
      let full : (length (s.buffer ++ take count input) == 64) ≡ true =
        ground (arith, filled_size h) in
      rw (e, full, fill_buffer) refl

  fill-absorb : length s.buffer < 64 → held (work_in (fill_buffer s input)) ≡ absorb (held s) input
  fill-absorb h = elim (Bool-cases (is_empty s.buffer)) [
    | inl e ↦
        ap (λ p. held (work_in p)) (fill_empty e) ∙ work_in-held s input (is_empty-eq s.buffer e)
    | inr e ↦ elim (Bool-cases (leb 64 (length s.buffer + length input))) [
      | inr less ↦
          let short : length s.buffer + length input < 64 = ground arith in
          ap (λ p. held (work_in p)) (fill_short e short)
          ∙ work_in-nothing (record s { buffer = s.buffer ++ input })
          ∙ sym (absorb_short s.state s.buffer input short)
      | inl more ↦
          let enough = leb→le 64 (length s.buffer + length input) more in
          let block = take count input in
          let size = length-take {0} count input in
          ap (λ p. held (work_in p)) (fill_full e h enough)
          ∙ work_in-held (record s { state = compress s.state (s.buffer ++ block); buffer = [] })
              (drop count input) refl
          ∙ ap (λ p. absorb p (drop count input))
              (sym
                (absorb_block s.state s.buffer block (omega (arith, size)) (omega (arith, size))))
          ∙ sym (absorb-append (held s) block (drop count input))
          ∙ ap (absorb (held s)) (take-append-drop count input)
    ]
  ]

update-held :
    (s : Sha256) (input : List ℕ)
    → length s.buffer < 64
    → held (update s input) ≡ absorb (held s) input
unfolding update
update-held s input h =
    fill-absorb (record s { len_bits = (s.len_bits + length input * 8) % 2 ^ 64 }) input h

push-fits : (p : Words × List ℕ) (x : ℕ) → length p.1 < 64 → length (push p x).1 < 64
push-fits (v, buffer) x h = elim (Bool-cases (length (buffer ++ (x ∷ [])) == 64)) [
  | inl e ↦ rw e (omega arith)
  | inr e ↦ rw e (ground (arith, length-append buffer (x ∷ [])))
]

absorb-fits : (p : Words × List ℕ) (xs : List ℕ) → length p.1 < 64 → length (absorb p xs).1 < 64
unfolding absorb
absorb-fits p [] h = h
absorb-fits p (x ∷ xs) h = absorb-fits (push p x) xs (push-fits p x h)

pub update-fits :
    (s : Sha256) (input : List ℕ) → length s.buffer < 64 → length (update s input).buffer < 64
update-fits s input h = rw (ap (λ p. p.1) (update-held s input h)) (absorb-fits (held s) input h)

keep_rest-len : (s : Sha256) (p : Words × List ℕ) → (keep_rest s p).len_bits ≡ s.len_bits
unfolding keep_rest
keep_rest-len s (v, []) = refl
keep_rest-len s (v, x ∷ xs) = refl

fill_buffer-len : (s : Sha256) (input : List ℕ) → (fill_buffer s input).0.len_bits ≡ s.len_bits
unfolding fill_buffer
fill_buffer-len s input = elim (Bool-cases (is_empty s.buffer)) [
  | inl e ↦ rw e refl
  | inr e ↦ rw e (both_branches {A = Sha256} (λ t. t.len_bits ≡ s.len_bits) _ _ _ refl refl)
]

update-len :
    (s : Sha256) (input : List ℕ)
    → (update s input).len_bits ≡ (s.len_bits + length input * 8) % 2 ^ 64
unfolding update work_in
update-len s input =
    let counted = record s { len_bits = (s.len_bits + length input * 8) % 2 ^ 64 } in
    let filled = fill_buffer counted input in
    keep_rest-len filled.0 (whole_blocks (length filled.1) filled.0.state filled.1)
    ∙ fill_buffer-len counted input

hash-eq : (s t : Sha256) → held s ≡ held t → s.len_bits ≡ t.len_bits → s ≡ t
hash-eq s t e l = λ i. record { state = (e i).0; buffer = (e i).1; len_bits = l i }

-- Two pieces of input, taken in one after the other, leave the hash as one piece does, whatever is
-- in the buffer, which holds less than a block.
pub update-append :
    (s : Sha256) (xs ys : List ℕ)
    → length s.buffer < 64
    → update (update s xs) ys ≡ update s (xs ++ ys)
update-append s xs ys h =
    hash-eq (update (update s xs) ys) (update s (xs ++ ys))
      (update-held (update s xs) ys (update-fits s xs h)
        ∙ ap (λ p. absorb p ys) (update-held s xs h)
        ∙ sym (absorb-append (held s) xs ys)
        ∙ sym (update-held s (xs ++ ys) h))
      (omega (
        arith,
        update-len (update s xs) ys,
        update-len s xs,
        update-len s (xs ++ ys),
        length-append {0} xs ys,
      ))
