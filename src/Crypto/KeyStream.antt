-- ===== src/Crypto/KeyStream.antt =====
-- src/upstream_api_compat.cpp: the key stream of the software cipher, applied twice, leaves the
-- bytes as they were.
use sedsnet_cpp.Common.{
  ℕ, zero, suc, ◌+◌, ◌%◌, ◌^◌, ◌≤◌, ◌<◌, bit_xor, false, List, [], ◌∷◌, ◌++◌, length, take, drop,
  is_empty, All, if◌then◌else◌, ltb, Bool-cases, ltb→lt, length-append, length-take, length-drop,
  take_front, drop_front, take-append-drop, ◌≡◌, ◌⊎◌, inl, inr, refl, sym, ap, ◌∙◌, arith,
}
use sedsnet_cpp.Common.Xor.{bit_xor-lt, bit_xor_undo}
use sedsnet_cpp.Common.Words.{IsByte}
use sedsnet_cpp.Crypto.Hmac.{xor_block, stream_loop, stream_block, apply_hmac_stream}
use sedsnet_cpp.Crypto.Masking.{
  All-take, All-drop, All-append, hmac_sha256-length, hmac_sha256-IsByte,
}

xor_block-length : (xs bs : List ℕ) → length xs ≤ length bs → length (xor_block xs bs) ≡ length xs
unfolding xor_block
xor_block-length [] bs h = refl
xor_block-length (x ∷ xs) [] h = absurd (omega arith)
xor_block-length (x ∷ xs) (b ∷ bs) h = ap suc (xor_block-length xs bs (omega arith))

xor_block_undo :
    (xs bs : List ℕ)
    → length xs ≤ length bs
    → All IsByte xs
    → All IsByte bs
    → xor_block (xor_block xs bs) bs ≡ xs
unfolding xor_block
xor_block_undo [] bs h p q = refl
xor_block_undo (x ∷ xs) [] h p q = absurd (omega arith)
xor_block_undo (x ∷ xs) (b ∷ bs) h p q =
    let first : bit_xor (bit_xor x b) b ≡ x = bit_xor_undo 8 x b (omega arith) (omega arith) in
    ap (λ y. y ∷ xor_block (xor_block xs bs) bs) first
    ∙ ap (λ ys. x ∷ ys) (xor_block_undo xs bs (omega arith) p.1 q.1)

xor_block-IsByte : (xs bs : List ℕ) → All IsByte xs → All IsByte bs → All IsByte (xor_block xs bs)
unfolding xor_block
xor_block-IsByte [] bs p q = tt
xor_block-IsByte (x ∷ xs) [] p q = tt
xor_block-IsByte (x ∷ xs) (b ∷ bs) p q =
    let first : bit_xor x b < 256 = bit_xor-lt 8 x b (omega arith) (omega arith) in
    (first, xor_block-IsByte xs bs p.1 q.1)

is_empty_nonzero {ℓ} : {A : Type ℓ} → (xs : List A) → 0 < length xs → is_empty xs ≡ false
is_empty_nonzero [] h = absurd (omega arith)
is_empty_nonzero (x ∷ xs) h = refl

take_short {ℓ} :
    {A : Type ℓ}
    → (n : ℕ) (xs : List A) → length xs ≤ n
    → (take n (xs ++ []) ≡ xs) × (drop n (xs ++ []) ≡ [])
take_short zero [] h = (refl, refl)
take_short zero (x ∷ xs) h = absurd (omega arith)
take_short (suc n) [] h = (refl, refl)
take_short (suc n) (x ∷ xs) h =
    let rest = take_short n xs (omega arith) in (ap (λ ys. x ∷ ys) rest.0, rest.1)

drop_short {ℓ} : {A : Type ℓ} → (n : ℕ) (xs : List A) → length xs ≤ n → drop n xs ≡ []
drop_short zero [] h = refl
drop_short zero (x ∷ xs) h = absurd (omega arith)
drop_short (suc n) [] h = refl
drop_short (suc n) (x ∷ xs) h = drop_short n xs (omega arith)

-- A block comes off the front: it is full, or nothing follows it.
take_block {ℓ} :
    {A : Type ℓ}
    → (n : ℕ) (xs ys : List A) → (length xs ≡ n) ⊎ ((length xs ≤ n) × (ys ≡ []))
    → (take n (xs ++ ys) ≡ xs) × (drop n (xs ++ ys) ≡ ys)
take_block n xs ys (inl full) = (
  ap (λ m. take m (xs ++ ys)) (sym full) ∙ take_front xs ys,
  ap (λ m. drop m (xs ++ ys)) (sym full) ∙ drop_front xs ys,
)
take_block n xs [] (inr (short, last)) = take_short n xs short
take_block n xs (y ∷ ys) (inr (short, last)) = absurd (omega (arith, ap length last))

module _ (block : ℕ → List ℕ) (full : (n : ℕ) → length (block n) ≡ 32)
    (bytes : (n : ℕ) → All IsByte (block n)) where
  stream_loop-nil : (fuel counter : ℕ) → stream_loop block fuel counter [] ≡ []
  unfolding stream_loop
  stream_loop-nil zero counter = refl
  stream_loop-nil (suc fuel) counter = refl

  masked-length :
      (counter : ℕ) (xs : List ℕ)
      → length (xor_block (take 32 xs) (block counter)) ≡ length (take 32 xs)
  masked-length counter xs =
      xor_block-length (take 32 xs) (block counter) (omega (arith, full counter, length-take 32 xs))

  stream_loop-length :
      (fuel counter : ℕ) (xs : List ℕ)
      → length xs ≤ fuel
      → length (stream_loop block fuel counter xs) ≡ length xs
  unfolding stream_loop
  stream_loop-length zero counter [] h = refl
  stream_loop-length zero counter (x ∷ xs) h = absurd (omega arith)
  stream_loop-length (suc fuel) counter [] h = refl
  stream_loop-length (suc fuel) counter (x ∷ xs) h =
      let next = (counter + 1) % 2 ^ 64 in
      let rest = drop 32 (x ∷ xs) in
      omega (
        arith,
        length-append (xor_block (take 32 (x ∷ xs)) (block counter))
            (stream_loop block fuel next rest),
        masked-length counter (x ∷ xs),
        length-take 32 (x ∷ xs),
        length-drop 32 (x ∷ xs),
        stream_loop-length fuel next rest (omega (arith, length-drop 32 (x ∷ xs))),
      )

  stream_loop-IsByte :
      (fuel counter : ℕ) (xs : List ℕ)
      → All IsByte xs
      → All IsByte (stream_loop block fuel counter xs)
  unfolding stream_loop
  stream_loop-IsByte zero counter xs p = tt
  stream_loop-IsByte (suc fuel) counter [] p = tt
  stream_loop-IsByte (suc fuel) counter (x ∷ xs) p =
      All-append IsByte (xor_block (take 32 (x ∷ xs)) (block counter)) _
        (xor_block-IsByte (take 32 (x ∷ xs)) (block counter) (All-take IsByte 32 (x ∷ xs) p)
          (bytes counter))
        (stream_loop-IsByte fuel _ (drop 32 (x ∷ xs)) (All-drop IsByte 32 (x ∷ xs) p))

  loop_joined :
      (fuel counter : ℕ) (xs ys : List ℕ)
      → 0 < length (xs ++ ys)
      → (take 32 (xs ++ ys) ≡ xs) × (drop 32 (xs ++ ys) ≡ ys)
      → stream_loop block (suc fuel) counter (xs ++ ys)
        ≡ xor_block xs (block counter) ++ stream_loop block fuel ((counter + 1) % 2 ^ 64) ys
  unfolding stream_loop
  loop_joined fuel counter xs ys h (front, back) =
      let next = (counter + 1) % 2 ^ 64 in
      let both : List ℕ → List ℕ → List ℕ =
        λ a b. xor_block a (block counter) ++ stream_loop block fuel next b in
      ap (λ b. if b then [] else both (take 32 (xs ++ ys)) (drop 32 (xs ++ ys)))
        (is_empty_nonzero (xs ++ ys) h)
      ∙ ap (λ a. both a (drop 32 (xs ++ ys))) front
      ∙ ap (both xs) back

  -- What follows a block of 32 bytes that is not full is nothing.
  block_is_full :
      (fuel counter : ℕ) (xs : List ℕ)
      → (length (xor_block (take 32 xs) (block counter)) ≡ 32)
        ⊎ ((length (xor_block (take 32 xs) (block counter)) ≤ 32)
            × (stream_loop block fuel ((counter + 1) % 2 ^ 64) (drop 32 xs) ≡ []))
  block_is_full fuel counter xs = elim (Bool-cases (ltb (length xs) 32)) [
    | inl few ↦
        let short = ltb→lt (length xs) 32 few in
        inr (
          omega (arith, masked-length counter xs, length-take 32 xs),
          ap (stream_loop block fuel ((counter + 1) % 2 ^ 64)) (drop_short 32 xs (omega arith))
              ∙ stream_loop-nil fuel ((counter + 1) % 2 ^ 64),
        )
    | inr many ↦
        let enough : 32 ≤ length xs = ground arith in
        inl (omega (arith, masked-length counter xs, length-take 32 xs))
  ]

  stream_loop_undo :
      (fuel counter : ℕ) (xs : List ℕ)
      → length xs ≤ fuel
      → All IsByte xs
      → stream_loop block fuel counter (stream_loop block fuel counter xs) ≡ xs
  unfolding stream_loop
  stream_loop_undo zero counter [] h p = refl
  stream_loop_undo zero counter (x ∷ xs) h p = absurd (omega arith)
  stream_loop_undo (suc fuel) counter [] h p = refl
  stream_loop_undo (suc fuel) counter (x ∷ xs) h p =
      let next = (counter + 1) % 2 ^ 64 in
      let front = take 32 (x ∷ xs) in
      let back = drop 32 (x ∷ xs) in
      let front_lt : length front ≤ length (block counter) =
        omega (arith, full counter, length-take 32 (x ∷ xs)) in
      let masked = xor_block front (block counter) in
      let rest = stream_loop block fuel next back in
      loop_joined fuel counter masked rest
        (omega (
          arith,
          length-append masked rest,
          masked-length counter (x ∷ xs),
          length-take 32 (x ∷ xs),
        ))
        (take_block 32 masked rest (block_is_full fuel counter (x ∷ xs)))
      ∙ ap (λ a. a ++ stream_loop block fuel next rest)
          (xor_block_undo front (block counter) front_lt (All-take IsByte 32 (x ∷ xs) p)
            (bytes counter))
      ∙ ap (λ b. front ++ b)
          (stream_loop_undo fuel next back (omega (arith, length-drop 32 (x ∷ xs)))
            (All-drop IsByte 32 (x ∷ xs) p))
      ∙ take-append-drop 32 (x ∷ xs)

pub apply_hmac_stream-length :
    (key : List ℕ) (key_id : ℕ) (nonce aad input : List ℕ)
    → length (apply_hmac_stream key key_id nonce aad input) ≡ length input
unfolding apply_hmac_stream stream_block
apply_hmac_stream-length key key_id nonce aad input =
    stream_loop-length (stream_block key key_id nonce aad) (λ n. hmac_sha256-length key _)
      (λ n. hmac_sha256-IsByte key _) (length input) 0 input (omega arith)

pub apply_hmac_stream-IsByte :
    (key : List ℕ) (key_id : ℕ) (nonce aad input : List ℕ)
    → All IsByte input
    → All IsByte (apply_hmac_stream key key_id nonce aad input)
unfolding apply_hmac_stream stream_block
apply_hmac_stream-IsByte key key_id nonce aad input h =
    stream_loop-IsByte (stream_block key key_id nonce aad) (λ n. hmac_sha256-length key _)
      (λ n. hmac_sha256-IsByte key _) (length input) 0 input h

pub apply_hmac_stream_undo :
    (key : List ℕ) (key_id : ℕ) (nonce aad input : List ℕ)
    → All IsByte input
    → apply_hmac_stream key key_id nonce aad (apply_hmac_stream key key_id nonce aad input) ≡ input
unfolding apply_hmac_stream stream_block
apply_hmac_stream_undo key key_id nonce aad input h =
    ap
      (λ fuel.
        stream_loop (stream_block key key_id nonce aad) fuel 0
          (apply_hmac_stream key key_id nonce aad input))
      (apply_hmac_stream-length key key_id nonce aad input)
    ∙ stream_loop_undo (stream_block key key_id nonce aad) (λ n. hmac_sha256-length key _)
        (λ n. hmac_sha256-IsByte key _) (length input) 0 input (omega arith) h
