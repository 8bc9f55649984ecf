-- ===== src/Wire/Bitmap/Bits.antt =====
-- Setting one bit of a bitmap, and testing another.
use sedsnet_cpp.Common.{
  ℕ, zero, suc, ◌*◌, ◌/◌, ◌%◌, ◌^◌, ◌<◌, bit_or, Bool, true, false, not, ◌||◌, List, [], ◌∷◌,
  length, All, ◌==◌, ltb, ltb→lt, ◌≢◌, ◌≡◌, refl, ap, arith,
}
use sedsnet_cpp.Common.Bits.{has_bit, all_below, all_below_sound, bit_or-lt}
use native.Mathlib.Decide.{ℕ_discrete}
use sedsnet_cpp.Common.Words.{IsByte}
use sedsnet_cpp.Wire.Bitmap.{or_at, byte_at, set_bit, test_bit}

abbrev agree : Bool → Bool → Bool
agree true b = b
agree false b = not b

agree→eq : (a b : Bool) → agree a b ≡ true → a ≡ b
agree→eq a b h = ground arith

-- One byte: bit `k` after `b |= 1 << j`.
abbrev one_byte : ℕ → ℕ → ℕ → Bool
unfolding has_bit
one_byte b j k = agree (has_bit (bit_or b (2 ^ j)) (2 ^ k)) (j == k || has_bit b (2 ^ k))

one_byte_table : all_below 256 (λ b. all_below 8 (λ j. all_below 8 (one_byte b j))) ≡ true
unfolding all_below has_bit
one_byte_table = refl

one_byte_lem :
    (b j k : ℕ)
    → b < 256
    → j < 8
    → k < 8
    → has_bit (bit_or b (2 ^ j)) (2 ^ k) ≡ (j == k || has_bit b (2 ^ k))
unfolding has_bit
one_byte_lem b j k hb hj hk = agree→eq _ _ (
    all_below_sound 8 (one_byte b j) k
      (all_below_sound 8 (λ j. all_below 8 (one_byte b j)) j
        (all_below_sound 256 (λ b. all_below 8 (λ j. all_below 8 (one_byte b j))) b one_byte_table
          hb)
        hj)
      hk)

byte_at-or_at_self :
    (bitmap : List ℕ) (i mask : ℕ)
    → i < length bitmap
    → byte_at (or_at bitmap i mask) i ≡ bit_or (byte_at bitmap i) mask
unfolding byte_at or_at
byte_at-or_at_self [] i mask h = elim h [ ]
byte_at-or_at_self (b ∷ bs) zero mask h = refl
byte_at-or_at_self (b ∷ bs) (suc i) mask h = byte_at-or_at_self bs i mask (omega arith)

byte_at-or_at_ne :
    (bitmap : List ℕ) (i k mask : ℕ) → i ≢ k → byte_at (or_at bitmap i mask) k ≡ byte_at bitmap k
unfolding byte_at or_at
byte_at-or_at_ne [] i k mask h = refl
byte_at-or_at_ne (b ∷ bs) zero zero mask h = absurd (h refl)
byte_at-or_at_ne (b ∷ bs) zero (suc k) mask h = refl
byte_at-or_at_ne (b ∷ bs) (suc i) zero mask h = refl
byte_at-or_at_ne (b ∷ bs) (suc i) (suc k) mask h = byte_at-or_at_ne bs i k mask (λ e. h (ap suc e))

byte_at-lt : (bitmap : List ℕ) (i : ℕ) → All IsByte bitmap → byte_at bitmap i < 256
unfolding byte_at
byte_at-lt [] i h = omega arith
byte_at-lt (b ∷ bs) zero h = h.0
byte_at-lt (b ∷ bs) (suc i) h = byte_at-lt bs i h.1

length-or_at : (bitmap : List ℕ) (i mask : ℕ) → length (or_at bitmap i mask) ≡ length bitmap
unfolding or_at
length-or_at [] i mask = refl
length-or_at (b ∷ bs) zero mask = refl
length-or_at (b ∷ bs) (suc i) mask = ap suc (length-or_at bs i mask)

or_at-IsByte :
    (bitmap : List ℕ) (i mask : ℕ)
    → mask < 256
    → All IsByte bitmap
    → All IsByte (or_at bitmap i mask)
unfolding or_at
or_at-IsByte [] i mask hm h = tt
or_at-IsByte (b ∷ bs) zero mask hm h = (bit_or-lt 8 b mask h.0 hm, h.1)
or_at-IsByte (b ∷ bs) (suc i) mask hm h = (h.0, or_at-IsByte bs i mask hm h.1)

mask_table : all_below 8 (λ j. ltb (2 ^ j) 256) ≡ true
unfolding all_below
mask_table = refl

mask-lt : (i : ℕ) → 2 ^ (i % 8) < 256
mask-lt i = ltb→lt _ _ (all_below_sound 8 (λ j. ltb (2 ^ j) 256) (i % 8) mask_table (omega arith))

pub length-set_bit : (bitmap : List ℕ) (i : ℕ) → length (set_bit bitmap i) ≡ length bitmap
unfolding set_bit
length-set_bit bitmap i = length-or_at bitmap (i / 8) (2 ^ (i % 8))

pub set_bit-IsByte : (bitmap : List ℕ) (i : ℕ) → All IsByte bitmap → All IsByte (set_bit bitmap i)
unfolding set_bit
set_bit-IsByte bitmap i = or_at-IsByte bitmap (i / 8) (2 ^ (i % 8)) (mask-lt i)

same_bit : (w i : ℕ) → w / 8 ≡ i / 8 → (w % 8 == i % 8) ≡ (w == i)
same_bit w i e = ground arith

-- After `set_bit` at `w` that bit reads as set, and every other one reads as before.
pub test_bit-set_bit :
    (bitmap : List ℕ) (w i : ℕ)
    → All IsByte bitmap
    → w < length bitmap * 8
    → test_bit (set_bit bitmap w) i ≡ (w == i || test_bit bitmap i)
unfolding set_bit test_bit
test_bit-set_bit bitmap w i bytes h = elim (ℕ_discrete (w / 8) (i / 8)) [
  | yes e ↦
      let same = byte_at-or_at_self bitmap (w / 8) (2 ^ (w % 8)) (omega arith) in
      let here =
        one_byte_lem (byte_at bitmap (i / 8)) (w % 8) (i % 8) (byte_at-lt bitmap (i / 8) bytes)
          (omega arith) (omega arith) in
      rw (← e) (rw same (rw (e, here, same_bit w i e)))
  | no ne ↦ rw (byte_at-or_at_ne bitmap (w / 8) (i / 8) (2 ^ (w % 8)) ne) (ground arith)
]
