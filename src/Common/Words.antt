-- ===== src/Common/Words.antt =====
-- Fixed-width words as native numbers, and little-endian bytes.
use Prim.Native.Nat.{ℕ, zero, suc, ◌+◌, ◌*◌, ◌/◌, ◌%◌, ◌^◌, ◌≤◌, ◌<◌}
use mathlib.Core.Path.{◌≡◌, refl, sym, ap, ◌∙◌}
use mathlib.Core.List.{List, [], ◌∷◌, ◌++◌}
use mathlib.Core.Option.{Option, none, some}
use native.Mathlib.Omega.{arith}
use sedsnet_cpp.Common.Lists.{length, All, drop, take}

abbrev pub IsByte : ℕ → Type 0
IsByte b = b < 256

abbrev pub IsU32 : ℕ → Type 0
IsU32 v = v < 2 ^ 32

abbrev pub IsU64 : ℕ → Type 0
IsU64 v = v < 2 ^ 64

-- `append_le`: the `n` bytes of a value in memory order, lowest first.
unfoldable pub append_le : ℕ → ℕ → List ℕ
append_le zero v = []
append_le (suc n) v = v % 256 ∷ append_le n (v / 256)

-- `std::memcpy` of `n` bytes into an integer; `none` where fewer bytes are left.
unfoldable pub read_le : ℕ → List ℕ → Option (ℕ × List ℕ)
read_le zero bytes = some (0, bytes)
read_le (suc n) [] = none
read_le (suc n) (b ∷ bytes) = elim (read_le n bytes) [
  | none ↦ none
  | some (v, rest) ↦ some (b + 256 * v, rest)
]

pub length-append_le : (n v : ℕ) → length (append_le n v) ≡ n
unfolding append_le
length-append_le zero v = refl
length-append_le (suc n) v = omega (arith, length-append_le n (v / 256))

pub append_le-IsByte : (n v : ℕ) → All IsByte (append_le n v)
unfolding append_le
append_le-IsByte zero v = tt
append_le-IsByte (suc n) v = (omega arith, append_le-IsByte n (v / 256))

pub read_le-append_le :
    (n v : ℕ) (rest : List ℕ) → v < 256 ^ n → read_le n (append_le n v ++ rest) ≡ some (v, rest)
unfolding append_le read_le
read_le-append_le zero v rest h = ground arith
read_le-append_le (suc n) v rest h =
    ground (arith, read_le-append_le n (v / 256) rest (omega arith))

-- Enough bytes are read, and the rest is shorter by as many.
pub read_le_total :
    (n : ℕ) (bytes : List ℕ)
    → n ≤ length bytes
    → (v : ℕ) × (rest : List ℕ) × (read_le n bytes ≡ some (v, rest))
      × (length rest + n ≡ length bytes)
unfolding read_le
read_le_total zero bytes h = (0, bytes, refl, omega arith)
read_le_total (suc n) [] h = absurd (omega arith)
read_le_total (suc n) (b ∷ bytes) h =
    let (v, rest, e, len) = read_le_total n bytes (omega arith) in
    (b + 256 * v, rest, rw e, omega arith)

value_or_zero : Option (ℕ × List ℕ) → ℕ
value_or_zero none = 0
value_or_zero (some (v, rest)) = v

-- The integer of `n` bytes at an offset, where the caller has tested that they are there.
unfoldable pub le_at : ℕ → ℕ → List ℕ → ℕ
unfolding value_or_zero
le_at n off bytes = value_or_zero (read_le n (drop off bytes))

-- A field that was written is read back, wherever the bytes before it end.
pub le_at-append_le :
    (n off v : ℕ) (bytes rest : List ℕ)
    → drop off bytes ≡ append_le n v ++ rest
    → v < 256 ^ n
    → le_at n off bytes ≡ v
unfolding le_at
le_at-append_le n off v bytes rest e h =
    ap (λ cur. value_or_zero (read_le n cur)) e ∙ ap value_or_zero (read_le-append_le n v rest h)

-- Bytes that are read and written again are the same.
append_le-read_le :
    (n : ℕ) (bytes : List ℕ)
    → All IsByte bytes
    → n ≤ length bytes
    → append_le n (value_or_zero (read_le n bytes)) ≡ take n bytes
unfolding append_le read_le value_or_zero
append_le-read_le zero bytes p h = refl
append_le-read_le (suc n) [] p h = absurd (omega arith)
append_le-read_le (suc n) (b ∷ bytes) p h =
    let (v, rest, e, len) = read_le_total n bytes (omega arith) in
    let low : (b + 256 * v) % 256 ≡ b = omega arith in
    let high : (b + 256 * v) / 256 ≡ v = omega arith in
    let back : append_le n v ≡ take n bytes =
      ap (λ r. append_le n (value_or_zero r)) (sym e)
      ∙ append_le-read_le n bytes p.1 (omega arith) in
    rw e (rw (low, high, back) refl)

pub append_le-le_at :
    (n off : ℕ) (bytes : List ℕ)
    → All IsByte (drop off bytes)
    → n ≤ length (drop off bytes)
    → append_le n (le_at n off bytes) ≡ take n (drop off bytes)
unfolding le_at
append_le-le_at n off bytes p h = append_le-read_le n (drop off bytes) p h
