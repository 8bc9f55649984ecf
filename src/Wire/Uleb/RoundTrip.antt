-- ===== src/Wire/Uleb/RoundTrip.antt =====
-- What `read_uleb128` makes of the bytes of `write_uleb128`, and of any other bytes.
use sedsnet_cpp.Common.{
  ℕ, zero, suc, ◌+◌, ◌*◌, ◌/◌, ◌%◌, ◌^◌, ◌≤◌, ◌<◌, bit_and, bit_or, List, [], ◌∷◌, ◌++◌, some, ◌==◌,
  ◌≡◌, refl, ap, arith, All, length, ◌∙◌, true,
}
use sedsnet_cpp.Common.Bits.{
  bit_or-shifted, bit_or-lt, low_seven, top_bit, all_below, all_below_sound,
}
use sedsnet_cpp.Common.Words.{IsByte, IsU64}
use sedsnet_cpp.Common.{==_iff}
use sedsnet_cpp.Wire.Uleb.{write_rounds, write_uleb128, read_rounds, read_uleb128}
use native.Mathlib.Nat.{div-add-mod, pow-suc}
use native.Mathlib.Decide.{dec_lt}
use native.Mathlib.Numerals.{towards_suc}

set_top_table : all_below 128 (λ b. bit_or b 0x80 == b + 128) ≡ true
unfolding all_below
set_top_table = refl

set_top : (b : ℕ) → b < 128 → bit_or b 0x80 ≡ b + 128
set_top b h = (==_iff _ _).0 (all_below_sound 128 _ b set_top_table h)

pow-add-seven : (s : ℕ) → 2 ^ (s + 7) ≡ 128 * 2 ^ s
pow-add-seven s = simp towards_suc (omega arith)

-- The seven lowest bits of `v` and the rest, both moved up by `s`.
split_low : (v s : ℕ) → v * 2 ^ s ≡ v % 128 * 2 ^ s + v / 128 * 2 ^ (s + 7)
split_low v s = omega (
  arith,
  ap (λ (t : ℕ). t * 2 ^ s) (div-add-mod v 128),
  ap (λ (t : ℕ). v / 128 * t) (pow-add-seven s),
)

-- What one round of the reader adds to `out`.
add_group :
    (byte out s : ℕ)
    → byte < 256
    → out < 2 ^ s
    → out + byte % 128 * 2 ^ s < 2 ^ 64
    → bit_or out (bit_and byte 0x7f * 2 ^ s % 2 ^ 64) ≡ out + byte % 128 * 2 ^ s
add_group byte out s hb low fits =
    let whole : byte % 128 * 2 ^ s % 2 ^ 64 ≡ byte % 128 * 2 ^ s = omega arith in
    rw (low_seven byte hb, whole) (bit_or-shifted s out (byte % 128) low)

read_last :
    (n g out s : ℕ) (rest : List ℕ)
    → g < 128
    → out < 2 ^ s
    → out + g * 2 ^ s < 2 ^ 64
    → read_rounds (suc n) (g ∷ rest) out s ≡ some (out + g * 2 ^ s, rest)
unfolding read_rounds
read_last n g out s rest hg low fits =
    let small : g % 128 ≡ g = omega arith in
    let fits' : out + g % 128 * 2 ^ s < 2 ^ 64 = rw small fits in
    ground (arith, small, add_group g out s (omega arith) low fits', top_bit g)

read_inner :
    (n g out s : ℕ) (rest : List ℕ)
    → g < 128
    → out < 2 ^ s
    → out + g * 2 ^ s < 2 ^ 64
    → read_rounds (suc n) ((g + 128) ∷ rest) out s ≡ read_rounds n rest (out + g * 2 ^ s) (s + 7)
unfolding read_rounds
read_inner n g out s rest hg low fits =
    let small : (g + 128) % 128 ≡ g = omega arith in
    let fits' : out + (g + 128) % 128 * 2 ^ s < 2 ^ 64 = rw small fits in
    ground (arith, small, add_group (g + 128) out s (omega arith) low fits', top_bit (g + 128))

-- The next round finds `out` below its own shift.
out_fits : (g out s : ℕ) → g < 128 → out < 2 ^ s → out + g * 2 ^ s < 2 ^ (s + 7)
out_fits g out s hg low = rw (pow-add-seven s) (grind arith)

write_last : (k v : ℕ) → v < 128 → write_rounds (suc k) v ≡ v ∷ []
unfolding write_rounds
write_last k v h = ground (arith, low_seven v)

write_inner :
    (k v : ℕ) → 128 ≤ v → write_rounds (suc k) v ≡ (v % 128 + 128) ∷ write_rounds k (v / 128)
unfolding write_rounds
write_inner k v h =
    ground (arith, low_seven (v % 256) (omega arith), set_top (v % 256 % 128) (omega arith))

read-write_rounds :
    (k v out s : ℕ) (rest : List ℕ)
    → v < 128 ^ suc k
    → out < 2 ^ s
    → out + v * 2 ^ s < 2 ^ 64
    → read_rounds (suc k) (write_rounds (suc k) v ++ rest) out s ≡ some (out + v * 2 ^ s, rest)
read-write_rounds zero v out s rest hv low fits =
    rw (write_last 0 v (omega arith)) (read_last 0 v out s rest (omega arith) low fits)
read-write_rounds (suc k) v out s rest hv low fits = elim (dec_lt v 128) [
  | yes short ↦ rw (write_last (suc k) v short) (read_last (suc k) v out s rest short low fits)
  | no long ↦
      let parts = split_low v s in
      rw
        (
          write_inner (suc k) v (omega arith),
          read_inner (suc k) (v % 128) out s (write_rounds (suc k) (v / 128) ++ rest) (omega arith)
              low (omega arith),
          read-write_rounds k (v / 128) (out + v % 128 * 2 ^ s) (s + 7) rest
              (omega (arith, pow-suc 128 (suc k))) (out_fits (v % 128) out s (omega arith) low)
              (omega arith),
        )
        (ap (λ (t : ℕ). some (t, rest)) (omega arith))
]

-- `read_uleb128` takes back the uint64_t that `write_uleb128` wrote, and stops behind it.
pub read_uleb128-write_uleb128 :
    (v : ℕ) (rest : List ℕ) → IsU64 v → read_uleb128 (write_uleb128 v ++ rest) ≡ some (v, rest)
unfolding read_uleb128 write_uleb128
read_uleb128-write_uleb128 v rest h =
    read-write_rounds 9 v 0 0 rest (omega arith) (omega arith) (omega arith)
    ∙ ap (λ (t : ℕ). some (t, rest)) (omega arith)

write_rounds_shape :
    (k v : ℕ)
    → All IsByte (write_rounds (suc k) v)
      × (1 ≤ length (write_rounds (suc k) v))
      × (length (write_rounds (suc k) v) ≤ suc k)
write_rounds_shape zero v = elim (dec_lt v 128) [
  | yes short ↦ rw (write_last 0 v short) (omega arith)
  | no long ↦ rw (write_inner 0 v (omega arith)) (unfold write_rounds in omega arith)
]
write_rounds_shape (suc k) v = elim (dec_lt v 128) [
  | yes short ↦ rw (write_last (suc k) v short) (omega arith)
  | no long ↦
      let (bytes, least, most) = write_rounds_shape k (v / 128) in
      rw (write_inner (suc k) v (omega arith)) ((omega arith, bytes), omega arith, omega arith)
]

-- `write_uleb128` writes one to ten bytes.
write_uleb128_shape :
    (v : ℕ)
    → All IsByte (write_uleb128 v)
      × (1 ≤ length (write_uleb128 v))
      × (length (write_uleb128 v) ≤ 10)
unfolding write_uleb128
write_uleb128_shape v = write_rounds_shape 9 v

group_bound : (byte : ℕ) (s : ℕ) → bit_and byte 0x7f * 2 ^ s % 2 ^ 64 < 2 ^ 64
group_bound byte s = omega arith

read_rounds_takes :
    (n : ℕ) (cur : List ℕ) (out s v : ℕ) (rest : List ℕ)
    → out < 2 ^ 64
    → read_rounds n cur out s ≡ some (v, rest)
    → IsU64 v × (length rest < length cur) × (length cur ≤ length rest + n)
unfolding read_rounds
read_rounds_takes zero cur out s v rest h e = cc
read_rounds_takes (suc n) [] out s v rest h e = cc
read_rounds_takes (suc n) (byte ∷ cur) out s v rest h e =
    let next = bit_or out (bit_and byte 0x7f * 2 ^ s % 2 ^ 64) in
    ground (
      arith,
      bit_or-lt 64 out (bit_and byte 0x7f * 2 ^ s % 2 ^ 64) h (group_bound byte s),
      read_rounds_takes n cur next (s + 7) v rest,
    )

-- On any bytes, a successful read yields a uint64_t and takes one to ten bytes.
read_uleb128_takes :
    (cur : List ℕ) (v : ℕ) (rest : List ℕ)
    → read_uleb128 cur ≡ some (v, rest)
    → IsU64 v × (length rest < length cur) × (length cur ≤ length rest + 10)
unfolding read_uleb128
read_uleb128_takes cur v rest e = read_rounds_takes 10 cur 0 0 v rest (omega arith) e
