-- ===== src/Wire/Uleb.antt =====
-- src/serialize.cpp: `write_uleb128` and `read_uleb128`.
-- The list that `read_uleb128` takes is the bytes between `cur` and `end`.
pub mod RoundTrip
use sedsnet_cpp.Common.{
  ℕ, zero, suc, ◌+◌, ◌*◌, ◌/◌, ◌%◌, ◌^◌, bit_and, bit_or, List, [], ◌∷◌, Option, none, some, ◌==◌,
  if◌then◌else◌,
}

-- The rounds of the `do … while` loop: `value >>= 7u` leaves nothing of a uint64_t after ten.
unfoldable pub write_rounds : ℕ → ℕ → List ℕ
write_rounds zero value = []
write_rounds (suc n) value =
    let byte = bit_and (value % 256) 0x7f in
    let rest = write_rounds n (value / 128) in
    if value / 128 == 0 then byte ∷ [] else bit_or byte 0x80 ∷ rest

unfoldable pub write_uleb128 : ℕ → List ℕ
unfolding write_rounds
write_uleb128 value = write_rounds 10 value

-- `for (int i = 0; i < 10; ++i)`; the first argument counts the rounds left.
unfoldable pub read_rounds : ℕ → List ℕ → ℕ → ℕ → Option (ℕ × List ℕ)
read_rounds zero cur out shift = none
read_rounds (suc n) [] out shift = none
read_rounds (suc n) (byte ∷ cur) out shift =
    let out' = bit_or out (bit_and byte 0x7f * 2 ^ shift % 2 ^ 64) in
    let more = read_rounds n cur out' (shift + 7) in
    if bit_and byte 0x80 == 0 then some (out', cur) else more

unfoldable pub read_uleb128 : List ℕ → Option (ℕ × List ℕ)
unfolding read_rounds
read_uleb128 cur = read_rounds 10 cur 0 0
