-- ===== src/Wire/Bitmap.antt =====
-- src/serialize.cpp: endpoint sets as bitmaps, in the v4 layout and in the legacy one.
pub mod Bits
pub mod RoundTrip
use sedsnet_cpp.Common.{
  ℕ, zero, suc, ◌+◌, ◌-◌, ◌*◌, ◌/◌, ◌%◌, ◌^◌, bit_or, Bool, Option, none, some, List, [], ◌∷◌,
  length, replicate, ltb, if◌then◌else◌,
}
use sedsnet_cpp.Common.Bits.{has_bit}
use sedsnet_cpp.Schema.{Schema, valid_endpoint}
use sedsnet_cpp.Wire.Ids.{v4_endpoint_id, local_endpoint_id}
use sedsnet_cpp.Wire.Parse.{Parse, ok, ◌>>=◌}
use Prim.Native.Nat.{min}

-- `kV4EndpointBitmapBytes`
abbrev pub v4_bitmap_bytes : ℕ
v4_bitmap_bytes = 32

-- `bitmap[i] |= mask`
unfoldable pub or_at : List ℕ → ℕ → ℕ → List ℕ
or_at [] i mask = []
or_at (b ∷ bs) zero mask = bit_or b mask ∷ bs
or_at (b ∷ bs) (suc i) mask = b ∷ or_at bs i mask

-- `bitmap[i]`, read only within the bitmap.
unfoldable pub byte_at : List ℕ → ℕ → ℕ
byte_at [] i = 0
byte_at (b ∷ bs) zero = b
byte_at (b ∷ bs) (suc i) = byte_at bs i

-- `bitmap[i / 8] |= static_cast<uint8_t>(1u << (i % 8))`
unfoldable pub set_bit : List ℕ → ℕ → List ℕ
unfolding or_at
set_bit bitmap i = or_at bitmap (i / 8) (2 ^ (i % 8))

-- `(bitmap[i / 8] & (1u << (i % 8))) != 0u`
unfoldable pub test_bit : List ℕ → ℕ → Bool
unfolding byte_at has_bit
test_bit bitmap i = has_bit (byte_at bitmap (i / 8)) (2 ^ (i % 8))

unfoldable pub v4_bitmap_loop : Schema → List ℕ → List ℕ → List ℕ
unfolding set_bit
v4_bitmap_loop s bitmap [] = bitmap
v4_bitmap_loop s bitmap (ep ∷ eps) =
    let wire = v4_endpoint_id s ep in
    v4_bitmap_loop s (if ltb wire (v4_bitmap_bytes * 8) then set_bit bitmap wire else bitmap) eps

unfoldable pub v4_endpoint_bitmap : Schema → List ℕ → List ℕ
unfolding v4_bitmap_loop
v4_endpoint_bitmap s endpoints = v4_bitmap_loop s (replicate v4_bitmap_bytes 0) endpoints

unfoldable pub push_some : Option ℕ → List ℕ → List ℕ
push_some none out = out
push_some (some local) out = local ∷ out

-- `for (i = from; i < from + count; ++i)`, the first argument counting the rounds left.
unfoldable pub parse_v4_loop : Schema → List ℕ → ℕ → ℕ → Parse (List ℕ)
unfolding test_bit push_some local_endpoint_id
parse_v4_loop s bitmap zero i = ok []
parse_v4_loop s bitmap (suc n) i =
    let later = parse_v4_loop s bitmap n (i + 1) in
    if test_bit bitmap i
    then (do local ← local_endpoint_id s i; rest ← later; ok (push_some local rest))
    else later

unfoldable pub parse_v4_bitmap : Schema → List ℕ → Parse (List ℕ)
unfolding parse_v4_loop
parse_v4_bitmap s bitmap = parse_v4_loop s bitmap (length bitmap * 8) 0

unfoldable pub endpoint_bitmap_bytes : Schema → ℕ
endpoint_bitmap_bytes s = (length s.endpoint_names + 7) / 8

unfoldable pub endpoint_bitmap_loop : Schema → List ℕ → List ℕ → List ℕ
unfolding set_bit valid_endpoint
endpoint_bitmap_loop s bitmap [] = bitmap
endpoint_bitmap_loop s bitmap (ep ∷ eps) =
    endpoint_bitmap_loop s (if valid_endpoint s ep then set_bit bitmap ep else bitmap) eps

unfoldable pub endpoint_bitmap : Schema → List ℕ → List ℕ
unfolding endpoint_bitmap_loop endpoint_bitmap_bytes
endpoint_bitmap s endpoints =
    endpoint_bitmap_loop s (replicate (endpoint_bitmap_bytes s) 0) endpoints

unfoldable pub parse_loop : List ℕ → ℕ → ℕ → List ℕ
unfolding test_bit
parse_loop bitmap zero i = []
parse_loop bitmap (suc n) i =
    let rest = parse_loop bitmap n (i + 1) in if test_bit bitmap i then i ∷ rest else rest

unfoldable pub parse_bitmap : Schema → List ℕ → List ℕ
unfolding parse_loop
parse_bitmap s bitmap = parse_loop bitmap (min (length bitmap * 8) (length s.endpoint_names)) 0
