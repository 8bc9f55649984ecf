-- ===== src/Wire/Bitmap/RoundTrip.antt =====
-- Reading back an endpoint bitmap.
use sedsnet_cpp.Common.{
  ℕ, zero, suc, ◌+◌, ◌/◌, ◌%◌, ◌^◌, ◌<◌, ◌≤◌, true, false, ◌||◌, List, [], ◌∷◌, map, length, All,
  replicate, contains, some, ltb, if◌then◌else◌, ◌≡◌, refl, ap, ◌∙◌, arith,
}
use native.Mathlib.Decide.{ℕ_discrete}
use sedsnet_cpp.Common.Words.{IsByte}
use sedsnet_cpp.Common.Bits.{has_bit, zero-bit_and}
use sedsnet_cpp.Schema.{Schema, valid_endpoint}
use sedsnet_cpp.Wire.Parse.{Parse, ok, ◌>>=◌}
use sedsnet_cpp.Wire.Ids.{v4_endpoint_id, local_endpoint_id, local_user_endpoint}
use sedsnet_cpp.Wire.Bitmap.{
  byte_at, set_bit, test_bit, v4_bitmap_loop, v4_endpoint_bitmap, push_some, parse_v4_loop,
  parse_v4_bitmap,
}
use sedsnet_cpp.Wire.Bitmap.Bits.{length-set_bit, set_bit-IsByte, test_bit-set_bit}

-- An endpoint that the runtime numbering gives an id of its own within the bitmap.
pub record IsRuntimeEndpoint (s : Schema) (ep : ℕ) : Type 0 where
  pub valid : valid_endpoint s ep ≡ true
  pub least : 100 ≤ ep
  pub most : ep < 256

abbrev pub IsAscending : ℕ → List ℕ → Type 0
IsAscending n [] = Unit {0}
IsAscending n (ep ∷ eps) = (n ≤ ep) × IsAscending (suc ep) eps

v4_endpoint_id-runtime : (s : Schema) (ep : ℕ) → 100 ≤ ep → v4_endpoint_id s ep ≡ ep
unfolding v4_endpoint_id
v4_endpoint_id-runtime s ep h = ground arith

local_endpoint_id-runtime :
    (s : Schema) (ep : ℕ) → IsRuntimeEndpoint s ep → local_endpoint_id s ep ≡ ok (some ep)
unfolding local_endpoint_id local_user_endpoint
local_endpoint_id-runtime s ep v = rw v.valid (ground arith)

length-v4_bitmap_loop :
    (s : Schema) (bitmap eps : List ℕ) → length (v4_bitmap_loop s bitmap eps) ≡ length bitmap
unfolding v4_bitmap_loop
length-v4_bitmap_loop s bitmap [] = refl
length-v4_bitmap_loop s bitmap (ep ∷ eps) =
    let wire = v4_endpoint_id s ep in
    length-v4_bitmap_loop s (if ltb wire 256 then set_bit bitmap wire else bitmap) eps
    ∙ ground (arith, length-set_bit bitmap wire)

pub length-v4_endpoint_bitmap : (s : Schema) (eps : List ℕ) → length (v4_endpoint_bitmap s eps) ≡ 32
unfolding v4_endpoint_bitmap
length-v4_endpoint_bitmap s eps = length-v4_bitmap_loop s (replicate 32 0) eps

v4_bitmap_loop-test :
    (s : Schema) (bitmap eps : List ℕ) (i : ℕ)
    → All IsByte bitmap
    → length bitmap ≡ 32
    → i < 256
    → test_bit (v4_bitmap_loop s bitmap eps) i
      ≡ (contains (map (v4_endpoint_id s) eps) i || test_bit bitmap i)
unfolding v4_bitmap_loop
v4_bitmap_loop-test s bitmap [] i bytes len h = refl
v4_bitmap_loop-test s bitmap (ep ∷ eps) i bytes len h =
    let wire = v4_endpoint_id s ep in
    let next = set_bit bitmap wire in
    ground (
      arith,
      v4_bitmap_loop-test s next eps i (set_bit-IsByte bitmap wire bytes)
          (length-set_bit bitmap wire ∙ len) h,
      v4_bitmap_loop-test s bitmap eps i bytes len h,
      test_bit-set_bit bitmap wire i bytes,
    )

zeros-IsByte : (n : ℕ) → All IsByte (replicate n 0)
zeros-IsByte zero = tt
zeros-IsByte (suc n) = (omega arith, zeros-IsByte n)

byte_at-zeros : (n i : ℕ) → byte_at (replicate n 0) i ≡ 0
unfolding byte_at
byte_at-zeros zero i = refl
byte_at-zeros (suc n) zero = refl
byte_at-zeros (suc n) (suc i) = byte_at-zeros n i

test_bit-zeros : (n i : ℕ) → test_bit (replicate n 0) i ≡ false
unfolding test_bit has_bit
test_bit-zeros n i = rw (byte_at-zeros n (i / 8), zero-bit_and (2 ^ (i % 8)))

-- A bit below 256 of the bitmap is set exactly if some endpoint of the list has it for its wire
-- id.
v4_endpoint_bitmap-test :
    (s : Schema) (eps : List ℕ) (i : ℕ)
    → i < 256
    → test_bit (v4_endpoint_bitmap s eps) i ≡ contains (map (v4_endpoint_id s) eps) i
unfolding v4_endpoint_bitmap
v4_endpoint_bitmap-test s eps i h =
    v4_bitmap_loop-test s (replicate 32 0) eps i (zeros-IsByte 32) refl h
    ∙ rw (test_bit-zeros 32 i) (ground arith)

map-runtime :
    (s : Schema) (eps : List ℕ) → All (IsRuntimeEndpoint s) eps → map (v4_endpoint_id s) eps ≡ eps
map-runtime s [] v = refl
map-runtime s (ep ∷ eps) v = rw (v4_endpoint_id-runtime s ep v.0.least, map-runtime s eps v.1)

not-contains : (n i : ℕ) (eps : List ℕ) → i < n → IsAscending n eps → contains eps i ≡ false
not-contains n i [] h a = refl
not-contains n i (ep ∷ eps) h a = ground (arith, not-contains (suc ep) i eps (omega arith) a.1)

IsAscending-mono : (n m : ℕ) (eps : List ℕ) → n ≤ m → IsAscending m eps → IsAscending n eps
IsAscending-mono n m [] h a = tt
IsAscending-mono n m (ep ∷ eps) h a = (omega arith, a.1)

-- The loop from bit `i` on, over a bitmap that holds the bits of the list from there on.
module _ (s : Schema) (bitmap : List ℕ) where
  abbrev Holds : List ℕ → ℕ → Type 0
  Holds eps i = (j : ℕ) → i ≤ j → j < 256 → test_bit bitmap j ≡ contains eps j

  parse_v4_loop-Holds :
      (n i : ℕ) (eps : List ℕ)
      → i + n ≡ 256
      → IsAscending i eps
      → All (IsRuntimeEndpoint s) eps
      → Holds eps i
      → parse_v4_loop s bitmap n i ≡ ok eps
  unfolding parse_v4_loop push_some
  parse_v4_loop-Holds zero i [] e a v h = refl
  parse_v4_loop-Holds zero i (ep ∷ eps) e a v h = let top = v.0.most in absurd (omega arith)
  parse_v4_loop-Holds (suc n) i [] e a v h =
      rw (h i (omega arith) (omega arith))
        (parse_v4_loop-Holds n (i + 1) [] (omega arith) tt tt (λ j p q. h j (omega arith) q))
  parse_v4_loop-Holds (suc n) i (ep ∷ eps) e a v h = elim (ℕ_discrete i ep) [
    | yes here ↦
        let tail : Holds eps (i + 1) = λ j p q. h j (omega arith) q ∙ ground arith in
        let local : local_endpoint_id s i ≡ ok (some ep) =
          rw here (local_endpoint_id-runtime s ep v.0) in
        let found : contains (ep ∷ eps) i ≡ true = ground arith in
        rw (h i (omega arith) (omega arith), found, local)
          (ap (λ (later : Parse (List ℕ)). later >>= λ t. ok (ep ∷ t))
            (parse_v4_loop-Holds n (i + 1) eps (omega arith)
              (IsAscending-mono (i + 1) (suc ep) eps (omega arith) a.1) v.1 tail))
    | no later ↦
        let absent : contains (ep ∷ eps) i ≡ false =
          not-contains (suc i) i (ep ∷ eps) (omega arith) (omega arith, a.1) in
        rw (h i (omega arith) (omega arith), absent)
          (parse_v4_loop-Holds n (i + 1) (ep ∷ eps) (omega arith) (omega arith, a.1) v
            (λ j p q. h j (omega arith) q))
  ]

-- A bitmap of endpoints in ascending order, all of the runtime numbering, parses to that list.
pub parse_v4_bitmap-v4_endpoint_bitmap :
    (s : Schema) (eps : List ℕ)
    → IsAscending 0 eps
    → All (IsRuntimeEndpoint s) eps
    → parse_v4_bitmap s (v4_endpoint_bitmap s eps) ≡ ok eps
unfolding parse_v4_bitmap
parse_v4_bitmap-v4_endpoint_bitmap s eps a v = rw (length-v4_endpoint_bitmap s eps) (
    parse_v4_loop-Holds s (v4_endpoint_bitmap s eps) 256 0 eps (omega arith) a v
      (λ j p q. v4_endpoint_bitmap-test s eps j q ∙ rw (map-runtime s eps v)))
