-- ===== src/Wire/Frame/Safety.antt =====
-- Where the frame readers stay within the frame and the tables, and where they do not.
use sedsnet_cpp.Common.{
  ℕ, zero, suc, [], All, Text, text_eq, ◌||◌, ◌⊎◌, ◌*◌, ◌+◌, ◌%◌, ◌^◌, ◌<◌, ◌≤◌, Bool, true, false,
  not, Option, none, some, List, ◌∷◌, ◌++◌, length, leb, ltb, ◌==◌, ==_refl, if◌then◌else◌, ◌≡◌,
  ◌≢◌, refl, arith, take_front, drop_front, length-append, ◌↔◌, Bool-cases, take, drop, inl, inr,
}
use sedsnet_cpp.Common.Bits.{has_bit, all_below, all_below_sound}
use sedsnet_cpp.Common.Words.{IsU64}
use sedsnet_cpp.Schema.{Schema, valid_type, valid_endpoint}
use sedsnet_cpp.Wire.Uleb.{read_uleb128, write_uleb128}
use sedsnet_cpp.Wire.Uleb.RoundTrip.{read_uleb128-write_uleb128}
use sedsnet_cpp.Wire.Ids.{by_name, local_endpoint_id, local_type_id, has_v4_reliable_header}
use sedsnet_cpp.Wire.Bitmap.{
  endpoint_bitmap_bytes, parse_bitmap, parse_v4_loop, parse_v4_bitmap, test_bit,
}
use sedsnet_cpp.Wire.Compress.{Zstd}
use sedsnet_cpp.Wire.Parse.{Parse, ok, reject, fault, ◌>>=◌, ◌>>◌, require, or_reject, take_bytes}
use sedsnet_cpp.Wire.Frame.{
  is_v4_frame_flags, frame_body, crc_holds, skip_nonce, skip_contract, read_v4_endpoints,
  flag_compressed_sender, flag_compact_reliable,
}
use sedsnet_cpp.Wire.Header.{read_v4_reliable_header, flag_ack_only}
use sedsnet_cpp.Wire.Frame.Decode.{
  skip_v4_reliable, read_sender_wire_len, deserialize_v4, deserialize_legacy, deserialize_body,
  deserialize_packet,
}

-- A reader that never leaves the frame.
data IsSafe {ℓ} {A : Type ℓ} (m : Parse A) : Type ℓ where
  is_safe : m ≢ fault → IsSafe m

step-IsSafe :
    {A B : Type 0} {f : A → Parse B} (m : Parse A)
    → IsSafe m
    → ((a : A) → IsSafe (f a))
    → IsSafe (m >>= f)
step-IsSafe (ok a) m h = h a
step-IsSafe reject m h = is_safe (λ e. cc)
step-IsSafe fault (is_safe m) h = absurd (m refl)

or_reject-IsSafe : {A : Type 0} (o : Option A) → IsSafe (or_reject o)
or_reject-IsSafe none = is_safe (λ e. cc)
or_reject-IsSafe (some a) = is_safe (λ e. cc)

require-IsSafe : (b : Bool) → IsSafe (require b)
require-IsSafe true = is_safe (λ e. cc)
require-IsSafe false = is_safe (λ e. cc)

ok-IsSafe : {A : Type 0} (a : A) → IsSafe (ok a)
ok-IsSafe a = is_safe (λ e. cc)

if-IsSafe :
    {A : Type 0} {m k : Parse A} (b : Bool) → IsSafe m → IsSafe k → IsSafe (if b then m else k)
if-IsSafe true m k = m
if-IsSafe false m k = k

skip_nonce-IsSafe : (flags : ℕ) (cur : List ℕ) → IsSafe (skip_nonce flags cur)
unfolding skip_nonce
skip_nonce-IsSafe flags cur =
    if-IsSafe _ (step-IsSafe _ (or_reject-IsSafe _) λ _. ok-IsSafe _) (ok-IsSafe _)

-- Bytes that are there can be taken.
checked_take-IsSafe :
    {B : Type 0} (n : ℕ) (cur : List ℕ) (k : List ℕ × List ℕ → Parse B)
    → ((r : List ℕ × List ℕ) → IsSafe (k r))
    → IsSafe (require (leb n (length cur)) >> (take_bytes n cur >>= k))
unfolding take_bytes
checked_take-IsSafe n cur k h = elim (Bool-cases (leb n (length cur))) [
  | inl long ↦ rw long (h (take n cur, drop n cur))
  | inr short ↦ rw short (is_safe (λ e. cc))
]

skip_contract-IsSafe : (flags : ℕ) (cur : List ℕ) → IsSafe (skip_contract flags cur)
unfolding skip_contract
skip_contract-IsSafe flags cur =
    if-IsSafe _
      (step-IsSafe _ (or_reject-IsSafe (read_uleb128 cur))
        λ (len, rest). checked_take-IsSafe len rest _ λ r. ok-IsSafe _)
      (ok-IsSafe _)

abbrev pub IsGiven : Option Text → Type 0
IsGiven name = name ≢ none

-- No name of the table of types is null, and either the endpoints 200, 201 and 202 are valid or no
-- name of the table of endpoints is null.
pub record IsSearchable (s : Schema) : Type 0 where
  pub types : All (λ info. IsGiven info.name) s.type_info
  pub endpoints :
      ((valid_endpoint s 200 ≡ true)
        × (valid_endpoint s 201 ≡ true)
        × (valid_endpoint s 202 ≡ true))
      ⊎ All IsGiven s.endpoint_names

by_name-IsSafe :
    (text : Text) (names : List (Option Text)) (i : ℕ)
    → All IsGiven names
    → IsSafe (by_name text names i)
unfolding by_name
by_name-IsSafe text [] i h = ok-IsSafe _
by_name-IsSafe text (none ∷ names) i h = absurd (h.0 refl)
by_name-IsSafe text (some name ∷ names) i h =
    if-IsSafe (text_eq name text) (ok-IsSafe _) (by_name-IsSafe text names (suc i) (h.1))

local_endpoint_id-IsSafe :
    (s : Schema) (wire : ℕ) → IsSearchable s → IsSafe (local_endpoint_id s wire)
unfolding local_endpoint_id
local_endpoint_id-IsSafe s wire h = elim h.endpoints [
  | inl there ↦ elim (Bool-cases (wire == 200 || wire == 201 || wire == 202)) [
    | inl e ↦
        let valid : valid_endpoint s wire ≡ true = ground (arith, e, there.0, there.1, there.2) in
        rw (e, valid) (ok-IsSafe _)
    | inr e ↦ rw e (ok-IsSafe _)
  ]
  | inr given ↦
      let search : (text : Text) → IsSafe (by_name text s.endpoint_names 0) =
        λ text. by_name-IsSafe text s.endpoint_names 0 given in
      if-IsSafe _
        (if-IsSafe (valid_endpoint s wire) (ok-IsSafe _)
          (if-IsSafe (wire == 200) (search _) (if-IsSafe (wire == 201) (search _) (search _))))
        (ok-IsSafe _)
]

parse_v4_loop-IsSafe :
    (s : Schema) (bitmap : List ℕ) (n i : ℕ) → IsSearchable s → IsSafe (parse_v4_loop s bitmap n i)
unfolding parse_v4_loop
parse_v4_loop-IsSafe s bitmap zero i h = ok-IsSafe _
parse_v4_loop-IsSafe s bitmap (suc n) i h =
    let later = parse_v4_loop-IsSafe s bitmap n (i + 1) h in
    if-IsSafe (test_bit bitmap i)
      (step-IsSafe _ (local_endpoint_id-IsSafe s i h) λ local. step-IsSafe _ later λ _. ok-IsSafe _)
      later

read_v4_endpoints-IsSafe :
    (s : Schema) (flags ty : ℕ) (cur : List ℕ)
    → IsSearchable s
    → IsSafe (read_v4_endpoints s flags ty cur)
unfolding read_v4_endpoints parse_v4_bitmap
read_v4_endpoints-IsSafe s flags ty cur h =
    if-IsSafe _
      (checked_take-IsSafe 32 cur _ λ (bitmap, cur).
        step-IsSafe _ (parse_v4_loop-IsSafe s bitmap (length bitmap * 8) 0 h) λ _. ok-IsSafe _)
      (ok-IsSafe _)

skip_v4_reliable-IsSafe :
    (s : Schema) (flags ty : ℕ) (cur : List ℕ) → IsSafe (skip_v4_reliable s flags ty cur)
unfolding skip_v4_reliable
skip_v4_reliable-IsSafe s flags ty cur =
    let header = read_v4_reliable_header cur (has_bit flags flag_compact_reliable) in
    if-IsSafe (has_v4_reliable_header s ty)
      (step-IsSafe (or_reject header) (or_reject-IsSafe header) λ (h, rest).
        step-IsSafe _ (require-IsSafe (not (has_bit h.flags flag_ack_only))) λ _. ok-IsSafe rest)
      (ok-IsSafe cur)

deserialize_v4-IsSafe :
    (s : Schema) (z : Zstd) (flags nep : ℕ) (cur : List ℕ)
    → IsSearchable s
    → IsSafe (deserialize_v4 s z flags nep cur)
unfolding deserialize_v4
deserialize_v4-IsSafe s z flags nep cur h =
    step-IsSafe (or_reject (read_uleb128 cur)) (or_reject-IsSafe _) λ (wire_ty, cur).
      step-IsSafe (or_reject (read_uleb128 cur)) (or_reject-IsSafe _) λ (size, cur).
        step-IsSafe (or_reject (read_uleb128 cur)) (or_reject-IsSafe _) λ (ts, cur).
          step-IsSafe _ (skip_nonce-IsSafe flags cur) λ cur.
            step-IsSafe (or_reject (read_uleb128 cur)) (or_reject-IsSafe _) λ (address, cur).
              step-IsSafe _ (or_reject-IsSafe (local_type_id s (wire_ty % 2 ^ 32))) λ ty.
                step-IsSafe _ (require-IsSafe (valid_type s ty)) λ _.
                  step-IsSafe _ (read_v4_endpoints-IsSafe s flags ty cur h) λ (eps, cur).
                    step-IsSafe _ (require-IsSafe (length eps == nep)) λ _.
                      step-IsSafe _ (skip_contract-IsSafe flags cur) λ cur.
                        step-IsSafe _ (skip_v4_reliable-IsSafe s flags ty cur)
                          λ rest. step-IsSafe _ (require-IsSafe _) λ _. ok-IsSafe _

not_fault : {A : Type 0} {m : Parse A} → IsSafe m → m ≢ fault
not_fault (is_safe h) = h

-- On bytes whose first one marks the v4 layout, `deserialize_packet` never reads outside the frame
-- or the tables, nor through a null name, whatever the other bytes are, as long as no name of the
-- table of types is null, and either the endpoints 200, 201 and 202 are valid or no name of the
-- table of endpoints is null.
pub deserialize_packet_v4_safe :
    (s : Schema) (z : Zstd) (bytes cur : List ℕ) (flags nep : ℕ)
    → IsSearchable s
    → frame_body bytes ≡ flags ∷ nep ∷ cur
    → is_v4_frame_flags flags ≡ true
    → deserialize_packet s z bytes ≢ fault
unfolding deserialize_packet
deserialize_packet_v4_safe s z bytes cur flags nep h e v4 = not_fault (
    step-IsSafe _ (require-IsSafe (leb 6 (length bytes))) λ _.
      step-IsSafe _ (require-IsSafe (crc_holds bytes))
        λ _. rw e (unfold deserialize_body in rw v4 (deserialize_v4-IsSafe s z flags nep cur h)))

flags_table :
    all_below 256 (λ f. if ltb f 2 then not (is_v4_frame_flags f) else is_v4_frame_flags f) ≡ true
unfolding all_below is_v4_frame_flags has_bit
flags_table = refl

-- A flag byte chooses the legacy layout exactly if it is 0 or 1.
is_v4_frame_flags-eq_false_iff :
    (flags : ℕ) → flags < 256 → (is_v4_frame_flags flags ≡ false) ↔ (flags < 2)
is_v4_frame_flags-eq_false_iff flags h =
    let entry =
      all_below_sound 256 (λ f. if ltb f 2 then not (is_v4_frame_flags f) else is_v4_frame_flags f)
        flags flags_table h in
    (λ e. ground (arith, entry), λ e. ground (arith, entry))

sender_bit_table : all_below 2 (λ f. not (has_bit f flag_compressed_sender)) ≡ true
unfolding all_below has_bit
sender_bit_table = refl

plain_sender : (flags : ℕ) → flags < 2 → has_bit flags flag_compressed_sender ≡ false
plain_sender flags h = ground (
  arith,
  all_below_sound 2 (λ f. not (has_bit f flag_compressed_sender)) flags sender_bit_table h,
)

take_bytes-front :
    (front back : List ℕ) → take_bytes (length front) (front ++ back) ≡ ok (front, back)
unfolding take_bytes
take_bytes-front front back =
    let long : leb (length front) (length (front ++ back)) ≡ true =
      ground (arith, length-append front back) in
    rw (long, take_front front back, drop_front front back)

take_bytes-short : (n : ℕ) (cur : List ℕ) → length cur < n → take_bytes n cur ≡ fault
unfolding take_bytes
take_bytes-short n cur h = ground arith

-- The fields of a legacy frame in front of its bitmap.
abbrev pub legacy_fields : ℕ → ℕ → ℕ → ℕ → List ℕ → List ℕ
legacy_fields ty size timestamp sender_len rest =
    write_uleb128 ty
    ++ (write_uleb128 size ++ (write_uleb128 timestamp ++ (write_uleb128 sender_len ++ rest)))

-- In a legacy frame of flags 0 or 1, a valid type and 64-bit fields, a sender length that makes
-- `bitmap_len + sender_wire_len` wrap passes the length check, and the reader runs off the end
-- of the frame, which holds fewer bytes than that.
pub deserialize_legacy_overruns :
    (s : Schema) (z : Zstd) (flags ty size timestamp sender_len : ℕ) (bitmap rest : List ℕ)
    → flags < 2
    → IsU64 ty × IsU64 size × IsU64 timestamp × IsU64 sender_len
    → valid_type s (ty % 2 ^ 32) ≡ true
    → length bitmap ≡ endpoint_bitmap_bytes s
    → 2 ^ 64 ≤ endpoint_bitmap_bytes s + sender_len
    → length rest < sender_len
    → deserialize_legacy s z flags
        (length (parse_bitmap s bitmap))
        (legacy_fields ty size timestamp sender_len (bitmap ++ rest))
      ≡ fault
unfolding deserialize_legacy
deserialize_legacy_overruns s z flags ty size timestamp sender_len bitmap rest low fits valid len
      wraps short =
    let body = bitmap ++ rest in
    let after_time = write_uleb128 sender_len ++ body in
    let after_size = write_uleb128 timestamp ++ after_time in
    let no_length : read_sender_wire_len flags sender_len body ≡ ok (sender_len, body) =
      unfold read_sender_wire_len in rw (plain_sender flags low) in
    let passes : leb ((endpoint_bitmap_bytes s + sender_len) % 2 ^ 64) (length body) ≡ true =
      ground (arith, length-append bitmap rest) in
    let front : take_bytes (endpoint_bitmap_bytes s) body ≡ ok (bitmap, rest) =
      rw len at (take_bytes-front bitmap rest) in
    rw (
      read_uleb128-write_uleb128 ty (write_uleb128 size ++ after_size) fits.0,
      read_uleb128-write_uleb128 size after_size fits.1,
      read_uleb128-write_uleb128 timestamp after_time fits.2,
      read_uleb128-write_uleb128 sender_len body fits.3,
      no_length,
      valid,
      passes,
      front,
      ==_refl (length (parse_bitmap s bitmap)),
      take_bytes-short sender_len rest short,
    )
