-- ===== src/Wire/Frame.antt =====
-- src/serialize.cpp: what the readers and the writers of frames share.
pub mod Encode
pub mod Decode
pub mod Peek
pub mod Offset
pub mod Seal
pub mod Agree
pub mod Ack
pub mod RoundTrip
pub mod Safety
use sedsnet_cpp.Common.{
  ℕ, ◌+◌, ◌-◌, ◌%◌, ◌^◌, bit_or, Bool, true, false, not, ◌&&◌, ◌||◌, Option, none, some, List, [],
  ◌∷◌, ◌++◌, Text, codes, to_string, length, take, drop, leb, ◌==◌, if◌then◌else◌,
}
use sedsnet_cpp.Common.Bits.{has_bit}
use sedsnet_cpp.Common.Words.{append_le, read_le}
use sedsnet_cpp.Schema.{Schema, type_at}
use sedsnet_cpp.Wire.Checksum.{crc32_bytes, hash_bytes_u64}
use sedsnet_cpp.Wire.Uleb.{read_uleb128}
use sedsnet_cpp.Wire.Bitmap.{v4_bitmap_bytes, parse_v4_bitmap}
use sedsnet_cpp.Wire.Parse.{Parse, ok, reject, fault, ◌>>=◌, ◌>>◌, require, or_reject, take_bytes}

abbrev pub flag_compressed_payload : ℕ
flag_compressed_payload = 0x01

abbrev pub flag_compressed_sender : ℕ
flag_compressed_sender = 0x02

abbrev pub flag_contract : ℕ
flag_contract = 0x04

abbrev pub flag_nonce : ℕ
flag_nonce = 0x08

abbrev pub flag_endpoint_bitmap : ℕ
flag_endpoint_bitmap = 0x20

abbrev pub flag_compact_reliable : ℕ
flag_compact_reliable = 0x40

-- `kCrcBytes`
abbrev pub crc_bytes : ℕ
crc_bytes = 4

-- 0x7C is `0x04 | 0x08 | 0x10 | 0x20 | 0x40`; 0x82 is what `~` leaves of a byte.
unfoldable pub is_v4_frame_flags : ℕ → Bool
unfolding has_bit
is_v4_frame_flags flags = has_bit flags 0x7C || has_bit flags 0x82

value_or_zero : Option (ℕ × List ℕ) → ℕ
value_or_zero none = 0
value_or_zero (some (value, rest)) = value

unfoldable pub frame_body : List ℕ → List ℕ
frame_body bytes = take (length bytes - crc_bytes) bytes

-- `got_crc == exp_crc`
unfoldable pub crc_holds : List ℕ → Bool
unfolding frame_body value_or_zero crc32_bytes read_le
crc_holds bytes =
    crc32_bytes (frame_body bytes)
    == value_or_zero (read_le crc_bytes (drop (length bytes - crc_bytes) bytes))

-- The CRC of what was written so far, behind it.
unfoldable pub seal : List ℕ → List ℕ
unfolding crc32_bytes append_le
seal out = out ++ append_le crc_bytes (crc32_bytes out)

-- The nonce is read and dropped.
unfoldable pub skip_nonce : ℕ → List ℕ → Parse (List ℕ)
unfolding has_bit read_uleb128
skip_nonce flags cur =
    if has_bit flags flag_nonce
    then (do (nonce, cur) ← or_reject (read_uleb128 cur); ok cur)
    else ok cur

-- The endpoints of a v4 frame: from its bitmap, or those of the type.
unfoldable pub read_v4_endpoints : Schema → ℕ → ℕ → List ℕ → Parse (List ℕ × List ℕ)
unfolding has_bit parse_v4_bitmap type_at take_bytes
read_v4_endpoints s flags local_ty cur =
    if has_bit flags flag_endpoint_bitmap
    then (do
      require (leb v4_bitmap_bytes (length cur))
      (bitmap, cur) ← take_bytes v4_bitmap_bytes cur
      endpoints ← parse_v4_bitmap s bitmap
      ok (endpoints, cur))
    else ok ((type_at s local_ty).endpoints, cur)

unfoldable pub skip_contract : ℕ → List ℕ → Parse (List ℕ)
unfolding has_bit read_uleb128 take_bytes
skip_contract flags cur =
    if has_bit flags flag_contract
    then (do
      (contract_len, cur) ← or_reject (read_uleb128 cur)
      require (leb contract_len (length cur))
      (contract, cur) ← take_bytes contract_len cur
      ok cur)
    else ok cur

-- `"@addr:" + std::to_string(source_address)`
unfoldable pub address_sender : ℕ → Text
unfolding to_string
address_sender source_address = codes "@addr:" ++ to_string source_address

unfoldable pub sender_address_u32 : Text → ℕ
unfolding hash_bytes_u64
sender_address_u32 sender =
    let raw = hash_bytes_u64 0xA6D38C214B7F19E5 sender % 2 ^ 32 in if raw == 0 then 1 else raw
