-- ===== src/Wire/Frame/Decode.antt =====
-- src/serialize.cpp: `deserialize_packet`, in the v4 layout and in the legacy one.
use sedsnet_cpp.Common.{
  ℕ, ◌+◌, ◌%◌, ◌^◌, Bool, false, not, List, [], ◌∷◌, length, drop, leb, ◌==◌, get_elem?,
  if◌then◌else◌,
}
use sedsnet_cpp.Common.Bits.{has_bit}
use sedsnet_cpp.Schema.{Schema, PacketData, TypeInfo, valid_type, reliable}
use sedsnet_cpp.Wire.Uleb.{read_uleb128}
use sedsnet_cpp.Wire.Ids.{local_type_id, has_v4_reliable_header}
use sedsnet_cpp.Wire.Header.{read_v4_reliable_header, flag_ack_only}
use sedsnet_cpp.Wire.Bitmap.{endpoint_bitmap_bytes, parse_bitmap}
use sedsnet_cpp.Wire.Compress.{Zstd, maybe_decompress}
use sedsnet_cpp.Wire.Parse.{
  Parse, ok, reject, ◌>>=◌, ◌>>◌, require, or_reject, or_fault, take_bytes,
}
use sedsnet_cpp.Wire.Frame.{
  is_v4_frame_flags, frame_body, crc_holds, crc_bytes, skip_nonce, read_v4_endpoints, skip_contract,
  address_sender, flag_compressed_payload, flag_compressed_sender, flag_compact_reliable,
}

-- `kReliableHeaderBytes`
abbrev pub reliable_header_bytes : ℕ
reliable_header_bytes = 9

-- A legacy sender's length on the wire, which only a compressed sender carries.
unfoldable pub read_sender_wire_len : ℕ → ℕ → List ℕ → Parse (ℕ × List ℕ)
unfolding has_bit
read_sender_wire_len flags sender_len cur =
    if has_bit flags flag_compressed_sender
    then or_reject (read_uleb128 cur)
    else ok (sender_len, cur)

-- A frame with a reliable header is a packet unless it only acknowledges.
unfoldable pub skip_v4_reliable : Schema → ℕ → ℕ → List ℕ → Parse (List ℕ)
unfolding has_bit
skip_v4_reliable s flags local_ty cur =
    if has_v4_reliable_header s local_ty
    then (do
      (header, cur) ← or_reject (read_v4_reliable_header cur (has_bit flags flag_compact_reliable))
      require (not (has_bit header.flags flag_ack_only))
      ok cur)
    else ok cur

head_has_ack_only : List ℕ → Bool
unfolding has_bit
head_has_ack_only [] = false
head_has_ack_only (b ∷ bs) = has_bit b flag_ack_only

unfoldable pub skip_legacy_reliable : TypeInfo → List ℕ → Parse (List ℕ)
unfolding reliable head_has_ack_only
skip_legacy_reliable info cur =
    if reliable info
    then (do
      require (leb reliable_header_bytes (length cur))
      require (not (head_has_ack_only cur))
      ok (drop reliable_header_bytes cur))
    else ok cur

module _ (s : Schema) (z : Zstd) where
  unfoldable pub deserialize_v4 : ℕ → ℕ → List ℕ → Parse PacketData
  unfolding skip_v4_reliable
  deserialize_v4 flags nep cur = do
    (wire_ty, cur) ← or_reject (read_uleb128 cur)
    (logical_size, cur) ← or_reject (read_uleb128 cur)
    (timestamp, cur) ← or_reject (read_uleb128 cur)
    cur ← skip_nonce flags cur
    (source_address, cur) ← or_reject (read_uleb128 cur)
    local_ty ← or_reject (local_type_id s (wire_ty % 2 ^ 32))
    require (valid_type s local_ty)
    (endpoints, cur) ← read_v4_endpoints s flags local_ty cur
    require (length endpoints == nep)
    cur ← skip_contract flags cur
    cur ← skip_v4_reliable s flags local_ty cur
    let payload = maybe_decompress z cur logical_size (has_bit flags flag_compressed_payload)
    require (length payload == logical_size)
    ok (record {
      ty = local_ty;
      sender = address_sender source_address;
      endpoints = endpoints;
      timestamp = timestamp;
      payload = payload;
    })

  -- The table is indexed by the whole number `ty`, while `valid_type` looked at its low 32 bits;
  -- `bitmap_len + sender_wire_len` is a `size_t` sum.
  unfoldable pub deserialize_legacy : ℕ → ℕ → List ℕ → Parse PacketData
  unfolding read_sender_wire_len skip_legacy_reliable
  deserialize_legacy flags nep cur = do
    (ty, cur) ← or_reject (read_uleb128 cur)
    (logical_size, cur) ← or_reject (read_uleb128 cur)
    (timestamp, cur) ← or_reject (read_uleb128 cur)
    (sender_len, cur) ← or_reject (read_uleb128 cur)
    (sender_wire_len, cur) ← read_sender_wire_len flags sender_len cur
    require (valid_type s (ty % 2 ^ 32))
    require (leb ((endpoint_bitmap_bytes s + sender_wire_len) % 2 ^ 64) (length cur))
    (bitmap, cur) ← take_bytes (endpoint_bitmap_bytes s) cur
    let endpoints = parse_bitmap s bitmap
    require (length endpoints == nep)
    (sender_wire, cur) ← take_bytes sender_wire_len cur
    let sender = maybe_decompress z sender_wire sender_len (has_bit flags flag_compressed_sender)
    require (length sender == sender_len)
    info ← or_fault (get_elem? s.type_info ty)
    cur ← skip_legacy_reliable info cur
    let payload = maybe_decompress z cur logical_size (has_bit flags flag_compressed_payload)
    require (length payload == logical_size)
    ok (record {
      ty = ty % 2 ^ 32;
      sender = sender;
      endpoints = endpoints;
      timestamp = timestamp;
      payload = payload;
    })

  unfoldable pub deserialize_body : List ℕ → Parse PacketData
  unfolding deserialize_v4 deserialize_legacy
  deserialize_body [] = reject
  deserialize_body (flags ∷ []) = reject
  deserialize_body (flags ∷ nep ∷ cur) =
      if is_v4_frame_flags flags
      then deserialize_v4 flags nep cur
      else deserialize_legacy flags nep cur

  unfoldable pub deserialize_packet : List ℕ → Parse PacketData
  unfolding deserialize_body
  deserialize_packet bytes = do
    require (leb (2 + crc_bytes) (length bytes))
    require (crc_holds bytes)
    deserialize_body (frame_body bytes)
