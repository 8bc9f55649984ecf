-- ===== src/Wire/Frame/Offset.antt =====
-- src/serialize.cpp: `reliable_header_offset`, `rewrite_reliable_header`, `packet_id_from_wire`.
use sedsnet_cpp.Common.{
  ℕ, ◌+◌, ◌-◌, ◌%◌, ◌^◌, List, [], ◌∷◌, ◌++◌, length, take, drop, leb, get_elem?, if◌then◌else◌,
}
use sedsnet_cpp.Common.Bits.{has_bit}
use sedsnet_cpp.Common.Words.{append_le}
use sedsnet_cpp.Schema.{Schema, valid_type, reliable}
use sedsnet_cpp.Wire.Checksum.{crc32_bytes, packet_id}
use sedsnet_cpp.Wire.Uleb.{read_uleb128}
use sedsnet_cpp.Wire.Ids.{local_type_id, has_v4_reliable_header}
use sedsnet_cpp.Wire.Bitmap.{v4_bitmap_bytes, endpoint_bitmap_bytes}
use sedsnet_cpp.Wire.Compress.{Zstd}
use sedsnet_cpp.Wire.Parse.{Parse, ok, reject, ◌>>=◌, ◌>>◌, require, or_reject, or_fault}
use sedsnet_cpp.Wire.Frame.{
  is_v4_frame_flags, frame_body, crc_bytes, skip_nonce, skip_contract, flag_endpoint_bitmap,
}
use sedsnet_cpp.Wire.Frame.Decode.{read_sender_wire_len, reliable_header_bytes, deserialize_packet}

unfoldable pub skip_v4_bitmap : ℕ → List ℕ → Parse (List ℕ)
unfolding has_bit
skip_v4_bitmap flags cur =
    if has_bit flags flag_endpoint_bitmap
    then (do require (leb v4_bitmap_bytes (length cur)); ok (drop v4_bitmap_bytes cur))
    else ok cur

-- Bytes written over those from `offset` on.
unfoldable pub overwrite : List ℕ → ℕ → List ℕ → List ℕ
overwrite bytes offset new = take offset bytes ++ (new ++ drop (offset + length new) bytes)

module _ (s : Schema) where
  -- The cursor where the reliable header of a v4 frame begins.
  unfoldable pub at_v4_header : ℕ → List ℕ → Parse (List ℕ)
  unfolding skip_v4_bitmap
  at_v4_header flags cur = do
    (wire_ty, cur) ← or_reject (read_uleb128 cur)
    (dsz, cur) ← or_reject (read_uleb128 cur)
    (ts, cur) ← or_reject (read_uleb128 cur)
    cur ← skip_nonce flags cur
    (source_address, cur) ← or_reject (read_uleb128 cur)
    local_ty ← or_reject (local_type_id s (wire_ty % 2 ^ 32))
    require (has_v4_reliable_header s local_ty)
    cur ← skip_v4_bitmap flags cur
    skip_contract flags cur

  -- `cur += bitmap_len + sender_wire_len` does not read; the sum is a `size_t`.
  unfoldable pub at_legacy_header : ℕ → List ℕ → Parse (List ℕ)
  unfolding read_sender_wire_len
  at_legacy_header flags cur = do
    (ty, cur) ← or_reject (read_uleb128 cur)
    (dsz, cur) ← or_reject (read_uleb128 cur)
    (ts, cur) ← or_reject (read_uleb128 cur)
    (sender_len, cur) ← or_reject (read_uleb128 cur)
    (sender_wire_len, cur) ← read_sender_wire_len flags sender_len cur
    require (valid_type s (ty % 2 ^ 32))
    let skipped = (endpoint_bitmap_bytes s + sender_wire_len) % 2 ^ 64
    require (leb skipped (length cur))
    info ← or_fault (get_elem? s.type_info ty)
    require (reliable info)
    ok (drop skipped cur)

  unfoldable pub header_cursor : List ℕ → Parse (List ℕ)
  unfolding at_v4_header at_legacy_header
  header_cursor [] = reject
  header_cursor (flags ∷ []) = reject
  header_cursor (flags ∷ nep ∷ cur) =
      if is_v4_frame_flags flags then at_v4_header flags cur else at_legacy_header flags cur

  -- `cur - bytes`
  unfoldable pub reliable_header_offset : List ℕ → Parse ℕ
  unfolding header_cursor
  reliable_header_offset bytes = do
    require (leb (2 + crc_bytes) (length bytes))
    cur ← header_cursor (frame_body bytes)
    ok (length (frame_body bytes) - length cur)

  -- The frame after the call; `reject` is the answer false, which leaves it as it was.
  unfoldable pub rewrite_reliable_header : List ℕ → ℕ → ℕ → ℕ → Parse (List ℕ)
  unfolding reliable_header_offset overwrite append_le crc32_bytes
  rewrite_reliable_header bytes flags seq ack = do
    offset ← reliable_header_offset bytes
    require (leb (offset + reliable_header_bytes + crc_bytes) (length bytes))
    let header = flags ∷ (append_le 4 seq ++ append_le 4 ack)
    let bytes' = overwrite bytes offset header
    ok (overwrite bytes' (length bytes - crc_bytes) (append_le 4 (crc32_bytes (frame_body bytes'))))

  unfoldable pub packet_id_from_wire : Zstd → List ℕ → Parse ℕ
  unfolding deserialize_packet packet_id
  packet_id_from_wire z bytes = do pkt ← deserialize_packet s z bytes; ok (packet_id s pkt)
