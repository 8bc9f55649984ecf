-- ===== src/Wire/Frame/Peek.antt =====
-- src/serialize.cpp: `peek_frame_info`, which reads the envelope and the reliable header only.
use sedsnet_cpp.Common.{
  ℕ, ◌+◌, ◌%◌, ◌^◌, Bool, not, Option, none, some, List, [], ◌∷◌, length, leb, ◌==◌, get_elem?,
  if◌then◌else◌, ◌||◌,
}
use sedsnet_cpp.Common.Bits.{has_bit}
use sedsnet_cpp.Schema.{Schema, FrameInfoLite, ReliableHeaderLite, TypeInfo, valid_type, reliable}
use sedsnet_cpp.Wire.Uleb.{read_uleb128}
use sedsnet_cpp.Wire.Ids.{local_type_id, has_v4_reliable_header}
use sedsnet_cpp.Wire.Header.{read_v4_reliable_header, read_fixed}
use sedsnet_cpp.Wire.Bitmap.{endpoint_bitmap_bytes, parse_bitmap}
use sedsnet_cpp.Wire.Compress.{Zstd, maybe_decompress}
use sedsnet_cpp.Wire.Parse.{
  Parse, ok, reject, ◌>>=◌, ◌>>◌, require, or_reject, or_fault, take_bytes,
}
use sedsnet_cpp.Wire.Frame.{
  is_v4_frame_flags, frame_body, crc_holds, crc_bytes, skip_nonce, read_v4_endpoints, skip_contract,
  address_sender, flag_compressed_sender, flag_compact_reliable,
}
use sedsnet_cpp.Wire.Frame.Decode.{read_sender_wire_len, reliable_header_bytes}

unfoldable pub peek_v4_reliable : Schema → ℕ → ℕ → List ℕ → Parse (Option ReliableHeaderLite)
unfolding has_bit
peek_v4_reliable s flags local_ty cur =
    if has_v4_reliable_header s local_ty
    then (do
      (header, cur) ← or_reject (read_v4_reliable_header cur (has_bit flags flag_compact_reliable))
      ok (some header))
    else ok none

fixed_header : List ℕ → Option (ReliableHeaderLite × List ℕ)
unfolding read_fixed
fixed_header [] = none
fixed_header (flags ∷ cur) = read_fixed flags cur

unfoldable pub peek_legacy_reliable : TypeInfo → List ℕ → Parse (Option ReliableHeaderLite)
unfolding reliable fixed_header
peek_legacy_reliable info cur =
    if reliable info
    then (do
      require (leb reliable_header_bytes (length cur))
      (header, cur) ← or_reject (fixed_header cur)
      ok (some header))
    else ok none

module _ (s : Schema) (z : Zstd) where
  unfoldable pub peek_v4 : ℕ → ℕ → List ℕ → Parse FrameInfoLite
  unfolding peek_v4_reliable
  peek_v4 flags nep cur = do
    (wire_ty, cur) ← or_reject (read_uleb128 cur)
    (dsz, cur) ← or_reject (read_uleb128 cur)
    (ts, cur) ← or_reject (read_uleb128 cur)
    cur ← skip_nonce flags cur
    (source_address, cur) ← or_reject (read_uleb128 cur)
    local_ty ← or_reject (local_type_id s (wire_ty % 2 ^ 32))
    require (valid_type s local_ty)
    (endpoints, cur) ← read_v4_endpoints s flags local_ty cur
    require (length endpoints == nep)
    cur ← skip_contract flags cur
    header ← peek_v4_reliable s flags local_ty cur
    ok (record {
      envelope = record {
        ty = local_ty;
        endpoints = endpoints;
        sender = address_sender source_address;
        timestamp_ms = ts;
      };
      reliable_header = header;
    })

  unfoldable pub peek_legacy : ℕ → ℕ → List ℕ → Parse FrameInfoLite
  unfolding read_sender_wire_len peek_legacy_reliable
  peek_legacy flags nep cur = do
    (ty, cur) ← or_reject (read_uleb128 cur)
    (dsz, cur) ← or_reject (read_uleb128 cur)
    (ts, cur) ← or_reject (read_uleb128 cur)
    (sender_len, cur) ← or_reject (read_uleb128 cur)
    (sender_wire_len, cur) ← read_sender_wire_len flags sender_len cur
    require (valid_type s (ty % 2 ^ 32))
    require (leb ((endpoint_bitmap_bytes s + sender_wire_len) % 2 ^ 64) (length cur))
    (bitmap, cur) ← take_bytes (endpoint_bitmap_bytes s) cur
    let endpoints = parse_bitmap s bitmap
    require (length endpoints == nep)
    (sender_wire, cur) ← take_bytes sender_wire_len cur
    let sender = maybe_decompress z sender_wire sender_len (has_bit flags flag_compressed_sender)
    require (length sender == sender_len)
    info ← or_fault (get_elem? s.type_info ty)
    header ← peek_legacy_reliable info cur
    ok (record {
      envelope = record {
        ty = ty % 2 ^ 32;
        endpoints = endpoints;
        sender = sender;
        timestamp_ms = ts;
      };
      reliable_header = header;
    })

  unfoldable pub peek_body : List ℕ → Parse FrameInfoLite
  unfolding peek_v4 peek_legacy
  peek_body [] = reject
  peek_body (flags ∷ []) = reject
  peek_body (flags ∷ nep ∷ cur) =
      if is_v4_frame_flags flags then peek_v4 flags nep cur else peek_legacy flags nep cur

  unfoldable pub peek_frame_info : List ℕ → Bool → Parse FrameInfoLite
  unfolding peek_body
  peek_frame_info bytes verify_crc = do
    require (leb (2 + crc_bytes) (length bytes))
    require (not verify_crc || crc_holds bytes)
    peek_body (frame_body bytes)
