-- ===== src/Wire/Frame/Encode.antt =====
-- src/serialize.cpp: the writers of frames.
use sedsnet_cpp.Common.{
  ℕ, ◌%◌, bit_or, Bool, true, false, not, ◌&&◌, Option, none, some, List, [], ◌∷◌, ◌++◌, Text,
  codes, text_eq, length, take, drop, replicate, ◌==◌, if◌then◌else◌,
}
use sedsnet_cpp.Common.Words.{read_le}
use sedsnet_cpp.Schema.{Schema, PacketData, ReliableHeaderLite, dt_reliable_ack}
use sedsnet_cpp.Wire.Uleb.{write_uleb128}
use sedsnet_cpp.Wire.Ids.{v4_type_id, local_type_id, has_v4_reliable_header}
use sedsnet_cpp.Wire.Header.{
  should_compact_reliable_header, write_v4_reliable_header, flag_ack_only, flag_unsequenced,
}
use sedsnet_cpp.Wire.Bitmap.{v4_endpoint_bitmap, v4_bitmap_bytes}
use sedsnet_cpp.Wire.Compress.{Zstd, maybe_compress}
use sedsnet_cpp.Wire.Frame.{
  seal, sender_address_u32, flag_compressed_payload, flag_endpoint_bitmap, flag_compact_reliable,
}

-- The flag byte of a frame.
unfoldable pub frame_flags : Bool → Bool → ℕ
frame_flags payload_compressed compact_reliable =
    let f0 = if payload_compressed then bit_or 0 flag_compressed_payload else 0 in
    let f1 = bit_or f0 flag_endpoint_bitmap in
    if compact_reliable then bit_or f1 flag_compact_reliable else f1

unfoldable pub or_same : Option ℕ → ℕ → ℕ
or_same (some local) wire = local
or_same none wire = wire

-- `pkt.sender.rfind("E2EACK:", 0) == 0`
unfoldable pub has_ack_prefix : Text → Bool
unfolding text_eq
has_ack_prefix sender = text_eq (take 7 sender) (codes "E2EACK:")

-- The packets that `serialize_packet` turns into a link acknowledgement.
unfoldable pub is_link_ack : PacketData → Bool
unfolding has_ack_prefix
is_link_ack pkt =
    pkt.ty == dt_reliable_ack && length pkt.payload == 8 && not (has_ack_prefix pkt.sender)

module _ (s : Schema) where
  unfoldable pub serialize_reliable_ack : Text → ℕ → ℕ → ℕ → List ℕ
  serialize_reliable_ack sender ty timestamp_ms ack = seal (
      bit_or flag_endpoint_bitmap flag_compact_reliable
      ∷ 0
      ∷ (write_uleb128 (v4_type_id s ty)
          ++ (write_uleb128 0
              ++ (write_uleb128 timestamp_ms
                  ++ (write_uleb128 (sender_address_u32 sender)
                      ++ (replicate v4_bitmap_bytes 0
                          ++ write_v4_reliable_header
                              (record { flags = flag_ack_only; seq = 0; ack = ack }) true))))))

module _ (s : Schema) (z : Zstd) (threshold : ℕ) where
  unfoldable pub serialize_packet_with_reliable : PacketData → ReliableHeaderLite → List ℕ
  serialize_packet_with_reliable pkt header =
      let (payload_wire, payload_compressed) = maybe_compress z threshold pkt.payload in
      let compact_reliable = should_compact_reliable_header header in
      seal (
        frame_flags payload_compressed compact_reliable
        ∷ (length pkt.endpoints % 256)
        ∷ (write_uleb128 (v4_type_id s pkt.ty)
            ++ (write_uleb128 (length pkt.payload)
                ++ (write_uleb128 pkt.timestamp
                    ++ (write_uleb128 (sender_address_u32 pkt.sender)
                        ++ (v4_endpoint_bitmap s pkt.endpoints
                            ++ ((if has_v4_reliable_header s pkt.ty
                                  then write_v4_reliable_header header compact_reliable
                                  else [])
                                ++ payload_wire)))))))

  -- The frame of a packet with no reliable header.
  unfoldable pub serialize_plain : PacketData → List ℕ
  serialize_plain pkt =
      let (payload_wire, payload_compressed) = maybe_compress z threshold pkt.payload in
      seal (
        frame_flags payload_compressed false
        ∷ (length pkt.endpoints % 256)
        ∷ (write_uleb128 (v4_type_id s pkt.ty)
            ++ (write_uleb128 (length pkt.payload)
                ++ (write_uleb128 pkt.timestamp
                    ++ (write_uleb128 (sender_address_u32 pkt.sender)
                        ++ (v4_endpoint_bitmap s pkt.endpoints ++ payload_wire))))))

  -- A link ack that travels as a packet: the acked type and the number.
  unfoldable pub ack_of : PacketData → Option (ℕ × List ℕ) → Option (ℕ × List ℕ) → List ℕ
  ack_of pkt (some (acked_ty, rest)) (some (ack, rest')) =
      serialize_reliable_ack s pkt.sender (or_same (local_type_id s acked_ty) acked_ty)
        pkt.timestamp ack
  ack_of pkt _ _ = []

  unfoldable pub serialize_packet : PacketData → List ℕ
  serialize_packet pkt =
      if is_link_ack pkt
      then ack_of pkt (read_le 4 pkt.payload) (read_le 4 (drop 4 pkt.payload))
      else (if has_v4_reliable_header s pkt.ty
          then serialize_packet_with_reliable pkt
              (record { flags = flag_unsequenced; seq = 0; ack = 0 })
          else serialize_plain pkt)
