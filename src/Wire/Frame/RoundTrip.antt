-- ===== src/Wire/Frame/RoundTrip.antt =====
-- `deserialize_packet` on the frames that `serialize_packet` writes.
use sedsnet_cpp.Common.{
  ℕ, ◌%◌, ◌^◌, ◌<◌, Bool, true, false, List, ◌∷◌, ◌++◌, Text, length, leb, ==_refl, ◌≡◌, refl, ◌∙◌,
  arith, Bool-cases, inl, inr, All, take, drop, take_front, drop_front, length-append,
}
use sedsnet_cpp.Common.Bits.{has_bit}
use sedsnet_cpp.Common.Words.{IsU64}
use sedsnet_cpp.Schema.{Schema, PacketData, ReliableHeaderLite}
use sedsnet_cpp.Wire.Uleb.{write_uleb128}
use sedsnet_cpp.Wire.Uleb.RoundTrip.{read_uleb128-write_uleb128}
use sedsnet_cpp.Wire.Ids.{v4_type_id, has_v4_reliable_header}
use sedsnet_cpp.Wire.Ids.Types.{IsFindable, local_type_id-v4_type_id}
use sedsnet_cpp.Wire.Header.{
  should_compact_reliable_header, write_v4_reliable_header, flag_ack_only, flag_unsequenced,
}
use sedsnet_cpp.Wire.Header.RoundTrip.{IsHeader, read-write_v4_reliable_header}
use sedsnet_cpp.Wire.Bitmap.{v4_endpoint_bitmap, parse_v4_bitmap}
use sedsnet_cpp.Wire.Bitmap.RoundTrip.{
  IsAscending, IsRuntimeEndpoint, length-v4_endpoint_bitmap, parse_v4_bitmap-v4_endpoint_bitmap,
}
use sedsnet_cpp.Wire.Compress.{
  Zstd, IsLossless, maybe_compress, maybe_decompress, maybe_decompress-maybe_compress,
}
use sedsnet_cpp.Wire.Parse.{ok, ◌>>=◌, take_bytes}
use sedsnet_cpp.Wire.Frame.{
  is_v4_frame_flags, seal, sender_address_u32, address_sender, skip_nonce, skip_contract,
  read_v4_endpoints, flag_compressed_payload, flag_compact_reliable, flag_nonce, flag_contract,
  flag_endpoint_bitmap,
}
use sedsnet_cpp.Wire.Frame.Seal.{frame_body-seal, crc_holds-seal, length-seal_lem}
use sedsnet_cpp.Wire.Frame.Encode.{
  frame_flags, serialize_plain, serialize_packet_with_reliable, serialize_packet, is_link_ack,
}
use sedsnet_cpp.Wire.Frame.Decode.{
  skip_v4_reliable, deserialize_v4, deserialize_body, deserialize_packet,
}

-- A packet that a node can send: its type can be found again by its wire id, its endpoints are at
-- most 255, ascending and of the runtime numbering, and its numbers fit 64 bits.
pub record IsSendable (s : Schema) (name : Text) (pkt : PacketData) : Type 0 where
  pub findable : IsFindable s name pkt.ty
  pub ty_fits : v4_type_id s pkt.ty < 2 ^ 32
  pub ascending : IsAscending 0 pkt.endpoints
  pub runtime : All (IsRuntimeEndpoint s) pkt.endpoints
  pub few : length pkt.endpoints < 256
  pub time_fits : IsU64 pkt.timestamp
  pub size_fits : IsU64 (length pkt.payload)

-- What the receiver knows of the sender is its address.
abbrev pub received : PacketData → PacketData
received pkt = record pkt { sender = address_sender (sender_address_u32 pkt.sender) }

pub sender_address_u32-lt : (sender : Text) → sender_address_u32 sender < 2 ^ 32
unfolding sender_address_u32
sender_address_u32-lt sender = ground arith

-- The bits of the flag byte, as the readers test them.
pub record IsFrameFlags (flags : ℕ) (compressed compact : Bool) : Type 0 where
  pub v4 : is_v4_frame_flags flags ≡ true
  pub payload_bit : has_bit flags flag_compressed_payload ≡ compressed
  pub compact_bit : has_bit flags flag_compact_reliable ≡ compact
  pub nonce_bit : has_bit flags flag_nonce ≡ false
  pub contract_bit : has_bit flags flag_contract ≡ false
  pub bitmap_bit : has_bit flags flag_endpoint_bitmap ≡ true

pub frame_flags-IsFrameFlags :
    (compressed compact : Bool) → IsFrameFlags (frame_flags compressed compact) compressed compact
unfolding frame_flags is_v4_frame_flags has_bit
frame_flags-IsFrameFlags true true = ground arith
frame_flags-IsFrameFlags true false = ground arith
frame_flags-IsFrameFlags false true = ground arith
frame_flags-IsFrameFlags false false = ground arith

pub read_v4_endpoints-bitmap :
    (s : Schema) (flags ty : ℕ) (bitmap rest : List ℕ)
    → has_bit flags flag_endpoint_bitmap ≡ true
    → length bitmap ≡ 32
    → read_v4_endpoints s flags ty (bitmap ++ rest)
      ≡ (parse_v4_bitmap s bitmap >>= λ endpoints. ok (endpoints, rest))
unfolding read_v4_endpoints take_bytes
read_v4_endpoints-bitmap s flags ty bitmap rest present len =
    let long : leb 32 (length (bitmap ++ rest)) ≡ true =
      ground (arith, length-append bitmap rest) in
    let front : take 32 (bitmap ++ rest) ≡ bitmap = rw len at (take_front bitmap rest) in
    let back : drop 32 (bitmap ++ rest) ≡ rest = rw len at (drop_front bitmap rest) in
    rw (present, long, front, back)

pub skip_nonce-absent :
    (flags : ℕ) (cur : List ℕ) → has_bit flags flag_nonce ≡ false → skip_nonce flags cur ≡ ok cur
unfolding skip_nonce
skip_nonce-absent flags cur e = rw e

pub skip_contract-absent :
    (flags : ℕ) (cur : List ℕ)
    → has_bit flags flag_contract ≡ false
    → skip_contract flags cur ≡ ok cur
unfolding skip_contract
skip_contract-absent flags cur e = rw e

-- What the writers put between the flag and count bytes and the reliable header.
abbrev envelope : Schema → PacketData → List ℕ → List ℕ
envelope s pkt tail =
    write_uleb128 (v4_type_id s pkt.ty)
    ++ (write_uleb128 (length pkt.payload)
        ++ (write_uleb128 pkt.timestamp
            ++ (write_uleb128 (sender_address_u32 pkt.sender)
                ++ (v4_endpoint_bitmap s pkt.endpoints ++ tail))))

module _ (s : Schema) (z : Zstd) (name : Text) (pkt : PacketData) (v : IsSendable s name pkt)
    (flags : ℕ) (compressed compact : Bool) (bits : IsFrameFlags flags compressed compact) where
  deserialize_v4-envelope :
      (tail payload_wire : List ℕ)
      → skip_v4_reliable s flags pkt.ty tail ≡ ok payload_wire
      → maybe_decompress z payload_wire (length pkt.payload) compressed ≡ pkt.payload
      → deserialize_v4 s z flags (length pkt.endpoints % 256) (envelope s pkt tail)
        ≡ ok (received pkt)
  unfolding deserialize_v4
  deserialize_v4-envelope tail payload_wire skipped plain =
      let bitmap = v4_endpoint_bitmap s pkt.endpoints in
      let after_address = bitmap ++ tail in
      let after_time = write_uleb128 (sender_address_u32 pkt.sender) ++ after_address in
      let after_size = write_uleb128 pkt.timestamp ++ after_time in
      let after_type = write_uleb128 (length pkt.payload) ++ after_size in
      let ty_fits = v.ty_fits in
      let address_fits = sender_address_u32-lt pkt.sender in
      let few = v.few in
      let whole_ty : v4_type_id s pkt.ty % 2 ^ 32 ≡ v4_type_id s pkt.ty = omega arith in
      let whole_count : length pkt.endpoints % 256 ≡ length pkt.endpoints = omega arith in
      rw (
        read_uleb128-write_uleb128 (v4_type_id s pkt.ty) after_type (omega arith),
        read_uleb128-write_uleb128 (length pkt.payload) after_size v.size_fits,
        read_uleb128-write_uleb128 pkt.timestamp after_time v.time_fits,
        skip_nonce-absent flags after_time bits.nonce_bit,
        read_uleb128-write_uleb128 (sender_address_u32 pkt.sender) after_address (omega arith),
        whole_ty,
        local_type_id-v4_type_id s name pkt.ty v.findable,
        v.findable.valid,
        read_v4_endpoints-bitmap s flags pkt.ty bitmap tail bits.bitmap_bit
            (length-v4_endpoint_bitmap s pkt.endpoints),
        parse_v4_bitmap-v4_endpoint_bitmap s pkt.endpoints v.ascending v.runtime,
        whole_count,
        ==_refl (length pkt.endpoints),
        skip_contract-absent flags tail bits.contract_bit,
        skipped,
        bits.payload_bit,
        plain,
        ==_refl (length pkt.payload),
      )

-- A sealed frame is read as its body.
deserialize_packet-seal :
    (s : Schema) (z : Zstd) (flags nep : ℕ) (cur : List ℕ)
    → is_v4_frame_flags flags ≡ true
    → deserialize_packet s z (seal (flags ∷ nep ∷ cur)) ≡ deserialize_v4 s z flags nep cur
unfolding deserialize_packet
deserialize_packet-seal s z flags nep cur v4 =
    let long : leb 6 (length (seal (flags ∷ nep ∷ cur))) ≡ true =
      ground (arith, length-seal_lem (flags ∷ nep ∷ cur)) in
    rw (long, crc_holds-seal (flags ∷ nep ∷ cur), frame_body-seal (flags ∷ nep ∷ cur))
      (unfold deserialize_body in rw v4)

unsequenced-IsHeader : IsHeader (record { flags = flag_unsequenced; seq = 0; ack = 0 })
unsequenced-IsHeader = record {
  is_byte = omega arith;
  clear = refl;
  seq_fits = omega arith;
  ack_fits = omega arith;
}

module _ (s : Schema) (z : Zstd) (threshold : ℕ) (name : Text) (pkt : PacketData)
    (lossless : IsLossless z) (v : IsSendable s name pkt) where
  abbrev wire : List ℕ × Bool
  wire = maybe_compress z threshold pkt.payload

  plain_back : maybe_decompress z wire.0 (length pkt.payload) wire.1 ≡ pkt.payload
  plain_back = maybe_decompress-maybe_compress z threshold pkt.payload lossless

  deserialize-serialize_plain :
      has_v4_reliable_header s pkt.ty ≡ false
      → deserialize_packet s z (serialize_plain s z threshold pkt) ≡ ok (received pkt)
  unfolding serialize_plain
  deserialize-serialize_plain plain =
      let flags = frame_flags wire.1 false in
      let bits = frame_flags-IsFrameFlags wire.1 false in
      deserialize_packet-seal s z flags (length pkt.endpoints % 256) (envelope s pkt wire.0) bits.v4
      ∙ deserialize_v4-envelope s z name pkt v flags wire.1 false bits wire.0 wire.0
          (unfold skip_v4_reliable in rw plain) plain_back

  -- With a lossless zstd, a sendable packet of a type that has reliable headers comes back from
  -- its frame under any well-formed header that does more than acknowledge, with the address for
  -- the sender.
  pub deserialize-serialize_packet_with_reliable :
      (header : ReliableHeaderLite)
      → has_v4_reliable_header s pkt.ty ≡ true
      → IsHeader header
      → has_bit header.flags flag_ack_only ≡ false
      → deserialize_packet s z (serialize_packet_with_reliable s z threshold pkt header)
        ≡ ok (received pkt)
  unfolding serialize_packet_with_reliable
  deserialize-serialize_packet_with_reliable header has h carries =
      let compact = should_compact_reliable_header header in
      let flags = frame_flags wire.1 compact in
      let bits = frame_flags-IsFrameFlags wire.1 compact in
      let tail = write_v4_reliable_header header compact ++ wire.0 in
      let skipped : skip_v4_reliable s flags pkt.ty tail ≡ ok wire.0 =
        unfold skip_v4_reliable in
        rw
          (has, bits.compact_bit, read-write_v4_reliable_header header compact wire.0 h, carries) in
      rw has (
        deserialize_packet-seal s z flags (length pkt.endpoints % 256) (envelope s pkt tail) bits.v4
        ∙ deserialize_v4-envelope s z name pkt v flags wire.1 compact bits tail wire.0 skipped
            plain_back)

  -- With a lossless zstd, every sendable packet but a link acknowledgement comes back from its
  -- own frame, with the address for the sender.
  pub deserialize_packet-serialize_packet :
      is_link_ack pkt ≡ false
      → deserialize_packet s z (serialize_packet s z threshold pkt) ≡ ok (received pkt)
  deserialize_packet-serialize_packet plain = elim (Bool-cases (has_v4_reliable_header s pkt.ty)) [
    | inl has ↦
        let header : ReliableHeaderLite = record { flags = flag_unsequenced; seq = 0; ack = 0 } in
        let h : IsHeader header = unsequenced-IsHeader in
        unfold serialize_packet in
        rw (plain, has)
          (deserialize-serialize_packet_with_reliable header has h (unfold has_bit in refl))
    | inr bare ↦ unfold serialize_packet in rw (plain, bare) (deserialize-serialize_plain bare)
  ]
