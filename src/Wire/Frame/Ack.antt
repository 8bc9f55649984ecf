-- ===== src/Wire/Frame/Ack.antt =====
-- Link acknowledgements: frames that `serialize_reliable_ack` writes for the sender of a frame.
use sedsnet_cpp.Common.{
  ℕ, ◌%◌, ◌^◌, ◌<◌, bit_or, Bool, true, false, not, ◌||◌, some, List, [], ◌∷◌, ◌++◌, Text, length,
  leb, replicate, ◌≡◌, refl, arith,
}
use sedsnet_cpp.Common.Words.{IsU64, IsU32}
use sedsnet_cpp.Schema.{Schema, FrameInfoLite, ReliableHeaderLite}
use sedsnet_cpp.Wire.Uleb.{write_uleb128}
use sedsnet_cpp.Wire.Uleb.RoundTrip.{read_uleb128-write_uleb128}
use sedsnet_cpp.Wire.Ids.{v4_type_id, has_v4_reliable_header}
use sedsnet_cpp.Wire.Ids.Types.{IsFindable, local_type_id-v4_type_id}
use sedsnet_cpp.Wire.Header.{flag_ack_only, read_v4_reliable_header, write_v4_reliable_header}
use sedsnet_cpp.Wire.Header.RoundTrip.{IsHeader, read-write_v4_reliable_header}
use sedsnet_cpp.Wire.Bitmap.{v4_endpoint_bitmap, parse_v4_bitmap, v4_bitmap_loop}
use sedsnet_cpp.Wire.Bitmap.RoundTrip.{parse_v4_bitmap-v4_endpoint_bitmap}
use sedsnet_cpp.Wire.Parse.{ok}
use sedsnet_cpp.Wire.Compress.{Zstd}
use sedsnet_cpp.Wire.Frame.{
  seal, sender_address_u32, address_sender, crc_holds, flag_endpoint_bitmap, flag_compact_reliable,
}
use sedsnet_cpp.Wire.Frame.Seal.{frame_body-seal, crc_holds-seal, length-seal_lem}
use sedsnet_cpp.Wire.Frame.Encode.{serialize_reliable_ack, frame_flags}
use sedsnet_cpp.Wire.Frame.Peek.{peek_frame_info, peek_body, peek_v4, peek_v4_reliable}
use sedsnet_cpp.Wire.Frame.RoundTrip.{
  IsFrameFlags, frame_flags-IsFrameFlags, skip_nonce-absent, skip_contract-absent,
  read_v4_endpoints-bitmap, sender_address_u32-lt,
}
use mathlib.Core.List.{append-nil}

abbrev ack_header : ℕ → ReliableHeaderLite
ack_header ack = record { flags = flag_ack_only; seq = 0; ack = ack }

ack_header-IsHeader : (ack : ℕ) → IsU32 ack → IsHeader (ack_header ack)
ack_header-IsHeader ack h = record {
  is_byte = omega arith;
  clear = refl;
  seq_fits = omega arith;
  ack_fits = h;
}

-- What the peek makes of an acknowledgement.
abbrev pub acknowledges : ℕ → Text → ℕ → ℕ → FrameInfoLite
acknowledges ty sender timestamp_ms ack = record {
  envelope = record {
    ty = ty;
    endpoints = [];
    sender = address_sender (sender_address_u32 sender);
    timestamp_ms = timestamp_ms;
  };
  reliable_header = some (ack_header ack);
}

abbrev ack_flags : ℕ
ack_flags = bit_or flag_endpoint_bitmap flag_compact_reliable

ack_flags-IsFrameFlags : IsFrameFlags ack_flags false true
ack_flags-IsFrameFlags = unfold frame_flags in frame_flags-IsFrameFlags false true

no_endpoints : (s : Schema) → parse_v4_bitmap s (replicate 32 0) ≡ ok []
no_endpoints s =
    unfold v4_endpoint_bitmap v4_bitmap_loop in parse_v4_bitmap-v4_endpoint_bitmap s [] tt tt

module _ (s : Schema) (z : Zstd) (name : Text) (ty timestamp_ms ack : ℕ) (sender : Text)
    (findable : IsFindable s name ty) (ty_fits : v4_type_id s ty < 2 ^ 32)
    (has : has_v4_reliable_header s ty ≡ true) (time_fits : IsU64 timestamp_ms)
    (ack_fits : IsU32 ack) where
  abbrev header_bytes : List ℕ
  header_bytes = write_v4_reliable_header (ack_header ack) true

  abbrev ack_envelope : List ℕ
  ack_envelope =
      write_uleb128 (v4_type_id s ty)
      ++ (write_uleb128 0
          ++ (write_uleb128 timestamp_ms
              ++ (write_uleb128 (sender_address_u32 sender) ++ (replicate 32 0 ++ header_bytes))))

  header_back : read_v4_reliable_header header_bytes true ≡ some (ack_header ack, [])
  header_back =
      rw append-nil at
        (read-write_v4_reliable_header (ack_header ack) true [] (ack_header-IsHeader ack ack_fits))

  peek_v4-ack : peek_v4 s z ack_flags 0 ack_envelope ≡ ok (acknowledges ty sender timestamp_ms ack)
  unfolding peek_v4
  peek_v4-ack =
      let flags = ack_flags in
      let bits = ack_flags-IsFrameFlags in
      let bitmap : List ℕ = replicate 32 0 in
      let after_time = write_uleb128 (sender_address_u32 sender) ++ (bitmap ++ header_bytes) in
      let after_size = write_uleb128 timestamp_ms ++ after_time in
      let address_fits = sender_address_u32-lt sender in
      let whole_ty : v4_type_id s ty % 2 ^ 32 ≡ v4_type_id s ty = omega arith in
      rw
        (
          read_uleb128-write_uleb128 (v4_type_id s ty) (write_uleb128 0 ++ after_size)
              (omega arith),
          read_uleb128-write_uleb128 0 after_size (omega arith),
          read_uleb128-write_uleb128 timestamp_ms after_time time_fits,
          skip_nonce-absent flags after_time bits.nonce_bit,
          read_uleb128-write_uleb128 (sender_address_u32 sender) (bitmap ++ header_bytes)
              (omega arith),
          whole_ty,
          local_type_id-v4_type_id s name ty findable,
          findable.valid,
          read_v4_endpoints-bitmap s flags ty bitmap header_bytes bits.bitmap_bit refl,
          no_endpoints s,
          skip_contract-absent flags header_bytes bits.contract_bit,
        )
        (unfold peek_v4_reliable in rw (has, bits.compact_bit, header_back))

  -- For a reliable type that can be found again, and numbers that fit their widths, an
  -- acknowledgement is peeked as one, with its number, and checking the CRC makes no difference.
  pub peek-serialize_reliable_ack :
      (verify_crc : Bool)
      → peek_frame_info s z (serialize_reliable_ack s sender ty timestamp_ms ack) verify_crc
        ≡ ok (acknowledges ty sender timestamp_ms ack)
  unfolding serialize_reliable_ack peek_frame_info
  peek-serialize_reliable_ack verify_crc =
      let body = ack_flags ∷ 0 ∷ ack_envelope in
      let bits = ack_flags-IsFrameFlags in
      let long : leb 6 (length (seal body)) ≡ true = ground (arith, length-seal_lem body) in
      let checked : (not verify_crc || crc_holds (seal body)) ≡ true =
        ground (arith, crc_holds-seal body) in
      rw (long, checked, frame_body-seal body) (unfold peek_body in rw bits.v4 peek_v4-ack)
