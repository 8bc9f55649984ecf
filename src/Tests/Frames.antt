-- ===== src/Tests/Frames.antt =====
-- The results on the frame readers, applied.
use sedsnet_cpp.Common.{
  ℕ, zero, suc, All, inr, some, false, ◌-◌, ◌^◌, true, List, [], ◌∷◌, ◌++◌, codes, length,
  replicate, ◌≡◌, ◌≢◌, refl, arith, text_eq,
}
use sedsnet_cpp.Common.Bits.{has_bit}
use sedsnet_cpp.Schema.{Schema, no_type, valid_type, is_named, type_at, FrameInfoLite}
use sedsnet_cpp.Wire.Ids.{v4_type_id, position, is_name, or_user_id}
use sedsnet_cpp.Wire.Bitmap.{endpoint_bitmap_bytes, parse_bitmap}
use sedsnet_cpp.Wire.Parse.{ok, fault}
use sedsnet_cpp.Wire.Frame.{is_v4_frame_flags, seal}
use sedsnet_cpp.Wire.Frame.Seal.{frame_body-seal}
use sedsnet_cpp.Wire.Frame.Encode.{serialize_packet, serialize_reliable_ack}
use sedsnet_cpp.Wire.Frame.Decode.{deserialize_packet, deserialize_legacy}
use sedsnet_cpp.Wire.Frame.Peek.{peek_frame_info}
use sedsnet_cpp.Wire.Frame.Agree.{Describes, peek_frame_info-deserialize_packet}
use sedsnet_cpp.Wire.Frame.Ack.{acknowledges, peek-serialize_reliable_ack}
use sedsnet_cpp.Wire.Frame.Safety.{
  IsGiven, IsSearchable, deserialize_packet_v4_safe, deserialize_legacy_overruns, legacy_fields,
}
use sedsnet_cpp.Wire.Frame.RoundTrip.{received, deserialize_packet-serialize_packet}
use sedsnet_cpp.Tests.{schema, user_type, imu, zeros, zeros-IsLossless}
use sedsnet_cpp.Tests.Wire.{
  gps-IsFindable, imu-IsSendable, has_v4_reliable_header-gps, is_link_ack-imu,
}

peek_frame_info-deserialize_packet_example :
    (info : FrameInfoLite) × (peek_frame_info schema zeros
        (serialize_packet schema zeros 4 imu)
        true
      ≡ ok info)
    × Describes info (received imu)
peek_frame_info-deserialize_packet_example =
    peek_frame_info-deserialize_packet schema zeros (serialize_packet schema zeros 4 imu) true
      (received imu)
      (deserialize_packet-serialize_packet schema zeros 4 (codes "IMU") imu zeros-IsLossless
        imu-IsSendable is_link_ack-imu)

peek-serialize_reliable_ack_example :
    peek_frame_info schema zeros (serialize_reliable_ack schema (codes "GPS") 100 5 42) true
    ≡ ok (acknowledges 100 (codes "GPS") 5 42)
peek-serialize_reliable_ack_example =
    peek-serialize_reliable_ack schema zeros (codes "GPS") 100 5 42 (codes "GPS") gps-IsFindable
      (unfold v4_type_id valid_type is_named type_at position is_name text_eq or_user_id in
        omega arith)
      has_v4_reliable_header-gps (omega arith) (omega arith) true

-- No name is null, and DISCOVERY stands at another place than 201.
abbrev named : Schema
named = record {
  type_info = schema.type_info;
  endpoint_names = some (codes "SD") ∷ some (codes "DISCOVERY") ∷ [];
}

All-IsGiven :
    (n : ℕ)
    → All
        (λ info. IsGiven info.name)
        (replicate n no_type ++ (user_type (codes "GPS") true ∷ user_type (codes "IMU") false ∷ []))
All-IsGiven zero = ((λ e. cc), ((λ e. cc), tt))
All-IsGiven (suc n) = ((λ e. cc), All-IsGiven n)

named-IsSearchable : IsSearchable named
named-IsSearchable = record {
  types = All-IsGiven 100;
  endpoints = inr ((λ e. cc), ((λ e. cc), tt));
}

-- A packet of type 100 for the endpoint 201 of the wire.
abbrev for_discovery : List ℕ
for_discovery = 0x64 ∷ 0 ∷ 5 ∷ 7 ∷ replicate 25 0 ++ (2 ∷ replicate 6 0)

deserialize_packet_v4_safe_example :
    deserialize_packet named zeros (seal (0x20 ∷ 1 ∷ for_discovery)) ≢ fault
deserialize_packet_v4_safe_example =
    deserialize_packet_v4_safe named zeros (seal (0x20 ∷ 1 ∷ for_discovery)) for_discovery 0x20 1
      named-IsSearchable (frame_body-seal (0x20 ∷ 1 ∷ for_discovery))
      (unfold is_v4_frame_flags has_bit in refl)

abbrev no_bits : List ℕ
no_bits = replicate 13 0

deserialize_legacy_overruns_example :
    deserialize_legacy schema zeros 0
      (length (parse_bitmap schema no_bits))
      (legacy_fields 100 0 5 (2 ^ 64 - 13) (no_bits ++ []))
    ≡ fault
deserialize_legacy_overruns_example =
    deserialize_legacy_overruns schema zeros 0 100 0 5 (2 ^ 64 - 13) no_bits [] (omega arith)
      (omega arith, omega arith, omega arith, omega arith) (unfold valid_type is_named in refl)
      (unfold endpoint_bitmap_bytes in refl) (unfold endpoint_bitmap_bytes in omega arith)
      (omega arith)
