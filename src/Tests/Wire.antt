-- ===== src/Tests/Wire.antt =====
-- The results on frames, applied.
use sedsnet_cpp.Common.{true, false, [], ◌∷◌, All, codes, text_eq, ◌≡◌, refl, arith}
use sedsnet_cpp.Common.Bits.{has_bit}
use sedsnet_cpp.Schema.{
  ReliableHeaderLite, valid_type, valid_endpoint, is_named, is_endpoint_name, type_at,
  is_reliable_type, reliable,
}
use sedsnet_cpp.Wire.Ids.{
  v4_type_id, type_by_name, is_name, position, or_user_id, has_v4_reliable_header,
  is_reliable_control_type,
}
use sedsnet_cpp.Wire.Ids.Types.{IsFindable}
use sedsnet_cpp.Wire.Header.RoundTrip.{IsHeader}
use sedsnet_cpp.Wire.Bitmap.RoundTrip.{IsRuntimeEndpoint}
use sedsnet_cpp.Wire.Parse.{ok}
use sedsnet_cpp.Wire.Frame.Encode.{serialize_packet, serialize_packet_with_reliable, is_link_ack}
use sedsnet_cpp.Wire.Frame.Decode.{deserialize_packet}
use sedsnet_cpp.Wire.Frame.RoundTrip.{
  IsSendable, received, deserialize-serialize_packet_with_reliable,
  deserialize_packet-serialize_packet,
}
use sedsnet_cpp.Tests.{schema, gps, imu, zeros, zeros-IsLossless}

pub gps-IsFindable : IsFindable schema (codes "GPS") 100
unfolding valid_type is_named type_at type_by_name is_name text_eq
gps-IsFindable = record { valid = refl; named = refl; first = refl; runtime = λ h. omega arith }

imu-IsFindable : IsFindable schema (codes "IMU") 101
unfolding valid_type is_named type_at type_by_name is_name text_eq
imu-IsFindable = record { valid = refl; named = refl; first = refl; runtime = λ h. omega arith }

both-IsRuntimeEndpoint : All (IsRuntimeEndpoint schema) (100 ∷ 101 ∷ [])
unfolding valid_endpoint is_endpoint_name
both-IsRuntimeEndpoint = (
  record { valid = refl; least = omega arith; most = omega arith },
  (record { valid = refl; least = omega arith; most = omega arith }, tt),
)

gps-IsSendable : IsSendable schema (codes "GPS") gps
unfolding v4_type_id valid_type is_named type_at position is_name text_eq or_user_id
gps-IsSendable = record {
  findable = gps-IsFindable;
  ty_fits = omega arith;
  ascending = (omega arith, (omega arith, tt));
  runtime = both-IsRuntimeEndpoint;
  few = omega arith;
  time_fits = omega arith;
  size_fits = omega arith;
}

pub imu-IsSendable : IsSendable schema (codes "IMU") imu
unfolding v4_type_id valid_type is_named type_at position is_name text_eq or_user_id
imu-IsSendable = record {
  findable = imu-IsFindable;
  ty_fits = omega arith;
  ascending = (omega arith, (omega arith, tt));
  runtime = both-IsRuntimeEndpoint;
  few = omega arith;
  time_fits = omega arith;
  size_fits = omega arith;
}

abbrev header : ReliableHeaderLite
header = record { flags = 0; seq = 7; ack = 0 }

header-IsHeader : IsHeader header
header-IsHeader = record {
  is_byte = omega arith;
  clear = refl;
  seq_fits = omega arith;
  ack_fits = omega arith;
}

pub is_link_ack-imu : is_link_ack imu ≡ false
unfolding is_link_ack
is_link_ack-imu = refl

pub has_v4_reliable_header-gps : has_v4_reliable_header schema gps.ty ≡ true
unfolding has_v4_reliable_header is_reliable_type valid_type is_named type_at reliable
    is_reliable_control_type is_name text_eq
has_v4_reliable_header-gps = refl

deserialize_packet-serialize_packet_example :
    deserialize_packet schema zeros (serialize_packet schema zeros 4 imu) ≡ ok (received imu)
deserialize_packet-serialize_packet_example =
    deserialize_packet-serialize_packet schema zeros 4 (codes "IMU") imu zeros-IsLossless
      imu-IsSendable is_link_ack-imu

deserialize-serialize_packet_with_reliable_example :
    deserialize_packet schema zeros (serialize_packet_with_reliable schema zeros 4 gps header)
    ≡ ok (received gps)
deserialize-serialize_packet_with_reliable_example =
    deserialize-serialize_packet_with_reliable schema zeros 4 (codes "GPS") gps zeros-IsLossless
      gps-IsSendable header has_v4_reliable_header-gps header-IsHeader (unfold has_bit in refl)
