-- ===== src/Schema.antt =====
-- Cpp-Headers/internal.hpp and src/core.cpp: type and endpoint metadata, packets, headers.
-- `kTypeInfo` and `kEndpointNames` are globals that the generated schema and the runtime
-- registration fill; here they are the fields of a `Schema` that every reader takes.
pub mod Payload
pub mod LinkLocal
use sedsnet_cpp.Common.{
  ℕ, ◌+◌, ◌*◌, ◌%◌, Bool, true, false, not, ◌&&◌, ◌||◌, Option, none, some, List, [], ◌∷◌, Text,
  codes, get_elem?, length, ltb, ◌==◌,
}

pub data ElementDataType : Type 0 where
  no_data bool uint8 uint16 uint32 uint64 uint128 int8 int16 int32 int64 int128 : ElementDataType
  float32 float64 string binary : ElementDataType

pub data MessageClass : Type 0 where
  message_data message_error message_warning : MessageClass

pub data ReliableMode : Type 0 where
  unreliable ordered unordered : ReliableMode

-- `name` is the C string behind `const char *`; `none` is a null pointer.
pub record TypeInfo : Type 0 where
  pub name : Option Text
  pub elem_size : ℕ
  pub static_count : ℕ
  pub dynamic : Bool
  pub reliable_mode : ReliableMode
  pub data_type : ElementDataType
  pub message_class : MessageClass
  pub link_local_only : Bool
  pub endpoints : List ℕ

-- `TypeInfo::reliable`
unfoldable pub reliable : TypeInfo → Bool
reliable info = elim info.reliable_mode [ unreliable ↦ false | _ ↦ true ]

pub record Schema : Type 0 where
  pub type_info : List TypeInfo
  pub endpoint_names : List (Option Text)

pub record PacketData : Type 0 where
  pub ty : ℕ
  pub sender : Text
  pub endpoints : List ℕ
  pub timestamp : ℕ
  pub payload : List ℕ

pub record TelemetryEnvelopeLite : Type 0 where
  pub ty : ℕ
  pub endpoints : List ℕ
  pub sender : Text
  pub timestamp_ms : ℕ

pub record ReliableHeaderLite : Type 0 where
  pub flags : ℕ
  pub seq : ℕ
  pub ack : ℕ

pub record FrameInfoLite : Type 0 where
  pub envelope : TelemetryEnvelopeLite
  pub reliable_header : Option ReliableHeaderLite

-- Control types and endpoints with fixed ids in the public header.
abbrev pub dt_telemetry_error : ℕ
dt_telemetry_error = 0

abbrev pub dt_reliable_ack : ℕ
dt_reliable_ack = 1

abbrev pub dt_reliable_packet_request : ℕ
dt_reliable_packet_request = 2

abbrev pub dt_reliable_partial_ack : ℕ
dt_reliable_partial_ack = 3

abbrev pub ep_discovery : ℕ
ep_discovery = 201

-- A name that is there and does not begin with its terminator.
unfoldable pub is_named : Option TypeInfo → Bool
is_named none = false
is_named (some info) = elim info.name [ none ↦ false | some [] ↦ false | some (c ∷ cs) ↦ true ]

unfoldable pub valid_type : Schema → ℕ → Bool
unfolding is_named
valid_type s ty = is_named (get_elem? s.type_info ty)

unfoldable pub is_endpoint_name : Option (Option Text) → Bool
is_endpoint_name (some (some name)) = true
is_endpoint_name (some none) = false
is_endpoint_name none = false

unfoldable pub valid_endpoint : Schema → ℕ → Bool
unfolding is_endpoint_name
valid_endpoint s ep = is_endpoint_name (get_elem? s.endpoint_names ep)

-- `kTypeInfo[ty]` read after `valid_type(ty)` answered true, or before, where the source does so.
abbrev pub no_type : TypeInfo
no_type = record {
  name = some [];
  elem_size = 0;
  static_count = 0;
  dynamic = false;
  reliable_mode = unreliable;
  data_type = no_data;
  message_class = message_data;
  link_local_only = false;
  endpoints = [];
}

abbrev or_no_type : Option TypeInfo → TypeInfo
or_no_type none = no_type
or_no_type (some info) = info

unfoldable pub type_at : Schema → ℕ → TypeInfo
type_at s ty = or_no_type (get_elem? s.type_info ty)

unfoldable pub is_reliable_type : Schema → ℕ → Bool
unfolding valid_type type_at reliable
is_reliable_type s ty = valid_type s ty && reliable (type_at s ty)

-- Reliable control packets, which the link protocol itself consumes.
unfoldable pub is_internal_control_type : ℕ → Bool
is_internal_control_type ty =
    ty == dt_reliable_ack || ty == dt_reliable_partial_ack || ty == dt_reliable_packet_request
