-- ===== src/Packets.antt =====
-- src/core.cpp: the packets that the library itself makes.
use sedsnet_cpp.Common.{
  ℕ, suc, text_eq, Option, none, some, List, [], ◌∷◌, ◌++◌, Text, codes, take, contains, is_empty,
  if◌then◌else◌, ◌&&◌, ltb, length,
}
use sedsnet_cpp.Common.Words.{append_le}
use sedsnet_cpp.Schema.{
  Schema, PacketData, type_at, valid_type, dt_telemetry_error, dt_reliable_ack,
}
use sedsnet_cpp.Wire.Ids.{v4_type_id}

-- `runtime_device_identifier()` is the argument `device`.
unfoldable pub make_internal_packet : Schema → Text → ℕ → ℕ → List ℕ → PacketData
make_internal_packet s device ty ts payload = record {
  ty = ty;
  sender = device;
  endpoints = (type_at s ty).endpoints;
  timestamp = ts;
  payload = payload;
}

-- The loop of `make_reliable_control_packet` over `kEndpointNames`, which passes over null names.
endpoint_by_name : Text → List (Option Text) → ℕ → Option ℕ
endpoint_by_name text [] i = none
endpoint_by_name text (none ∷ names) i = endpoint_by_name text names (suc i)
endpoint_by_name text (some name ∷ names) i =
    let later = endpoint_by_name text names (suc i) in if text_eq name text then some i else later

or_own_endpoints : Schema → ℕ → Option ℕ → List ℕ
or_own_endpoints s control_ty (some i) = i ∷ []
or_own_endpoints s control_ty none = (type_at s control_ty).endpoints

unfoldable pub make_reliable_control_packet : Schema → ℕ → ℕ → ℕ → ℕ → Text → PacketData
unfolding or_own_endpoints endpoint_by_name
make_reliable_control_packet s control_ty ty seq ts sender = record {
  ty = control_ty;
  sender = sender;
  endpoints =
      or_own_endpoints s control_ty (endpoint_by_name (codes "TELEMETRY_ERROR") s.endpoint_names 0);
  timestamp = ts;
  payload = append_le 4 (v4_type_id s ty) ++ append_le 4 seq;
}

unfoldable pub make_e2e_reliable_ack_packet : Schema → ℕ → ℕ → Text → PacketData
make_e2e_reliable_ack_packet s packet_id ts sender = record {
  ty = dt_reliable_ack;
  sender = sender;
  endpoints = (type_at s dt_reliable_ack).endpoints;
  timestamp = ts;
  payload = append_le 8 packet_id;
}

-- The endpoints of the local handlers, each once, in the order of registration.
unfoldable pub distinct_endpoints : List ℕ → List ℕ → List ℕ
distinct_endpoints out [] = out
distinct_endpoints out (ep ∷ eps) =
    distinct_endpoints (if contains out ep then out else out ++ (ep ∷ [])) eps

unfoldable pub local_endpoints_for_error : Schema → List ℕ → List ℕ
local_endpoints_for_error s locals =
    let endpoints = distinct_endpoints [] locals in
    if is_empty endpoints && valid_type s dt_telemetry_error
    then (type_at s dt_telemetry_error).endpoints
    else endpoints

-- An error report carries at most 1024 bytes of its message.
unfoldable pub make_router_error_packet : Text → List ℕ → Text → PacketData
make_router_error_packet device endpoints message = record {
  ty = dt_telemetry_error;
  sender = device;
  endpoints = endpoints;
  timestamp = 0;
  payload = if ltb 1024 (length message) then take 1024 message else message;
}
