-- ===== src/Local.antt =====
-- src/router_core.cpp and src/core.cpp: handing a packet to the handlers of the local endpoints.
-- A handler is `true` where it is not null. What a packet handler answers is the parameter
-- `on_packet`, a function of the calls made before (newest first); it does not call the router.
pub mod Attempts
pub mod Report
pub mod Told
use sedsnet_cpp.Common.{
  ℕ, zero, suc, Bool, true, false, not, ◌&&◌, ◌||◌, Option, none, some, List, [], ◌∷◌, ◌++◌, Text,
  codes, to_string, contains, is_empty, ◌==◌, if◌then◌else◌, get_elem?,
}
use sedsnet_cpp.Common.Int.{ℤ, pos, negsuc, int_eq}
use sedsnet_cpp.Schema.{Schema, PacketData, valid_endpoint, dt_telemetry_error}
use sedsnet_cpp.Packets.{make_router_error_packet}
use sedsnet_cpp.Reliable.Egress.{result_ok}
use sedsnet_cpp.Relay.{result_handler_error}
use sedsnet_cpp.Wire.Compress.{Zstd}
use sedsnet_cpp.Wire.Frame.Encode.{serialize_packet}

pub record LocalEndpoint : Type 0 where
  pub endpoint : ℕ
  pub packet_handler : Bool
  pub serialized_handler : Bool
  pub user : ℕ

abbrev pub Calls : Type 0
Calls = List (LocalEndpoint × PacketData)

-- The texts of the results from `SEDS_ERR`, -1, on; `SEDS_PERMISSION_DENIED` has none.
abbrev error_texts : List Text
error_texts =
    codes "ERR"
    ∷ codes "Generic error"
    ∷ codes "Invalid type"
    ∷ codes "Size mismatch"
    ∷ codes "Size mismatch error"
    ∷ codes "Empty endpoints"
    ∷ codes "Timestamp invalid"
    ∷ codes "Missing payload"
    ∷ codes "Handler error"
    ∷ codes "Bad arg"
    ∷ codes "Unknown error"
    ∷ codes "Serialize error"
    ∷ codes "Deserialize error"
    ∷ codes "I/O error"
    ∷ codes "Invalid UTF-8"
    ∷ codes "Type mismatch"
    ∷ codes "Invalid link id"
    ∷ codes "Packet too large"
    ∷ []

or_unknown : Option Text → Text
or_unknown none = codes "Unknown error"
or_unknown (some text) = text

unfoldable pub error_string : ℤ → Text
unfolding or_unknown
error_string (pos code) = if code == 0 then codes "OK" else codes "Unknown error"
error_string (negsuc code) = or_unknown (get_elem? error_texts code)

-- What the first loop keeps.
pub record Failures : Type 0 where
  pub had_failure : Bool
  pub error_endpoints : List ℕ
  pub failing_endpoint : ℕ
  pub failing_rc : ℤ
  pub calls : Calls

name_or_number : Option (Option Text) → ℕ → Text
name_or_number (some (some name)) endpoint = name
name_or_number _ endpoint = to_string endpoint

unfoldable pub local_handler_error_message : Schema → ℕ → ℤ → Text
unfolding name_or_number
local_handler_error_message s endpoint rc =
    codes "Handler for endpoint "
    ++ (name_or_number (get_elem? s.endpoint_names endpoint) endpoint
        ++ (codes " failed: " ++ error_string rc))

-- The endpoints of the other handlers, each once.
unfoldable pub other_endpoints : ℕ → List LocalEndpoint → List ℕ → List ℕ
other_endpoints endpoint [] out = out
other_endpoints endpoint (other ∷ rest) out = other_endpoints endpoint rest (
    if other.endpoint == endpoint || not other.packet_handler || contains out other.endpoint
    then out
    else out ++ (other.endpoint ∷ []))

-- A handler that the packet is for.
unfoldable pub takes : PacketData → LocalEndpoint → Bool
takes pkt local = contains pkt.endpoints local.endpoint && local.packet_handler

-- Each handler of the error packet is called once, and what it answers is dropped.
unfoldable pub warn_locals : List LocalEndpoint → PacketData → Calls → Calls
unfolding takes
warn_locals [] pkt calls = calls
warn_locals (local ∷ rest) pkt calls =
    warn_locals rest pkt (if takes pkt local then (local, pkt) ∷ calls else calls)

module _ (on_packet : Calls → LocalEndpoint → PacketData → ℤ) where
  -- The handler is called until it answers `SEDS_OK`, at most as often as is left.
  unfoldable pub attempts : ℕ → ℤ → LocalEndpoint → PacketData → Calls → ℤ × Calls
  attempts zero rc local pkt calls = (rc, calls)
  attempts (suc n) rc local pkt calls =
      let answer = on_packet calls local pkt in
      let later = attempts n answer local pkt ((local, pkt) ∷ calls) in
      if int_eq answer result_ok then (answer, (local, pkt) ∷ calls) else later

  module _ (max_handler_retries : ℕ) where
    unfoldable pub after_attempts :
        ℤ × Calls → LocalEndpoint → List LocalEndpoint → Failures → Failures
    after_attempts (rc, calls) local locals f =
        if int_eq rc result_ok then record f { calls = calls } else record {
          had_failure = true;
          error_endpoints = other_endpoints local.endpoint locals f.error_endpoints;
          failing_endpoint =
              if int_eq f.failing_rc result_ok then local.endpoint else f.failing_endpoint;
          failing_rc = if int_eq f.failing_rc result_ok then rc else f.failing_rc;
          calls = calls;
        }

    -- The first argument is what is left of the locals.
    unfoldable pub tell_locals :
        List LocalEndpoint → List LocalEndpoint → PacketData → Failures → Failures
    unfolding takes after_attempts
    tell_locals [] locals pkt f = f
    tell_locals (local ∷ rest) locals pkt f = tell_locals rest locals pkt (
        if takes pkt local
        then after_attempts (attempts max_handler_retries result_ok local pkt f.calls) local locals
            f
        else f)

    -- The result and the calls; `device` is `runtime_device_identifier()`.
    unfoldable pub dispatch_local_packet_handlers :
        Schema → Text → PacketData → List LocalEndpoint → Calls → ℤ × Calls
    unfolding tell_locals warn_locals local_handler_error_message
    dispatch_local_packet_handlers s device pkt locals calls =
        let f = tell_locals locals locals pkt (record {
          had_failure = false;
          error_endpoints = [];
          failing_endpoint = 0;
          failing_rc = result_ok;
          calls = calls;
        }) in
        let error_pkt =
          make_router_error_packet device f.error_endpoints
            (local_handler_error_message s f.failing_endpoint f.failing_rc) in
        (
          if f.had_failure then result_handler_error else result_ok,
          if f.had_failure && not (pkt.ty == dt_telemetry_error) && not (is_empty f.error_endpoints)
              then warn_locals locals error_pkt f.calls
              else f.calls,
        )

-- The calls of serialized handlers; what they answer is dropped.
unfoldable dispatch_local_serialized_handlers :
    List ℕ
    → List ℕ
    → List LocalEndpoint
    → List (LocalEndpoint × List ℕ)
    → List (LocalEndpoint × List ℕ)
dispatch_local_serialized_handlers endpoints bytes [] calls = calls
dispatch_local_serialized_handlers endpoints bytes (local ∷ rest) calls =
    dispatch_local_serialized_handlers endpoints bytes rest (
      if contains endpoints local.endpoint && local.serialized_handler
      then (local, bytes) ∷ calls
      else calls)

unfoldable dispatch_local_from_packet :
    (Calls → LocalEndpoint → PacketData → ℤ)
    → ℕ
    → Schema
    → Zstd
    → ℕ
    → Text
    → PacketData
    → List LocalEndpoint
    → Calls × List (LocalEndpoint × List ℕ)
    → Calls × List (LocalEndpoint × List ℕ)
unfolding dispatch_local_packet_handlers dispatch_local_serialized_handlers
dispatch_local_from_packet on_packet max_handler_retries s z threshold device pkt locals
      (calls, serialized) =
    (
      (dispatch_local_packet_handlers on_packet max_handler_retries s device pkt locals calls).1,
      dispatch_local_serialized_handlers pkt.endpoints (serialize_packet s z threshold pkt) locals
          serialized,
    )
