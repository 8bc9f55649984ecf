-- ===== src/Wire/Ids.antt =====
-- src/serialize.cpp: the ids that types and endpoints have on the wire.
pub mod Types
use sedsnet_cpp.Common.{
  ℕ, zero, suc, ◌+◌, ◌-◌, ◌<◌, Bool, true, false, not, ◌&&◌, ◌||◌, Option, none, some, List, [],
  ◌∷◌, Text, codes, text_eq, get_elem?, ltb, leb, ◌==◌, if◌then◌else◌,
}
use sedsnet_cpp.Wire.Parse.{Parse, ok, fault}
use sedsnet_cpp.Schema.{Schema, TypeInfo, valid_type, valid_endpoint, type_at, is_reliable_type}

-- The built-in types; the position in the list is the id on the wire.
abbrev pub builtin_types : List Text
builtin_types =
    codes "TELEMETRY_ERROR"
    ∷ codes "RELIABLE_ACK"
    ∷ codes "RELIABLE_PACKET_REQUEST"
    ∷ codes "RELIABLE_PARTIAL_ACK"
    ∷ codes "TIME_SYNC_ANNOUNCE"
    ∷ codes "TIME_SYNC_REQUEST"
    ∷ codes "TIME_SYNC_RESPONSE"
    ∷ codes "DISCOVERY_ANNOUNCE"
    ∷ codes "DISCOVERY_TIMESYNC_SOURCES"
    ∷ codes "DISCOVERY_TOPOLOGY"
    ∷ codes "SEDSNET_DISCOVERY_SCHEMA"
    ∷ codes "SEDSNET_DISCOVERY_TOPOLOGY_REQUEST"
    ∷ codes "SEDSNET_DISCOVERY_SCHEMA_REQUEST"
    ∷ codes "SEDSNET_MANAGED_VARIABLE_REQUEST"
    ∷ codes "SEDSNET_MANAGED_VARIABLE_VALUE"
    ∷ codes "SEDSNET_DISCOVERY_LEAVE"
    ∷ codes "SEDSNET_DISCOVERY_LINK_CAPABILITIES"
    ∷ codes "SEDSNET_DISCOVERY_ADDRESS"
    ∷ codes "SEDSNET_P2P_MESSAGE"
    ∷ []

-- `name == text` for a name of the table of types, where no name is null (what is not registered
-- has the name ""), or of the table of endpoints after a test that it is not null.
unfoldable pub is_name : Option Text → Text → Bool
is_name none text = false
is_name (some name) text = text_eq name text

-- A ladder of `if (name == …) return …;`: the first entry that fits, counted from `i`.
unfoldable pub position : Option Text → List Text → ℕ → Option ℕ
unfolding is_name
position name [] i = none
position name (text ∷ texts) i = if is_name name text then some i else position name texts (suc i)

-- The loop `by_name` over `kTypeInfo`.
unfoldable pub type_by_name : Text → List TypeInfo → ℕ → Option ℕ
unfolding is_name
type_by_name text [] i = none
type_by_name text (info ∷ infos) i =
    if is_name info.name text then some i else type_by_name text infos (suc i)

-- The loop `by_name` of `local_endpoint_id`, which compares with a null name that it comes to.
unfoldable pub by_name : Text → List (Option Text) → ℕ → Parse (Option ℕ)
by_name text [] i = ok none
by_name text (none ∷ names) i = fault
by_name text (some name ∷ names) i =
    let later = by_name text names (suc i) in if text_eq name text then ok (some i) else later

unfoldable pub or_user_id : Option ℕ → ℕ → ℕ
or_user_id (some id) local = id
or_user_id none local = if leb 100 local then local else 100 + local

unfoldable pub v4_type_id : Schema → ℕ → ℕ
unfolding valid_type type_at position or_user_id
v4_type_id s local =
    if not (valid_type s local)
    then local
    else or_user_id (position (type_at s local).name builtin_types 0) local

-- `default:` of `local_type_id`.
unfoldable pub local_user_type : Schema → ℕ → Option ℕ
unfolding valid_type
local_user_type s wire =
    if leb 100 wire
    then (if valid_type s wire
        then some wire
        else if valid_type s (wire - 100)
        then some (wire - 100)
        else none)
    else none

unfoldable pub local_builtin_or : Schema → ℕ → Option Text → Option ℕ
unfolding type_by_name local_user_type
local_builtin_or s wire (some text) = type_by_name text s.type_info 0
local_builtin_or s wire none = local_user_type s wire

unfoldable pub local_type_id : Schema → ℕ → Option ℕ
unfolding local_builtin_or
local_type_id s wire = local_builtin_or s wire (get_elem? builtin_types wire)

or_endpoint_name : Option (Option Text) → Option Text
or_endpoint_name none = none
or_endpoint_name (some name) = name

abbrev pub builtin_endpoints : List Text
builtin_endpoints = codes "TIME_SYNC" ∷ codes "DISCOVERY" ∷ codes "TELEMETRY_ERROR" ∷ []

unfoldable pub or_user_endpoint : Option ℕ → ℕ → ℕ
or_user_endpoint (some id) local = id
or_user_endpoint none local = 100 + local

unfoldable pub v4_endpoint_id : Schema → ℕ → ℕ
unfolding valid_endpoint position or_endpoint_name or_user_endpoint
v4_endpoint_id s local =
    if not (valid_endpoint s local)
    then local
    else (if leb 100 local
        then local
        else or_user_endpoint
            (position (or_endpoint_name (get_elem? s.endpoint_names local)) builtin_endpoints 200)
            local)

unfoldable pub local_user_endpoint : Schema → ℕ → Option ℕ
unfolding valid_endpoint
local_user_endpoint s wire =
    if leb 100 wire
    then (if valid_endpoint s wire
        then some wire
        else if valid_endpoint s (wire - 100)
        then some (wire - 100)
        else none)
    else none

unfoldable pub local_endpoint_id : Schema → ℕ → Parse (Option ℕ)
unfolding valid_endpoint by_name local_user_endpoint
local_endpoint_id s wire =
    if wire == 200 || wire == 201 || wire == 202
    then (if valid_endpoint s wire
        then ok (some wire)
        else if wire == 200
        then by_name (codes "TIME_SYNC") s.endpoint_names 0
        else if wire == 201
        then by_name (codes "DISCOVERY") s.endpoint_names 0
        else by_name (codes "TELEMETRY_ERROR") s.endpoint_names 0)
    else ok (local_user_endpoint s wire)

-- `is_reliable_control_type`
unfoldable pub is_reliable_control_type : Schema → ℕ → Bool
unfolding valid_type type_at is_name
is_reliable_control_type s local =
    let name = (type_at s local).name in
    valid_type s local
    && (is_name name (codes "RELIABLE_ACK")
        || is_name name (codes "RELIABLE_PACKET_REQUEST")
        || is_name name (codes "RELIABLE_PARTIAL_ACK"))

unfoldable pub has_v4_reliable_header : Schema → ℕ → Bool
unfolding is_reliable_type is_reliable_control_type
has_v4_reliable_header s local = is_reliable_type s local && not (is_reliable_control_type s local)
