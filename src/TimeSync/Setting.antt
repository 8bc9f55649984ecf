-- ===== src/TimeSync/Setting.antt =====
-- src/router_api.cpp and src/router.cpp: the calls that configure, set and clear the network time.
use sedsnet_cpp.Common.{
  ℕ, Bool, true, false, not, ◌&&◌, Option, none, some, [], Text, text_eq, codes, is_empty, ◌==◌,
  if◌then◌else◌,
}
use sedsnet_cpp.Common.Int.{ℤ, pos, negsuc}
use sedsnet_cpp.Common.Keyed.{remove}
use sedsnet_cpp.Queue.{add64}
use sedsnet_cpp.Reliable.Egress.{result_ok}
use sedsnet_cpp.Calendar.{CivilTime, split_unix_ms, network_time_to_unix_ms}
use sedsnet_cpp.TimeSync.{TimeSyncRuntime, current_network_ms, no_priority}

abbrev pub result_bad_arg : ℤ
result_bad_arg = negsuc 9

-- Each `has_` flag with its value.
pub record TimeFields : Type 0 where
  pub year : Option ℤ
  pub month : Option ℕ
  pub day : Option ℕ
  pub hour : Option ℕ
  pub minute : Option ℕ
  pub second : Option ℕ
  pub nanosecond : Option ℕ

abbrev or_current {ℓ} : {A : Type ℓ} → Option A → A → A
or_current none a = a
or_current (some b) a = b

abbrev pub epoch : CivilTime
epoch = record {
  year = pos 1970;
  month = 1;
  day = 1;
  hour = 0;
  minute = 0;
  second = 0;
  nanosecond = 0;
}

-- The current time, with the fields that are given in place of its own.
unfoldable pub with_fields : TimeFields → CivilTime → CivilTime
with_fields fields current = record {
  year = or_current fields.year current.year;
  month = or_current fields.month current.month;
  day = or_current fields.day current.day;
  hour = or_current fields.hour current.hour;
  minute = or_current fields.minute current.minute;
  second = or_current fields.second current.second;
  nanosecond = or_current fields.nanosecond current.nanosecond;
}

set_unix_ms : Option ℕ → ℕ → TimeSyncRuntime → TimeSyncRuntime × ℤ
set_unix_ms none now ts = (ts, result_bad_arg)
set_unix_ms (some unix_ms) now ts = (
  record ts {
    has_network_time = true;
    network_anchor_local_ms = now;
    network_anchor_unix_ms = unix_ms;
    current_source = if is_empty ts.current_source then codes "local" else ts.current_source;
    current_source_priority =
        if is_empty ts.current_source then ts.priority else ts.current_source_priority;
  },
  result_ok,
)

unfoldable pub set_network_time_from_fields : ℕ → TimeSyncRuntime → TimeFields → TimeSyncRuntime × ℤ
unfolding with_fields set_unix_ms
set_network_time_from_fields now ts fields =
    let current =
      if ts.has_network_time then split_unix_ms (current_network_ms now ts) else epoch in
    set_unix_ms (network_time_to_unix_ms (with_fields fields current)) now ts

-- `seds_router_configure_timesync`
unfoldable pub configure_timesync : ℕ → TimeSyncRuntime → Bool → ℕ → ℕ → ℕ → ℕ → ℕ → TimeSyncRuntime
configure_timesync now ts enabled role priority source_timeout_ms announce_interval_ms
      request_interval_ms =
    let configured = record ts {
      enabled = enabled;
      role = role;
      priority = priority;
      source_timeout_ms = source_timeout_ms;
      announce_interval_ms = announce_interval_ms;
      request_interval_ms = request_interval_ms;
    } in
    if enabled && role == 1 && not ts.has_network_time
    then record configured {
      has_network_time = true;
      network_anchor_local_ms = now;
      network_anchor_unix_ms = add64 1700000000000 now;
    }
    else configured

-- `Router::clear_local_network_time`
unfoldable pub clear_local_network_time : TimeSyncRuntime → TimeSyncRuntime
clear_local_network_time ts = record ts {
  has_network_time = false;
  current_source = [];
  current_source_priority = no_priority;
}

-- `Router::clear_network_time_source`
unfoldable pub clear_network_time_source : TimeSyncRuntime → Text → TimeSyncRuntime
clear_network_time_source ts source =
    let removed = record ts { sources = remove text_eq ts.sources source } in
    if text_eq ts.current_source source
    then record removed { current_source = []; current_source_priority = no_priority }
    else removed
