-- ===== src/Tests/Times.antt =====
-- The results on the calendar and on the time synchronisation, applied.
use sedsnet_cpp.Common.{
  ℕ, List, ◌^◌, ◌<◌, ◌≤◌, ◌/◌, ◌*◌, text_eq, true, false, none, some, [], ◌∷◌, codes, replicate,
  ◌≡◌, refl, arith,
}
use sedsnet_cpp.Common.Int.{ℤ, pos}
use sedsnet_cpp.Schema.{PacketData}
use sedsnet_cpp.Reliable.{Owner}
use sedsnet_cpp.Topology.{DiscoveryRoute}
use sedsnet_cpp.Calendar.{CivilTime, is_civil_time, split_unix_ms, network_time_to_unix_ms}
use sedsnet_cpp.Calendar.RoundTrip.{
  network_time_to_unix_ms-split_unix_ms, split_unix_ms-network_time_to_unix_ms,
}
use sedsnet_cpp.TimeSync.{TimeSyncRuntime, SourceState, current_network_ms}
use sedsnet_cpp.TimeSync.Exchange.{IsAnswered, handle_timesync_packet-IsAnswered}
use sedsnet_cpp.TimeSync.Polling.{get_network_time_ms, poll_timesync}
use sedsnet_cpp.TimeSync.Answer.{get_network_time_ms_forward}
use sedsnet_cpp.TimeSync.Spacing.{poll_all, poll_timesync_spaced}
use sedsnet_cpp.Tests.{schema, imu}

network_time_to_unix_ms-split_unix_ms_example :
    network_time_to_unix_ms (split_unix_ms 1700000000123) ≡ some 1700000000123
network_time_to_unix_ms-split_unix_ms_example =
    network_time_to_unix_ms-split_unix_ms 1700000000123 (omega arith)

abbrev leap_day : CivilTime
leap_day = record {
  year = pos 2024;
  month = 2;
  day = 29;
  hour = 23;
  minute = 59;
  second = 59;
  nanosecond = 500000000;
}

split_unix_ms-network_time_to_unix_ms_example :
    (ms : ℕ) × (ms < 2 ^ 64)
    × (network_time_to_unix_ms leap_day ≡ some ms)
    × (split_unix_ms ms ≡ record leap_day { nanosecond = leap_day.nanosecond / 1000000 * 1000000 })
unfolding is_civil_time
split_unix_ms-network_time_to_unix_ms_example =
    split_unix_ms-network_time_to_unix_ms leap_day 2024 refl refl (omega arith) (omega arith)

abbrev link_at : ℕ → Owner
link_at clock = record {
  sides = [];
  tx_queue = record { items = []; bytes = 0 };
  reliable_released_rx = [];
  reliable_tx = [];
  reliable_rx = [];
  max_queue_budget = 4096;
  sender = codes "CLOCK";
  clock = clock;
  side_tx_active = false;
  side_tx_deferred = false;
  calls = [];
}

abbrev silent_source : SourceState
silent_source = record { priority = 10; last_seen_ms = 1000; last_time_ms = 1700000000000 }

abbrev other_source : SourceState
other_source = record { priority = 20; last_seen_ms = 9000; last_time_ms = 1700000007000 }

abbrev server : TimeSyncRuntime
server = record {
  enabled = true;
  role = 1;
  priority = 100;
  source_timeout_ms = 5000;
  announce_interval_ms = 1000;
  request_interval_ms = 1000;
  last_announce_ms = 0;
  last_request_ms = 0;
  has_network_time = true;
  network_anchor_local_ms = 1000;
  network_anchor_unix_ms = 1700000000000;
  current_source = codes "GPS";
  current_source_priority = 10;
  sources = (codes "GPS", silent_source) ∷ (codes "RTC", other_source) ∷ [];
}

abbrev request : PacketData
request = record imu { ty = 5; payload = replicate 16 7 }

handle_timesync_packet-IsAnswered_example :
    IsAnswered schema (link_at 9500) server request (some (pos 2)) (link_at 40) server none 1040
unfolding current_network_ms
handle_timesync_packet-IsAnswered_example =
    handle_timesync_packet-IsAnswered schema (link_at 9500) server request (some (pos 2))
      (link_at 40) server none 1040 refl refl refl refl (omega arith) (omega arith) (omega arith)
      (omega arith)

get_network_time_ms_forward_example :
    (a : ℕ) × (b : ℕ) × ((get_network_time_ms 9500 server).1 ≡ some a)
    × ((get_network_time_ms 9600 ((get_network_time_ms 9500 server).0)).1 ≡ some b)
    × (current_network_ms 9500 server ≤ a)
    × (a ≤ b)
unfolding get_network_time_ms text_eq current_network_ms
get_network_time_ms_forward_example =
    get_network_time_ms_forward 9500 9600 server refl (omega arith) (omega arith) (omega arith)
      (omega arith)

abbrev polls : List (Owner × List (ℤ × DiscoveryRoute))
polls = (link_at 9800, []) ∷ (link_at 10100, []) ∷ []

poll_timesync_spaced_example :
    let first = poll_timesync schema (link_at 9500) server [] in
    let last = poll_timesync schema (link_at 10400) (poll_all schema polls (first.1)) [] in
    (first.2 ≡ true) × (last.2 ≡ false) × (last.0 ≡ link_at 10400)
poll_timesync_spaced_example =
    poll_timesync_spaced schema (link_at 9500) (link_at 10400) server [] [] polls refl refl refl
      (omega arith) (omega arith, (omega arith, tt)) (omega arith)
