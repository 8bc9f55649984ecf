-- ===== src/TimeSync.antt =====
-- src/timesync.cpp, Cpp-Headers/timesync.hpp and the parts of src/router_api.cpp, src/router.cpp
-- and src/core.cpp that keep a router's network time.
-- The router is the pair of its link layer (`Owner`: clock, sender, transmit queue) and its
-- `TimeSyncRuntime`. The order of an unordered map is unspecified; here it is that of the list.
pub mod Setting
pub mod Polling
pub mod Exchange
pub mod Answer
pub mod Spacing
use sedsnet_cpp.Common.{
  ℕ, ◌+◌, ◌-◌, ◌/◌, ◌%◌, ◌^◌, Bool, true, false, not, ◌&&◌, ◌||◌, Option, none, some, List, [], ◌∷◌,
  ◌++◌, Text, text_eq, drop, length, is_empty, ltb, leb, ◌==◌, if◌then◌else◌, ◌<◌, ◌≡◌, ap,
}
use sedsnet_cpp.Common.Int.{ℤ}
use sedsnet_cpp.Common.Words.{append_le, read_le, read_le-append_le}
use sedsnet_cpp.Common.Keyed.{lookup, store, touch}
use sedsnet_cpp.Schema.{Schema, PacketData}
use sedsnet_cpp.Packets.{make_internal_packet}
use sedsnet_cpp.Queue.{add64, sub64, enqueue_bounded}
use sedsnet_cpp.Queue.Items.{tx_cost}
use sedsnet_cpp.Reliable.{Owner}

abbrev pub dt_time_sync_announce : ℕ
dt_time_sync_announce = 4

abbrev pub dt_time_sync_request : ℕ
dt_time_sync_request = 5

abbrev pub dt_time_sync_response : ℕ
dt_time_sync_response = 6

-- `UINT64_MAX`
abbrev pub no_priority : ℕ
no_priority = 2 ^ 64 - 1

pub record SourceState : Type 0 where
  pub priority : ℕ
  pub last_seen_ms : ℕ
  pub last_time_ms : ℕ

pub record TimeSyncRuntime : Type 0 where
  pub enabled : Bool
  pub role : ℕ
  pub priority : ℕ
  pub source_timeout_ms : ℕ
  pub announce_interval_ms : ℕ
  pub request_interval_ms : ℕ
  pub last_announce_ms : ℕ
  pub last_request_ms : ℕ
  pub has_network_time : Bool
  pub network_anchor_local_ms : ℕ
  pub network_anchor_unix_ms : ℕ
  pub current_source : Text
  pub current_source_priority : ℕ
  pub sources : List (Text × SourceState)

unfoldable pub current_network_ms : ℕ → TimeSyncRuntime → ℕ
current_network_ms now ts =
    if ts.has_network_time
    then add64 ts.network_anchor_unix_ms (sub64 now ts.network_anchor_local_ms)
    else 0

-- `std::memcpy` of eight bytes from `off` on, after a test that they are there.
or_zero : Option (ℕ × List ℕ) → ℕ
or_zero none = 0
or_zero (some (v, rest)) = v

unfoldable pub word_at : ℕ → List ℕ → ℕ
unfolding or_zero
word_at off payload = or_zero (read_le 8 (drop off payload))

pub word_at-append_le : (v : ℕ) → v < 2 ^ 64 → word_at 0 (append_le 8 v) ≡ v
unfolding word_at append_le
word_at-append_le v h = ap or_zero (read_le-append_le 8 v [] h)

-- The anchor is set, and the source is followed from now on.
unfoldable pub follow : ℕ → Text → ℕ → ℕ → TimeSyncRuntime → TimeSyncRuntime
follow now source priority unix_ms ts = record ts {
  has_network_time = true;
  network_anchor_local_ms = now;
  network_anchor_unix_ms = unix_ms;
  current_source = source;
  current_source_priority = priority;
}

abbrev pub no_source : SourceState
no_source = record { priority = 0; last_seen_ms = 0; last_time_ms = 0 }

abbrev seen_at : Option SourceState → ℕ
seen_at none = 0
seen_at (some source) = source.last_seen_ms

-- An announce: the last of the four tests makes an entry for the current source where there is none.
unfoldable pub handle_announce : ℕ → Text → ℕ → ℕ → TimeSyncRuntime → TimeSyncRuntime
unfolding follow
handle_announce now sender priority unix_ms ts =
    let state : SourceState = record {
      priority = priority;
      last_seen_ms = now;
      last_time_ms = unix_ms;
    } in
    let heard = record ts { sources = store text_eq ts.sources sender state } in
    let looked_up = record ts {
      sources = touch text_eq heard.sources ts.current_source no_source;
    } in
    if not ts.has_network_time
      || ltb priority ts.current_source_priority
      || is_empty ts.current_source
    then follow now sender priority unix_ms heard
    else (if ltb ts.source_timeout_ms
          (sub64 now (seen_at (lookup text_eq looked_up.sources ts.current_source)))
        then follow now sender priority unix_ms looked_up
        else looked_up)

unfoldable pub handle_response : ℕ → TimeSyncRuntime → PacketData → TimeSyncRuntime
unfolding word_at
handle_response now ts pkt = record ts {
  has_network_time = true;
  network_anchor_local_ms = now;
  network_anchor_unix_ms = word_at 24 pkt.payload;
}

module _ (s : Schema) where
  unfoldable pub response : ℕ → Text → ℕ → ℕ → ℕ → PacketData
  response now sender seq t1 network_ms =
      make_internal_packet s sender dt_time_sync_response now
        (append_le 8 seq ++ (append_le 8 t1 ++ (append_le 8 network_ms ++ append_le 8 network_ms)))

  unfoldable pub handle_request : Owner → TimeSyncRuntime → PacketData → Option ℤ → Owner
  unfolding response word_at current_network_ms
  handle_request link ts pkt src_side =
      if ts.enabled && (ts.role == 1 || ts.role == 2) && ts.has_network_time
      then record link {
        tx_queue =
            (enqueue_bounded tx_cost link.tx_queue
              (record {
                pkt =
                    response link.clock link.sender (word_at 0 pkt.payload) (word_at 8 pkt.payload)
                      (current_network_ms link.clock ts);
                src_side = none;
                dst_side = src_side;
                deliver_local = false;
              })
              false link.max_queue_budget).0;
      }
      else link

  unfoldable pub handle_timesync_packet :
      Owner → TimeSyncRuntime → PacketData → Option ℤ → Owner × TimeSyncRuntime
  unfolding handle_announce handle_request handle_response word_at
  handle_timesync_packet link ts pkt src_side =
      let size = length pkt.payload in
      if pkt.ty == dt_time_sync_announce && leb 16 size
      then (
        link,
        handle_announce link.clock pkt.sender (word_at 0 pkt.payload) (word_at 8 pkt.payload) ts,
      )
      else (if pkt.ty == dt_time_sync_request && leb 16 size
          then (handle_request link ts pkt src_side, ts)
          else (if pkt.ty == dt_time_sync_response && leb 32 size
              then (link, handle_response link.clock ts pkt)
              else (link, ts)))

-- The network time that an exchange of four time stamps tells, and the delay one way.
unfoldable pub estimate_network_time : ℕ → ℕ → ℕ → ℕ → ℕ × ℕ
estimate_network_time t1_ms t4_ms t2_network_ms t3_network_ms =
    let round_trip = if leb t1_ms t4_ms then t4_ms - t1_ms else 0 in
    let server_processing =
      if leb t2_network_ms t3_network_ms then t3_network_ms - t2_network_ms else 0 in
    let one_way_delay =
      if leb server_processing round_trip then (round_trip - server_processing) / 2 else 0 in
    (add64 t3_network_ms one_way_delay, one_way_delay)
