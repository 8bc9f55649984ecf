-- ===== src/TimeSync/Polling.antt =====
-- src/router_api.cpp: the calls that read the network time and that poll the time synchronisation.
use sedsnet_cpp.Common.{
  ℕ, Bool, true, false, not, ◌&&◌, ◌||◌, Option, none, some, List, [], ◌∷◌, ◌++◌, Text, text_eq,
  is_empty, ltb, leb, ◌==◌, if◌then◌else◌,
}
use sedsnet_cpp.Common.Int.{ℤ}
use sedsnet_cpp.Common.Words.{append_le}
use sedsnet_cpp.Common.Keyed.{lookup}
use sedsnet_cpp.Schema.{Schema}
use sedsnet_cpp.Packets.{make_internal_packet}
use sedsnet_cpp.Queue.{add64, sub64, enqueue_bounded}
use sedsnet_cpp.Queue.Items.{tx_cost}
use sedsnet_cpp.Reliable.{Owner}
use sedsnet_cpp.Topology.{DiscoveryRoute}
use sedsnet_cpp.TimeSync.{
  SourceState, TimeSyncRuntime, current_network_ms, no_priority, dt_time_sync_announce,
  dt_time_sync_request,
}

pub record Best : Type 0 where
  pub name : Text
  pub priority : ℕ
  pub seen : ℕ
  pub time : ℕ

abbrev pub no_best : Best
no_best = record { name = []; priority = no_priority; seen = 0; time = 0 }

unfoldable pub is_stale : ℕ → ℕ → SourceState → Bool
is_stale now timeout source = ltb timeout (sub64 now source.last_seen_ms)

-- The loop over the sources.
unfoldable pub best_source : ℕ → ℕ → List (Text × SourceState) → Best → Best
unfolding is_stale
best_source now timeout [] best = best
best_source now timeout ((name, source) ∷ rest) best = best_source now timeout rest (
    if not (is_stale now timeout source)
      && (ltb source.priority best.priority
          || source.priority == best.priority && ltb best.seen source.last_seen_ms)
    then record {
      name = name;
      priority = source.priority;
      seen = source.last_seen_ms;
      time = source.last_time_ms;
    }
    else best)

-- The time never steps back when a source takes over.
unfoldable pub take_over : ℕ → TimeSyncRuntime → Best → TimeSyncRuntime
take_over now ts best =
    let candidate = add64 best.time (sub64 now best.seen) in
    let current = current_network_ms now ts in
    if is_empty best.name then ts else record ts {
      current_source = best.name;
      current_source_priority = best.priority;
      network_anchor_local_ms = now;
      network_anchor_unix_ms = if ltb candidate current then current else candidate;
    }

pub current_is_stale : ℕ → ℕ → Option SourceState → Bool
unfolding is_stale
current_is_stale now timeout none = true
current_is_stale now timeout (some source) = is_stale now timeout source

-- Another source takes over when the current one was silent too long.
unfoldable pub refresh : ℕ → TimeSyncRuntime → TimeSyncRuntime
unfolding best_source take_over current_is_stale
refresh now ts =
    let timeout = ts.source_timeout_ms in
    if not (is_empty ts.current_source)
      && current_is_stale now timeout (lookup text_eq ts.sources ts.current_source)
    then take_over now ts (best_source now timeout ts.sources no_best)
    else ts

-- `seds_router_get_network_time_ms`; `none` is `SEDS_ERR`.
unfoldable pub get_network_time_ms : ℕ → TimeSyncRuntime → TimeSyncRuntime × Option ℕ
unfolding refresh
get_network_time_ms now ts =
    let after = refresh now ts in
    if ts.has_network_time then (after, some (current_network_ms now after)) else (ts, none)

-- The loop of `seds_router_poll_timesync` that forgets the sources that were silent too long.
unfoldable pub forget_stale : ℕ → ℕ → List (Text × SourceState) → TimeSyncRuntime → TimeSyncRuntime
unfolding is_stale
forget_stale now timeout [] ts = record ts { sources = [] }
forget_stale now timeout ((name, source) ∷ rest) ts =
    let cleared =
      if is_stale now timeout source && text_eq name ts.current_source
      then record ts { current_source = []; current_source_priority = no_priority }
      else ts in
    let later = forget_stale now timeout rest cleared in
    if is_stale now timeout source
    then later
    else record later { sources = (name, source) ∷ later.sources }

-- `*route.timesync_sources.begin()` of the first route that has a source.
unfoldable pub first_discovered : List (ℤ × DiscoveryRoute) → Text → Text
first_discovered [] current = current
first_discovered ((side_id, route) ∷ routes) current = elim route.timesync_sources [
  | [] ↦ first_discovered routes current
  | source ∷ sources ↦ source
]

module _ (s : Schema) where
  queue_first : Owner → ℕ → List ℕ → Owner
  queue_first link ty payload = record link {
    tx_queue =
        (enqueue_bounded tx_cost link.tx_queue
          (record {
            pkt = make_internal_packet s link.sender ty link.clock payload;
            src_side = none;
            dst_side = none;
            deliver_local = false;
          })
          true link.max_queue_budget).0;
  }

  unfoldable pub announce_time : Owner → TimeSyncRuntime → Owner × TimeSyncRuntime
  unfolding queue_first
  announce_time link ts = (
    queue_first link dt_time_sync_announce
        (append_le 8 ts.priority ++ append_le 8 (current_network_ms link.clock ts)),
    record ts { last_announce_ms = link.clock },
  )

  unfoldable pub request_time : Owner → TimeSyncRuntime → Owner × TimeSyncRuntime
  unfolding queue_first
  request_time link ts = (
    queue_first link dt_time_sync_request (append_le 8 link.clock ++ append_le 8 link.clock),
    record ts { last_request_ms = link.clock },
  )

  -- `seds_router_poll_timesync`; the third part is `*out_did_queue`.
  unfoldable pub poll_timesync :
      Owner → TimeSyncRuntime → List (ℤ × DiscoveryRoute) → Owner × TimeSyncRuntime × Bool
  unfolding forget_stale first_discovered announce_time request_time
  poll_timesync link ts routes =
      let now = link.clock in
      let left = forget_stale now ts.source_timeout_ms ts.sources ts in
      let announced = announce_time link left in
      let chosen = record left {
        current_source =
            if is_empty left.current_source
            then first_discovered routes left.current_source
            else left.current_source;
      } in
      let requested = request_time link chosen in
      if not ts.enabled
      then (link, ts, false)
      else (if (ts.role == 1 || ts.role == 2 && is_empty left.sources)
            && leb (add64 ts.last_announce_ms ts.announce_interval_ms) now
          then (announced.0, announced.1, true)
          else (if ts.role == 0 && leb (add64 ts.last_request_ms ts.request_interval_ms) now
              then (if is_empty chosen.current_source
                  then (link, chosen, false)
                  else (requested.0, requested.1, true))
              else (link, left, false)))
