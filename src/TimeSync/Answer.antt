-- ===== src/TimeSync/Answer.antt =====
-- What the calls that read the network time do to it.
use sedsnet_cpp.Common.{
  ℕ, ◌+◌, ◌^◌, ◌<◌, ◌≤◌, true, not, ◌&&◌, if◌then◌else◌, none, some, text_eq, is_empty, ◌≡◌, ap,
  sym, ◌∙◌, inl, inr, Bool-cases, arith,
}
use sedsnet_cpp.Common.Keyed.{lookup}
use sedsnet_cpp.TimeSync.{TimeSyncRuntime, current_network_ms}
use sedsnet_cpp.TimeSync.Polling.{
  Best, no_best, best_source, take_over, current_is_stale, refresh, get_network_time_ms,
}

-- What a call leaves does not lag behind what it found, and it is anchored no later than `now`.
record Advances (now : ℕ) (ts after : TimeSyncRuntime) : Type 0 where
  has : after.has_network_time ≡ true
  ahead : current_network_ms now ts ≤ current_network_ms now after
  anchored : after.network_anchor_local_ms ≤ now

take_over-Advances :
    (now : ℕ) (ts : TimeSyncRuntime) (best : Best)
    → ts.has_network_time ≡ true
    → now < 2 ^ 64
    → ts.network_anchor_local_ms ≤ now
    → Advances now ts (take_over now ts best)
unfolding take_over current_network_ms
take_over-Advances now ts best has hn ha = elim (Bool-cases (is_empty best.name)) [
  | inl e ↦ rw (take_over, e) (record { has = has; ahead = omega arith; anchored = ha })
  | inr e ↦
      rw (take_over, e) (record { has = has; ahead = ground (arith, has); anchored = omega arith })
]

refresh-Advances :
    (now : ℕ) (ts : TimeSyncRuntime)
    → ts.has_network_time ≡ true
    → now < 2 ^ 64
    → ts.network_anchor_local_ms ≤ now
    → Advances now ts (refresh now ts)
unfolding refresh
refresh-Advances now ts has hn ha =
    let timeout = ts.source_timeout_ms in
    let stale =
      not (is_empty ts.current_source)
      && current_is_stale now timeout (lookup text_eq ts.sources ts.current_source) in
    elim (Bool-cases stale) [
      | inl e ↦
          rw (refresh, e)
            (take_over-Advances now ts (best_source now timeout ts.sources no_best) has hn ha)
      | inr e ↦ rw (refresh, e) (record { has = has; ahead = omega arith; anchored = ha })
    ]

get_network_time_ms_has :
    (now : ℕ) (ts : TimeSyncRuntime)
    → ts.has_network_time ≡ true
    → get_network_time_ms now ts ≡ (refresh now ts, some (current_network_ms now (refresh now ts)))
unfolding get_network_time_ms
get_network_time_ms_has now ts has =
    ap
      (λ b.
        if b then (refresh now ts, some (current_network_ms now (refresh now ts))) else (ts, none))
      has

runs_on :
    (now later : ℕ) (ts : TimeSyncRuntime)
    → ts.has_network_time ≡ true
    → ts.network_anchor_local_ms ≤ now
    → now ≤ later
    → ts.network_anchor_unix_ms + later < 2 ^ 64
    → current_network_ms now ts ≤ current_network_ms later ts
unfolding current_network_ms
runs_on now later ts has ha h lt = rw (has) (omega arith)

-- A router that has the time answers each call with the time that it then keeps. No answer is
-- behind the time that it kept before the call, also when another source takes over, and of two
-- calls in a row, as long as the anchor and the clock add up within a uint64_t, the later one
-- answers no earlier time.
pub get_network_time_ms_forward :
    (now later : ℕ) (ts : TimeSyncRuntime)
    → ts.has_network_time ≡ true
    → ts.network_anchor_local_ms ≤ now
    → now ≤ later
    → later < 2 ^ 64
    → let first = get_network_time_ms now ts in
      let second = get_network_time_ms later (first.0) in
      (first.0).network_anchor_unix_ms + later < 2 ^ 64
      → (a : ℕ) × (b : ℕ) × (first.1 ≡ some a)
        × (second.1 ≡ some b)
        × (current_network_ms now ts ≤ a)
        × (a ≤ b)
get_network_time_ms_forward now later ts has ha h hl wrap =
    let e1 = get_network_time_ms_has now ts has in
    let adv1 = refresh-Advances now ts has (omega arith) ha in
    let between =
      runs_on now later (refresh now ts) adv1.has adv1.anchored h
        (rw (sym (ap (λ r. r.0) e1)) wrap) in
    let adv2 = refresh-Advances later (refresh now ts) adv1.has hl (omega (arith, adv1.anchored)) in
    let e2 = get_network_time_ms_has later (refresh now ts) adv1.has in
    (
      current_network_ms now (refresh now ts),
      current_network_ms later (refresh later (refresh now ts)),
      ap (λ r. r.1) e1,
      ap (λ r. (get_network_time_ms later (r.0)).1) e1 ∙ ap (λ r. r.1) e2,
      adv1.ahead,
      omega (arith, between, adv2.ahead),
    )
