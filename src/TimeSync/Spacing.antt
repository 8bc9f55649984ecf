-- ===== src/TimeSync/Spacing.antt =====
-- What the polls forget of the sources, and how often they announce the time.
use sedsnet_cpp.Common.{
  ℕ, ◌+◌, ◌^◌, ◌<◌, true, false, not, leb, ◌==◌, List, [], ◌∷◌, All, Text, text_eq, filter, ◌≡◌,
  refl, ap, sym, ◌∙◌, ◌⊎◌, inl, inr, Bool-cases, arith,
}
use mathlib.Core.Path.{subst}
use sedsnet_cpp.Queue.{add64}
use sedsnet_cpp.Common.Int.{ℤ}
use sedsnet_cpp.Schema.{Schema}
use sedsnet_cpp.Reliable.{Owner}
use sedsnet_cpp.Topology.{DiscoveryRoute}
use sedsnet_cpp.TimeSync.{SourceState, TimeSyncRuntime, no_priority}
use sedsnet_cpp.TimeSync.Polling.{
  is_stale, forget_stale, poll_timesync, announce_time, request_time,
}

abbrev pub fresh : ℕ → ℕ → List (Text × SourceState) → List (Text × SourceState)
fresh now timeout m = filter (λ entry. not (is_stale now timeout (entry.1))) m

-- The current source is kept, or it is cleared and was the name of a silent source.
record Kept (now timeout : ℕ) (m : List (Text × SourceState)) (ts after : TimeSyncRuntime)
    : Type 0 where
  sources : after.sources ≡ fresh now timeout m
  current : (after.current_source ≡ ts.current_source) ⊎ (after.current_source ≡ [])
  enabled : after.enabled ≡ ts.enabled
  role : after.role ≡ ts.role
  interval : after.announce_interval_ms ≡ ts.announce_interval_ms
  announced : after.last_announce_ms ≡ ts.last_announce_ms

fresh_stale :
    (now timeout : ℕ) (name : Text) (source : SourceState) (m : List (Text × SourceState))
    → is_stale now timeout source ≡ true
    → fresh now timeout ((name, source) ∷ m) ≡ fresh now timeout m
fresh_stale now timeout name source m e = rw e refl

fresh_kept :
    (now timeout : ℕ) (name : Text) (source : SourceState) (m : List (Text × SourceState))
    → is_stale now timeout source ≡ false
    → fresh now timeout ((name, source) ∷ m) ≡ (name, source) ∷ fresh now timeout m
fresh_kept now timeout name source m e = rw e refl

cleared : {a b : Text} → (a ≡ []) ⊎ (a ≡ []) → (a ≡ b) ⊎ (a ≡ [])
cleared (inl e) = inr e
cleared (inr e) = inr e

forget_stale-Kept :
    (now timeout : ℕ) (m : List (Text × SourceState)) (ts : TimeSyncRuntime)
    → Kept now timeout m ts (forget_stale now timeout m ts)
unfolding forget_stale
forget_stale-Kept now timeout [] ts = record {
  sources = refl;
  current = inl refl;
  enabled = refl;
  role = refl;
  interval = refl;
  announced = refl;
}
forget_stale-Kept now timeout ((name, source) ∷ rest) ts =
    elim (Bool-cases (is_stale now timeout source)) [
      | inl e ↦ elim (Bool-cases (text_eq name ts.current_source)) [
        | inl q ↦
            let h =
              forget_stale-Kept now timeout rest
                (record ts { current_source = []; current_source_priority = no_priority }) in
            rw (e, q)
              (record {
                sources = h.sources ∙ sym (fresh_stale now timeout name source rest e);
                current = cleared h.current;
                enabled = h.enabled;
                role = h.role;
                interval = h.interval;
                announced = h.announced;
              })
        | inr q ↦
            let h = forget_stale-Kept now timeout rest ts in
            rw (e, q)
              (record {
                sources = h.sources ∙ sym (fresh_stale now timeout name source rest e);
                current = h.current;
                enabled = h.enabled;
                role = h.role;
                interval = h.interval;
                announced = h.announced;
              })
      ]
      | inr e ↦
          let h = forget_stale-Kept now timeout rest ts in
          rw e (record {
            sources =
                ap (λ m. (name, source) ∷ m) h.sources
                ∙ sym (fresh_kept now timeout name source rest e);
            current = h.current;
            enabled = h.enabled;
            role = h.role;
            interval = h.interval;
            announced = h.announced;
          })
    ]

-- An enabled router forgets at each poll the sources that were silent for longer than the timeout,
-- and no other one.
pub poll_timesync-fresh :
    (s : Schema) (link : Owner) (ts : TimeSyncRuntime) (routes : List (ℤ × DiscoveryRoute))
    → ts.enabled ≡ true
    → (poll_timesync s link ts routes).1.sources ≡ fresh link.clock ts.source_timeout_ms ts.sources
unfolding poll_timesync announce_time request_time
poll_timesync-fresh s link ts routes on =
    let h = forget_stale-Kept link.clock ts.source_timeout_ms ts.sources ts in
    ground (arith, on, h.sources)

announces :
    (s : Schema) (link : Owner) (ts : TimeSyncRuntime) (routes : List (ℤ × DiscoveryRoute))
    → ts.enabled ≡ true
    → ts.role ≡ 1
    → leb (add64 ts.last_announce_ms ts.announce_interval_ms) link.clock ≡ true
    → poll_timesync s link ts routes ≡ (
      (announce_time s link (forget_stale link.clock ts.source_timeout_ms ts.sources ts)).0,
      (announce_time s link (forget_stale link.clock ts.source_timeout_ms ts.sources ts)).1,
      true,
    )
unfolding poll_timesync
announces s link ts routes on role due =
    let source : (ts.role == 1) ≡ true = ground arith in rw (poll_timesync, on, source, due) refl

silent :
    (s : Schema) (link : Owner) (ts : TimeSyncRuntime) (routes : List (ℤ × DiscoveryRoute))
    → ts.enabled ≡ true
    → ts.role ≡ 1
    → leb (add64 ts.last_announce_ms ts.announce_interval_ms) link.clock ≡ false
    → poll_timesync s link ts routes
      ≡ (link, forget_stale link.clock ts.source_timeout_ms ts.sources ts, false)
unfolding poll_timesync
silent s link ts routes on role due =
    let source : (ts.role == 1) ≡ true = ground arith in
    let client : (ts.role == 0) ≡ false = ground arith in
    rw (poll_timesync, on, source, due, client) refl

-- The polls in turn, each with the router and the routes that it finds.
abbrev pub poll_all :
    Schema → List (Owner × List (ℤ × DiscoveryRoute)) → TimeSyncRuntime → TimeSyncRuntime
poll_all s [] ts = ts
poll_all s ((link, routes) ∷ polls) ts = poll_all s polls ((poll_timesync s link ts routes).1)

abbrev pub IsBefore : ℕ → Owner × List (ℤ × DiscoveryRoute) → Type 0
IsBefore time (link, routes) = link.clock < time

-- An enabled router with role 1 that has announced the time `last`.
record HasAnnounced (last interval : ℕ) (ts : TimeSyncRuntime) : Type 0 where
  on : ts.enabled ≡ true
  role : ts.role ≡ 1
  interval_ms : ts.announce_interval_ms ≡ interval
  last_ms : ts.last_announce_ms ≡ last

silent_before :
    (s : Schema) (last interval : ℕ) (link : Owner) (ts : TimeSyncRuntime)
    (routes : List (ℤ × DiscoveryRoute))
    → last + interval < 2 ^ 64
    → HasAnnounced last interval ts
    → link.clock < last + interval
    → poll_timesync s link ts routes
      ≡ (link, forget_stale link.clock ts.source_timeout_ms ts.sources ts, false)
silent_before s last interval link ts routes wrap h soon =
    silent s link ts routes h.on h.role (ground (arith, h.interval_ms, h.last_ms))

forget_stale-HasAnnounced :
    (last interval now timeout : ℕ) (m : List (Text × SourceState)) (ts : TimeSyncRuntime)
    → HasAnnounced last interval ts
    → HasAnnounced last interval (forget_stale now timeout m ts)
forget_stale-HasAnnounced last interval now timeout m ts h =
    let kept = forget_stale-Kept now timeout m ts in
    record {
      on = kept.enabled ∙ h.on;
      role = kept.role ∙ h.role;
      interval_ms = kept.interval ∙ h.interval_ms;
      last_ms = kept.announced ∙ h.last_ms;
    }

poll_all-HasAnnounced :
    (s : Schema) (last interval : ℕ) (polls : List (Owner × List (ℤ × DiscoveryRoute)))
    (ts : TimeSyncRuntime)
    → last + interval < 2 ^ 64
    → HasAnnounced last interval ts
    → All (IsBefore (last + interval)) polls
    → HasAnnounced last interval (poll_all s polls ts)
poll_all-HasAnnounced s last interval [] ts wrap h soon = h
poll_all-HasAnnounced s last interval ((link, routes) ∷ polls) ts wrap h (soon, rest) =
    let left = forget_stale link.clock ts.source_timeout_ms ts.sources ts in
    let e = silent_before s last interval link ts routes wrap h soon in
    poll_all-HasAnnounced s last interval polls _ wrap
      (subst (λ r. HasAnnounced last interval (r.1)) (sym e)
        (forget_stale-HasAnnounced last interval link.clock ts.source_timeout_ms ts.sources ts h))
      rest

-- Once a poll of an enabled router with role 1 has announced the time, and the time of the poll
-- and the interval add up within a uint64_t, any number of polls, all of them sooner than the
-- interval after it, and no other call between them, are silent: whatever such polls have passed,
-- one more that is as soon answers that nothing was queued, and leaves the router's queue as it
-- was.
pub poll_timesync_spaced :
    (s : Schema) (link later : Owner) (ts : TimeSyncRuntime)
    (routes others : List (ℤ × DiscoveryRoute)) (polls : List (Owner × List (ℤ × DiscoveryRoute)))
    → ts.enabled ≡ true
    → ts.role ≡ 1
    → leb (add64 ts.last_announce_ms ts.announce_interval_ms) link.clock ≡ true
    → link.clock + ts.announce_interval_ms < 2 ^ 64
    → All (IsBefore (link.clock + ts.announce_interval_ms)) polls
    → later.clock < link.clock + ts.announce_interval_ms
    → let first = poll_timesync s link ts routes in
      let last = poll_timesync s later (poll_all s polls (first.1)) others in
      (first.2 ≡ true) × (last.2 ≡ false) × (last.0 ≡ later)
unfolding announce_time
poll_timesync_spaced s link later ts routes others polls on role due wrap between soon =
    let kept = forget_stale-Kept link.clock ts.source_timeout_ms ts.sources ts in
    let after =
      (announce_time s link (forget_stale link.clock ts.source_timeout_ms ts.sources ts)).1 in
    let e1 = announces s link ts routes on role due in
    let h : HasAnnounced link.clock ts.announce_interval_ms after = record {
      on = kept.enabled ∙ on;
      role = kept.role ∙ role;
      interval_ms = kept.interval;
      last_ms = refl;
    } in
    let h2 =
      poll_all-HasAnnounced s link.clock ts.announce_interval_ms polls after wrap h between in
    let e2 =
      silent_before s link.clock ts.announce_interval_ms later (poll_all s polls after) others wrap
        h2 soon in
    let e = ap (λ r. poll_timesync s later (poll_all s polls (r.1)) others) e1 ∙ e2 in
    (ap (λ r. r.2) e1, ap (λ r. r.2) e, ap (λ r. r.0) e)
