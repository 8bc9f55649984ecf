-- ===== src/EndToEnd/Retries.antt =====
-- How often a router sends a packet again whose boards do not answer.
use sedsnet_cpp.Common.{
  ℕ, ◌≤◌, not, ◌||◌, ◌&&◌, Option, none, some, List, [], ◌∷◌, All, filter, map, is_empty, ltb, leb,
  ◌==◌, if◌then◌else◌, ◌≡◌, refl, ap, sym, ◌∙◌, inl, inr, Bool-cases, arith, both_branches,
}
use mathlib.Core.Option.{none-ne-some, some-injective}
use sedsnet_cpp.Common.Int.{ℤ}
use sedsnet_cpp.Common.Assoc.{find, put, erase}
use sedsnet_cpp.Schema.{Schema}
use sedsnet_cpp.Queue.{sub64}
use sedsnet_cpp.Topology.{DiscoveryRoute}
use sedsnet_cpp.Reliable.{Owner}
use sedsnet_cpp.Routing.{sort_unique}
use sedsnet_cpp.EndToEnd.{Cache, EndToEndReliableSent}
use sedsnet_cpp.EndToEnd.Timeouts.{
  reconcile_entries, reconcile_end_to_end_reliable_destinations, is_reachable, count_retries,
  requeue_sent, requeue, side_of, process_end_to_end_reliable_timeouts, end_to_end_max_retries,
  end_to_end_retransmit_ms,
}

abbrev pub IsWithin : ℕ × EndToEndReliableSent → Type 0
IsWithin (id, sent) = sent.retries ≤ end_to_end_max_retries

module _ (s : Schema) (link : Owner) (routes : List (ℤ × DiscoveryRoute)) where
  reconcile_entries-IsWithin :
      (m : List (ℕ × EndToEndReliableSent))
      → All IsWithin m
      → All IsWithin (reconcile_entries s link routes m)
  unfolding reconcile_entries
  reconcile_entries-IsWithin [] h = tt
  reconcile_entries-IsWithin ((id, sent) ∷ m) (h, rest) =
      let later = reconcile_entries-IsWithin m rest in
      both_branches (All IsWithin) (not sent.tracked_destinations) _ _ (h, later)
        (both_branches (All IsWithin)
          (is_empty (filter (is_reachable s link routes sent.pkt) sent.pending_destinations)) _ _
          later (h, later))

count_retries-IsWithin :
    (now : ℕ) (m : List (ℕ × EndToEndReliableSent))
    → All IsWithin m
    → All IsWithin ((count_retries now m).0)
unfolding count_retries
count_retries-IsWithin now [] h = tt
count_retries-IsWithin now ((id, sent) ∷ m) (h, rest) =
    let later = count_retries-IsWithin now m rest in
    let waits = sent.queued || ltb (sub64 now sent.last_send_ms) end_to_end_retransmit_ms in
    elim (Bool-cases waits) [
      | inl e ↦ rw e (h, later)
      | inr e ↦ elim (Bool-cases (leb end_to_end_max_retries sent.retries)) [
        | inl q ↦ rw (e, q) later
        | inr q ↦ rw (e, q) (ground (arith, q), later)
      ]
    ]

All-find :
    (m : List (ℕ × EndToEndReliableSent)) (k : ℕ) (sent : EndToEndReliableSent)
    → All IsWithin m
    → find m k ≡ some sent
    → sent.retries ≤ end_to_end_max_retries
All-find [] k sent h e = absurd (none-ne-some sent e)
All-find ((j, b) ∷ m) k sent (h, rest) e = elim (Bool-cases (j == k)) [
  | inl q ↦
      let same = some-injective b sent (sym (ap (λ t. if t then some b else find m k) q) ∙ e) in
      rw (sym same) h
  | inr q ↦ All-find m k sent rest (sym (ap (λ t. if t then some b else find m k) q) ∙ e)
]

All-put :
    (m : List (ℕ × EndToEndReliableSent)) (k : ℕ) (sent : EndToEndReliableSent)
    → All IsWithin m
    → sent.retries ≤ end_to_end_max_retries
    → All IsWithin (put m k sent)
All-put [] k sent h hs = (hs, tt)
All-put ((j, b) ∷ m) k sent (h, rest) hs =
    both_branches (All IsWithin) (j == k) _ _ (hs, rest) (h, All-put m k sent rest hs)

All-erase :
    (m : List (ℕ × EndToEndReliableSent)) (k : ℕ) → All IsWithin m → All IsWithin (erase m k)
All-erase [] k h = h
All-erase ((j, b) ∷ m) k (h, rest) =
    let later = All-erase m k rest in both_branches (All IsWithin) (j == k) _ _ later (h, later)

requeue_sent-IsWithin :
    (id : ℕ) (found : Option EndToEndReliableSent) (link : Owner)
    (m : List (ℕ × EndToEndReliableSent))
    → find m id ≡ found
    → All IsWithin m
    → All IsWithin ((requeue_sent id found link m).1)
unfolding requeue_sent
requeue_sent-IsWithin id none link m e h = h
requeue_sent-IsWithin id (some sent) link m e h =
    both_branches (λ (r : Owner × List (ℕ × EndToEndReliableSent)). All IsWithin (r.1))
      (sent.tracked_destinations && is_empty (sort_unique (map side_of sent.pending_destinations)))
      _ _ (All-erase m id h) (All-put m id _ h (All-find m id sent h e))

requeue-IsWithin :
    (ids : List ℕ) (link : Owner) (m : List (ℕ × EndToEndReliableSent))
    → All IsWithin m
    → All IsWithin ((requeue ids link m).1)
unfolding requeue
requeue-IsWithin [] link m h = h
requeue-IsWithin (id ∷ ids) link m h =
    let next = requeue_sent id (find m id) link m in
    requeue-IsWithin ids (next.0) (next.1) (requeue_sent-IsWithin id (find m id) link m refl h)

-- No packet that a router keeps is counted as sent again more than eight times, if none was before
-- the timeouts are processed.
pub process_end_to_end_reliable_timeouts-IsWithin :
    (s : Schema) (link : Owner) (routes : List (ℤ × DiscoveryRoute))
    (tx : Cache EndToEndReliableSent)
    → All IsWithin tx.entries
    → All IsWithin (process_end_to_end_reliable_timeouts s link routes tx).1.entries
unfolding process_end_to_end_reliable_timeouts reconcile_end_to_end_reliable_destinations
process_end_to_end_reliable_timeouts-IsWithin s link routes tx h =
    let known = reconcile_entries s link routes tx.entries in
    let counted = count_retries link.clock known in
    requeue-IsWithin (counted.1) link (counted.0) (
      count_retries-IsWithin link.clock known
        (reconcile_entries-IsWithin s link routes tx.entries h))
