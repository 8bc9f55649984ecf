-- ===== src/Routing/Policy.antt =====
-- `apply_policy` of src/core.cpp. The policy is passed by reference: its counter is part of the
-- answer.
use sedsnet_cpp.Common.{
  ℕ, ◌-◌, ◌/◌, ◌%◌, ◌^◌, Option, none, some, List, [], ◌∷◌, ltb, ◌==◌, max, if◌then◌else◌,
}
use sedsnet_cpp.Common.Int.{ℤ, int_eq}
use sedsnet_cpp.Queue.{add64}

pub data RouteSelectionMode : Type 0 where
  fanout weighted failover : RouteSelectionMode

pub record RoutePolicy : Type 0 where
  pub mode : RouteSelectionMode
  pub weights : List (ℤ × ℕ)
  pub priorities : List (ℤ × ℕ)
  pub rr_counter : ℕ

unfoldable pub find_side : List (ℤ × ℕ) → ℤ → Option ℕ
find_side [] side = none
find_side ((key, n) ∷ rest) side = if int_eq key side then some n else find_side rest side

unfoldable pub priority : RoutePolicy → ℤ → ℕ
unfolding find_side
priority policy side = elim (find_side policy.priorities side) [
  | none ↦ (2 ^ 32 - 1) / 2
  | some n ↦ n
]

unfoldable pub weight : RoutePolicy → ℤ → ℕ
unfolding find_side
weight policy side = elim (find_side policy.weights side) [ none ↦ 1 | some n ↦ max 1 n ]

-- The loop of the failover: the first side of the smallest priority below `best_pri`, or `best`.
unfoldable pub failover_loop : RoutePolicy → List ℤ → ℤ → ℕ → ℤ
unfolding priority
failover_loop policy [] best best_pri = best
failover_loop policy (side ∷ sides) best best_pri =
    if ltb (priority policy side) best_pri
    then failover_loop policy sides side (priority policy side)
    else failover_loop policy sides best best_pri

unfoldable pub total_weight : RoutePolicy → List ℤ → ℕ → ℕ
unfolding weight
total_weight policy [] total = total
total_weight policy (side ∷ sides) total =
    total_weight policy sides (add64 total (weight policy side))

unfoldable pub weighted_loop : RoutePolicy → ℕ → List ℤ → ℕ → ℤ → ℤ
unfolding weight
weighted_loop policy pick [] running default = default
weighted_loop policy pick (side ∷ sides) running default =
    let next = add64 running (weight policy side) in
    if ltb pick next then side else weighted_loop policy pick sides next default

unfoldable pub choose : RoutePolicy → ℤ → List ℤ → RoutePolicy × List ℤ
unfolding failover_loop total_weight weighted_loop
choose policy front sides =
    let total = total_weight policy sides 0 in
    elim policy.mode [
      | fanout ↦ (policy, sides)
      | failover ↦ (policy, failover_loop policy sides front (2 ^ 32 - 1) ∷ [])
      | weighted ↦ if total == 0 then (policy, front ∷ []) else (
        record policy { rr_counter = add64 policy.rr_counter 1 },
        weighted_loop policy (policy.rr_counter % total) sides 0 front ∷ [],
      )
    ]

unfoldable pub apply_policy : RoutePolicy → List ℤ → RoutePolicy × List ℤ
unfolding choose
apply_policy policy [] = (policy, [])
apply_policy policy (side ∷ sides) = choose policy side (side ∷ sides)
