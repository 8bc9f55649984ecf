-- ===== src/Routing/Choice.antt =====
-- Which side a failover policy chooses.
use sedsnet_cpp.Common.{
  ℕ, ◌-◌, ◌^◌, ◌≤◌, ◌<◌, List, [], ◌∷◌, All, ltb, ◌≡◌, refl, inl, inr, Bool-cases, arith,
}
use sedsnet_cpp.Common.Int.{ℤ}
use sedsnet_cpp.Routing.Policy.{
  RoutePolicy, failover, priority, failover_loop, choose, apply_policy,
}

-- A side none of the candidates comes before.
pub record IsFirst (policy : RoutePolicy) (sides : List ℤ) (chosen : List ℤ) : Type 0 where
  pub best : ℤ
  pub alone : chosen ≡ best ∷ []
  pub smallest : All (λ side. priority policy best ≤ priority policy side) sides

record Least (policy : RoutePolicy) (pri : ℕ) (sides : List ℤ) (r : ℤ) : Type 0 where
  below : priority policy r ≤ pri
  smallest : All (λ side. priority policy r ≤ priority policy side) sides

failover_loop-Least :
    (policy : RoutePolicy) (sides : List ℤ) (best : ℤ) (pri : ℕ)
    → priority policy best ≤ pri
    → Least policy pri sides (failover_loop policy sides best pri)
unfolding failover_loop
failover_loop-Least policy [] best pri hb = record { below = hb; smallest = tt }
failover_loop-Least policy (side ∷ sides) best pri hb =
    elim (Bool-cases (ltb (priority policy side) pri)) [
      | inl e ↦
          let less : priority policy side < pri = ground arith in
          let later = failover_loop-Least policy sides side (priority policy side) (omega arith) in
          rw (failover_loop, e)
            (record {
              below = omega (arith, later.below, less);
              smallest = (later.below, later.smallest);
            })
      | inr e ↦
          let later = failover_loop-Least policy sides best pri hb in
          let more : pri ≤ priority policy side = ground arith in
          rw (failover_loop, e)
            (record {
              below = later.below;
              smallest = (omega (arith, later.below, more), later.smallest);
            })
    ]

-- A failover policy, given candidates of which the first has a 32-bit priority, chooses a single
-- destination, and no candidate has a smaller priority than it.
apply_policy-IsFirst :
    (policy : RoutePolicy) (side : ℤ) (sides : List ℤ)
    → policy.mode ≡ failover
    → priority policy side < 2 ^ 32
    → IsFirst policy (side ∷ sides) ((apply_policy policy (side ∷ sides)).1)
unfolding apply_policy choose
apply_policy-IsFirst policy side sides e h =
    let least = failover_loop-Least policy (side ∷ sides) side (2 ^ 32 - 1) (omega (arith, h)) in
    rw e (record {
      best = failover_loop policy (side ∷ sides) side (2 ^ 32 - 1);
      alone = refl;
      smallest = least.smallest;
    })
