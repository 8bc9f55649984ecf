-- ===== src/Local/Attempts.antt =====
-- src/router_core.cpp: how often one handler is called, and what its answer changes.
use sedsnet_cpp.Common.{
  ℕ, zero, suc, Bool, true, false, not, ◌&&◌, ◌||◌, List, [], ◌∷◌, if◌then◌else◌, Bool-cases, inl,
  inr, ◌≡◌, refl, sym,
}
use sedsnet_cpp.Common.Int.{ℤ, int_eq}
use sedsnet_cpp.Schema.{PacketData}
use sedsnet_cpp.Reliable.Egress.{result_ok}
use sedsnet_cpp.Local.{LocalEndpoint, Calls, Failures, takes, attempts, after_attempts}

module _ (answers : LocalEndpoint → PacketData → ℤ) (pkt : PacketData) where
  -- A handler that the packet is for and that does not accept it.
  abbrev pub fails : LocalEndpoint → Bool
  fails local = takes pkt local && not (int_eq (answers local pkt) result_ok)

  -- The log after a handler was called `n` times.
  abbrev pub called : ℕ → LocalEndpoint → Calls → Calls
  called zero local calls = calls
  called (suc n) local calls = called n local ((local, pkt) ∷ calls)

  -- The log of the first loop: a handler that accepts is called once, one that does not `retries`
  -- times, in the order of registration.
  abbrev pub told : ℕ → List LocalEndpoint → Calls → Calls
  told retries [] calls = calls
  told retries (local ∷ rest) calls =
      told retries rest
        (if takes pkt local then called (if fails local then retries else 1) local calls else calls)

pub or_false : (b : Bool) → (b || false) ≡ b
or_false true = refl
or_false false = refl

pub or_true : (b : Bool) → true ≡ (b || true)
or_true true = refl
or_true false = refl

pub or_assoc : (a b c : Bool) → ((a || b) || c) ≡ (a || (b || c))
or_assoc true b c = refl
or_assoc false b c = refl

module _ (answers : LocalEndpoint → PacketData → ℤ) (pkt : PacketData) where
  abbrev pub fixed : Calls → LocalEndpoint → PacketData → ℤ
  fixed log = answers

  pub attempts-accepted :
      (n : ℕ) (rc : ℤ) (local : LocalEndpoint) (calls : Calls)
      → int_eq (answers local pkt) result_ok ≡ true
      → attempts fixed (suc n) rc local pkt calls ≡ (answers local pkt, (local, pkt) ∷ calls)
  unfolding attempts
  attempts-accepted n rc local calls e = rw e refl

  attempts-failed :
      (n : ℕ) (local : LocalEndpoint) (calls : Calls)
      → int_eq (answers local pkt) result_ok ≡ false
      → attempts fixed n (answers local pkt) local pkt calls
        ≡ (answers local pkt, called answers pkt n local calls)
  unfolding attempts
  attempts-failed zero local calls e = refl
  attempts-failed (suc n) local calls e = rw e (attempts-failed n local ((local, pkt) ∷ calls) e)

  pub attempts_all :
      (n : ℕ) (rc : ℤ) (local : LocalEndpoint) (calls : Calls)
      → int_eq (answers local pkt) result_ok ≡ false
      → attempts fixed (suc n) rc local pkt calls
        ≡ (answers local pkt, called answers pkt (suc n) local calls)
  unfolding attempts
  attempts_all n rc local calls e = rw e (attempts-failed n local ((local, pkt) ∷ calls) e)

  -- One local of the first loop.
  abbrev pub step : ℕ → List LocalEndpoint → LocalEndpoint → Failures → Failures
  step retries locals local f =
      if takes pkt local
      then after_attempts fixed retries (attempts fixed retries result_ok local pkt f.calls) local
          locals f
      else f

  abbrev pub IsStep : ℕ → LocalEndpoint → Failures → Failures → Type 0
  IsStep retries local f g =
      (g.had_failure ≡ (f.had_failure || fails answers pkt local))
      × (g.calls ≡ (
          if takes pkt local
          then called answers pkt (if fails answers pkt local then retries else 1) local f.calls
          else f.calls))

  pub step-IsStep :
      (n : ℕ) (locals : List LocalEndpoint) (local : LocalEndpoint) (f : Failures)
      → IsStep (suc n) local f (step (suc n) locals local f)
  unfolding after_attempts
  step-IsStep n locals local f = elim (Bool-cases (takes pkt local)) [
    | inr e ↦ rw e (sym (or_false f.had_failure), refl)
    | inl e ↦ elim (Bool-cases (int_eq (answers local pkt) result_ok)) [
      | inl good ↦
          rw (e, attempts-accepted n result_ok local f.calls good, good)
            (sym (or_false f.had_failure), refl)
      | inr bad ↦
          rw (e, attempts_all n result_ok local f.calls bad, bad) (or_true f.had_failure, refl)
    ]
  ]
