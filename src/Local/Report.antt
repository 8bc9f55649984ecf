-- ===== src/Local/Report.antt =====
-- src/router_core.cpp: what the error report after failed handlers says, and whom it is for.
use sedsnet_cpp.Common.{
  ℕ, suc, Bool, true, false, not, ◌&&◌, ◌||◌, List, [], ◌∷◌, ◌++◌, contains, any, ◌==◌,
  if◌then◌else◌, Bool-cases, inl, inr, ◌≡◌, refl, sym, ap, ◌∙◌, arith,
}
use sedsnet_cpp.Common.Int.{ℤ, int_eq}
use sedsnet_cpp.Schema.{PacketData}
use sedsnet_cpp.Reliable.Egress.{result_ok}
use sedsnet_cpp.Local.{LocalEndpoint, Failures, takes, after_attempts, tell_locals}
use sedsnet_cpp.Recent.Window.{contains-append}
use sedsnet_cpp.Local.{other_endpoints}
use sedsnet_cpp.Local.Attempts.{
  fails, fixed, step, attempts-accepted, attempts_all, or_false, or_assoc,
}

-- A handler with the endpoint `e` that is to hear of a failure at the endpoint `failed`.
abbrev pub hears : ℕ → ℕ → LocalEndpoint → Bool
hears failed e other =
    other.endpoint == e && (other.packet_handler && not (other.endpoint == failed))

and_false : (a b : Bool) → (a && (b && false)) ≡ false
and_false true true = refl
and_false true false = refl
and_false false b = refl

and_none : (a : Bool) → (a && false) ≡ false
and_none true = refl
and_none false = refl

-- What is there already is found without the new one.
found_before :
    (x e : ℕ) (out : List ℕ) → contains out x ≡ true → contains out e ≡ (contains out e || x == e)
found_before x e out h = elim (Bool-cases (x == e)) [
  | inl q ↦
      let x≡e : x ≡ e = ground arith in
      let there : contains out e ≡ true = ap (contains out) (sym x≡e) ∙ h in rw there refl
  | inr q ↦ rw q (sym (or_false (contains out e)))
]

and_true : (a : Bool) → (a && (true && true)) ≡ a
and_true true = refl
and_true false = refl

or_comm : (a b : Bool) → (a || b) ≡ (b || a)
or_comm true true = refl
or_comm true false = refl
or_comm false true = refl
or_comm false false = refl

add_other :
    (failed e : ℕ) (other : LocalEndpoint) (out : List ℕ)
    → contains
        (if other.endpoint == failed || not other.packet_handler || contains out other.endpoint
          then out
          else out ++ (other.endpoint ∷ []))
        e
      ≡ (contains out e || hears failed e other)
add_other failed e other out = elim (Bool-cases (other.endpoint == failed)) [
  | inl same ↦ rw same (
      sym (
        ap (λ b. contains out e || b) (and_false (other.endpoint == e) other.packet_handler)
        ∙ or_false (contains out e)))
  | inr differs ↦ elim (Bool-cases other.packet_handler) [
    | inr deaf ↦
        rw (differs, deaf)
          (sym (
            ap (λ b. contains out e || b) (and_none (other.endpoint == e))
            ∙ or_false (contains out e)))
    | inl handler ↦ elim (Bool-cases (contains out other.endpoint)) [
      | inl there ↦
          rw (differs, handler, there)
            (found_before other.endpoint e out there
              ∙ ap (λ b. contains out e || b) (sym (and_true (other.endpoint == e))))
      | inr new ↦
          rw (differs, handler, new)
            (contains-append out other.endpoint e
              ∙ or_comm (other.endpoint == e) (contains out e)
              ∙ ap (λ b. contains out e || b) (sym (and_true (other.endpoint == e))))
    ]
  ]
]

other_endpoints-contains :
    (failed e : ℕ) (others : List LocalEndpoint) (out : List ℕ)
    → contains (other_endpoints failed others out) e
      ≡ (contains out e || any (hears failed e) others)
unfolding other_endpoints
other_endpoints-contains failed e [] out = sym (or_false (contains out e))
other_endpoints-contains failed e (other ∷ others) out =
    other_endpoints-contains failed e others _
    ∙ ap (λ b. b || any (hears failed e) others) (add_other failed e other out)
    ∙ or_assoc (contains out e) (hears failed e other) (any (hears failed e) others)

module _ (answers : LocalEndpoint → PacketData → ℤ) (pkt : PacketData) where
  -- The endpoint and the answer of the first handler that does not accept, or else what is given.
  abbrev pub first_failing : ℕ × ℤ → List LocalEndpoint → ℕ × ℤ
  first_failing none_failed [] = none_failed
  first_failing none_failed (local ∷ rest) =
      if fails answers pkt local
      then (local.endpoint, answers local pkt)
      else first_failing none_failed rest

  -- Whether a handler with the endpoint `e` is to hear of a failure in the list.
  abbrev pub is_warned : List LocalEndpoint → ℕ → List LocalEndpoint → Bool
  is_warned locals e failed =
      any (λ local. fails answers pkt local && any (hears local.endpoint e) locals) failed

  abbrev pub failure_of : Failures → ℕ × ℤ
  failure_of f = (f.failing_endpoint, f.failing_rc)

  abbrev IsNoted : List LocalEndpoint → LocalEndpoint → Failures → Failures → Type 0
  IsNoted locals local f g =
      (g.error_endpoints ≡ (
        if fails answers pkt local
        then other_endpoints local.endpoint locals f.error_endpoints
        else f.error_endpoints))
      × (failure_of g ≡ (
          if fails answers pkt local && int_eq f.failing_rc result_ok
          then (local.endpoint, answers local pkt)
          else failure_of f))

  step-IsNoted :
      (n : ℕ) (locals : List LocalEndpoint) (local : LocalEndpoint) (f : Failures)
      → IsNoted locals local f (step answers pkt (suc n) locals local f)
  unfolding after_attempts
  step-IsNoted n locals local f = elim (Bool-cases (takes pkt local)) [
    | inr e ↦ rw e (refl, refl)
    | inl e ↦ elim (Bool-cases (int_eq (answers local pkt) result_ok)) [
      | inl good ↦
          rw (e, attempts-accepted answers pkt n result_ok local f.calls good, good) (refl, refl)
      | inr bad ↦ elim (Bool-cases (int_eq f.failing_rc result_ok)) [
        | inl q ↦
            rw (e, attempts_all answers pkt n result_ok local f.calls bad, bad, q) (refl, refl)
        | inr q ↦
            rw (e, attempts_all answers pkt n result_ok local f.calls bad, bad, q) (refl, refl)
      ]
    ]
  ]

  step_warned :
      (n e : ℕ) (locals rest : List LocalEndpoint) (local : LocalEndpoint) (f : Failures)
      → (contains (step answers pkt (suc n) locals local f).error_endpoints e
          || is_warned locals e rest)
        ≡ (contains f.error_endpoints e || is_warned locals e (local ∷ rest))
  step_warned n e locals rest local f =
      let noted = (step-IsNoted n locals local f).0 in
      elim (Bool-cases (fails answers pkt local)) [
        | inl q ↦
            rw (noted, q)
              (ap (λ b. b || is_warned locals e rest)
                  (other_endpoints-contains local.endpoint e locals f.error_endpoints)
                ∙ or_assoc (contains f.error_endpoints e) (any (hears local.endpoint e) locals)
                    (is_warned locals e rest))
        | inr q ↦ rw (noted, q) refl
      ]

  pub tell_locals-contains :
      (n e : ℕ) (rest locals : List LocalEndpoint) (f : Failures)
      → contains (tell_locals (fixed answers pkt) (suc n) rest locals pkt f).error_endpoints e
        ≡ (contains f.error_endpoints e || is_warned locals e rest)
  unfolding tell_locals
  tell_locals-contains n e [] locals f = sym (or_false (contains f.error_endpoints e))
  tell_locals-contains n e (local ∷ rest) locals f =
      tell_locals-contains n e rest locals (step answers pkt (suc n) locals local f)
      ∙ step_warned n e locals rest local f

  -- The failure that is kept after a list of handlers, when this one was kept before.
  abbrev pub reported : ℕ × ℤ → List LocalEndpoint → ℕ × ℤ
  reported kept rest = if int_eq (kept.1) result_ok then first_failing kept rest else kept

  keep_first :
      (local : LocalEndpoint) (rest : List LocalEndpoint) (kept : ℕ × ℤ)
      → reported
          (if fails answers pkt local && int_eq (kept.1) result_ok
            then (local.endpoint, answers local pkt)
            else kept)
          rest
        ≡ reported kept (local ∷ rest)
  keep_first local rest kept = elim (Bool-cases (takes pkt local)) [
    | inr e ↦ rw e refl
    | inl e ↦ elim (Bool-cases (int_eq (answers local pkt) result_ok)) [
      | inl good ↦ rw (e, good) refl
      | inr bad ↦ elim (Bool-cases (int_eq (kept.1) result_ok)) [
        | inl q ↦ rw (e, bad, q) (rw bad refl)
        | inr q ↦ rw (e, bad, q) (rw q refl)
      ]
    ]
  ]

  pub tell_locals-reported :
      (n : ℕ) (rest locals : List LocalEndpoint) (f : Failures)
      → failure_of (tell_locals (fixed answers pkt) (suc n) rest locals pkt f)
        ≡ reported (failure_of f) rest
  unfolding tell_locals
  tell_locals-reported n [] locals f = elim (Bool-cases (int_eq f.failing_rc result_ok)) [
    | inl q ↦ rw q refl
    | inr q ↦ rw q refl
  ]
  tell_locals-reported n (local ∷ rest) locals f =
      tell_locals-reported n rest locals (step answers pkt (suc n) locals local f)
      ∙ ap (λ kept. reported kept rest) ((step-IsNoted n locals local f).1)
      ∙ keep_first local rest (failure_of f)
