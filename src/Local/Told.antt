-- ===== src/Local/Told.antt =====
-- src/router_core.cpp: which handlers are told of a packet, and how often.
use sedsnet_cpp.Common.{
  ℕ, zero, suc, ◌<◌, Bool, true, false, not, ◌&&◌, ◌||◌, List, [], ◌∷◌, ◌++◌, Text, contains, any,
  is_empty, ◌==◌, if◌then◌else◌, Bool-cases, inl, inr, ◌≡◌, refl, sym, ap, ◌∙◌, arith,
}
use mathlib.Core.Bool.{false≢true}
use mathlib.Core.List.{append-nil, append_assoc}
use sedsnet_cpp.Common.Int.{ℤ}
use sedsnet_cpp.Schema.{Schema, PacketData, dt_telemetry_error}
use sedsnet_cpp.Packets.{make_router_error_packet}
use sedsnet_cpp.Reliable.Egress.{result_ok}
use sedsnet_cpp.Relay.{result_handler_error}
use sedsnet_cpp.Local.{
  LocalEndpoint, Calls, Failures, takes, tell_locals, warn_locals, dispatch_local_packet_handlers,
  local_handler_error_message,
}
use sedsnet_cpp.Local.Attempts.{fails, told, fixed, step, step-IsStep, or_false, or_assoc}
use sedsnet_cpp.Local.Report.{first_failing, is_warned, tell_locals-contains, tell_locals-reported}

-- The log of the second loop over it.
abbrev pub warned : PacketData → List LocalEndpoint → Calls
warned message [] = []
warned message (local ∷ rest) =
    warned message rest ++ (if takes message local then (local, message) ∷ [] else [])

warn_locals-warned :
    (locals : List LocalEndpoint) (message : PacketData) (calls : Calls)
    → warn_locals locals message calls ≡ warned message locals ++ calls
unfolding warn_locals
warn_locals-warned [] message calls = refl
warn_locals-warned (local ∷ rest) message calls = elim (Bool-cases (takes message local)) [
  | inl e ↦ rw e (
      warn_locals-warned rest message ((local, message) ∷ calls)
      ∙ sym (append_assoc (warned message rest) ((local, message) ∷ []) calls))
  | inr e ↦ rw e (
      warn_locals-warned rest message calls
      ∙ ap (λ front. front ++ calls) (sym (append-nil (warned message rest))))
]

contains_empty :
    (endpoints : List ℕ) (endpoint : ℕ) (handler : Bool)
    → is_empty endpoints ≡ true
    → (contains endpoints endpoint && handler) ≡ false
contains_empty [] endpoint handler h = refl
contains_empty (x ∷ xs) endpoint handler h = absurd (false≢true h)

warned_none :
    (locals : List LocalEndpoint) (message : PacketData)
    → is_empty message.endpoints ≡ true
    → warned message locals ≡ []
unfolding takes
warned_none [] message h = refl
warned_none (local ∷ rest) message h =
    let takes_none : takes message local ≡ false =
      contains_empty message.endpoints local.endpoint local.packet_handler h in
    ap (λ b. warned message rest ++ (if b then (local, message) ∷ [] else [])) takes_none
    ∙ append-nil (warned message rest)
    ∙ warned_none rest message h

module _ (answers : LocalEndpoint → PacketData → ℤ) (pkt : PacketData) where
  tell_locals-told :
      (n : ℕ) (rest locals : List LocalEndpoint) (f : Failures)
      → let g = tell_locals (fixed answers pkt) (suc n) rest locals pkt f in
        (g.had_failure ≡ (f.had_failure || any (fails answers pkt) rest))
        × (g.calls ≡ told answers pkt (suc n) rest f.calls)
  unfolding tell_locals
  tell_locals-told n [] locals f = (sym (or_false f.had_failure), refl)
  tell_locals-told n (local ∷ rest) locals f =
      let g = step answers pkt (suc n) locals local f in
      let one = step-IsStep answers pkt n locals local f in
      let later = tell_locals-told n rest locals g in
      (
        later.0 ∙ ap (λ b. b || any (fails answers pkt) rest) one.0 ∙ or_assoc f.had_failure _ _,
        later.1 ∙ ap (told answers pkt (suc n) rest) one.1,
      )

second_loop :
    (had other_type : Bool) (message : PacketData) (locals : List LocalEndpoint) (calls : Calls)
    → (if had && other_type && not (is_empty message.endpoints)
        then warn_locals locals message calls
        else calls)
      ≡ (if had && other_type then warned message locals else []) ++ calls
second_loop false other_type message locals calls = refl
second_loop true false message locals calls = refl
second_loop true true message locals calls = elim (Bool-cases (is_empty message.endpoints)) [
  | inl e ↦ rw e (ap (λ front. front ++ calls) (sym (warned_none locals message e)))
  | inr e ↦ rw e (warn_locals-warned locals message calls)
]

-- What handing a packet to the locals does.
pub record IsTold (answers : LocalEndpoint → PacketData → ℤ) (retries : ℕ) (s : Schema)
    (device : Text) (pkt : PacketData) (locals : List LocalEndpoint) (calls : Calls) : Type 0 where
  pub result :
      (dispatch_local_packet_handlers (fixed answers pkt) retries s device pkt locals calls).0
      ≡ (if any (fails answers pkt) locals then result_handler_error else result_ok)
  pub message : PacketData
  pub says :
      message
      ≡ make_router_error_packet device message.endpoints (
          let failure = first_failing answers pkt (0, result_ok) locals in
          local_handler_error_message s (failure.0) (failure.1))
  pub addressed : (e : ℕ) → contains message.endpoints e ≡ is_warned answers pkt locals e locals
  pub log :
      (dispatch_local_packet_handlers (fixed answers pkt) retries s device pkt locals calls).1
      ≡ (if any (fails answers pkt) locals && not (pkt.ty == dt_telemetry_error)
          then warned message locals
          else [])
        ++ told answers pkt retries locals calls

-- With handlers whose answers depend on the packet only, and at least one attempt: of the handlers
-- that the packet is for, each that accepts is called once, and each that does not as often as there
-- are attempts, in the order of registration. Where one does not accept, the answer is
-- `SEDS_HANDLER_ERROR`, and unless the packet is an error report itself, each handler that the error
-- report is for is told of it once; otherwise the answer is `SEDS_OK` and nobody else is called. The
-- report names the endpoint and the answer of the first handler that does not accept, and its
-- endpoints are those of the packet handlers that have another endpoint than one that does not
-- accept.
pub dispatch_local_packet_handlers-IsTold :
    (answers : LocalEndpoint → PacketData → ℤ) (retries : ℕ) (s : Schema) (device : Text)
    (pkt : PacketData) (locals : List LocalEndpoint) (calls : Calls)
    → 0 < retries
    → IsTold answers retries s device pkt locals calls
unfolding dispatch_local_packet_handlers make_router_error_packet
dispatch_local_packet_handlers-IsTold answers zero s device pkt locals calls h =
    absurd (omega arith)
dispatch_local_packet_handlers-IsTold answers (suc n) s device pkt locals calls h =
    let start : Failures = record {
      had_failure = false;
      error_endpoints = [];
      failing_endpoint = 0;
      failing_rc = result_ok;
      calls = calls;
    } in
    let f = tell_locals (fixed answers pkt) (suc n) locals locals pkt start in
    let first = tell_locals-told answers pkt n locals locals start in
    let message =
      make_router_error_packet device f.error_endpoints
        (local_handler_error_message s f.failing_endpoint f.failing_rc) in
    let other_type = not (pkt.ty == dt_telemetry_error) in
    record {
      result = ap (λ b. if b then result_handler_error else result_ok) first.0;
      message = message;
      says =
          ap
            (λ failure.
              make_router_error_packet device f.error_endpoints
                (local_handler_error_message s (failure.0) (failure.1)))
            (tell_locals-reported answers pkt n locals locals start);
      addressed = λ e. tell_locals-contains answers pkt n e locals locals start;
      log =
          second_loop f.had_failure other_type message locals f.calls
          ∙ ap (λ b. (if b && other_type then warned message locals else []) ++ f.calls) first.0
          ∙ ap
              (λ log.
                (if any (fails answers pkt) locals && other_type then warned message locals else [])
                ++ log)
              first.1;
    }
