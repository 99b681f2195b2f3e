-- ===== src/Domain/Repair.antt =====
-- services/control-plane/internal/domain/repair_task.go: the repair task and its bounded attempts.
pub mod Laws
use cisync.Prelude.{
  Bool, true, false, Option, none, some, List, [], ◌∷◌, ◌&&◌, not, String, Eq, string_eq, ◌==◌,
  eq_of_discrete, if◌then◌else◌, ℕ, ◌+◌,
}
use cisync.Prelude.Int.{ℤ, pos, lt_int}
use cisync.Domain.Common.{Time}
use cisync.Domain.Machine.{Error, rule, Table, Result, ok, err, next_state}

pub data RepairState : Type 0 where
  authorized dispatched iterating applied exhausted aborted : RepairState

abbrev pub RepairState-discrete : Discrete RepairState
RepairState-discrete = hlevel

instance abbrev pub repair_state_eq : Eq RepairState
repair_state_eq = eq_of_discrete RepairState-discrete

pub record RepairEnvelope : Type 0 where
  pub reproduction_command : String
  pub failed_assertion : String
  pub suspected_diff_hunks : List String
  pub allowed_paths : List String
  pub prohibited_paths : List String
  pub max_iterations : ℤ
  pub required_evidence_after_repair : List String

pub record RepairTask : Type 0 where
  pub id : String
  pub tenant_id : String
  pub failure_case_id : String
  pub candidate_id : String
  pub state : RepairState
  pub envelope : RepairEnvelope
  pub attempts_used : ℕ
  pub resulting_patch_refs : List String
  pub created_at : Time

unfoldable pub new_repair_task :
    String → String → String → String → RepairEnvelope → Time → RepairTask
new_repair_task id tenant_id failure_case_id candidate_id env now = record {
  id = id;
  tenant_id = tenant_id;
  failure_case_id = failure_case_id;
  candidate_id = candidate_id;
  state = authorized;
  envelope = env;
  attempts_used = 0;
  resulting_patch_refs = [];
  created_at = now;
}

unfoldable pub terminal : RepairState → Bool
terminal applied = true
terminal exhausted = true
terminal aborted = true
terminal _ = false

unfoldable pub repair_transitions : Table RepairState
repair_transitions =
    ("repair.dispatched", rule (authorized ∷ []) dispatched)
    ∷ ("repair.iterating", rule (dispatched ∷ iterating ∷ []) iterating)
    ∷ ("repair.applied", rule (dispatched ∷ iterating ∷ []) applied)
    ∷ ("repair.exhausted", rule (dispatched ∷ iterating ∷ []) exhausted)
    ∷ ("repair.aborted", rule (authorized ∷ dispatched ∷ iterating ∷ []) aborted)
    ∷ []

unfoldable pub conclude : RepairTask → Result RepairState → RepairTask × Error
conclude t (err e) = (t, some e)
conclude t (ok s) = (record t { state = s }, none)

unfoldable pub apply : RepairTask → String → RepairTask × Error
unfolding conclude
apply t trigger = conclude t (next_state terminal repair_transitions t.state trigger)

-- `t.AttemptsUsed >= t.Envelope.MaxIterations`
unfoldable pub is_spent : RepairTask → Bool
is_spent t = not (lt_int (pos t.attempts_used) t.envelope.max_iterations)

-- `RecordAttempt` behind its first guard.
unfoldable pub count_attempt : RepairTask → RepairTask × Error
unfolding is_spent
count_attempt t =
    if is_spent t
    then apply t "repair.exhausted"
    else let used = record t { attempts_used = t.attempts_used + 1 } in
      if is_spent used then apply used "repair.exhausted" else (used, none)

unfoldable pub after_iterating : RepairTask × Error → RepairTask × Error
unfolding count_attempt
after_iterating (t, none) = count_attempt t
after_iterating (t, some e) =
    if not (t.state == dispatched) && not (t.state == iterating)
    then (t, some e)
    else count_attempt t

unfoldable pub record_attempt : RepairTask → RepairTask × Error
unfolding apply after_iterating
record_attempt t = after_iterating (apply t "repair.iterating")
