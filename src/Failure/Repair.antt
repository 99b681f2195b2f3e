-- ===== src/Failure/Repair.antt =====
-- services/control-plane/internal/failure/repair.go: which failures may be repaired, and how far.
pub mod Laws
use cisync.Prelude.{
  ℕ, String, Bool, true, false, not, ◌||◌, Option, none, some, List, [], ◌∷◌, if◌then◌else◌, ◌==◌,
  string_eq, contains,
}
use cisync.Prelude.Int.{ℤ, pos, lt_int}
use cisync.Prelude.Maps.{lookup}
use cisync.Policy.Document.{ResolvedPolicy}
use cisync.Policy.Resolve.{match_any_glob}
use cisync.Evidence.Digests.{sort_strings}
use cisync.Failure.Classify.{FailureCase}

pub record RepairContext : Type 0 where
  pub intent_owned_surfaces : List String
  pub prohibited_paths : List String
  pub risk_class : String
  pub failed_assertion : String

pub record RepairEnvelope : Type 0 where
  pub reproduction_command : String
  pub failed_assertion : String
  pub suspected_diff_hunks : List String
  pub allowed_paths : List String
  pub prohibited_paths : List String
  pub max_iterations : ℤ
  pub required_evidence_after_repair : List String

pub data DenyReason : Type 0 where
  security_violation autonomy class_not_repairable no_allowed_surface unknown_risk_class :
      DenyReason

pub data RepairAuthorization : Type 0 where
  denied : DenyReason → RepairAuthorization
  authorized : RepairEnvelope → RepairAuthorization

unfoldable pub filter_loop : List String → List String → List String
unfolding match_any_glob
filter_loop prohibited [] = []
filter_loop prohibited (s ∷ surfaces) =
    let rest = filter_loop prohibited surfaces in
    if not (match_any_glob prohibited s) then s ∷ rest else rest

unfoldable pub filter_prohibited : List String → List String → List String
unfolding filter_loop sort_strings
filter_prohibited surfaces prohibited = sort_strings (filter_loop prohibited surfaces)

-- The policy's grant, between 1 and `MaxRepairIterations`.
unfoldable pub capped_iterations : ℤ → ℤ
capped_iterations granted =
    if not (lt_int (pos 0) granted) || lt_int (pos 2) granted then pos 2 else granted

unfoldable pub envelope_of :
    FailureCase → ResolvedPolicy → RepairContext → List String → List String → RepairEnvelope
unfolding capped_iterations
envelope_of fc rp rc required allowed = record {
  reproduction_command = fc.reproduction_command;
  failed_assertion = rc.failed_assertion;
  suspected_diff_hunks = fc.suspected_paths;
  allowed_paths = allowed;
  prohibited_paths = rc.prohibited_paths;
  max_iterations = capped_iterations rp.body.budgets.per_candidate.repair_attempts;
  required_evidence_after_repair = required;
}

-- The last gate.
unfoldable pub confine :
    FailureCase → ResolvedPolicy → RepairContext → List String → List String → RepairAuthorization
unfolding envelope_of
confine fc rp rc required [] = denied no_allowed_surface
confine fc rp rc required (s ∷ allowed) = authorized (envelope_of fc rp rc required (s ∷ allowed))

-- The gate on the risk class, and what follows it.
unfoldable pub authorize_class :
    FailureCase → ResolvedPolicy → RepairContext → Option (List String) → RepairAuthorization
unfolding confine filter_prohibited
authorize_class fc rp rc none = denied unknown_risk_class
authorize_class fc rp rc (some required) =
    confine fc rp rc required (filter_prohibited rc.intent_owned_surfaces rc.prohibited_paths)

unfoldable pub authorize_repair : FailureCase → ResolvedPolicy → RepairContext → RepairAuthorization
unfolding authorize_class
authorize_repair fc rp rc =
    if fc.classification == "security_policy_violation"
    then denied security_violation
    else if lt_int rp.body.autonomy.level (pos 3)
    then denied autonomy
    else if not (contains rp.body.autonomy.auto_repair_classes fc.classification)
    then denied class_not_repairable
    else authorize_class fc rp rc (lookup rc.risk_class rp.body.required_evidence_by_risk)
