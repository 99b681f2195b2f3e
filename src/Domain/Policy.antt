-- ===== src/Domain/Policy.antt =====
-- services/control-plane/internal/domain/policy.go: the policy, its table and `Apply`, and the
-- compiled-in default.
use cisync.Prelude.{
  Bool, true, false, Option, none, some, List, [], ◌∷◌, String, Eq, string_eq, eq_of_discrete, ℕ,
}
use cisync.Prelude.Int.{ℤ, pos}
use cisync.Prelude.Maps.{lookup}
use cisync.Policy.Document.{float}
use cisync.Domain.Common.{Time, BudgetValues, PolicyRef}
use cisync.Domain.Machine.{Error, rule, Table, Result, ok, err, next_state}

pub data PolicyStatus : Type 0 where
  draft active retired : PolicyStatus

abbrev pub PolicyStatus-discrete : Discrete PolicyStatus
PolicyStatus-discrete = hlevel

instance abbrev pub policy_status_eq : Eq PolicyStatus
policy_status_eq = eq_of_discrete PolicyStatus-discrete

unfoldable pub terminal : PolicyStatus → Bool
terminal retired = true
terminal _ = false

pub record ResolvedPolicy : Type 0 where
  pub ref : PolicyRef
  pub tier3_risk_classes : List String
  pub min_selection_confidence : ℤ
  pub protected_paths : List String
  pub required_evidence_by_risk : List (String × List String)
  pub per_candidate_budget : BudgetValues
  pub per_tenant_hour_cpu : ℤ
  pub wip_by_tier : List (ℕ × ℕ)

abbrev pub default_policy : ResolvedPolicy
default_policy = record {
  ref = record { policy_id = "pol_cisync_default"; version = pos 1 };
  tier3_risk_classes = "high" ∷ "critical" ∷ [];
  min_selection_confidence = float 2_206_763_817_411_543 51;
  protected_paths = "auth/**" ∷ "migrations/**" ∷ "infrastructure/prod/**" ∷ [];
  required_evidence_by_risk =
      ("low", "hermetic_build" ∷ "selected_unit" ∷ [])
      ∷ ("medium", "hermetic_build" ∷ "selected_unit" ∷ "api_compat" ∷ [])
      ∷ (
        "high",
        "hermetic_build" ∷ "api_compat" ∷ "payment_contract" ∷ "idempotency_race" ∷ "sast_diff"
            ∷ [],
      )
      ∷ ("critical", "hermetic_build" ∷ "api_compat" ∷ "full_integration" ∷ "human_approval" ∷ [])
      ∷ [];
  per_candidate_budget = record {
    cpu_minutes = pos 120;
    environment_minutes = pos 30;
    repair_attempts = pos 2;
  };
  per_tenant_hour_cpu = pos 5000;
  wip_by_tier = (0, 200) ∷ (1, 60) ∷ (2, 20) ∷ (3, 6) ∷ (4, 2) ∷ [];
}

unfoldable pub required_evidence : ResolvedPolicy → String → Option (List String)
required_evidence p risk_class = lookup risk_class p.required_evidence_by_risk

unfoldable pub policy_transitions : Table PolicyStatus
policy_transitions =
    ("policy.activated", rule (draft ∷ []) active)
    ∷ ("policy.retired", rule (active ∷ []) retired)
    ∷ []

pub record Policy : Type 0 where
  pub id : String
  pub version : ℤ
  pub status : PolicyStatus
  pub body : ResolvedPolicy
  pub activated_by : String
  pub activated_at : Option Time

unfoldable pub conclude : Policy → Result PolicyStatus → Policy × Error
conclude p (err e) = (p, some e)
conclude p (ok s) = (record p { status = s }, none)

unfoldable pub apply : Policy → String → Policy × Error
unfolding conclude
apply p trigger = conclude p (next_state terminal policy_transitions p.status trigger)
