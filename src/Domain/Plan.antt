-- ===== src/Domain/Plan.antt =====
-- services/control-plane/internal/domain/validation_plan.go: the plan, its table and `Apply`.
pub mod Laws
use cisync.Prelude.{
  Bool, true, false, Option, none, some, List, [], ◌∷◌, String, Eq, string_eq, eq_of_discrete,
}
use cisync.Prelude.Int.{ℤ}
use cisync.Domain.Common.{Time, FloatBits, PolicyRef}
use cisync.Domain.Machine.{Error, rule, Table, Result, ok, err, next_state}

pub data PlanState : Type 0 where
  active satisfied invalidated superseded : PlanState

abbrev pub PlanState-discrete : Discrete PlanState
PlanState-discrete = hlevel

instance abbrev pub plan_state_eq : Eq PlanState
plan_state_eq = eq_of_discrete PlanState-discrete

pub record Tier : Type 0 where
  pub tier : ℤ
  pub jobs : List String
  pub rationale : String
  pub selection_confidence : Option FloatBits

pub record ValidationPlan : Type 0 where
  pub id : String
  pub tenant_id : String
  pub candidate_id : String
  pub state : PlanState
  pub tiers : List Tier
  pub required_evidence_kinds : List String
  pub policy : PolicyRef
  pub inputs_hash : String
  pub created_at : Time

unfoldable pub new_validation_plan :
    String → String → String → List Tier → List String → PolicyRef → String → Time → ValidationPlan
new_validation_plan id tenant_id candidate_id tiers required_kinds pol inputs_hash now = record {
  id = id;
  tenant_id = tenant_id;
  candidate_id = candidate_id;
  state = active;
  tiers = tiers;
  required_evidence_kinds = required_kinds;
  policy = pol;
  inputs_hash = inputs_hash;
  created_at = now;
}

unfoldable pub terminal : PlanState → Bool
terminal satisfied = true
terminal superseded = true
terminal _ = false

unfoldable pub plan_transitions : Table PlanState
plan_transitions =
    ("plan.satisfied", rule (active ∷ []) satisfied)
    ∷ ("evidence.invalidated", rule (active ∷ []) invalidated)
    ∷ ("plan.rebuilt", rule (invalidated ∷ []) active)
    ∷ ("plan.superseded", rule (active ∷ invalidated ∷ []) superseded)
    ∷ []

unfoldable pub conclude : ValidationPlan → Result PlanState → ValidationPlan × Error
conclude p (err e) = (p, some e)
conclude p (ok s) = (record p { state = s }, none)

unfoldable pub apply : ValidationPlan → String → ValidationPlan × Error
unfolding conclude
apply p trigger = conclude p (next_state terminal plan_transitions p.state trigger)
