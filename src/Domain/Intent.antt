-- ===== src/Domain/Intent.antt =====
-- services/control-plane/internal/domain/intent.go: the intent, its table and `Apply`.
pub mod Laws
use cisync.Prelude.{
  ◌≡◌, Bool, true, false, Option, none, some, List, [], ◌∷◌, String, Eq, string_eq, ◌==◌,
  eq_of_discrete, if◌then◌else◌, ℕ,
}
use cisync.Domain.Common.{Time, BudgetValues, PolicyRef}
use cisync.Domain.Machine.{Error, rule, Table, Result, ok, err, next_state, DomainError}

pub data IntentState : Type 0 where
  exploring validating blocked repairing merge_ready deploying monitoring completed rejected :
      IntentState

pub data RiskClass : Type 0 where
  low medium high critical : RiskClass

pub data IntentOrigin : Type 0 where
  agent_api cli github_webhook synthetic : IntentOrigin

abbrev pub IntentState-discrete : Discrete IntentState
IntentState-discrete = hlevel

instance abbrev pub intent_state_eq : Eq IntentState
intent_state_eq = eq_of_discrete IntentState-discrete

pub record IntentDeclared : Type 0 where
  pub goal : String
  pub repo : String
  pub base_ref : String
  pub base_snapshot : String
  pub owned_surfaces : List String
  pub constraints : List String
  pub acceptance_criteria : List String
  pub risk_class : RiskClass
  pub deadline : Option Time
  pub origin : IntentOrigin
  pub agent_lineage : List String
  pub resolved_policy : PolicyRef
  pub compute_budget : BudgetValues

pub record Intent : Type 0 where
  pub id : String
  pub tenant_id : String
  pub state : IntentState
  pub declared : IntentDeclared
  pub created_at : Time
  pub closed_at : Option Time
  pub initial_candidate_id : String
  pub pr_number : ℕ

unfoldable pub new_intent : String → String → IntentDeclared → Time → Intent
new_intent id tenant_id d now = record {
  id = id;
  tenant_id = tenant_id;
  state = exploring;
  declared = d;
  created_at = now;
  closed_at = none;
  initial_candidate_id = "";
  pr_number = 0;
}

unfoldable pub terminal : IntentState → Bool
terminal completed = true
terminal rejected = true
terminal _ = false

unfoldable pub intent_transitions : Table IntentState
intent_transitions =
    ("validation.planned", rule (exploring ∷ []) validating)
    ∷ ("failure.blocked", rule (validating ∷ []) blocked)
    ∷ ("repair.authorized", rule (validating ∷ blocked ∷ []) repairing)
    ∷ ("candidate.resubmitted", rule (repairing ∷ blocked ∷ []) validating)
    ∷ ("decision.eligible", rule (validating ∷ []) merge_ready)
    ∷ ("deploy.authorized", rule (merge_ready ∷ []) deploying)
    ∷ ("deploy.executed", rule (deploying ∷ []) monitoring)
    ∷ ("post_merge.satisfied", rule (monitoring ∷ []) completed)
    ∷ (
      "intent.rejected",
      rule
          (exploring ∷ validating ∷ blocked ∷ repairing ∷ merge_ready ∷ deploying ∷ monitoring ∷ [])
          rejected,
    )
    ∷ []

-- What `Apply` does after the guard: the new state, then the two tests that stamp `ClosedAt`.
unfoldable pub enter : Intent → IntentState → Time → Intent
enter i rejected now = record i { state = rejected; closed_at = some now }
enter i completed now = record i { state = completed; closed_at = some now }
enter i s now = record i { state = s }

unfoldable pub conclude : Intent → Result IntentState → Time → Intent × Error
unfolding enter
conclude i (err e) now = (i, some e)
conclude i (ok s) now = (enter i s now, none)

unfoldable pub apply : Intent → String → Time → Intent × Error
unfolding conclude
apply i trigger now = conclude i (next_state terminal intent_transitions i.state trigger) now
