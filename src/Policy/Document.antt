-- ===== src/Policy/Document.antt =====
-- services/control-plane/internal/policy/policy.go: the policy document, as far as it is data.
-- A finite float stands for itself, as an integer count of the least positive float64, 2^-1074.
use cisync.Prelude.{ℕ, ◌-◌, ◌*◌, ◌^◌, String, List}
use cisync.Prelude.Int.{ℤ, pos}

-- The float64 `m / 2^k`.
abbrev pub float : ℕ → ℕ → ℤ
float m k = pos (m * 2 ^ (1074 - k))

pub record ActorSelectors : Type 0 where
  pub agents : List String
  pub exclude : List String

pub record ScopeSelectors : Type 0 where
  pub repos : List String
  pub paths : List String
  pub risk_classes : List String
  pub actors : ActorSelectors

pub record Subject : Type 0 where
  pub repo : String
  pub changed_paths : List String
  pub risk_class : String
  pub actor : String

pub record PerCandidateBudget : Type 0 where
  pub cpu_minutes : ℤ
  pub environment_minutes : ℤ
  pub repair_attempts : ℤ

pub record PerTenantHourBudget : Type 0 where
  pub cpu_minutes : ℤ
  pub concurrent_candidates : ℤ

pub record EnvTemplateCap : Type 0 where
  pub max_concurrent : ℤ

pub record Budgets : Type 0 where
  pub per_candidate : PerCandidateBudget
  pub per_tenant_hour : PerTenantHourBudget
  pub wip_by_tier : List (String × ℤ)
  pub env_templates : List (String × EnvTemplateCap)
  pub value_tiers : List (String × ℤ)

pub record LadderOverrides : Type 0 where
  pub tier3_risk_classes : List String
  pub min_selection_confidence : ℤ
  pub fallback_triggers : List String
  pub protected_paths : List String

pub record Autonomy : Type 0 where
  pub level : ℤ
  pub levels_semantics : List (String × String)
  pub auto_merge_risk_classes : List String
  pub auto_repair_classes : List String
  pub escalate_on : List String

pub record PolicyBody : Type 0 where
  pub policy_id : String
  pub version : ℤ
  pub scope_selectors : ScopeSelectors
  pub required_evidence_by_risk : List (String × List String)
  pub ladder_overrides : LadderOverrides
  pub budgets : Budgets
  pub autonomy : Autonomy

pub record PolicyRecord : Type 0 where
  pub id : String
  pub version : ℤ
  pub status : String
  pub body : PolicyBody

pub record ResolvedPolicy : Type 0 where
  pub policy_id : String
  pub version : ℤ
  pub body : PolicyBody

-- What `ActivePolicies` of a registry answers.
pub data Answer : Type 0 where
  failed : Answer
  records : List PolicyRecord → Answer
