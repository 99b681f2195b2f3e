-- ===== src/Planner/Engine.antt =====
-- services/control-plane/internal/planner/adapter.go: the planner port over a policy registry. The
-- fresh id, the clock and the bit pattern of a float64 are arguments.
pub mod Laws
use mathlib.Core.Option
use cisync.Prelude.{String, Option, none, some, List, [], map, false}
use cisync.Prelude.Int.{ℤ, pos}
use cisync.Domain.Common.{Time, FloatBits}
use cisync.Domain.Plan as Domain_plan
use cisync.Policy.Document.{Subject, Answer, ResolvedPolicy}
use cisync.Policy.DefaultPack.{default_registry}
use cisync.Policy.Resolve.{resolve, Resolution, ResolveError}
use cisync.Policy.Resolve as Resolve
use cisync.Planner.Ladder.{CandidateInput}
use cisync.Planner.Plan.{plan, TierPlan, ValidationPlan, Planned, InputError}
use cisync.Planner.Plan as Plan

-- domain/ports.go, `CandidateInput`.
pub record PortInput : Type 0 where
  pub candidate_id : String
  pub intent_id : String
  pub repo : String
  pub base_sha : String
  pub head_sha : String
  pub patch_ref : String
  pub changed_paths : List String
  pub risk_class : String

pub data EngineError : Type 0 where
  unresolved : ResolveError → EngineError
  unplanned : InputError → EngineError

pub data EnginePlan : Type 0 where
  ok : Domain_plan.ValidationPlan → EnginePlan
  err : EngineError → EnginePlan

-- `NewEnginePlanner`: a nil registry is replaced by the compiled-in one.
unfoldable pub new_engine_planner : Option Answer → Answer
new_engine_planner none = default_registry
new_engine_planner (some reg) = reg

unfoldable pub engine_input : PortInput → CandidateInput
engine_input c = record {
  candidate_id = c.candidate_id;
  intent_id = c.intent_id;
  tenant_id = "";
  repo = c.repo;
  base_sha = c.base_sha;
  head_sha = c.head_sha;
  patch_ref = c.patch_ref;
  risk_class = c.risk_class;
  changed_paths = c.changed_paths;
  lockfiles = [];
  flags = [];
  toolchain = "";
  selection_confidence = none;
  surface_samples = [];
  quarantined_or_flake_signals = [];
  composing_integration_set = false;
  relation_conflicting = false;
  ambiguous_retry_failure_confidence = none;
  explicit_full_suite_override = false;
}

unfoldable pub subject_of : PortInput → Subject
subject_of c = record {
  repo = c.repo;
  changed_paths = c.changed_paths;
  risk_class = c.risk_class;
  actor = "";
}

module _ (sha256 : String → String) (bits : ℤ → FloatBits) (id : String) (now : Time) where
  abbrev pub to_domain : TierPlan → Domain_plan.Tier
  to_domain t = record {
    tier = pos t.tier;
    jobs = t.jobs;
    rationale = t.rationale;
    selection_confidence = Option.map bits t.selection_confidence;
  }

  unfoldable pub to_port : ValidationPlan → Domain_plan.ValidationPlan
  unfolding Domain_plan.new_validation_plan
  to_port p =
      Domain_plan.new_validation_plan id "" p.candidate_id (map to_domain p.tiers)
        p.required_evidence_kinds
        (record { policy_id = p.policy_ref.policy_id; version = p.policy_ref.version })
        p.inputs_hash now

  unfoldable pub finish : Planned → EnginePlan
  unfolding to_port
  finish (Plan.err e) = err (unplanned e)
  finish (Plan.ok p) = ok (to_port p)

  unfoldable pub plan_resolved : PortInput → Resolution → EnginePlan
  unfolding finish plan engine_input
  plan_resolved c (Resolve.err e) = err (unresolved e)
  plan_resolved c (Resolve.ok rp) = finish (plan sha256 (engine_input c) rp)

  unfoldable pub engine_plan : Answer → PortInput → EnginePlan
  unfolding plan_resolved resolve subject_of
  engine_plan reg c = plan_resolved c (resolve (subject_of c) (some reg))
