-- ===== src/Planner/Plan.antt =====
-- services/control-plane/internal/planner/plan.go: `Plan`. A tier's number is a natural number.
pub mod Laws
pub mod Rationales
pub mod Suites
use cisync.Prelude.{
  ℕ, String, Bool, true, false, not, ◌&&◌, ◌||◌, Option, none, some, List, [], ◌∷◌, ◌++◌,
  if◌then◌else◌, ◌==◌, string_eq, contains,
}
use cisync.Prelude.Int.{ℤ, pos, lt_int}
use cisync.Prelude.Maps.{lookup}
use cisync.Policy.Document.{ResolvedPolicy, LadderOverrides}
use cisync.Planner.Inputs.{hash_inputs}
use cisync.Planner.Tiers.{tier0_jobs, tier1_selected_jobs, tier1_full_jobs, tier3_jobs, tier4_jobs}
use cisync.Planner.Ladder.{
  CandidateInput, effective_selection_confidence, evaluate_fallbacks, join_fallback_rationale,
  spec_names, widen_tier2, compose_tier2_jobs, explicit_uncertainty_fallback, tier3_rationale,
  tier4_rationale, is_some_list,
}

pub record TierPlan : Type 0 where
  pub tier : ℕ
  pub jobs : List String
  pub rationale : String
  pub selection_confidence : Option ℤ

pub record PolicyStamp : Type 0 where
  pub policy_id : String
  pub version : ℤ

pub record ValidationPlan : Type 0 where
  pub candidate_id : String
  pub policy_ref : PolicyStamp
  pub tiers : List TierPlan
  pub required_evidence_kinds : List String
  pub inputs_hash : String
  pub fallback_triggers : List String

pub data InputError : Type 0 where
  empty_candidate same_heads unresolved_policy no_required_evidence : InputError

pub data Planned : Type 0 where
  ok : ValidationPlan → Planned
  err : InputError → Planned

unfoldable pub tier_plan : ℕ → List String → String → TierPlan
tier_plan tier jobs rationale = record {
  tier = tier;
  jobs = jobs;
  rationale = rationale;
  selection_confidence = none;
}

-- A tier with `tp.SelectionConfidence` set.
unfoldable pub with_confidence : ℤ → TierPlan → TierPlan
with_confidence c t = record t { selection_confidence = some c }

unfoldable pub validate_input : CandidateInput → Option InputError
validate_input i =
    if i.candidate_id == ""
    then some empty_candidate
    else if (i.base_sha == "") || (i.head_sha == "") || (i.base_sha == i.head_sha)
    then some same_heads
    else none

-- Tiers 3 and 4, each behind its test.
unfoldable pub tier3_part : CandidateInput → LadderOverrides → List String → List TierPlan
unfolding tier_plan explicit_uncertainty_fallback tier3_rationale tier3_jobs
tier3_part i o triggers =
    if contains o.tier3_risk_classes i.risk_class || explicit_uncertainty_fallback triggers
    then tier_plan 3 (spec_names tier3_jobs) (tier3_rationale i o triggers) ∷ []
    else []

unfoldable pub tier4_part : CandidateInput → List String → List TierPlan
unfolding tier_plan tier4_rationale tier4_jobs
tier4_part i triggers =
    if i.composing_integration_set || i.explicit_full_suite_override
    then tier_plan 4 (spec_names tier4_jobs) (tier4_rationale i triggers) ∷ []
    else []

unfoldable pub tier1_part : ℤ → List String → TierPlan
unfolding tier_plan with_confidence join_fallback_rationale tier1_full_jobs tier1_selected_jobs
tier1_part conf triggers = with_confidence conf (
    if is_some_list triggers
    then tier_plan 1 (spec_names tier1_full_jobs) (join_fallback_rationale triggers)
    else tier_plan 1 (spec_names tier1_selected_jobs) "impact_selection")

unfoldable pub tier2_part : ℤ → List String → List String → TierPlan
unfolding tier_plan with_confidence join_fallback_rationale widen_tier2 compose_tier2_jobs
tier2_part conf required triggers = with_confidence conf (
    if is_some_list triggers
    then tier_plan 2 (spec_names (widen_tier2 (compose_tier2_jobs required)))
        (join_fallback_rationale triggers)
    else tier_plan 2 (spec_names (compose_tier2_jobs required)) "policy_contract_requirements")

unfoldable pub tiers_of :
    CandidateInput → LadderOverrides → List String → List String → List TierPlan
unfolding tier_plan tier0_jobs tier1_part tier2_part tier3_part tier4_part
    effective_selection_confidence
tiers_of i o required triggers =
    let conf = effective_selection_confidence i.selection_confidence in
    tier_plan 0 (spec_names tier0_jobs) "admission_gate"
    ∷ tier1_part conf triggers
    ∷ tier2_part conf required triggers
    ∷ (tier3_part i o triggers ++ tier4_part i triggers)

unfoldable pub build_plan :
    (String → String) → CandidateInput → ResolvedPolicy → List String → ValidationPlan
unfolding tiers_of evaluate_fallbacks hash_inputs
build_plan sha256 i rp required =
    let triggers = evaluate_fallbacks i rp.body.ladder_overrides in
    record {
      candidate_id = i.candidate_id;
      policy_ref = record { policy_id = rp.policy_id; version = rp.version };
      tiers = tiers_of i rp.body.ladder_overrides required triggers;
      required_evidence_kinds = required;
      inputs_hash = hash_inputs sha256 (record {
        base_sha = i.base_sha;
        lockfiles = i.lockfiles;
        flags = i.flags;
        toolchain = i.toolchain;
      });
      fallback_triggers = triggers;
    }

-- `!ok || len(required) == 0` on the risk class.
unfoldable pub plan_required :
    (String → String) → CandidateInput → ResolvedPolicy → Option (List String) → Planned
unfolding build_plan
plan_required sha256 i rp none = err no_required_evidence
plan_required sha256 i rp (some []) = err no_required_evidence
plan_required sha256 i rp (some (k ∷ required)) = ok (build_plan sha256 i rp (k ∷ required))

unfoldable pub plan_valid :
    (String → String) → CandidateInput → ResolvedPolicy → Option InputError → Planned
unfolding plan_required
plan_valid sha256 i rp (some e) = err e
plan_valid sha256 i rp none =
    if (rp.policy_id == "") || not (lt_int (pos 0) rp.version)
    then err unresolved_policy
    else plan_required sha256 i rp (lookup i.risk_class rp.body.required_evidence_by_risk)

unfoldable pub plan : (String → String) → CandidateInput → ResolvedPolicy → Planned
unfolding plan_valid validate_input
plan sha256 i rp = plan_valid sha256 i rp (validate_input i)
