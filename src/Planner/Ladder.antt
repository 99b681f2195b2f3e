-- ===== src/Planner/Ladder.antt =====
-- services/control-plane/internal/planner/triggers.go, surfaces.go and ladder.go: the input of
-- planning, its fallback triggers, and how they shape the tiers.
use Prim.Native.String.{◌++◌ as ◌++ₛ◌}
use cisync.Prelude.{
  String, Bool, true, false, ◌&&◌, ◌||◌, Option, none, some, List, [], ◌∷◌, ◌++◌, map,
  if◌then◌else◌, ◌==◌, string_eq, contains,
}
use cisync.Prelude.Int.{ℤ, pos, lt_int}
use cisync.Prelude.Maps.{lookup}
use cisync.Policy.Document.{float, LadderOverrides}
use cisync.Planner.Paths.{match_any_path, surface_classes}
use cisync.Planner.Tiers.{
  JobSpec, tier2_selected_base, tier2_full_first, tier2_payment_job, tier2_idempotency_job,
}

pub record CandidateInput : Type 0 where
  pub candidate_id : String
  pub intent_id : String
  pub tenant_id : String
  pub repo : String
  pub base_sha : String
  pub head_sha : String
  pub patch_ref : String
  pub risk_class : String
  pub changed_paths : List String
  pub lockfiles : List String
  pub flags : List String
  pub toolchain : String
  pub selection_confidence : Option ℤ
  pub surface_samples : List (String × ℤ)
  pub quarantined_or_flake_signals : List String
  pub composing_integration_set : Bool
  pub relation_conflicting : Bool
  pub ambiguous_retry_failure_confidence : Option ℤ
  pub explicit_full_suite_override : Bool

-- `c` clamped into [0, 1]; with no history, 0.5.
unfoldable pub effective_selection_confidence : Option ℤ → ℤ
effective_selection_confidence none = float 1 1
effective_selection_confidence (some c) =
    if lt_int c (pos 0) then pos 0 else if lt_int (float 1 0) c then float 1 0 else c

abbrev pub samples_at : String → List (String × ℤ) → ℤ
samples_at class samples = elim (lookup class samples) [ none ↦ pos 0 | some n ↦ n ]

unfoldable pub any_sparse : List (String × ℤ) → List String → Bool
any_sparse samples [] = false
any_sparse samples (class ∷ classes) =
    lt_int (samples_at class samples) (pos 20) || any_sparse samples classes

unfoldable pub any_protected : List String → List String → Bool
unfolding match_any_path
any_protected paths [] = false
any_protected paths (p ∷ patterns) = match_any_path p paths || any_protected paths patterns

abbrev pub is_ambiguous : Option ℤ → Bool
is_ambiguous none = false
is_ambiguous (some c) = lt_int c (float 3_602_879_701_896_397 52)

abbrev pub is_some_list : List String → Bool
is_some_list [] = false
is_some_list (x ∷ xs) = true

abbrev pub fired : Bool → String → List String → List String
fired true name rest = name ∷ rest
fired false name rest = rest

-- `evaluateFallbacks`: what each of the seven tests appends, in their order.
unfoldable pub evaluate_fallbacks : CandidateInput → LadderOverrides → List String
unfolding effective_selection_confidence any_sparse any_protected surface_classes
evaluate_fallbacks i o =
    fired
      (lt_int (effective_selection_confidence i.selection_confidence) o.min_selection_confidence)
      "uncertainty_gt_0.02"
      (fired (any_sparse i.surface_samples (surface_classes i.changed_paths)) "sparse_history_lt_20"
        (fired (any_protected i.changed_paths o.protected_paths) "protected_paths" (
          fired (is_some_list i.quarantined_or_flake_signals) "flake_signal_or_quarantine_14d" (
            fired (i.composing_integration_set || i.relation_conflicting) "conflicting_composition"
              (fired (is_ambiguous i.ambiguous_retry_failure_confidence)
                "ambiguous_failure_after_retry"
                (fired i.explicit_full_suite_override "explicit_override" []))))))

-- The loop of `joinComma`, with what is to be written before each further part.
unfoldable pub join_from : String → List String → String
join_from out [] = out
join_from out (p ∷ parts) = join_from (out ++ₛ "," ++ₛ p) parts

unfoldable pub join_comma : List String → String
unfolding join_from
join_comma [] = ""
join_comma (p ∷ parts) = join_from p parts

abbrev pub fallback_of : String → String
fallback_of t = "fallback:" ++ₛ t

unfoldable pub join_fallback_rationale : List String → String
unfolding join_comma
join_fallback_rationale triggers = join_comma (map fallback_of triggers)

abbrev pub spec_names : List JobSpec → List String
spec_names [] = []
spec_names (j ∷ jobs) = j.name ∷ spec_names jobs

unfoldable pub widen_tier2 : List JobSpec → List JobSpec
unfolding tier2_full_first
widen_tier2 [] = []
widen_tier2 (j ∷ jobs) =
    (if j.name == "impacted_integration_tests" then tier2_full_first else j) ∷ widen_tier2 jobs

-- What `composeTier2Jobs` appends for the required kinds.
unfoldable pub required_jobs : List String → List JobSpec
unfolding tier2_payment_job tier2_idempotency_job
required_jobs [] = []
required_jobs (k ∷ required) =
    let rest = required_jobs required in
    if k == "payment_contract"
    then tier2_payment_job ∷ rest
    else if k == "idempotency_race"
    then tier2_idempotency_job ∷ rest
    else rest

unfoldable pub compose_tier2_jobs : List String → List JobSpec
unfolding required_jobs tier2_selected_base
compose_tier2_jobs required = tier2_selected_base ++ required_jobs required

unfoldable pub explicit_uncertainty_fallback : List String → Bool
explicit_uncertainty_fallback [] = false
explicit_uncertainty_fallback (t ∷ triggers) =
    (t == "uncertainty_gt_0.02")
    || (t == "explicit_override")
    || explicit_uncertainty_fallback triggers

abbrev pub override_part : Bool → List String
override_part true = "explicit_override" ∷ []
override_part false = []

abbrev pub uncertainty_part : Bool → List String → List String
uncertainty_part true triggers = join_fallback_rationale triggers ∷ []
uncertainty_part false triggers = []

unfoldable pub tier3_rationale : CandidateInput → LadderOverrides → List String → String
unfolding join_fallback_rationale join_comma
tier3_rationale i o triggers =
    if contains o.tier3_risk_classes i.risk_class
    then "policy_tier3_risk_class"
    else join_comma (
        override_part i.explicit_full_suite_override
        ++ uncertainty_part (contains triggers "uncertainty_gt_0.02") triggers)

unfoldable pub tier4_rationale : CandidateInput → List String → String
unfolding join_fallback_rationale join_comma
tier4_rationale i triggers =
    if i.composing_integration_set && is_some_list triggers
    then join_comma ("composition_validation" ∷ join_fallback_rationale triggers ∷ [])
    else if i.composing_integration_set
    then "composition_validation"
    else "explicit_override"
