-- ===== src/Planner/Plan/Laws.antt =====
-- `Plan` of planner/plan.go: the ladder, its rationales and its suites.
use cisync.Prelude.{
  ℕ, ◌≡◌, refl, ap, ◌∙◌, inl, inr, String, Bool, true, false, not, ◌||◌, Option, none, some, List,
  [], ◌∷◌, ◌++◌, map, Option-cases, Bool-cases, arith, if◌then◌else◌, ◌==◌, string_eq, contains,
}
use cisync.Policy.Document.{ResolvedPolicy, LadderOverrides}
use cisync.Prelude.Int.{pos, lt_int}
use cisync.Prelude.Maps.{lookup}
use cisync.Planner.Ladder.{
  CandidateInput, effective_selection_confidence, evaluate_fallbacks, explicit_uncertainty_fallback,
  fired,
}
use cisync.Planner.Plan.{
  TierPlan, ValidationPlan, ok, plan, plan_valid, plan_required, build_plan, tiers_of,
  validate_input,
}

-- A plan that is returned is the one that is built for some required kinds, the class's.
pub record Built (sha256 : String → String) (i : CandidateInput) (rp : ResolvedPolicy)
    (p : ValidationPlan) : Type 0 where
  pub required : List String
  pub built : p ≡ build_plan sha256 i rp required

plan_required-Built :
    (sha256 : String → String) (i : CandidateInput) (rp : ResolvedPolicy) (o : Option (List String))
    {p : ValidationPlan}
    → plan_required sha256 i rp o ≡ ok p
    → Built sha256 i rp p
unfolding plan_required
plan_required-Built sha256 i rp none h = absurd (cc)
plan_required-Built sha256 i rp (some []) h = absurd (cc)
plan_required-Built sha256 i rp (some (k ∷ required)) h = record {
  required = k ∷ required;
  built = cc;
}

pub plan-Built :
    (sha256 : String → String) (i : CandidateInput) (rp : ResolvedPolicy) {p : ValidationPlan}
    → plan sha256 i rp ≡ ok p
    → Built sha256 i rp p
unfolding plan
plan-Built sha256 i rp h = elim (Option-cases (validate_input i)) [
  | inr (e, bad) ↦ absurd (ground arith)
  | inl good ↦ elim (Bool-cases ((rp.policy_id == "") || not (lt_int (pos 0) rp.version))) [
    | inl unresolved ↦ absurd (ground arith)
    | inr fine ↦
        plan_required-Built sha256 i rp (lookup i.risk_class rp.body.required_evidence_by_risk)
          (rw (good, plan_valid, fine) at h)
  ]
]

-- Trigger 1 or 7, read off the input.
abbrev pub uncertain : CandidateInput → LadderOverrides → Bool
uncertain i o =
    lt_int (effective_selection_confidence i.selection_confidence) o.min_selection_confidence

abbrev is_explicit : String → Bool
is_explicit t = (t == "uncertainty_gt_0.02") || (t == "explicit_override")

passes :
    (b : Bool) (t : String) (rest : List String)
    → is_explicit t ≡ false
    → explicit_uncertainty_fallback (fired b t rest) ≡ explicit_uncertainty_fallback rest
unfolding explicit_uncertainty_fallback
passes true t rest h = ground arith
passes false t rest h = refl

-- Of the seven triggers the first and the last are explicit.
first_or_last :
    (b1 b2 b3 b4 b5 b6 b7 : Bool)
    → explicit_uncertainty_fallback (
        fired b1 "uncertainty_gt_0.02" (
          fired b2 "sparse_history_lt_20" (
            fired b3 "protected_paths" (
              fired b4 "flake_signal_or_quarantine_14d" (
                fired b5 "conflicting_composition"
                  (fired b6 "ambiguous_failure_after_retry" (fired b7 "explicit_override" [])))))))
      ≡ (b1 || b7)
unfolding explicit_uncertainty_fallback
first_or_last true b2 b3 b4 b5 b6 b7 = refl
first_or_last false b2 b3 b4 b5 b6 b7 =
    passes b2 "sparse_history_lt_20" _ refl
    ∙ passes b3 "protected_paths" _ refl
    ∙ passes b4 "flake_signal_or_quarantine_14d" _ refl
    ∙ passes b5 "conflicting_composition" _ refl
    ∙ passes b6 "ambiguous_failure_after_retry" _ refl
    ∙ last b7
  where
    last : (b : Bool) → explicit_uncertainty_fallback (fired b "explicit_override" []) ≡ b
    last true = refl
    last false = refl

pub explicit_lem :
    (i : CandidateInput) (o : LadderOverrides)
    → explicit_uncertainty_fallback (evaluate_fallbacks i o)
      ≡ (uncertain i o || i.explicit_full_suite_override)
unfolding evaluate_fallbacks
explicit_lem i o = first_or_last (uncertain i o) _ _ _ _ _ i.explicit_full_suite_override

-- Without a tier that has no test, the numbers of the ladder.
abbrev pub ladder : Bool → Bool → List ℕ
ladder third fourth =
    0 ∷ 1 ∷ 2 ∷ ((if third then 3 ∷ [] else []) ++ (if fourth then 4 ∷ [] else []))

abbrev pub number : TierPlan → ℕ
number t = t.tier

numbers_lem :
    (i : CandidateInput) (o : LadderOverrides) (required triggers : List String)
    → map number (tiers_of i o required triggers)
      ≡ ladder
          (contains o.tier3_risk_classes i.risk_class || explicit_uncertainty_fallback triggers)
          (i.composing_integration_set || i.explicit_full_suite_override)
unfolding tiers_of
numbers_lem i o required triggers = ground arith

-- The tiers of a plan are 0, 1 and 2, then 3 exactly if the policy gives it to the risk class, the
-- selection confidence is below the policy's bound or the full suite is forced, then 4 exactly if an
-- integration set is composed or the full suite is forced, in ascending order and once each.
pub plan-ladder :
    (sha256 : String → String) (i : CandidateInput) (rp : ResolvedPolicy) {p : ValidationPlan}
    → plan sha256 i rp ≡ ok p
    → map number p.tiers
      ≡ ladder
          (contains rp.body.ladder_overrides.tier3_risk_classes i.risk_class
            || (uncertain i rp.body.ladder_overrides || i.explicit_full_suite_override))
          (i.composing_integration_set || i.explicit_full_suite_override)
unfolding build_plan
plan-ladder sha256 i rp h =
    let o = rp.body.ladder_overrides in
    let b = plan-Built sha256 i rp h in
    ap (λ (p : ValidationPlan). map number p.tiers) b.built
    ∙ numbers_lem i o b.required (evaluate_fallbacks i o)
    ∙ ap
        (λ e.
          ladder (contains o.tier3_risk_classes i.risk_class || e)
            (i.composing_integration_set || i.explicit_full_suite_override))
        (explicit_lem i o)
