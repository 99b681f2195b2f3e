-- ===== src/Planner/Plan/Suites.antt =====
-- The selective and the full suites in the tiers of planner/plan.go.
use cisync.Prelude.{
  ◌≡◌, refl, sym, inl, inr, String, Bool, true, false, ◌||◌, List, [], ◌∷◌, All, All-append,
  Bool-cases, string_eq, ◌==◌, contains, subst,
}
use cisync.Prelude.Int.{ℤ}
use cisync.Policy.Document.{ResolvedPolicy, LadderOverrides}
use cisync.Planner.Ladder.{
  CandidateInput, evaluate_fallbacks, is_some_list, effective_selection_confidence, required_jobs,
  widen_tier2, spec_names, explicit_uncertainty_fallback, tier3_rationale, tier4_rationale,
}
use cisync.Planner.Tiers.{tier0_jobs, tier3_jobs, tier4_jobs}
use cisync.Planner.Plan.{
  TierPlan, ValidationPlan, ok, plan, build_plan, tiers_of, tier1_part, tier2_part, tier3_part,
  tier4_part, tier_plan,
}
use cisync.Planner.Plan.Laws.{plan-Built}

abbrev pub Without : String → TierPlan → Type 0
Without name t = contains t.jobs name ≡ false

-- Widened tiers run no selective suite, the others no full one.
abbrev pub Suits : Bool → TierPlan → Type 0
Suits true t = Without "selected_unit_tests" t × Without "impacted_integration_tests" t
Suits false t = Without "full_unit_suite" t × Without "full_integration_suite" t

-- The jobs that the required kinds add are no suites.
required_plain :
    (name : String) (required : List String)
    → ("payment_contract_check" == name) ≡ false
    → ("idempotency_race_probe" == name) ≡ false
    → contains (spec_names (required_jobs required)) name ≡ false
unfolding required_jobs
required_plain name [] h k = refl
required_plain name (r ∷ required) h k = elim (Bool-cases (r == "payment_contract")) [
  | inl paid ↦ rw (paid, h, contains) (required_plain name required h k)
  | inr unpaid ↦ elim (Bool-cases (r == "idempotency_race")) [
    | inl race ↦ rw (unpaid, race, k, contains) (required_plain name required h k)
    | inr other ↦ rw (unpaid, other) (required_plain name required h k)
  ]
]

widened_plain :
    (name : String) (required : List String)
    → ("payment_contract_check" == name) ≡ false
    → ("idempotency_race_probe" == name) ≡ false
    → contains (spec_names (widen_tier2 (required_jobs required))) name ≡ false
unfolding required_jobs widen_tier2
widened_plain name [] h k = refl
widened_plain name (r ∷ required) h k = elim (Bool-cases (r == "payment_contract")) [
  | inl paid ↦ rw (paid, h, contains) (widened_plain name required h k)
  | inr unpaid ↦ elim (Bool-cases (r == "idempotency_race")) [
    | inl race ↦ rw (unpaid, race, k, contains) (widened_plain name required h k)
    | inr other ↦ rw (unpaid, other) (widened_plain name required h k)
  ]
]

tier1_part-Suits :
    (conf : ℤ) (triggers : List String) → Suits (is_some_list triggers) (tier1_part conf triggers)
unfolding tier1_part
tier1_part-Suits conf [] = (refl, refl)
tier1_part-Suits conf (t ∷ triggers) = (refl, refl)

tier2_part-Suits :
    (conf : ℤ) (required triggers : List String)
    → Suits (is_some_list triggers) (tier2_part conf required triggers)
unfolding tier2_part
tier2_part-Suits conf required [] = (
  required_plain "full_unit_suite" required refl refl,
  required_plain "full_integration_suite" required refl refl,
)
tier2_part-Suits conf required (t ∷ triggers) = (
  widened_plain "selected_unit_tests" required refl refl,
  widened_plain "impacted_integration_tests" required refl refl,
)

tier3_part-Suits :
    (i : CandidateInput) (o : LadderOverrides) (triggers : List String) (b : Bool)
    → All (Suits b) (tier3_part i o triggers)
unfolding tier3_part
tier3_part-Suits i o triggers b =
    elim (Bool-cases
      (contains o.tier3_risk_classes i.risk_class || explicit_uncertainty_fallback triggers)) [
        | inl in_ladder ↦ rw in_ladder (by_flag b)
        | inr left_out ↦ rw left_out tt
      ]
  where
    by_flag :
        (f : Bool)
        → All (Suits f) (tier_plan 3 (spec_names tier3_jobs) (tier3_rationale i o triggers) ∷ [])
    by_flag true = ((refl, refl), tt)
    by_flag false = ((refl, refl), tt)

tier4_part-Suits :
    (i : CandidateInput) (triggers : List String) (b : Bool) → All (Suits b) (tier4_part i triggers)
unfolding tier4_part
tier4_part-Suits i triggers b =
    elim (Bool-cases (i.composing_integration_set || i.explicit_full_suite_override)) [
      | inl in_ladder ↦ rw in_ladder (by_flag b)
      | inr left_out ↦ rw left_out tt
    ]
  where
    by_flag :
        (f : Bool)
        → All (Suits f) (tier_plan 4 (spec_names tier4_jobs) (tier4_rationale i triggers) ∷ [])
    by_flag true = ((refl, refl), tt)
    by_flag false = ((refl, refl), tt)

admission-Suits : (b : Bool) → Suits b (tier_plan 0 (spec_names tier0_jobs) "admission_gate")
unfolding tier0_jobs tier_plan
admission-Suits true = (refl, refl)
admission-Suits false = (refl, refl)

-- If any fallback trigger fired, no tier of the plan runs a selective suite; if none did, no tier
-- runs a full one.
pub plan_suites :
    (sha256 : String → String) (i : CandidateInput) (rp : ResolvedPolicy) {p : ValidationPlan}
    → plan sha256 i rp ≡ ok p
    → All (Suits (is_some_list p.fallback_triggers)) p.tiers
unfolding build_plan tiers_of
plan_suites sha256 i rp h =
    let o = rp.body.ladder_overrides in
    let triggers = evaluate_fallbacks i o in
    let conf = effective_selection_confidence i.selection_confidence in
    let b = plan-Built sha256 i rp h in
    subst (λ (p : ValidationPlan). All (Suits (is_some_list p.fallback_triggers)) p.tiers)
      (sym b.built)
      (
        admission-Suits (is_some_list triggers),
        (
          tier1_part-Suits conf triggers,
          (
            tier2_part-Suits conf b.required triggers,
            All-append (Suits (is_some_list triggers)) (tier3_part i o triggers)
                (tier4_part i triggers) (tier3_part-Suits i o triggers (is_some_list triggers))
                (tier4_part-Suits i triggers (is_some_list triggers)),
          ),
        ),
      )
