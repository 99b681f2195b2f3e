-- ===== src/Planner/Plan/Rationales.antt =====
-- The rationales of the tiers in planner/plan.go.
use Prim.Native.String.{◌++◌ as ◌++ₛ◌, [] as empty, ◌∷◌ as ◌∷ₛ◌}
use Prim.Native.String.append as Append
use cisync.Prelude.{
  ◌≡◌, ◌≢◌, refl, sym, inl, inr, ◌⊎◌, String, Bool, true, false, ◌||◌, List, [], ◌∷◌, ◌++◌, map,
  All, All-append, Bool-cases, arith, string_eq, contains, subst,
}
use cisync.Prelude.Int.{ℤ}
use cisync.Policy.Document.{ResolvedPolicy, LadderOverrides}
use cisync.Planner.Ladder.{
  CandidateInput, evaluate_fallbacks, join_fallback_rationale, explicit_uncertainty_fallback,
  tier3_rationale, tier4_rationale, is_some_list, join_comma, join_from, fallback_of,
  uncertainty_part, override_part, effective_selection_confidence,
}
use cisync.Planner.Plan.{
  TierPlan, ValidationPlan, ok, plan, build_plan, tiers_of, tier1_part, tier2_part, tier3_part,
  tier4_part,
}
use cisync.Planner.Plan.Laws.{plan-Built, explicit_lem, uncertain}

-- Appending one non-empty text leaves no empty one.
text-append : (s t : String) → s ≢ "" → (s ++ₛ t) ≢ ""
text-append empty t h = absurd (h refl)
text-append (c ∷ₛ s) t h =
    let e : ((c ∷ₛ s) ++ₛ t) ≡ (c ∷ₛ (s ++ₛ t)) = λ i. Append.cons c s t i in λ k. absurd (cc)

join_from-text : (out : String) (parts : List String) → out ≢ "" → join_from out parts ≢ ""
unfolding join_from
join_from-text out [] h = h
join_from-text out (p ∷ parts) h =
    join_from-text (out ++ₛ "," ++ₛ p) parts (text-append out ("," ++ₛ p) h)

join_comma-text : (p : String) (parts : List String) → p ≢ "" → join_comma (p ∷ parts) ≢ ""
unfolding join_comma
join_comma-text p parts h = join_from-text p parts h

fallback-text :
    (triggers : List String) → is_some_list triggers ≡ true → join_fallback_rationale triggers ≢ ""
unfolding join_fallback_rationale
fallback-text [] h = absurd (cc)
fallback-text (t ∷ triggers) h =
    join_comma-text (fallback_of t) (map fallback_of triggers)
      (text-append "fallback:" t (λ e. absurd (cc)))

-- A tier with a rationale that is not empty.
abbrev pub IsExplained : TierPlan → Type 0
IsExplained t = t.rationale ≢ ""

tier1_part-IsExplained :
    (conf : ℤ) (triggers : List String) → IsExplained (tier1_part conf triggers)
unfolding tier1_part
tier1_part-IsExplained conf triggers = elim (Bool-cases (is_some_list triggers)) [
  | inl some_fired ↦ rw some_fired (fallback-text triggers some_fired)
  | inr none_fired ↦ rw none_fired (λ e. absurd (cc))
]

tier2_part-IsExplained :
    (conf : ℤ) (required triggers : List String) → IsExplained (tier2_part conf required triggers)
unfolding tier2_part
tier2_part-IsExplained conf required triggers = elim (Bool-cases (is_some_list triggers)) [
  | inl some_fired ↦ rw some_fired (fallback-text triggers some_fired)
  | inr none_fired ↦ rw none_fired (λ e. absurd (cc))
]

-- An uncertain selection fires the first trigger.
uncertain_fires :
    (i : CandidateInput) (o : LadderOverrides)
    → uncertain i o ≡ true
    → (contains (evaluate_fallbacks i o) "uncertainty_gt_0.02" ≡ true)
      × (is_some_list (evaluate_fallbacks i o) ≡ true)
unfolding evaluate_fallbacks
uncertain_fires i o h = rw h (refl, refl)

parts-text :
    (forced has : Bool) (triggers : List String)
    → (forced ≡ true) ⊎ ((has ≡ true) × (is_some_list triggers ≡ true))
    → join_comma (override_part forced ++ uncertainty_part has triggers) ≢ ""
parts-text true has triggers h =
    join_comma-text "explicit_override" (uncertainty_part has triggers) (λ e. absurd (cc))
parts-text false has triggers (inl h) = absurd (cc)
parts-text false false triggers (inr h) = absurd (cc h.0)
parts-text false true triggers (inr h) =
    join_comma-text (join_fallback_rationale triggers) [] (fallback-text triggers h.1)

forced_or_unsure :
    (i : CandidateInput) (o : LadderOverrides)
    → explicit_uncertainty_fallback (evaluate_fallbacks i o) ≡ true
    → (i.explicit_full_suite_override ≡ true)
      ⊎ ((contains (evaluate_fallbacks i o) "uncertainty_gt_0.02" ≡ true)
          × (is_some_list (evaluate_fallbacks i o) ≡ true))
forced_or_unsure i o h = elim (Bool-cases i.explicit_full_suite_override) [
  | inl forced ↦ inl forced
  | inr free ↦ inr (uncertain_fires i o (ground (arith, explicit_lem i o)))
]

tier3_rationale-text :
    (i : CandidateInput) (o : LadderOverrides)
    → (contains o.tier3_risk_classes i.risk_class
        || explicit_uncertainty_fallback (evaluate_fallbacks i o))
      ≡ true
    → tier3_rationale i o (evaluate_fallbacks i o) ≢ ""
unfolding tier3_rationale
tier3_rationale-text i o h = elim (Bool-cases (contains o.tier3_risk_classes i.risk_class)) [
  | inl risky ↦ rw risky (λ e. absurd (cc))
  | inr not_risky ↦ rw not_risky (
      parts-text i.explicit_full_suite_override _ (evaluate_fallbacks i o)
        (forced_or_unsure i o (ground arith)))
]

tier4_rationale-text :
    (i : CandidateInput) (triggers : List String) → tier4_rationale i triggers ≢ ""
unfolding tier4_rationale
tier4_rationale-text i triggers = elim (Bool-cases i.composing_integration_set) [
  | inr alone ↦ rw alone (λ e. absurd (cc))
  | inl composing ↦ rw composing (elim (Bool-cases (is_some_list triggers)) [
    | inr none_fired ↦ rw none_fired (λ e. absurd (cc))
    | inl some_fired ↦ rw some_fired (
        join_comma-text "composition_validation" (join_fallback_rationale triggers ∷ [])
          (λ e. absurd (cc)))
  ])
]

tier3_part-IsExplained :
    (i : CandidateInput) (o : LadderOverrides)
    → All IsExplained (tier3_part i o (evaluate_fallbacks i o))
unfolding tier3_part
tier3_part-IsExplained i o =
    elim (Bool-cases (
      contains o.tier3_risk_classes i.risk_class
      || explicit_uncertainty_fallback (evaluate_fallbacks i o))) [
        | inl in_ladder ↦ rw in_ladder (tier3_rationale-text i o in_ladder, tt)
        | inr left_out ↦ rw left_out tt
      ]

tier4_part-IsExplained :
    (i : CandidateInput) (triggers : List String) → All IsExplained (tier4_part i triggers)
unfolding tier4_part
tier4_part-IsExplained i triggers =
    elim (Bool-cases (i.composing_integration_set || i.explicit_full_suite_override)) [
      | inl in_ladder ↦ rw in_ladder (tier4_rationale-text i triggers, tt)
      | inr left_out ↦ rw left_out tt
    ]

-- Every tier of a plan says why it is there: no rationale is empty.
pub plan-IsExplained :
    (sha256 : String → String) (i : CandidateInput) (rp : ResolvedPolicy) {p : ValidationPlan}
    → plan sha256 i rp ≡ ok p
    → All IsExplained p.tiers
unfolding build_plan tiers_of
plan-IsExplained sha256 i rp h =
    let o = rp.body.ladder_overrides in
    let triggers = evaluate_fallbacks i o in
    let b = plan-Built sha256 i rp h in
    subst (λ (p : ValidationPlan). All IsExplained p.tiers) (sym b.built)
      (
        (λ e. absurd (cc)),
        (
          tier1_part-IsExplained (effective_selection_confidence i.selection_confidence) triggers,
          (
            tier2_part-IsExplained (effective_selection_confidence i.selection_confidence)
                b.required triggers,
            All-append IsExplained (tier3_part i o triggers) (tier4_part i triggers)
                (tier3_part-IsExplained i o) (tier4_part-IsExplained i triggers),
          ),
        ),
      )
