-- ===== src/Domain/FailureCase/Laws.antt =====
-- The classification of a failure case (domain/failure_case.go).
use cisync.Prelude.{
  ◌≡◌, ◌≢◌, refl, ◌∙◌, Bool, true, not, List, [], ◌∷◌, String, arith, none, some, string_eq, every,
  ◌⊎◌, inl, inr, ◌==◌,
}
use cisync.Domain.Common.{FloatBits}
use cisync.Domain.Machine.{
  Result, ok, err, next_state, DomainError, TransitionRule, post_terminal, illegal_transition,
}
use cisync.Domain.Machine.Laws.{moved-rule}
use cisync.Domain.FailureCase.{
  FailureCase, FailureState, Classification, failure_state_eq, FailureState-discrete, open_case,
  classified, closed, terminal, failure_transitions, conclude, apply, classify, route_for_class,
}

pub data Op : Type 0 where
  trigger : String → Op
  classification : Classification → FloatBits → Op

unfoldable pub perform : FailureCase → Op → FailureCase
perform f (trigger t) = (apply f t).0
perform f (classification c confidence) = (classify f c confidence).0

unfoldable pub run : FailureCase → List Op → FailureCase
run f [] = f
run f (o ∷ os) = run (perform f o) os

next_classified :
    (s : FailureState)
    → s ≢ open_case
    → (e : DomainError) × (next_state terminal failure_transitions s "failure.classified" ≡ err e)
unfolding next_state terminal failure_transitions
next_classified open_case h = absurd (h refl)
next_classified closed h = (post_terminal, refl)
next_classified _ h = (illegal_transition, refl)

next_open :
    (s : FailureState)
    → s ≡ open_case
    → next_state terminal failure_transitions s "failure.classified" ≡ ok classified
unfolding next_state terminal failure_transitions
next_open open_case h = refl
next_open _ h = absurd (ground arith)

-- `Classify` on an open case records the class, its confidence and the class's route; on any other
-- case it returns an error and changes nothing.
pub classify_cases :
    (f : FailureCase) (c : Classification) (confidence : FloatBits)
    → ((f.state ≡ open_case)
        × (classify f c confidence ≡ (
          record f {
            state = classified;
            classification = some c;
            classification_confidence = confidence;
            routed_action = route_for_class c;
          },
          none,
        )))
      ⊎ ((f.state ≢ open_case) × ((e : DomainError) × (classify f c confidence ≡ (f, some e))))
unfolding classify
classify_cases f c confidence = elim (FailureState-discrete f.state open_case) [
  | yes p ↦ inl (p, rw (next_open f.state p) refl)
  | no n ↦ let (e, q) = next_classified f.state n in inr (n, (e, rw q refl))
]

abbrev never_reopens : String × TransitionRule FailureState → Bool
never_reopens (t, r) = not (r.to == open_case)

none_reopens : every never_reopens failure_transitions ≡ true
unfolding failure_transitions
none_reopens = refl

-- The part that a classification writes.
abbrev pub Keeps : FailureCase → FailureCase → Type 0
Keeps f g =
    (g.classification ≡ f.classification)
    × (g.classification_confidence ≡ f.classification_confidence)
    × (g.routed_action ≡ f.routed_action)
    × (g.state ≢ open_case)

apply-Keeps : (f : FailureCase) (t : String) → f.state ≢ open_case → Keeps f (apply f t).0
unfolding apply
apply-Keeps f t shut = go (next_state terminal failure_transitions f.state t) refl
  where
    go :
        (o : Result FailureState)
        → next_state terminal failure_transitions f.state t ≡ o
        → Keeps f (conclude f o).0
    go (err e) p = (refl, refl, refl, shut)
    go (ok s) p =
        let (r, right, m, to, live) =
          moved-rule terminal failure_transitions never_reopens f.state t none_reopens p in
        (refl, refl, refl, λ h. ground arith)

perform-Keeps : (f : FailureCase) (o : Op) → f.state ≢ open_case → Keeps f (perform f o)
unfolding perform
perform-Keeps f (trigger t) shut = apply-Keeps f t shut
perform-Keeps f (classification c confidence) shut = elim (classify_cases f c confidence) [
  | inl (p, q) ↦ absurd (shut p)
  | inr (n, (e, q)) ↦ rw (q, perform) (refl, refl, refl, shut)
]

-- The classification, its confidence and its route are immutable: once the case is not open, no
-- sequence of triggers and further classifications changes them or opens it again.
pub run-Keeps : (f : FailureCase) (os : List Op) → f.state ≢ open_case → Keeps f (run f os)
unfolding run
run-Keeps f [] shut = (refl, refl, refl, shut)
run-Keeps f (o ∷ os) shut =
    let (c, d, a, n) = perform-Keeps f o shut in
    let (c', d', a', n') = run-Keeps (perform f o) os n in (c' ∙ c, d' ∙ d, a' ∙ a, n')
