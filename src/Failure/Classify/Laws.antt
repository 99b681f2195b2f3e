-- ===== src/Failure/Classify/Laws.antt =====
-- `Classify` of failure/classify.go: the first rule that matches decides.
use mathlib.Core.List.{append-nil, append_assoc}
use cisync.Prelude.{
  ◌≡◌, refl, sym, ap, ◌∙◌, String, Bool, true, false, not, List, [], ◌∷◌, ◌++◌, Bool-cases, inl,
  inr, arith, ◌==◌, string_eq, if◌then◌else◌, every, &&-true, subst,
}
use cisync.Prelude.Int.{ℤ}
use cisync.Policy.Document.{float}
use cisync.Failure.Classify.{
  Patterns, Rule, rules, Context, FailureCase, State, start, ruling, take_rule, rule_loop, conclude,
  classify, signature_digest,
}

-- The rules that match, in their order.
abbrev pub fired : Patterns → String → List Rule → List Rule
fired p log_text [] = []
fired p log_text (r ∷ rs) =
    if p.matches r.id log_text then r ∷ fired p log_text rs else fired p log_text rs

abbrev pub ids : List Rule → List String
ids [] = []
ids (r ∷ rs) = r.id ∷ ids rs

-- The case follows the first of these rules.
abbrev pub Follows : Patterns → String → Context → FailureCase → List Rule → Type 0
Follows p log_text ctx fc [] =
    (fc.rule_id ≡ "unclassified_fallback")
    × (fc.classification ≡ "functional_regression")
    × (fc.classification_confidence ≡ float 5_404_319_552_844_595 54)
Follows p log_text ctx fc (r ∷ rs) =
    (fc.rule_id ≡ r.id)
    × (fc.classification ≡ (ruling p fc.signature_digest log_text ctx r).0)
    × (fc.classification_confidence ≡ (ruling p fc.signature_digest log_text ctx r).1)

module _ (p : Patterns) (digest log_text : String) (ctx : Context) where
  take_rule-decided :
      (r : Rule) (signals : List String) (verdict : String × ℤ) (decisive : String)
      → take_rule p digest log_text ctx r
          (record { signals = signals; verdict = verdict; decisive = decisive; matched_any = true })
        ≡ record {
          signals = signals ++ (r.id ∷ []);
          verdict = verdict;
          decisive = decisive;
          matched_any = true;
        }
  unfolding take_rule
  take_rule-decided r signals verdict decisive = elim (Bool-cases (decisive == "")) [
    | inl e ↦ rw e refl
    | inr e ↦ rw e refl
  ]

  rule_loop-decided :
      (rs : List Rule) (signals : List String) (verdict : String × ℤ) (decisive : String)
      → rule_loop p digest log_text ctx rs
          (record { signals = signals; verdict = verdict; decisive = decisive; matched_any = true })
        ≡ record {
          signals = signals ++ ids (fired p log_text rs);
          verdict = verdict;
          decisive = decisive;
          matched_any = true;
        }
  unfolding rule_loop take_rule
  rule_loop-decided [] signals verdict decisive =
      ap (λ s. record { signals = s; verdict = verdict; decisive = decisive; matched_any = true })
        (sym (append-nil signals))
  rule_loop-decided (r ∷ rs) signals verdict decisive =
      elim (Bool-cases (p.matches r.id log_text)) [
        | inl e ↦ rw e (
            ap (rule_loop p digest log_text ctx rs) (take_rule-decided r signals verdict decisive)
            ∙ rule_loop-decided rs (signals ++ (r.id ∷ [])) verdict decisive
            ∙ ap
                (λ s. record {
                  signals = s;
                  verdict = verdict;
                  decisive = decisive;
                  matched_any = true;
                })
                (append_assoc signals (r.id ∷ []) (ids (fired p log_text rs))))
        | inr e ↦ rw e (rule_loop-decided rs signals verdict decisive)
      ]

  -- The state behind the loop, by the rules that match.
  abbrev after : List Rule → State
  after [] = start
  after (r ∷ rs) = record {
    signals = ids (r ∷ rs);
    verdict = ruling p digest log_text ctx r;
    decisive = r.id;
    matched_any = true;
  }

  rule_loop_lem :
      (rs : List Rule) → rule_loop p digest log_text ctx rs start ≡ after (fired p log_text rs)
  unfolding rule_loop take_rule
  rule_loop_lem [] = refl
  rule_loop_lem (r ∷ rs) = elim (Bool-cases (p.matches r.id log_text)) [
    | inl e ↦ rw e (rule_loop-decided rs (r.id ∷ []) (ruling p digest log_text ctx r) r.id)
    | inr e ↦ rw e (rule_loop_lem rs)
  ]

  conclude-Follows :
      (rs : List Rule)
      → every (λ r. not (r.id == "")) rs ≡ true
      → ((conclude p digest log_text (after rs)).causal_signals ≡ ids rs)
        × Follows p log_text ctx (conclude p digest log_text (after rs)) rs
  unfolding conclude
  conclude-Follows [] h = (refl, (refl, refl, refl))
  conclude-Follows (r ∷ rs) h =
      let named : (r.id == "") ≡ false = ground arith in rw named (refl, (refl, refl, refl))

every-fired :
    (q : Rule → Bool) (p : Patterns) (log_text : String) (rs : List Rule)
    → every q rs ≡ true
    → every q (fired p log_text rs) ≡ true
every-fired q p log_text [] h = refl
every-fired q p log_text (r ∷ rs) h =
    let (here, rest) = &&-true (q r) (every q rs) h in
    elim (Bool-cases (p.matches r.id log_text)) [
      | inl e ↦ rw (e, here) (every-fired q p log_text rs rest)
      | inr e ↦ rw e (every-fired q p log_text rs rest)
    ]

-- `Classify` names every rule that matches, in the order of the table, and decides by the first of
-- them; a log that none matches is a functional regression at confidence 0.30.
pub classify-Follows :
    (sha256 : String → String) (p : Patterns) (log_text : String) (ctx : Context)
    → ((classify sha256 p log_text ctx).causal_signals ≡ ids (fired p log_text rules))
      × Follows p log_text ctx (classify sha256 p log_text ctx) (fired p log_text rules)
unfolding classify conclude
classify-Follows sha256 p log_text ctx =
    let digest = signature_digest sha256 p log_text in
    subst
      (λ s.
        ((conclude p digest log_text s).causal_signals ≡ ids (fired p log_text rules))
        × Follows p log_text ctx (conclude p digest log_text s) (fired p log_text rules))
      (sym (rule_loop_lem p digest log_text ctx rules))
      (conclude-Follows p digest log_text ctx (fired p log_text rules)
        (every-fired (λ r. not (r.id == "")) p log_text rules refl))

-- A log that the rule for secrets and policies matches is a security violation, whatever else it shows.
pub security_first :
    (sha256 : String → String) (p : Patterns) (log_text : String) (ctx : Context)
    → p.matches "secret_or_policy_hit" log_text ≡ true
    → (classify sha256 p log_text ctx).classification ≡ "security_policy_violation"
unfolding ruling
security_first sha256 p log_text ctx h =
    let follows = (classify-Follows sha256 p log_text ctx).1 in (rw h at follows).1
