-- ===== src/Evidence/Engine.antt =====
-- services/control-plane/internal/evidence/engine_evaluator.go: the adapter to the domain's port.
use cisync.Prelude.{
  ◌≡◌, refl, ℕ, Bool, true, false, not, Option, none, some, ◌==◌, string_eq, nat_eq, if◌then◌else◌,
  arith, Bool-cases, inl, inr, nat_beq_iff,
}
use cisync.Domain.EvidenceRecord.{EvidenceRecord}
use cisync.Domain.Run.{RunState}
use cisync.Evidence.Evaluate.{
  Action, accept, reject, quarantine, Reason, ProposedRecord, Context, evaluate, verdict_pass,
  outcome_passed, outcome_failed,
}
use cisync.Evidence.Evaluate.Checks.{Admissible}
use cisync.Evidence.Evaluate.Laws.{accepted_only}

-- A nil record is `none`.
pub record ProposedEvidence : Type 0 where
  pub evidence : Option EvidenceRecord
  pub run_state : RunState
  pub fence_token : ℕ
  pub current_fence : ℕ

pub data OutcomeReason : Type 0 where
  no_reason fence_mismatch : OutcomeReason
  ruled : Reason → OutcomeReason

pub record EvidenceOutcome : Type 0 where
  pub accepted : Bool
  pub reason : OutcomeReason

pub data EngineError : Type 0 where
  nil_record no_resolver resolver_failed : EngineError

pub data Answer : Type 0 where
  outcome : EvidenceOutcome → Answer
  error : EngineError → Answer

-- A resolver answers the context, or fails; no resolver is `none`.
abbrev pub Expectations : Type 0
Expectations = EvidenceRecord → Option Context

unfoldable pub proposal_from_domain : EvidenceRecord → ProposedRecord
proposal_from_domain rec = record {
  id = rec.id;
  run_id = rec.run_id;
  candidate_id = rec.candidate_id;
  kind = rec.kind;
  verdict = rec.verdict;
  outcome = if rec.verdict == verdict_pass then outcome_passed else outcome_failed;
  results = none;
  digests = rec.digests;
  inputs_hash = rec.inputs_hash;
  lease_jti = rec.produced_by_lease;
  attempt = rec.attempt;
}

abbrev pub is_accept : Action → Bool
is_accept accept = true
is_accept reject = false
is_accept quarantine = false

abbrev reason_of : Option Reason → OutcomeReason
reason_of none = no_reason
reason_of (some r) = ruled r

unfoldable pub rule : EvidenceRecord → Option Context → Answer
unfolding proposal_from_domain
rule rec none = error resolver_failed
rule rec (some ctx) =
    let ruling = evaluate (proposal_from_domain rec) ctx in
    outcome (record { accepted = is_accept ruling.action; reason = reason_of ruling.reason })

unfoldable pub answer_record : Option Expectations → ℕ → ℕ → EvidenceRecord → Answer
unfolding rule
answer_record resolve fence current rec =
    if not (fence == current)
    then outcome (record { accepted = false; reason = fence_mismatch })
    else elim resolve [ none ↦ error no_resolver | some f ↦ rule rec (f rec) ]

unfoldable pub engine_evaluate : Option Expectations → ProposedEvidence → Answer
unfolding answer_record
engine_evaluate resolve ev = elim ev.evidence [
  | none ↦ error nil_record
  | some rec ↦ answer_record resolve ev.fence_token ev.current_fence rec
]

abbrev pub accepts : Answer → Bool
accepts (outcome o) = o.accepted
accepts (error e) = false

rule-accepts :
    (rec : EvidenceRecord) (c : Option Context)
    → accepts (rule rec c) ≡ true
    → (ctx : Context) × (c ≡ some ctx) × Admissible (proposal_from_domain rec) ctx
unfolding rule
rule-accepts rec none h = absurd (ground arith)
rule-accepts rec (some ctx) h = (
  ctx,
  refl,
  accepted_only (proposal_from_domain rec) ctx
      (accepting (evaluate (proposal_from_domain rec) ctx).action h),
)
  where
    accepting : (a : Action) → is_accept a ≡ true → a ≡ accept
    accepting accept p = refl
    accepting reject p = absurd (ground arith)
    accepting quarantine p = absurd (ground arith)

-- The port accepts an evidence record only under the current fence token of its run, and only if the
-- resolver answers a context for which the record's proposal is admissible.
pub engine_accepts :
    (f : Expectations) (rec : EvidenceRecord) (s : RunState) (fence current : ℕ)
    → accepts (
        engine_evaluate (some f) (record {
          evidence = some rec;
          run_state = s;
          fence_token = fence;
          current_fence = current;
        }))
      ≡ true
    → (fence ≡ current)
      × ((ctx : Context) × (f rec ≡ some ctx) × Admissible (proposal_from_domain rec) ctx)
unfolding engine_evaluate answer_record
engine_accepts f rec s fence current h = elim (Bool-cases (fence == current)) [
  | inl same ↦ ((nat_beq_iff fence current).0 same, rule-accepts rec (f rec) (ground arith))
  | inr n ↦ absurd (ground arith)
]
