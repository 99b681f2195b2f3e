-- ===== src/Domain/EvidenceRecord/Laws.antt =====
-- The status and the stamps of an evidence record (domain/evidence_record.go).
use cisync.Prelude.{
  ◌≡◌, refl, Bool, true, false, not, List, [], ◌∷◌, String, arith, none, some, string_eq, every,
  ◌==◌, every-mem, is_some, ◌&&◌, ◌||◌,
}
use cisync.Domain.Common.{Time}
use cisync.Domain.Machine.{Result, ok, err, next_state, Error, TransitionRule}
use cisync.Domain.Machine.Laws.{moved-rule}
use cisync.Domain.EvidenceRecord.{
  EvidenceRecord, EvidenceStatus, evidence_status_eq, accepted, invalidated, terminal,
  evidence_transitions, conclude, apply, invalidate, stamp_reason,
}

pub data Op : Type 0 where
  trigger : String → Time → Op
  invalidation : String → Time → Op

unfoldable pub perform : EvidenceRecord → Op → EvidenceRecord
perform e (trigger t now) = (apply e t now).0
perform e (invalidation reason now) = (invalidate e reason now).0

unfoldable pub run : EvidenceRecord → List Op → EvidenceRecord
run e [] = e
run e (o ∷ os) = run (perform e o) os

-- The record has been accepted, whatever happened to it later.
abbrev pub was_accepted : EvidenceStatus → Bool
was_accepted accepted = true
was_accepted invalidated = true
was_accepted _ = false

abbrev pub IsStampedRight : EvidenceRecord → Type 0
IsStampedRight e = is_some e.accepted_at ≡ was_accepted e.status

-- Acceptance is the only way in; what was accepted stays so.
abbrev rule_right : String × TransitionRule EvidenceStatus → Bool
rule_right (t, r) =
    (not (t == "evidence.accepted") || was_accepted r.to)
    && ((t == "evidence.accepted" || (not (was_accepted r.to) || every was_accepted r.from))
        && (was_accepted r.to || every (λ s. not (was_accepted s)) r.from))

all_rules_right : every rule_right evidence_transitions ≡ true
unfolding evidence_transitions
all_rules_right = refl

-- How a trigger acts on the stamp and on the fact of acceptance.
apply_facts :
    (e : EvidenceRecord) (t : String) (now : Time)
    → IsStampedRight e
    → IsStampedRight (apply e t now).0
      × (was_accepted e.status ≡ true → was_accepted (apply e t now).0.status ≡ true)
unfolding apply
apply_facts e t now inv = go (next_state terminal evidence_transitions e.status t) refl
  where
    go :
        (o : Result EvidenceStatus)
        → next_state terminal evidence_transitions e.status t ≡ o
        → IsStampedRight (conclude e t o now).0
          × (was_accepted e.status ≡ true → was_accepted (conclude e t o now).0.status ≡ true)
    go (err x) p = (inv, λ h. h)
    go (ok s) p =
        let (r, right, m, to, live) =
          moved-rule terminal evidence_transitions rule_right e.status t all_rules_right p in
        let into : every was_accepted r.from ≡ true → was_accepted e.status ≡ true =
          λ h. every-mem was_accepted r.from h m in
        let out : every (λ s. not (was_accepted s)) r.from ≡ true
            → not (was_accepted e.status) ≡ true =
          λ h. every-mem (λ s. not (was_accepted s)) r.from h m in
        (ground arith, λ h. ground arith)

perform_facts :
    (e : EvidenceRecord) (o : Op)
    → IsStampedRight e
    → IsStampedRight (perform e o)
      × (was_accepted e.status ≡ true → was_accepted (perform e o).status ≡ true)
unfolding perform invalidate
perform_facts e (trigger t now) inv = apply_facts e t now inv
perform_facts e (invalidation reason now) inv =
    let (e', x) = apply e "evidence.invalidated" now in
    go e' x (apply_facts e "evidence.invalidated" now inv)
  where
    go :
        (e' : EvidenceRecord) (x : Error)
        → IsStampedRight e' × (was_accepted e.status ≡ true → was_accepted e'.status ≡ true)
        → IsStampedRight (stamp_reason (e', x) reason).0
          × (was_accepted e.status ≡ true
              → was_accepted (stamp_reason (e', x) reason).0.status ≡ true)
    go e' none h = h
    go e' (some x) h = h

-- Over any sequence of triggers and invalidations, `accepted_at` stays set exactly in the accepted
-- and invalidated statuses, if it was so at the start.
pub run-IsStampedRight :
    (e : EvidenceRecord) (os : List Op) → IsStampedRight e → IsStampedRight (run e os)
unfolding run
run-IsStampedRight e [] inv = inv
run-IsStampedRight e (o ∷ os) inv = run-IsStampedRight (perform e o) os (perform_facts e o inv).0

-- A record that has been accepted is never proposed or rejected again, by any sequence of triggers
-- and invalidations, if its `accepted_at` was right at the start.
pub run_accepted :
    (e : EvidenceRecord) (os : List Op)
    → IsStampedRight e
    → was_accepted e.status ≡ true
    → was_accepted (run e os).status ≡ true
unfolding run
run_accepted e [] inv h = h
run_accepted e (o ∷ os) inv h =
    let (inv', keep) = perform_facts e o inv in run_accepted (perform e o) os inv' (keep h)
