-- ===== src/Domain/EvidenceRecord.antt =====
-- services/control-plane/internal/domain/evidence_record.go: the record's status and invalidation.
pub mod Laws
use cisync.Prelude.{
  Bool, true, false, Option, none, some, List, [], ◌∷◌, ◌&&◌, String, Eq, string_eq, ◌==◌,
  eq_of_discrete, if◌then◌else◌, ℕ,
}
use cisync.Prelude.Int.{ℤ}
use cisync.Domain.Common.{Time, FloatBits}
use cisync.Domain.Machine.{Error, rule, Table, Result, ok, err, next_state}

pub data EvidenceStatus : Type 0 where
  proposed accepted rejected invalidated : EvidenceStatus

abbrev pub EvidenceStatus-discrete : Discrete EvidenceStatus
EvidenceStatus-discrete = hlevel

instance abbrev pub evidence_status_eq : Eq EvidenceStatus
evidence_status_eq = eq_of_discrete EvidenceStatus-discrete

pub record EvidenceRecord : Type 0 where
  pub id : String
  pub tenant_id : String
  pub run_id : String
  pub attempt : ℤ
  pub candidate_id : String
  pub kind : String
  pub verdict : String
  pub status : EvidenceStatus
  pub digests : List String
  pub inputs_hash : String
  pub confidence : FloatBits
  pub cost_millicents : ℤ
  pub produced_by_lease : String
  pub accepted_at : Option Time
  pub invalidated_reason : String
  pub created_at : Time

unfoldable pub new_evidence_record :
    String
    → String
    → String
    → ℤ
    → String
    → String
    → String
    → List String
    → String
    → FloatBits
    → ℤ
    → String
    → Time
    → EvidenceRecord
new_evidence_record id tenant_id run_id attempt candidate_id kind verdict digests inputs_hash
      confidence cost lease_id now =
    record {
      id = id;
      tenant_id = tenant_id;
      run_id = run_id;
      attempt = attempt;
      candidate_id = candidate_id;
      kind = kind;
      verdict = verdict;
      status = proposed;
      digests = digests;
      inputs_hash = inputs_hash;
      confidence = confidence;
      cost_millicents = cost;
      produced_by_lease = lease_id;
      accepted_at = none;
      invalidated_reason = "";
      created_at = now;
    }

unfoldable pub terminal : EvidenceStatus → Bool
terminal rejected = true
terminal invalidated = true
terminal _ = false

unfoldable pub evidence_transitions : Table EvidenceStatus
evidence_transitions =
    ("evidence.accepted", rule (proposed ∷ []) accepted)
    ∷ ("evidence.rejected", rule (proposed ∷ []) rejected)
    ∷ ("evidence.invalidated", rule (accepted ∷ []) invalidated)
    ∷ []

unfoldable pub conclude :
    EvidenceRecord → String → Result EvidenceStatus → Time → EvidenceRecord × Error
conclude e trigger (err x) now = (e, some x)
conclude e trigger (ok s) now = (
  record e {
    accepted_at = if trigger == "evidence.accepted" then some now else e.accepted_at;
    invalidated_reason =
        if trigger == "evidence.invalidated" && e.invalidated_reason == ""
        then "unspecified"
        else e.invalidated_reason;
    status = s;
  },
  none,
)

unfoldable pub apply : EvidenceRecord → String → Time → EvidenceRecord × Error
unfolding conclude
apply e trigger now =
    conclude e trigger (next_state terminal evidence_transitions e.status trigger) now

unfoldable pub stamp_reason : EvidenceRecord × Error → String → EvidenceRecord × Error
stamp_reason (e, some x) reason = (e, some x)
stamp_reason (e, none) reason = (record e { invalidated_reason = reason }, none)

unfoldable pub invalidate : EvidenceRecord → String → Time → EvidenceRecord × Error
unfolding apply stamp_reason
invalidate e reason now = stamp_reason (apply e "evidence.invalidated" now) reason
