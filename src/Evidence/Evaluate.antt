-- ===== src/Evidence/Evaluate.antt =====
-- services/control-plane/internal/evidence/evaluate.go and results.go: the ruling on a proposal.
pub mod Checks
pub mod Laws
use cisync.Prelude.{
  ◌≡◌, String, Bool, true, false, not, ◌&&◌, ◌||◌, Option, none, some, List, [], ◌∷◌, ◌==◌,
  string_eq, nat_eq, if◌then◌else◌, every,
}
use cisync.Prelude.Int.{ℤ, pos, lt_int, eq_int}
use cisync.Evidence.Census.{TestResults, executed, is_valid, is_positive}
use cisync.Evidence.Digests.{is_sha256, same_digest_set}

abbrev pub outcome_passed : String
outcome_passed = "passed"

abbrev pub outcome_failed : String
outcome_failed = "failed"

abbrev pub verdict_pass : String
verdict_pass = "pass"

abbrev pub verdict_fail : String
verdict_fail = "fail"

pub data Action : Type 0 where
  accept reject quarantine : Action

pub data Reason : Type 0 where
  malformed provenance_mismatch inputs_hash_mismatch duplicate_attempt lease_already_accepted
        skip_never_positive no_executed_tests verdict_unsupported digest_manifest_mismatch :
      Reason

pub record ProposedRecord : Type 0 where
  pub id : String
  pub run_id : String
  pub candidate_id : String
  pub kind : String
  pub verdict : String
  pub outcome : String
  pub results : Option TestResults
  pub digests : List String
  pub inputs_hash : String
  pub lease_jti : String
  pub attempt : ℤ

pub record AcceptedRef : Type 0 where
  pub run_id : String
  pub attempt : ℤ
  pub lease_jti : String

-- A nil manifest is `none`.
pub record Context : Type 0 where
  pub expected_lease_jti : String
  pub expected_inputs_hash : String
  pub expected_digests : Option (List String)
  pub accepted : List AcceptedRef

-- `meta` has the numbers that the source renders in decimal; nil is the empty list.
pub record Evaluation : Type 0 where
  pub action : Action
  pub reason : Option Reason
  pub meta : List (String × ℤ)

abbrev pub rejected : Reason → Evaluation
rejected r = record { action = reject; reason = some r; meta = [] }

unfoldable pub check_well_formed : ProposedRecord → Option Reason
check_well_formed p =
    if p.id == ""
      || (p.run_id == "" || (p.candidate_id == "" || (p.kind == "" || lt_int p.attempt (pos 1))))
    then some malformed
    else if not (p.verdict == verdict_pass) && not (p.verdict == verdict_fail)
    then some malformed
    else if not (every is_sha256 p.digests)
    then some malformed
    else if not (p.inputs_hash == "") && not (is_sha256 p.inputs_hash)
    then some malformed
    else none

-- `none` where the source answers true.
unfoldable pub check_census : ProposedRecord → TestResults → Option Reason
check_census p r =
    if not (is_valid r)
    then some malformed
    else if eq_int (executed r) (pos 0)
    then some (
        if is_positive r.skipped || is_positive r.quarantined
        then skip_never_positive
        else no_executed_tests)
    else if p.verdict == verdict_pass && is_positive r.failed
    then some verdict_unsupported
    else if p.verdict == verdict_fail && eq_int r.failed (pos 0)
    then some verdict_unsupported
    else none

unfoldable pub check_results : ProposedRecord → Option Reason
unfolding check_census
check_results p = elim p.results [ none ↦ none | some r ↦ check_census p r ]

unfoldable pub results_meta : ProposedRecord → List (String × ℤ)
results_meta p = elim p.results [
  | none ↦ []
  | some r ↦ if eq_int r.skipped (pos 0) then [] else ("skipped_as_non_evidence", r.skipped) ∷ []
]

-- The two loops over `ctx.Accepted`.
unfoldable pub has_attempt : ProposedRecord → List AcceptedRef → Bool
has_attempt p [] = false
has_attempt p (ref ∷ refs) =
    if ref.run_id == p.run_id && eq_int ref.attempt p.attempt then true else has_attempt p refs

unfoldable pub has_lease : ProposedRecord → List AcceptedRef → Bool
has_lease p [] = false
has_lease p (ref ∷ refs) =
    if not (p.lease_jti == "") && ref.lease_jti == p.lease_jti then true else has_lease p refs

-- The `switch` on the outcome.
unfoldable pub check_outcome : ProposedRecord → Option Reason
check_outcome p =
    if p.outcome == "skipped" || (p.outcome == "quarantined" || p.outcome == "filtered")
    then some skip_never_positive
    else if p.outcome == outcome_passed
    then (if not (p.verdict == verdict_pass) then some verdict_unsupported else none)
    else if p.outcome == outcome_failed
    then (if not (p.verdict == verdict_fail) then some verdict_unsupported else none)
    else some verdict_unsupported

unfoldable pub misses_manifest : ProposedRecord → Option (List String) → Bool
misses_manifest p none = false
misses_manifest p (some expected) = not (same_digest_set p.digests expected)

-- The rulings behind the outcome's.
unfoldable pub rule_on_census : ProposedRecord → Context → Evaluation
unfolding check_results results_meta misses_manifest
rule_on_census p ctx = elim (check_results p) [
  | some r ↦ rejected r
  | none ↦
      if misses_manifest p ctx.expected_digests
      then record { action = quarantine; reason = some digest_manifest_mismatch; meta = [] }
      else record { action = accept; reason = none; meta = results_meta p }
]

unfoldable pub rule_on_outcome : ProposedRecord → Context → Evaluation
unfolding check_outcome rule_on_census
rule_on_outcome p ctx = elim (check_outcome p) [ some r ↦ rejected r | none ↦ rule_on_census p ctx ]

unfoldable pub evaluate : ProposedRecord → Context → Evaluation
unfolding check_well_formed has_attempt has_lease rule_on_outcome
evaluate p ctx = elim (check_well_formed p) [
  | some r ↦ rejected r
  | none ↦
      if ctx.expected_lease_jti == "" || not (p.lease_jti == ctx.expected_lease_jti)
      then rejected provenance_mismatch
      else if not (p.inputs_hash == ctx.expected_inputs_hash) || ctx.expected_inputs_hash == ""
      then rejected inputs_hash_mismatch
      else if has_attempt p ctx.accepted
      then rejected duplicate_attempt
      else if has_lease p ctx.accepted
      then rejected lease_already_accepted
      else rule_on_outcome p ctx
]
