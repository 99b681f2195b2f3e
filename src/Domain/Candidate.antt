-- ===== src/Domain/Candidate.antt =====
-- services/control-plane/internal/domain/candidate.go: the candidate, its table and `Apply`.
pub mod Laws
use Prim.Native.String.{len}
use cisync.Prelude.{
  Bool, true, false, Option, none, some, List, [], ◌∷◌, ◌||◌, not, String, Eq, string_eq, ◌==◌,
  nat_eq, eq_of_discrete, if◌then◌else◌, ℕ,
}
use cisync.Prelude.Int.{ℤ, pos}
use cisync.Domain.Common.{Time, FloatBits}
use cisync.Domain.Machine.{
  Error, rule, Table, Result, ok, err, next_state, DomainError, validation_failed,
}

pub data CandidateState : Type 0 where
  submitted planned validating repairing eligible rejected blocked_representative superseded
        cancelled :
      CandidateState

pub data Relation : Type 0 where
  duplicate_of alternative_of composable_with conflicts_with prerequisite_of representative :
      Relation

abbrev pub CandidateState-discrete : Discrete CandidateState
CandidateState-discrete = hlevel

instance abbrev pub candidate_state_eq : Eq CandidateState
candidate_state_eq = eq_of_discrete CandidateState-discrete

pub record Candidate : Type 0 where
  pub id : String
  pub tenant_id : String
  pub intent_id : String
  pub state : CandidateState
  pub submitter : String
  pub patch_ref : String
  pub head_sha : String
  pub base_sha : String
  pub changed_paths : List String
  pub est_cost_millicents : ℤ
  pub priority_score : FloatBits
  pub cluster_id : String
  pub relation_to_rep : Option Relation
  pub repo : String
  pub pr_number : ℕ
  pub rerun_count : ℕ
  pub created_at : Time

unfoldable pub new_candidate :
    String
    → String
    → String
    → String
    → String
    → String
    → String
    → List String
    → ℤ
    → Time
    → Result Candidate
new_candidate id tenant_id intent_id submitter patch_ref head_sha base_sha changed_paths est_cost
      now =
    if not (len head_sha == 40) || not (len base_sha == 40)
    then err validation_failed
    else if head_sha == base_sha
    then err validation_failed
    else ok (record {
      id = id;
      tenant_id = tenant_id;
      intent_id = intent_id;
      state = submitted;
      submitter = submitter;
      patch_ref = patch_ref;
      head_sha = head_sha;
      base_sha = base_sha;
      changed_paths = changed_paths;
      est_cost_millicents = est_cost;
      priority_score = 0;
      cluster_id = "";
      relation_to_rep = none;
      repo = "";
      pr_number = 0;
      rerun_count = 0;
      created_at = now;
    })

unfoldable pub terminal : CandidateState → Bool
terminal eligible = true
terminal rejected = true
terminal superseded = true
terminal cancelled = true
terminal _ = false

abbrev open_states : List CandidateState
open_states = submitted ∷ planned ∷ validating ∷ repairing ∷ blocked_representative ∷ []

unfoldable pub candidate_transitions : Table CandidateState
candidate_transitions =
    ("validation.planned", rule (submitted ∷ []) planned)
    ∷ ("validation.admitted", rule (planned ∷ []) validating)
    ∷ ("repair.authorized", rule (validating ∷ []) repairing)
    ∷ ("candidate.resubmitted", rule (repairing ∷ []) validating)
    ∷ ("decision.eligible", rule (validating ∷ []) eligible)
    ∷ ("decision.rejected", rule (validating ∷ planned ∷ []) rejected)
    ∷ ("cluster.blocked", rule (planned ∷ validating ∷ []) blocked_representative)
    ∷ ("candidate.superseded", rule open_states superseded)
    ∷ ("candidate.cancelled", rule open_states cancelled)
    ∷ []

unfoldable pub conclude : Candidate → Result CandidateState → Candidate × Error
conclude c (err e) = (c, some e)
conclude c (ok s) = (record c { state = s }, none)

unfoldable pub apply : Candidate → String → Candidate × Error
unfolding conclude
apply c trigger = conclude c (next_state terminal candidate_transitions c.state trigger)
