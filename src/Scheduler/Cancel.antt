-- ===== src/Scheduler/Cancel.antt =====
-- services/control-plane/internal/scheduler/cancel.go: which candidates and runs the outcome of one
-- candidate cancels.
pub mod Laws
use cisync.Prelude.{
  ℕ, String, Bool, true, false, not, ◌&&◌, ◌||◌, Option, none, some, List, [], ◌∷◌, ◌++◌, ◌==◌,
  string_eq, if◌then◌else◌, map,
}
use cisync.Prelude.Maps.{lookup, insert}
use cisync.Prelude.Texts.{less}
use cisync.Prelude.Sort.{sort_by}

pub data Cause : Type 0 where
  eligible rejected cancelled : Cause

pub data CancelReason : Type 0 where
  dominated_duplicate tournament_loser prerequisite_failed superseded : CancelReason

pub record RelationEdge : Type 0 where
  pub from_candidate_id : String
  pub to_candidate_id : String
  pub relation : String

pub record RunInfo : Type 0 where
  pub run_id : String
  pub candidate_id : String
  pub state : String
  pub fence_token : ℕ

pub record ClusterState : Type 0 where
  pub edges : List RelationEdge
  pub runs : List RunInfo

pub record CandidateCancellation : Type 0 where
  pub candidate_id : String
  pub reason : CancelReason

pub record RunCancellation : Type 0 where
  pub run_id : String
  pub candidate_id : String
  pub fence_token : ℕ
  pub reason : CancelReason

pub record Propagation : Type 0 where
  pub candidates : List CandidateCancellation
  pub runs : List RunCancellation

abbrev pub Reasons : Type 0
Reasons = List (String × CancelReason)

abbrev is_superseded : CancelReason → Bool
is_superseded superseded = true
is_superseded _ = false

unfoldable pub set_reason : Reasons → String → CancelReason → Reasons
set_reason m id reason = elim (lookup id m) [
  | some cur ↦ if not (id == "") && not (is_superseded cur) then m else insert id reason m
  | none ↦ insert id reason m
]

unfoldable pub is_live : String → Bool
is_live state = state == "queued" || (state == "dispatched" || state == "running")

-- The `switch` on the relation and the cause.
unfoldable pub edge_reason : String → Cause → Option CancelReason
edge_reason relation eligible =
    if relation == "duplicate_of"
    then some dominated_duplicate
    else if relation == "alternative_of"
    then some tournament_loser
    else none
edge_reason relation rejected =
    if relation == "prerequisite_of" then some prerequisite_failed else none
edge_reason relation cancelled = none

-- The test behind `continue`.
abbrev pub skips : String → RelationEdge → Bool
skips id e = e.to_candidate_id == "" || (not (e.to_candidate_id == id) || e.from_candidate_id == "")

abbrev pub apply_reason : Reasons → String → Option CancelReason → Reasons
apply_reason m from none = m
apply_reason m from (some reason) = set_reason m from reason

unfoldable pub edge_loop : String → Cause → Reasons → List RelationEdge → Reasons
unfolding set_reason edge_reason
edge_loop id cause m [] = m
edge_loop id cause m (e ∷ es) =
    edge_loop id cause
      (if skips id e then m else apply_reason m e.from_candidate_id (edge_reason e.relation cause))
      es

abbrev pub less_edge : RelationEdge → RelationEdge → Bool
less_edge a b =
    if not (a.from_candidate_id == b.from_candidate_id)
    then less a.from_candidate_id b.from_candidate_id
    else if not (a.to_candidate_id == b.to_candidate_id)
    then less a.to_candidate_id b.to_candidate_id
    else less a.relation b.relation

abbrev pub start_reasons : String → Reasons
start_reasons id = if not (id == "") then (id, superseded) ∷ [] else []

unfoldable pub reasons_of : ClusterState → String → Cause → Reasons
unfolding edge_loop
reasons_of s id cause = edge_loop id cause (start_reasons id) (sort_by less_edge s.edges)

-- The two loops that build the answer; the candidates come in the order of their ids.
unfoldable pub candidate_loop : String → Reasons → List CandidateCancellation
candidate_loop id [] = []
candidate_loop id ((k, r) ∷ m) =
    let rest = candidate_loop id m in
    if not (k == id) then record { candidate_id = k; reason = r } ∷ rest else rest

unfoldable pub run_loop : Reasons → List RunInfo → List RunCancellation
unfolding is_live
run_loop m [] = []
run_loop m (r ∷ rs) =
    let rest = run_loop m rs in
    elim (lookup r.candidate_id m) [
      | none ↦ rest
      | some reason ↦
          if not (is_live r.state)
          then rest
          else record {
            run_id = r.run_id;
            candidate_id = r.candidate_id;
            fence_token = r.fence_token;
            reason = reason;
          }
            ∷ rest
    ]

unfoldable pub propagate_cancellation : ClusterState → String → Cause → Propagation
unfolding reasons_of candidate_loop run_loop
propagate_cancellation s id cause = record {
  candidates = candidate_loop id (sort_by (λ a b. less a.0 b.0) (reasons_of s id cause));
  runs = run_loop (reasons_of s id cause) (sort_by (λ a b. less a.run_id b.run_id) s.runs);
}
