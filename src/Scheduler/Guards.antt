-- ===== src/Scheduler/Guards.antt =====
-- services/control-plane/internal/scheduler/completion_guards.go: which completions are absorbed, and
-- when an eligible verdict is forbidden.
pub mod Laws
use Prim.Native.String.{◌++◌}
use cisync.Prelude.{String, Bool, true, false, if◌then◌else◌, ◌==◌}
use cisync.Prelude.Int.{ℤ, pos, lt_int}
use cisync.Domain.Run.{RunState}
use cisync.Domain.Candidate.{CandidateState, candidate_state_eq, terminal}

-- The `switch` on the run's state.
unfoldable pub is_settled : RunState → Bool
is_settled RunState.dispatched = false
is_settled RunState.running = false
is_settled _ = true

unfoldable pub completion_is_diagnostic : RunState → CandidateState → Bool
unfolding is_settled
completion_is_diagnostic run_state candidate_state =
    if terminal candidate_state then true else is_settled run_state

-- `string(state)`
abbrev text : CandidateState → String
text CandidateState.submitted = "submitted"
text CandidateState.planned = "planned"
text CandidateState.validating = "validating"
text CandidateState.repairing = "repairing"
text CandidateState.eligible = "eligible"
text CandidateState.rejected = "rejected"
text CandidateState.blocked_representative = "blocked_representative"
text CandidateState.superseded = "superseded"
text CandidateState.cancelled = "cancelled"

unfoldable pub fmt_candidate_terminal : CandidateState → String
fmt_candidate_terminal state =
    "candidate already terminal (" ++ text state ++ "); no further decisions"

unfoldable pub eligibility_block_reason : CandidateState → ℤ → String
unfolding fmt_candidate_terminal
eligibility_block_reason state failed_required_runs =
    if terminal state
    then fmt_candidate_terminal state
    else if state == CandidateState.repairing
    then "repair pending; eligible forbidden until repair re-entry validates"
    else if lt_int (pos 0) failed_required_runs
    then "plan-required run in unresolved failure; verb must never be eligible"
    else ""
