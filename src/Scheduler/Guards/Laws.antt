-- ===== src/Scheduler/Guards/Laws.antt =====
-- The guards of scheduler/completion_guards.go against the machines of the run and the candidate.
use cisync.Prelude.{
  ◌≡◌, refl, sym, ◌∙◌, ◌↔◌, Bool, true, false, none, some, String, if◌then◌else◌, arith,
}
use cisync.Domain.Common.{Time}
use cisync.Domain.Machine.{Error, Result, ok, err, next_state}
use cisync.Domain.Run
use cisync.Domain.Run.{ValidationRun, RunState, run_state_eq, run_transitions, conclude, apply}
use cisync.Domain.Candidate.{CandidateState, terminal}
use cisync.Scheduler.Guards.{completion_is_diagnostic, is_settled}

-- The run takes each of the three outcomes that a completion can report.
abbrev pub TakesOutcomes : ValidationRun → Time → Type 0
TakesOutcomes r now =
    ((apply r "run.succeeded" now).1 ≡ none)
    × ((apply r "run.failed" now).1 ≡ none)
    × ((apply r "run.timed_out" now).1 ≡ none)

abbrev error_of : Result RunState → Error
error_of (ok s) = none
error_of (err e) = some e

conclude_error :
    (r : ValidationRun) (trigger : String) (res : Result RunState) (now : Time)
    → (conclude r trigger res now).1 ≡ error_of res
unfolding conclude
conclude_error r trigger (ok s) now = refl
conclude_error r trigger (err e) now = refl

-- The error of a trigger in a state.
abbrev refusal : RunState → String → Error
refusal s trigger = error_of (next_state Run.terminal run_transitions s trigger)

apply_error :
    (r : ValidationRun) (trigger : String) (now : Time)
    → (apply r trigger now).1 ≡ refusal r.state trigger
unfolding apply
apply_error r trigger now =
    conclude_error r trigger (next_state Run.terminal run_transitions r.state trigger) now

abbrev Takes : RunState → Type 0
Takes s =
    (refusal s "run.succeeded" ≡ none)
    × (refusal s "run.failed" ≡ none)
    × (refusal s "run.timed_out" ≡ none)

settled_iff : (s : RunState) → (is_settled s ≡ false) ↔ Takes s
unfolding is_settled next_state run_transitions Run.terminal
settled_iff RunState.queued = (λ h. absurd (cc), λ (a, b, c). absurd (cc))
settled_iff RunState.dispatched = (λ h. (refl, refl, refl), λ h. refl)
settled_iff RunState.running = (λ h. (refl, refl, refl), λ h. refl)
settled_iff RunState.succeeded = (λ h. absurd (cc), λ (a, b, c). absurd (cc))
settled_iff RunState.failed = (λ h. absurd (cc), λ (a, b, c). absurd (cc))
settled_iff RunState.timed_out = (λ h. absurd (cc), λ (a, b, c). absurd (cc))
settled_iff RunState.cancelled = (λ h. absurd (cc), λ (a, b, c). absurd (cc))

open_gate : (a b : Bool) → (if a then true else b) ≡ false → (a ≡ false) × (b ≡ false)
open_gate a b h = ground arith

-- A completion drives effects exactly if its candidate is not decided yet and its run accepts every
-- outcome: success, failure and timeout.
pub effects_iff :
    (r : ValidationRun) (now : Time) (c : CandidateState)
    → (completion_is_diagnostic r.state c ≡ false) ↔ ((terminal c ≡ false) × TakesOutcomes r now)
unfolding completion_is_diagnostic
effects_iff r now c = (
  λ h.
      let (open_, settled) = open_gate (terminal c) (is_settled r.state) h in
      let takes = (settled_iff r.state).0 settled in
      (
        open_,
        (
          apply_error r "run.succeeded" now ∙ takes.0,
          apply_error r "run.failed" now ∙ takes.1,
          apply_error r "run.timed_out" now ∙ takes.2,
        ),
      ),
  λ h.
      let settled = (settled_iff r.state).1 (
        sym (apply_error r "run.succeeded" now) ∙ h.1.0,
        sym (apply_error r "run.failed" now) ∙ h.1.1,
        sym (apply_error r "run.timed_out" now) ∙ h.1.2,
      ) in
      ground arith,
)
