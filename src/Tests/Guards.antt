-- ===== src/Tests/Guards.antt =====
-- Completions that are absorbed, and the witness of the theorem on the guards.
use cisync.Prelude.{◌≡◌, ◌↔◌, refl, true, false}
use cisync.Prelude.Int.{pos}
use cisync.Domain.Run.{ValidationRun, RunState, new_run}
use cisync.Domain.Candidate.{CandidateState, terminal}
use cisync.Scheduler.Guards.{completion_is_diagnostic, eligibility_block_reason}
use cisync.Scheduler.Guards.Laws.{effects_iff, TakesOutcomes}

abbrev queued_run : ValidationRun
queued_run =
    new_run "r" "t" "p" "c" (pos 0)
      (record {
        kind = "test";
        repo = "cisync";
        base_sha = "b";
        head_sha = "h";
        patch_ref = "";
        inputs_hash = "i";
        timeout_ms = pos 1000;
        sim_profile = "";
        pre_fetched_bundle_ref = "";
      })
      "linux" (pos 10) (pos 1) 0 5

abbrev running_run : ValidationRun
running_run = record queued_run { state = RunState.running }

superseded_absorbs : completion_is_diagnostic RunState.running CandidateState.superseded ≡ true
unfolding completion_is_diagnostic terminal
superseded_absorbs = refl

repair_blocks :
    eligibility_block_reason CandidateState.repairing (pos 0)
    ≡ "repair pending; eligible forbidden until repair re-entry validates"
unfolding eligibility_block_reason terminal
repair_blocks = refl

effects_iff_example :
    (completion_is_diagnostic running_run.state CandidateState.validating ≡ false)
    ↔ ((terminal CandidateState.validating ≡ false) × TakesOutcomes running_run 9)
effects_iff_example = effects_iff running_run 9 CandidateState.validating
