-- ===== src/Tests/Run.antt =====
-- A run that fails, is retried and times out (domain/validation_run.go).
use cisync.Prelude.{◌≡◌, refl, String, List, [], ◌∷◌, ℕ}
use cisync.Prelude.Int.{pos}
use cisync.Domain.Machine.{next_state, try_rule, matches_state}
use cisync.Domain.Run.{
  ValidationRun, timed_out, new_run, apply, terminal, run_transitions, conclude, stamp, is_final,
}
use cisync.Domain.Run.Laws.{run, IsValid, run-IsValid}

abbrev fresh : ValidationRun
fresh =
    new_run "r" "t" "p" "c" (pos 0)
      (record {
        kind = "test";
        repo = "cisync";
        base_sha = "b";
        head_sha = "h";
        patch_ref = "";
        inputs_hash = "i";
        timeout_ms = pos 1000;
        sim_profile = "";
        pre_fetched_bundle_ref = "";
      })
      "linux" (pos 10) (pos 1) 0 5

abbrev way : List (String × ℕ)
way =
    ("run.dispatched", 6)
    ∷ ("run.failed", 7)
    ∷ ("run.retry", 8)
    ∷ ("run.dispatched", 9)
    ∷ ("run.timed_out", 10)
    ∷ []

times_out : (run fresh way).state ≡ timed_out
unfolding run apply new_run next_state try_rule matches_state terminal run_transitions conclude
    stamp is_final
times_out = refl

fresh-IsValid : IsValid fresh
unfolding new_run
fresh-IsValid = record { fenced = refl; dispatch_time = refl; finish_time = λ h. cc h }

run-IsValid_example : IsValid (run fresh way)
run-IsValid_example = run-IsValid fresh way fresh-IsValid
