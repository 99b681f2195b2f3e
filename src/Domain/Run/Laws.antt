-- ===== src/Domain/Run/Laws.antt =====
-- What holds of a validation run over any sequence of triggers (domain/validation_run.go).
use cisync.Prelude.{
  ◌≡◌, ◌≢◌, refl, ap, ◌∙◌, Bool, true, false, not, List, [], ◌∷◌, ◌||◌, Memᴰ, String, arith, some,
  every, string_eq, is_some, every-mem, ◌+◌, ◌==◌, same, same-true, ◌&&◌,
}
use cisync.Domain.Common.{Time}
use cisync.Domain.Machine.{Result, ok, err, next_state, post_terminal, TransitionRule, DomainError}
use cisync.Domain.Machine.Laws.{moved-rule, next_state_live}
use cisync.Domain.Run.{
  ValidationRun, RunState, run_state_eq, dispatched, running, succeeded, failed, timed_out,
  cancelled, terminal, run_transitions, is_final, conclude, apply,
}

unfoldable pub run : ValidationRun → List (String × Time) → ValidationRun
run r [] = r
run r ((t, now) ∷ ts) = run (apply r t now).0 ts

-- The fleet holds the run.
abbrev pub in_flight : RunState → Bool
in_flight dispatched = true
in_flight running = true
in_flight _ = false

-- The run has a result.
abbrev pub is_over : RunState → Bool
is_over succeeded = true
is_over failed = true
is_over timed_out = true
is_over cancelled = true
is_over _ = false

pub record IsValid (r : ValidationRun) : Type 0 where
  pub fenced : r.attempt ≡ r.fence_token + 1
  pub dispatch_time : is_some r.dispatched_at ≡ in_flight r.state
  pub finish_time : is_over r.state ≡ true → is_some r.finished_at ≡ true

abbrev dispatches : String → Bool
dispatches t = t == "run.dispatched" || t == "run.claimed"

abbrev retries : String → Bool
retries t = t == "run.retry"

abbrev no_flight : List RunState → Bool
no_flight from = every (λ s. not (in_flight s)) from

-- How a rule's trigger goes with its two ends: three kinds of trigger, a retry only of a run that
-- the fleet does not hold.
abbrev rule_right : String × TransitionRule RunState → Bool
rule_right (t, r) =
    same (in_flight r.to) (dispatches t)
    && (same (is_over r.to) (is_final t)
        && ((not (retries t) || (no_flight r.from && (not (dispatches t) && not (is_final t))))
            && ((retries t || (dispatches t || is_final t)) && not (dispatches t && is_final t))))

all_rules_right : every rule_right run_transitions ≡ true
unfolding run_transitions is_final
all_rules_right = refl

module _ (r : ValidationRun) (t : String) (s : RunState) (now : Time) (inv : IsValid r) where
  advance-IsValid :
      (u : TransitionRule RunState)
      → rule_right (t, u) ≡ true
      → Memᴰ r.state u.from
      → u.to ≡ s
      → IsValid (conclude r t (ok s) now).0
  unfolding conclude
  advance-IsValid u right m to =
      let grounded : no_flight u.from ≡ true → not (in_flight r.state) ≡ true =
        λ h. every-mem (λ s. not (in_flight s)) u.from h m in
      record {
        fenced = ground arith;
        dispatch_time = ground (arith, same-true (in_flight u.to) (dispatches t));
        finish_time = λ over. ground (arith, same-true (is_over u.to) (is_final t));
      }

apply-IsValid :
    (r : ValidationRun) (t : String) (now : Time) → IsValid r → IsValid (apply r t now).0
unfolding apply
apply-IsValid r t now inv = go (next_state terminal run_transitions r.state t) refl
  where
    go :
        (o : Result RunState)
        → next_state terminal run_transitions r.state t ≡ o
        → IsValid (conclude r t o now).0
    go (err e) p = inv
    go (ok s) p =
        let (u, right, m, to, live) =
          moved-rule terminal run_transitions rule_right r.state t all_rules_right p in
        advance-IsValid r t s now inv u right m to

-- Every sequence of triggers keeps a valid run valid: the attempt is one more than the fence token
-- (so a retry always moves both), `dispatched_at` is set exactly while the run is dispatched or
-- running, and a run that succeeded, failed, timed out or was cancelled has a finish time.
pub run-IsValid : (r : ValidationRun) (ts : List (String × Time)) → IsValid r → IsValid (run r ts)
unfolding run
run-IsValid r [] inv = inv
run-IsValid r ((t, now) ∷ ts) inv = run-IsValid (apply r t now).0 ts (apply-IsValid r t now inv)

abbrev never_from_timed_out : String × TransitionRule RunState → Bool
never_from_timed_out (t, r) = every (λ s. not (s == timed_out)) r.from

no_way_out : every never_from_timed_out run_transitions ≡ true
unfolding run_transitions
no_way_out = refl

-- A timed-out run is not terminal, yet every trigger is refused there, the retry too, and leaves
-- the run unchanged; the error is never ErrPostTerminal.
pub timed_out_stuck :
    (r : ValidationRun) (t : String) (now : Time)
    → r.state ≡ timed_out
    → (terminal r.state ≡ false)
      × ((e : DomainError) × (apply r t now ≡ (r, some e)) × (e ≢ post_terminal))
unfolding apply terminal
timed_out_stuck r t now h = (rw h, go (next_state terminal run_transitions r.state t) refl)
  where
    go :
        (o : Result RunState)
        → next_state terminal run_transitions r.state t ≡ o
        → (e : DomainError) × (conclude r t o now ≡ (r, some e)) × (e ≢ post_terminal)
    go (err e) p = (
      e,
      unfold conclude in refl,
      λ q.
          next_state_live terminal run_transitions r.state t (unfold terminal in rw h)
            (p ∙ ap err q),
    )
    go (ok s) p =
        let (u, right, m, to, live) =
          moved-rule terminal run_transitions never_from_timed_out r.state t no_way_out p in
        absurd (ground (arith, every-mem (λ s. not (s == timed_out)) u.from right m))
