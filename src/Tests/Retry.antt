-- ===== src/Tests/Retry.antt =====
-- The retry worker on one delivery that the control plane never takes (ingest/internal/retry).
use cisync.Prelude.{ℕ, List, ◌≡◌, refl, true, false, none, some, [], ◌∷◌, All, arith}
use cisync.Ingest.Deliveries.{
  Delivery, insert_delivery, is_retryable, duplicate_delivery, count_by_status, has_id,
}
use cisync.Ingest.Retry.{
  World, unavailable, scan_once, backoff, due_age, forward_of, outcome, attempt_loop,
}
use cisync.Ingest.Retry.Settles.{IsCalm}
use cisync.Ingest.Retry.Passes.{Pass, passes, rounds}
use cisync.Ingest.Retry.Liveness.{deliveries_settle}

abbrev hook : Delivery
hook = record {
  id = "d1";
  source = "github";
  ext_delivery_id = "guid-1";
  event_kind = "push";
  repo = "acme/payments";
  sig_ok = true;
  headers = [];
  payload = [];
  status = "pending";
  attempts = 0;
  received_at = 0;
  last_attempt_at = none;
  forwarded_at = none;
  payload_class_hash = "";
  duplicate_suspect = false;
}

-- The control plane is down, and the pass is done with its deliveries at `done`.
abbrev down : ℕ → World
down done = record {
  redacts = true;
  sends = λ n. unavailable;
  over_after = λ n. false;
  ends_in_wait = λ n. false;
  over_at_end = false;
  done_at = done;
}

down-IsCalm : (done : ℕ) → IsCalm (down done)
down-IsCalm done = record { goes_on = λ n. refl; waits = λ n. refl; lasts = refl }

-- Each pass takes three seconds; the second starts too early to try again.
abbrev ticks : List Pass
ticks =
    record { at = due_age; worlds = λ id. down 33_000_000_000; ends = 33_000_000_000 }
    ∷ record { at = 60_000_000_000; worlds = λ id. down 63_000_000_000; ends = 63_000_000_000 }
    ∷ record { at = 65_000_000_000; worlds = λ id. down 68_000_000_000; ends = 68_000_000_000 }
    ∷ record { at = 90_000_000_000; worlds = λ id. down 90_000_000_000; ends = 90_000_000_000 }
    ∷ []

taken_once : (insert_delivery hook (hook ∷ [])).1 ≡ some duplicate_delivery
unfolding insert_delivery
taken_once = refl

waits_grow : backoff 500_000_000 2 ≡ 1_000_000_000
unfolding backoff
waits_grow = refl

-- The budget of five attempts is spent by the pass at 65 seconds.
statuses : count_by_status (passes 5 ticks (hook ∷ [])) ≡ ("forward_failed", 1) ∷ []
unfolding passes scan_once outcome attempt_loop forward_of count_by_status
statuses = refl

-- The passes at 30 and at 65 seconds count, and so does no other.
counted : rounds 0 0 ticks ≡ 2
unfolding rounds
counted = refl

deliveries_settle_example : All (λ d. is_retryable 5 d ≡ false) (passes 5 ticks (hook ∷ []))
unfolding has_id
deliveries_settle_example =
    deliveries_settle ticks 5 0 (hook ∷ [])
      (
        (λ id. (down-IsCalm 33_000_000_000, omega arith)),
        (
          (λ id. (down-IsCalm 63_000_000_000, omega arith)),
          (
            (λ id. (down-IsCalm 68_000_000_000, omega arith)),
            ((λ id. (down-IsCalm 90_000_000_000, omega arith)), tt),
          ),
        ),
      )
      (omega arith) (refl, tt) ((λ r. omega arith), tt) (omega (arith, counted))
