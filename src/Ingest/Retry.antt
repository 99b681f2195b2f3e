-- ===== src/Ingest/Retry.antt =====
-- services/ingest/internal/retry/worker.go. What the forwarder, the redaction and the context answer
-- during a pass are arguments; times are nanoseconds.
pub mod Settles
pub mod Passes
pub mod Liveness
use cisync.Prelude.{
  ℕ, zero, suc, ◌+◌, ◌-◌, ◌*◌, ◌^◌, String, Bool, true, false, not, ◌&&◌, ◌||◌, Option, none, some,
  List, [], ◌∷◌, if◌then◌else◌, ltb, leb, ◌==◌, string_eq,
}
use cisync.Ingest.Deliveries.{
  Delivery, Store, Stamp, Forward, update_forward_state, due_deliveries, StoreError,
}

-- forward.Result
pub data SendResult : Type 0 where
  accepted unavailable rejected : SendResult

abbrev pub is_unavailable : SendResult → Bool
is_unavailable unavailable = true
is_unavailable r = false

-- What happens while one delivery is processed: whether redaction succeeds, what attempt number
-- `n` answers, whether the context is over after it, whether it ends in the wait behind it, and
-- whether it is over when the delivery is done. `done_at` is the clock behind the attempts and their
-- waits, which is read for the write.
pub record World : Type 0 where
  pub redacts : Bool
  pub sends : ℕ → SendResult
  pub over_after : ℕ → Bool
  pub ends_in_wait : ℕ → Bool
  pub over_at_end : Bool
  pub done_at : ℕ

-- `none` is the `return` out of the wait.
unfoldable pub attempt_loop : World → ℕ → ℕ → Option SendResult
attempt_loop w zero attempt = some unavailable
attempt_loop w (suc rounds) attempt =
    let rest = attempt_loop w rounds (attempt + 1) in
    let result = w.sends attempt in
    if not (is_unavailable result) || w.over_after attempt
    then some result
    else if ltb attempt 3
    then (if w.ends_in_wait attempt then none else rest)
    else rest

abbrev pub failed_with : ℕ → ℕ → Forward
failed_with attempts now = record {
  status = "forward_failed";
  attempts = attempts;
  last_attempt_at = some now;
  forwarded_at = none;
}

-- The state that is written for a result; `markFailed` writes that of a rejection.
unfoldable pub forward_of : ℕ → ℕ → Delivery → SendResult → Forward
forward_of max now d accepted = record {
  status = "forwarded";
  attempts = d.attempts + 3;
  last_attempt_at = some now;
  forwarded_at = some now;
}
forward_of max now d unavailable = record {
  status = if leb max (d.attempts + 3) then "forward_failed" else "pending";
  attempts = d.attempts + 3;
  last_attempt_at = some now;
  forwarded_at = none;
}
forward_of max now d rejected = failed_with (d.attempts + 3) now

unfoldable pub forward_if : ℕ → ℕ → Delivery → Option SendResult → Option Forward
unfolding forward_of
forward_if max now d none = none
forward_if max now d (some r) = some (forward_of max now d r)

-- What `processOne` writes, if it writes.
unfoldable pub outcome : World → ℕ → Delivery → Option Forward
unfolding forward_if attempt_loop
outcome w max d =
    if not w.redacts
    then some (failed_with (d.attempts + 3) w.done_at)
    else forward_if max w.done_at d (attempt_loop w 3 1)

abbrev pub write : String → Option Forward → Store → Store
write id none m = m
write id (some f) m = (update_forward_state id f m).0

unfoldable pub process_one : World → ℕ → Delivery → Store → Store
unfolding outcome update_forward_state
process_one w max d m = write d.id (outcome w max d) m

-- The loop of `scanOnce` over the due deliveries, each with its world.
unfoldable pub scan_loop : (String → World) → ℕ → List Delivery → Store → Store
unfolding process_one
scan_loop worlds max [] m = m
scan_loop worlds max (d ∷ due) m =
    let done = process_one (worlds d.id) max d m in
    let rest = scan_loop worlds max due done in if (worlds d.id).over_at_end then done else rest

-- `dueAge` is 30 seconds, and at most 100 deliveries are read. `now` is the clock at the start.
abbrev pub due_age : ℕ
due_age = 30_000_000_000

unfoldable pub scan_once : (String → World) → ℕ → ℕ → Store → Store
unfolding scan_loop due_deliveries
scan_once worlds max now m = scan_loop worlds max (due_deliveries now due_age max 100 m) m

-- The wait behind an attempt, `min (base * 2 ^ (attempt - 1)) 30 s`.
unfoldable pub backoff : ℕ → ℕ → ℕ
backoff base attempt = let d = base * 2 ^ (attempt - 1) in if ltb due_age d then due_age else d
