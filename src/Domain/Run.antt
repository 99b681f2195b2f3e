-- ===== src/Domain/Run.antt =====
-- services/control-plane/internal/domain/validation_run.go: the run, its table and `Apply`.
pub mod Laws
use cisync.Prelude.{
  Bool, true, false, Option, none, some, List, [], ◌∷◌, ◌||◌, String, Eq, string_eq, ◌==◌,
  eq_of_discrete, if◌then◌else◌, ℕ, ◌+◌,
}
use cisync.Prelude.Int.{ℤ}
use cisync.Domain.Common.{Time, FloatBits}
use cisync.Domain.Machine.{Error, rule, Table, Result, ok, err, next_state, DomainError}

pub data RunState : Type 0 where
  queued dispatched running succeeded failed timed_out cancelled : RunState

abbrev pub RunState-discrete : Discrete RunState
RunState-discrete = hlevel

instance abbrev pub run_state_eq : Eq RunState
run_state_eq = eq_of_discrete RunState-discrete

-- `sim_profile` is the JSON text of the profile; "" where the map is absent.
pub record JobSpec : Type 0 where
  pub kind : String
  pub repo : String
  pub base_sha : String
  pub head_sha : String
  pub patch_ref : String
  pub inputs_hash : String
  pub timeout_ms : ℤ
  pub sim_profile : String
  pub pre_fetched_bundle_ref : String

pub record ValidationRun : Type 0 where
  pub id : String
  pub tenant_id : String
  pub plan_id : String
  pub candidate_id : String
  pub state : RunState
  pub tier : ℤ
  pub job_spec : JobSpec
  pub attempt : ℕ
  pub pool : String
  pub est_duration_ms : ℤ
  pub est_cost_millicents : ℤ
  pub priority : FloatBits
  pub fence_token : ℕ
  pub timeout_ms : ℤ
  pub dispatched_at : Option Time
  pub finished_at : Option Time
  pub created_at : Time

unfoldable pub new_run :
    String
    → String
    → String
    → String
    → ℤ
    → JobSpec
    → String
    → ℤ
    → ℤ
    → FloatBits
    → Time
    → ValidationRun
new_run id tenant_id plan_id candidate_id tier spec pool est_duration_ms est_cost priority now =
    record {
      id = id;
      tenant_id = tenant_id;
      plan_id = plan_id;
      candidate_id = candidate_id;
      state = queued;
      tier = tier;
      job_spec = spec;
      attempt = 1;
      pool = pool;
      est_duration_ms = est_duration_ms;
      est_cost_millicents = est_cost;
      priority = priority;
      fence_token = 0;
      timeout_ms = spec.timeout_ms;
      dispatched_at = none;
      finished_at = none;
      created_at = now;
    }

unfoldable pub terminal : RunState → Bool
terminal succeeded = true
terminal cancelled = true
terminal _ = false

unfoldable pub run_transitions : Table RunState
run_transitions =
    ("run.dispatched", rule (queued ∷ []) dispatched)
    ∷ ("run.claimed", rule (dispatched ∷ []) running)
    ∷ ("run.succeeded", rule (running ∷ dispatched ∷ []) succeeded)
    ∷ ("run.failed", rule (running ∷ dispatched ∷ []) failed)
    ∷ ("run.timed_out", rule (running ∷ dispatched ∷ []) timed_out)
    ∷ ("run.retry", rule (failed ∷ []) queued)
    ∷ ("run.cancelled", rule (queued ∷ dispatched ∷ running ∷ []) cancelled)
    ∷ []

-- The `switch trigger` of `Apply`.
unfoldable pub stamp : ValidationRun → String → Time → ValidationRun
stamp r trigger now =
    if trigger == "run.retry"
    then record r { attempt = r.attempt + 1; fence_token = r.fence_token + 1 }
    else if trigger == "run.dispatched" || trigger == "run.claimed"
    then record r { dispatched_at = some now }
    else record r { finished_at = some now }

-- The triggers after which `DispatchedAt` is reset to nil.
unfoldable pub is_final : String → Bool
is_final trigger =
    trigger == "run.cancelled"
    || (trigger == "run.succeeded" || (trigger == "run.failed" || trigger == "run.timed_out"))

unfoldable pub conclude : ValidationRun → String → Result RunState → Time → ValidationRun × Error
unfolding stamp is_final
conclude r trigger (err e) now = (r, some e)
conclude r trigger (ok s) now =
    let stamped = stamp r trigger now in
    (
      record stamped {
        dispatched_at = if is_final trigger then none else stamped.dispatched_at;
        state = s;
      },
      none,
    )

unfoldable pub apply : ValidationRun → String → Time → ValidationRun × Error
unfolding conclude
apply r trigger now = conclude r trigger (next_state terminal run_transitions r.state trigger) now
