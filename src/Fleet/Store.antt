-- ===== src/Fleet/Store.antt =====
-- services/runner-fleet/internal/store/memory.go: the in-process store. Each operation runs under
-- the store's mutex, so it is one step on the state. `none` is a panic on a nil job, where the loops
-- read `m.jobs[runID]` for a run of `m.order`.
pub mod Evolution
pub mod History
pub mod Guarantees
pub mod Totality
pub mod Keyed
pub mod Claims
use cisync.Prelude.{
  ℕ, suc, ◌+◌, String, Bool, true, false, not, ◌&&◌, ◌||◌, Option, none, some, List, [], ◌∷◌, ◌++◌,
  reverse, if◌then◌else◌, string_eq, ◌==◌, ltb, leb, nat_eq, length,
}
use cisync.Prelude.Maps.{lookup, insert}
use cisync.Fleet.Job.{
  Time, Status, queued, running, cancelled, is_terminal, is_queued, is_running, Job, FleetJob,
  Claim, Completion, TestResults, ResultDoc, text, time, result_ref, FleetError, not_found,
  fence_mismatch, already_accepted, duplicate_run,
}

abbrev pub Jobs : Type 0
Jobs = List (String × FleetJob)

abbrev pub Workers : Type 0
Workers = List (String × Time)

pub record MemoryStore : Type 0 where
  pub jobs : Jobs
  pub order : List String
  pub workers : Workers
  pub next_id : ℕ

abbrev pub Error : Type 0
Error = Option FleetError

unfoldable pub new_memory_store : MemoryStore
new_memory_store = record { jobs = []; order = []; workers = []; next_id = 0 }

unfoldable pub queued_job : Job → ℕ → Time → FleetJob
queued_job job id now = record {
  id = id;
  run_id = job.run_id;
  attempt = job.attempt;
  tier = job.tier;
  pool = job.pool;
  status = queued;
  fence_token = 0;
  claimed_by = "";
  claimed_at = none;
  last_heartbeat = 0;
  finished_at = none;
  result_ref = none;
  accepted = false;
  spec = job.spec;
  lease_token = job.lease_token;
  created_at = now;
}

unfoldable pub enqueue : MemoryStore → Job → Time → MemoryStore × Error
unfolding queued_job
enqueue m job now = elim (lookup job.run_id m.jobs) [
  | some _ ↦ (m, some duplicate_run)
  | none ↦ (
    record m {
      jobs = insert job.run_id (queued_job job (m.next_id + 1) now) m.jobs;
      order = m.order ++ job.run_id ∷ [];
      next_id = m.next_id + 1;
    },
    none,
  )
]

unfoldable pub ensure_worker : MemoryStore → String → Time → MemoryStore
ensure_worker m id now = record m { workers = insert id now m.workers }

-- The claim of one job.
unfoldable pub take_job : Claim → Time → FleetJob → FleetJob
take_job c now j = record j {
  status = running;
  fence_token = j.fence_token + 1;
  claimed_by = c.worker_id;
  claimed_at = some now;
  last_heartbeat = now;
  finished_at = none;
  accepted = false;
  result_ref = none;
}

unfoldable pub handed : FleetJob → Job
handed j = record {
  run_id = j.run_id;
  attempt = j.attempt;
  fence_token = j.fence_token;
  tier = j.tier;
  pool = j.pool;
  spec = j.spec;
  lease_token = j.lease_token;
}

-- The test behind `continue`.
unfoldable pub is_claimable : Claim → FleetJob → Bool
is_claimable c j = j.pool == c.pool && is_queued j.status

unfoldable pub claim_loop : Claim → Time → Jobs → List Job → List String → Option (Jobs × List Job)
unfolding take_job handed is_claimable
claim_loop c now jobs claimed [] = some (jobs, claimed)
claim_loop c now jobs claimed (r ∷ rs) = elim (leb c.limit (length claimed)) [
  | true ↦ some (jobs, claimed)
  | false ↦ elim (lookup r jobs) [
    | none ↦ none
    | some j ↦ elim (is_claimable c j) [
      | true ↦
          claim_loop c now (insert r (take_job c now j) jobs)
            (claimed ++ handed (take_job c now j) ∷ []) rs
      | false ↦ claim_loop c now jobs claimed rs
    ]
  ]
]

unfoldable pub claim_jobs : MemoryStore → Claim → Time → Option (MemoryStore × List Job)
unfolding claim_loop
claim_jobs m c now = elim (claim_loop c now m.jobs [] m.order) [
  | none ↦ none
  | some (jobs, claimed) ↦
      some (record m { jobs = jobs; workers = insert c.worker_id now m.workers }, claimed)
]

unfoldable pub get : MemoryStore → String → Option FleetJob
get m run_id = lookup run_id m.jobs

unfoldable pub heartbeat : MemoryStore → String → ℕ → Time → MemoryStore × Error
heartbeat m run_id fence_token now = elim (lookup run_id m.jobs) [
  | none ↦ (m, some not_found)
  | some j ↦
      if not (is_running j.status) || not (j.fence_token == fence_token)
      then (m, some fence_mismatch)
      else (
        record m {
          jobs = insert run_id (record j { last_heartbeat = now }) m.jobs;
          workers =
              if not (j.claimed_by == "") then insert j.claimed_by now m.workers else m.workers;
        },
        none,
      )
]

module _ (digest : TestResults → String) where
  unfoldable pub finish_job : Completion → Time → FleetJob → FleetJob
  finish_job c now j = record j {
    status = c.status;
    accepted = true;
    finished_at = some now;
    result_ref = some (result_ref digest c);
  }

  unfoldable pub complete : MemoryStore → String → Completion → Time → MemoryStore × Error
  unfolding finish_job
  complete m run_id c now = elim (lookup run_id m.jobs) [
    | none ↦ (m, some not_found)
    | some j ↦
        if j.accepted
        then (m, some already_accepted)
        else if not (is_running j.status) || not (j.fence_token == c.fence_token)
        then (m, some fence_mismatch)
        else (record m { jobs = insert run_id (finish_job c now j) m.jobs }, none)
  ]

unfoldable pub cancel_job : String → Time → FleetJob → FleetJob
cancel_job reason now j = record j {
  status = cancelled;
  fence_token = j.fence_token + 1;
  finished_at = some now;
  result_ref = some (("reason", text reason) ∷ ("cancelled_at", time now) ∷ []);
}

unfoldable pub cancel : MemoryStore → String → String → Time → MemoryStore × Bool × Error
unfolding cancel_job
cancel m run_id reason now = elim (lookup run_id m.jobs) [
  | none ↦ (m, false, some not_found)
  | some j ↦
      if is_terminal j.status
      then (m, false, none)
      else (record m { jobs = insert run_id (cancel_job reason now j) m.jobs }, true, none)
]

unfoldable pub record_artifacts : MemoryStore → String → Error
record_artifacts m run_id = elim (lookup run_id m.jobs) [ none ↦ some not_found | some _ ↦ none ]

unfoldable pub requeue_job : FleetJob → FleetJob
requeue_job j = record j { status = queued; fence_token = j.fence_token + 1; claimed_by = "" }

-- `now.Sub(hb) < threshold`, for a threshold that is not negative.
unfoldable pub is_fresh : ℕ → Time → Time → Bool
is_fresh threshold now hb = ltb now (hb + threshold)

-- Neither of the two `continue`s of the loop is taken.
unfoldable pub is_stale : ℕ → Time → FleetJob → Bool
unfolding is_fresh
is_stale threshold now j = is_running j.status && not (is_fresh threshold now j.last_heartbeat)

unfoldable pub requeue_loop :
    ℕ → Time → Jobs → List String → List String → Option (Jobs × List String)
unfolding requeue_job is_stale
requeue_loop threshold now jobs requeued [] = some (jobs, requeued)
requeue_loop threshold now jobs requeued (r ∷ rs) = elim (lookup r jobs) [
  | none ↦ none
  | some j ↦ elim (is_stale threshold now j) [
    | false ↦ requeue_loop threshold now jobs requeued rs
    | true ↦ requeue_loop threshold now (insert r (requeue_job j) jobs) (requeued ++ r ∷ []) rs
  ]
]

unfoldable pub live_workers : ℕ → Time → Workers → Workers
unfolding is_fresh
live_workers threshold now [] = []
live_workers threshold now ((id, hb) ∷ ws) =
    let rest = live_workers threshold now ws in
    if is_fresh threshold now hb then (id, hb) ∷ rest else rest

unfoldable pub requeue_stale : MemoryStore → ℕ → Time → Option (MemoryStore × List String)
unfolding requeue_loop live_workers
requeue_stale m threshold now = elim (requeue_loop threshold now m.jobs [] m.order) [
  | none ↦ none
  | some (jobs, requeued) ↦
      some (record m { jobs = jobs; workers = live_workers threshold now m.workers }, requeued)
]

-- The newest runs first; the walk ends at the limit.
unfoldable pub accepted_loop : Jobs → ℕ → List FleetJob → List String → Option (List FleetJob)
accepted_loop jobs limit out [] = some out
accepted_loop jobs limit out (r ∷ rs) = elim (leb limit (length out)) [
  | true ↦ some out
  | false ↦ elim (lookup r jobs) [
    | none ↦ none
    | some j ↦
        accepted_loop jobs limit (if j.accepted && is_terminal j.status then out ++ j ∷ [] else out)
          rs
  ]
]

unfoldable pub terminal_accepted : MemoryStore → ℕ → Option (List FleetJob)
unfolding accepted_loop
terminal_accepted m limit = accepted_loop m.jobs limit [] (reverse m.order)
