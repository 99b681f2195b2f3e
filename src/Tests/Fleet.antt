-- ===== src/Tests/Fleet.antt =====
-- A run that is claimed, swept, claimed again and completed (runner-fleet/internal/store/memory.go).
use cisync.Prelude.{
  ◌⊎◌, ◌≡◌, refl, ℕ, ◌≤◌, String, true, false, none, some, List, [], ◌∷◌, arith, All, string_eq, ap,
  ◌∙◌,
}
use cisync.Prelude.Int.{pos}
use cisync.Prelude.Maps.{lookup}
use cisync.Fleet.Job.{
  succeeded, is_terminal, Job, JobSpec, FleetJob, Claim, Completion, TestResults, FleetError,
  already_accepted,
}
use cisync.Fleet.Store.{
  MemoryStore, new_memory_store, queued_job, enqueue, take_job, handed, is_claimable, claim_loop,
  claim_jobs, finish_job, complete, requeue_job, is_fresh, is_stale, requeue_loop, live_workers,
  requeue_stale,
}
use cisync.Fleet.Store.History.{Op, do_enqueue, do_claim, do_requeue, perform, run}
use cisync.Fleet.Store.Guarantees.{
  accepted_once, stale_completion_refused, complete_lem, Completes, Refuses, terminal_frozen,
}
use cisync.Fleet.Store.Claims.{Held, claim_holds}
use cisync.Fleet.Store.Totality.{IsIndexed, run_total}
use cisync.Fleet.LeaseGate.{Claims, Verifier, authorize_internal, heartbeat_once, reclaimed_refused}

abbrev digest : TestResults → String
digest r = "sha256:0"

abbrev spec : JobSpec
spec = record {
  kind = "test";
  repo = "cisync";
  base_sha = "b";
  head_sha = "h";
  patch_ref = "";
  inputs_hash = "i";
  timeout_ms = pos 1000;
  sim_profile = none;
  pre_fetched_bundle_ref = "";
}

abbrev job : Job
job = record {
  run_id = "run_1";
  attempt = pos 1;
  fence_token = 0;
  tier = pos 0;
  pool = "linux";
  spec = spec;
  lease_token = "lease_1";
}

abbrev claim : String → Claim
claim worker = record { pool = "linux"; provider = "docker"; limit = 1; worker_id = worker }

abbrev passed : ℕ → Completion
passed fence = record {
  fence_token = fence;
  status = succeeded;
  logs_digest = "";
  artifact_digests = [];
  duration_ms = pos 10;
  actual_cost_millicents = pos 1;
  classification = "";
  logs_excerpt = "";
  results = none;
}

-- The job as it is claimed by the first worker, swept, and claimed by the second.
abbrev claimed_job : FleetJob
claimed_job = take_job (claim "w1") 10 (queued_job job 1 5)

abbrev swept_job : FleetJob
swept_job = requeue_job claimed_job

abbrev reclaimed_job : FleetJob
reclaimed_job = take_job (claim "w2") 120 swept_job

abbrev finished_job : FleetJob
finished_job = finish_job digest (passed 3) 130 reclaimed_job

abbrev store_of : FleetJob → List (String × ℕ) → MemoryStore
store_of j workers = record {
  jobs = ("run_1", j) ∷ [];
  order = "run_1" ∷ [];
  workers = workers;
  next_id = 1;
}

abbrev queued_store : MemoryStore
queued_store = store_of (queued_job job 1 5) []

abbrev claimed_store : MemoryStore
claimed_store = store_of claimed_job (("w1", 10) ∷ [])

abbrev reclaimed_store : MemoryStore
reclaimed_store = store_of reclaimed_job (("w2", 120) ∷ [])

abbrev finished_store : MemoryStore
finished_store = store_of finished_job (("w2", 120) ∷ [])

abbrev sweep_and_reclaim : List Op
sweep_and_reclaim = do_requeue 30 100 ∷ do_claim (claim "w2") 120 ∷ []

enqueued : run digest new_memory_store (do_enqueue job 5 ∷ []) ≡ some queued_store
unfolding run perform enqueue new_memory_store
enqueued = refl

first_claim :
    claim_jobs queued_store (claim "w1") 10 ≡ some (claimed_store, handed claimed_job ∷ [])
unfolding claim_jobs claim_loop is_claimable take_job queued_job handed
first_claim = refl

reclaimed : run digest claimed_store sweep_and_reclaim ≡ some reclaimed_store
unfolding run perform requeue_stale requeue_loop is_stale is_fresh live_workers claim_jobs
    claim_loop is_claimable take_job queued_job handed requeue_job
reclaimed = refl

done : complete digest reclaimed_store "run_1" (passed 3) 130 ≡ (finished_store, none)
unfolding complete take_job queued_job requeue_job finish_job
done = refl

late_sweep : run digest finished_store (do_requeue 30 900 ∷ []) ≡ some (store_of finished_job [])
unfolding run perform requeue_stale requeue_loop is_stale is_fresh live_workers take_job queued_job
    requeue_job finish_job
late_sweep = refl

accepted_once_example :
    complete digest (store_of finished_job []) "run_1" (passed 3) 950
    ≡ (store_of finished_job [], some already_accepted)
unfolding complete take_job queued_job requeue_job finish_job is_terminal
accepted_once_example =
    accepted_once digest reclaimed_store "run_1" (passed 3) 130 (do_requeue 30 900 ∷ [])
      (store_of finished_job []) (passed 3) 950 (ap (λ r. r.1) done) refl
      (ap (λ r. run digest r.0 (do_requeue 30 900 ∷ [])) done ∙ late_sweep)

stale_completion_refused_example :
    (e : FleetError) × (complete digest reclaimed_store "run_1" (passed 0) 125
      ≡ (reclaimed_store, some e))
unfolding take_job queued_job
stale_completion_refused_example =
    stale_completion_refused digest claimed_store sweep_and_reclaim reclaimed_store "run_1"
      claimed_job (passed 0) 125 refl (omega arith) reclaimed

complete_lem_example :
    (((complete digest reclaimed_store "run_1" (passed 3) 130).1 ≡ none)
      × Completes digest reclaimed_store
          (complete digest reclaimed_store "run_1" (passed 3) 130).0
          "run_1"
          (passed 3)
          130)
    ⊎ ((e : FleetError) × (complete digest reclaimed_store "run_1" (passed 3) 130
          ≡ (reclaimed_store, some e))
        × Refuses digest reclaimed_store "run_1" (passed 3) e)
complete_lem_example = complete_lem digest reclaimed_store "run_1" (passed 3) 130

terminal_frozen_example : lookup "run_1" (store_of finished_job []).jobs ≡ some finished_job
unfolding finish_job is_terminal
terminal_frozen_example =
    terminal_frozen digest finished_store (do_requeue 30 900 ∷ []) (store_of finished_job [])
      "run_1" finished_job refl refl late_sweep

claim_holds_example :
    All (Held (claim "w1") 10 queued_store.jobs claimed_store.jobs) (handed claimed_job ∷ [])
    × (1 ≤ 1)
claim_holds_example =
    claim_holds (claim "w1") 10 digest (do_enqueue job 5 ∷ []) queued_store claimed_store
      (handed claimed_job ∷ []) enqueued first_claim

second_claim :
    claim_jobs claimed_store (claim "w2") 20
    ≡ some (store_of claimed_job (("w1", 10) ∷ ("w2", 20) ∷ []), [])
unfolding claim_jobs claim_loop is_claimable take_job queued_job handed
second_claim = refl

run_total_example :
    (m' : MemoryStore) × (run digest new_memory_store
        (do_enqueue job 5 ∷ do_claim (claim "w1") 10 ∷ [])
      ≡ some m')
    × IsIndexed m'
run_total_example = run_total digest (do_enqueue job 5 ∷ do_claim (claim "w1") 10 ∷ [])

-- The lease that the control plane mints with the fence token of the dispatch.
abbrev lease : Claims
lease = record {
  audience = "runner-fleet";
  id = "lease_1";
  run_id = "run_1";
  attempt = pos 1;
  fence_token = pos 1;
  repo = "cisync";
  tier = pos 0;
  issued_at = pos 0;
  expires_at = pos 900;
}

abbrev verify : Verifier
verify token = some lease

first_claim_passes : authorize_internal (some verify) (handed claimed_job) ≡ true
unfolding authorize_internal handed take_job queued_job
first_claim_passes = refl

resumed : run digest (store_of swept_job []) (do_claim (claim "w2") 120 ∷ []) ≡ some reclaimed_store
unfolding run perform claim_jobs claim_loop is_claimable handed take_job queued_job requeue_job
resumed = refl

-- The first holder's own copy passes the gate, and the store refuses its heartbeat.
reclaimed_refused_example :
    (authorize_internal (some verify) (handed claimed_job) ≡ true
      → (handed claimed_job).fence_token ≡ 1)
    × (heartbeat_once (some verify) reclaimed_store (handed claimed_job) 125
        ≡ (reclaimed_store, false))
unfolding take_job queued_job requeue_job handed
reclaimed_refused_example =
    reclaimed_refused digest verify (store_of swept_job []) (do_claim (claim "w2") 120 ∷ [])
      reclaimed_store swept_job (handed claimed_job) lease 1 125 refl (omega arith) refl resumed
      refl
