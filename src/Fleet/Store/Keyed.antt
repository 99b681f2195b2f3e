-- ===== src/Fleet/Store/Keyed.antt =====
-- The store keeps every job under its own run (store/memory.go).
use mathlib.Core.Option.{some_inj}
use cisync.Prelude.{
  ℕ, ◌+◌, ◌≡◌, refl, sym, ap, ◌∙◌, subst, String, not, ◌||◌, Option, some, List, [], ◌∷◌, ◌++◌,
  string_eq, ◌==◌, nat_eq, leb, length, arith, inl, inr, Bool-cases, Option-cases, eq_iff,
}
use cisync.Prelude.Maps.{lookup, insert, lookup-insert}
use cisync.Fleet.Job.{Time, is_terminal, is_running, Job, FleetJob, Claim, Completion, TestResults}
use cisync.Fleet.Store.{
  Jobs, MemoryStore, new_memory_store, enqueue, queued_job, take_job, handed, is_claimable,
  claim_loop, claim_jobs, heartbeat, finish_job, complete, cancel_job, cancel, ensure_worker,
  is_stale, requeue_job, requeue_loop, requeue_stale,
}
use cisync.Fleet.Store.History.{
  Op, do_enqueue, do_ensure_worker, do_claim, do_heartbeat, do_complete, do_cancel, do_requeue,
  perform, run,
}

-- A job under a run's key is that run's.
abbrev pub Keyed : Jobs → Type 0
Keyed jobs = (r : String) (j : FleetJob) → lookup r jobs ≡ some j → j.run_id ≡ r

pub insert-Keyed :
    (jobs : Jobs) (r : String) (j : FleetJob) → j.run_id ≡ r → Keyed jobs → Keyed (insert r j jobs)
insert-Keyed jobs r j own h q i found = elim (Bool-cases (r == q)) [
  | inl e ↦
      let same : j ≡ i = some_inj.0 (sym (lookup-insert r q j jobs ∙ rw e refl) ∙ found) in
      ap (λ (x : FleetJob). x.run_id) (sym same) ∙ own ∙ (eq_iff r q).0 e
  | inr n ↦ h q i (sym (lookup-insert r q j jobs ∙ rw n refl) ∙ found)
]

claim_loop-Keyed :
    (c : Claim) (now : Time) (jobs : Jobs) (claimed : List Job) (rs : List String) (jobs' : Jobs)
    (claimed' : List Job)
    → Keyed jobs
    → claim_loop c now jobs claimed rs ≡ some (jobs', claimed')
    → Keyed jobs'
unfolding claim_loop take_job
claim_loop-Keyed c now jobs claimed [] jobs' claimed' k h = subst Keyed (ground arith) k
claim_loop-Keyed c now jobs claimed (r ∷ rs) jobs' claimed' k h =
    elim (Bool-cases (leb c.limit (length claimed))) [
      | inl full ↦ subst Keyed (ground arith) k
      | inr room ↦ elim (Option-cases (lookup r jobs)) [
        | inl gone ↦ absurd (ground arith)
        | inr (j, found) ↦ elim (Bool-cases (is_claimable c j)) [
          | inl take ↦
              claim_loop-Keyed c now (insert r (take_job c now j) jobs)
                (claimed ++ handed (take_job c now j) ∷ []) rs jobs' claimed'
                (insert-Keyed jobs r (take_job c now j) (k r j found) k) (ground arith)
          | inr skip ↦ claim_loop-Keyed c now jobs claimed rs jobs' claimed' k (ground arith)
        ]
      ]
    ]

requeue_loop-Keyed :
    (threshold : ℕ) (now : Time) (jobs : Jobs) (requeued rs : List String) (jobs' : Jobs)
    (requeued' : List String)
    → Keyed jobs
    → requeue_loop threshold now jobs requeued rs ≡ some (jobs', requeued')
    → Keyed jobs'
unfolding requeue_loop requeue_job
requeue_loop-Keyed threshold now jobs requeued [] jobs' requeued' k h = subst Keyed (ground arith) k
requeue_loop-Keyed threshold now jobs requeued (r ∷ rs) jobs' requeued' k h =
    elim (Option-cases (lookup r jobs)) [
      | inl gone ↦ absurd (ground arith)
      | inr (j, found) ↦ elim (Bool-cases (is_stale threshold now j)) [
        | inl stale ↦
            requeue_loop-Keyed threshold now (insert r (requeue_job j) jobs) (requeued ++ r ∷ []) rs
              jobs' requeued' (insert-Keyed jobs r (requeue_job j) (k r j found) k) (ground arith)
        | inr fresh ↦
            requeue_loop-Keyed threshold now jobs requeued rs jobs' requeued' k (ground arith)
      ]
    ]

enqueue-Keyed :
    (m : MemoryStore) (job : Job) (now : Time) → Keyed m.jobs → Keyed (enqueue m job now).0.jobs
unfolding enqueue queued_job
enqueue-Keyed m job now k = elim (Option-cases (lookup job.run_id m.jobs)) [
  | inl gone ↦
      rw (gone, enqueue)
        (insert-Keyed m.jobs job.run_id (queued_job job (m.next_id + 1) now) refl k)
  | inr (j, found) ↦ rw (found, enqueue) k
]

heartbeat-Keyed :
    (m : MemoryStore) (r : String) (fence : ℕ) (now : Time)
    → Keyed m.jobs
    → Keyed (heartbeat m r fence now).0.jobs
unfolding heartbeat
heartbeat-Keyed m r fence now k = elim (Option-cases (lookup r m.jobs)) [
  | inl gone ↦ rw (gone, heartbeat) k
  | inr (j, found) ↦ elim (Bool-cases (not (is_running j.status) || not (j.fence_token == fence))) [
    | inl bad ↦ rw (found, bad, heartbeat) k
    | inr good ↦
        rw (found, good, heartbeat)
          (insert-Keyed m.jobs r (record j { last_heartbeat = now }) (k r j found) k)
  ]
]

complete-Keyed :
    (digest : TestResults → String) (m : MemoryStore) (r : String) (c : Completion) (now : Time)
    → Keyed m.jobs
    → Keyed (complete digest m r c now).0.jobs
unfolding complete finish_job
complete-Keyed digest m r c now k = elim (Option-cases (lookup r m.jobs)) [
  | inl gone ↦ rw (gone, complete) k
  | inr (j, found) ↦ elim (Bool-cases j.accepted) [
    | inl old ↦ rw (found, old, complete) k
    | inr new ↦
        elim (Bool-cases (not (is_running j.status) || not (j.fence_token == c.fence_token))) [
          | inl bad ↦ rw (found, new, bad, complete) k
          | inr good ↦
              rw (found, new, good, complete)
                (insert-Keyed m.jobs r (finish_job digest c now j) (k r j found) k)
        ]
  ]
]

cancel-Keyed :
    (m : MemoryStore) (r reason : String) (now : Time)
    → Keyed m.jobs
    → Keyed (cancel m r reason now).0.jobs
unfolding cancel cancel_job
cancel-Keyed m r reason now k = elim (Option-cases (lookup r m.jobs)) [
  | inl gone ↦ rw (gone, cancel) k
  | inr (j, found) ↦ elim (Bool-cases (is_terminal j.status)) [
    | inl over ↦ rw (found, over, cancel) k
    | inr live ↦
        rw (found, live, cancel) (insert-Keyed m.jobs r (cancel_job reason now j) (k r j found) k)
  ]
]

moved :
    (x m' : MemoryStore)
    → ◌≡◌ {A = Option MemoryStore} (some x) (some m')
    → Keyed x.jobs
    → Keyed m'.jobs
moved x m' e = subst (λ (y : MemoryStore). Keyed y.jobs) (some_inj.0 e)

module _ (digest : TestResults → String) where
  perform-Keyed :
      (m : MemoryStore) (o : Op) (m' : MemoryStore)
      → Keyed m.jobs
      → perform digest m o ≡ some m'
      → Keyed m'.jobs
  unfolding perform claim_jobs requeue_stale ensure_worker
  perform-Keyed m (do_enqueue job now) m' k h =
      moved (enqueue m job now).0 m' h (enqueue-Keyed m job now k)
  perform-Keyed m (do_ensure_worker id now) m' k h = moved (ensure_worker m id now) m' h k
  perform-Keyed m (do_claim c now) m' k h =
      elim (Option-cases (claim_loop c now m.jobs [] m.order)) [
        | inl gone ↦ absurd (ground arith)
        | inr ((jobs', taken), e) ↦
            subst Keyed (ground arith) (claim_loop-Keyed c now m.jobs [] m.order jobs' taken k e)
      ]
  perform-Keyed m (do_heartbeat r fence now) m' k h =
      moved (heartbeat m r fence now).0 m' h (heartbeat-Keyed m r fence now k)
  perform-Keyed m (do_complete r c now) m' k h =
      moved (complete digest m r c now).0 m' h (complete-Keyed digest m r c now k)
  perform-Keyed m (do_cancel r reason now) m' k h =
      moved (cancel m r reason now).0 m' h (cancel-Keyed m r reason now k)
  perform-Keyed m (do_requeue threshold now) m' k h =
      elim (Option-cases (requeue_loop threshold now m.jobs [] m.order)) [
        | inl gone ↦ absurd (ground arith)
        | inr ((jobs', requeued), e) ↦
            subst Keyed (ground arith)
              (requeue_loop-Keyed threshold now m.jobs [] m.order jobs' requeued k e)
      ]

  run-Keyed :
      (m : MemoryStore) (os : List Op) (m' : MemoryStore)
      → Keyed m.jobs
      → run digest m os ≡ some m'
      → Keyed m'.jobs
  unfolding run
  run-Keyed m [] m' k h = moved m m' h k
  run-Keyed m (o ∷ os) m' k h = elim (Option-cases (perform digest m o)) [
    | inl gone ↦ absurd (ground arith)
    | inr (x, found) ↦ run-Keyed x os m' (perform-Keyed m o x k found) (ground arith)
  ]

  -- Every store that operations build from the empty one is keyed.
  pub reached-Keyed :
      (os : List Op) (m : MemoryStore) → run digest new_memory_store os ≡ some m → Keyed m.jobs
  unfolding new_memory_store
  reached-Keyed os m h = run-Keyed new_memory_store os m (λ r j e. absurd (cc)) h
