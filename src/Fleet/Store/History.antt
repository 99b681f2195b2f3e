-- ===== src/Fleet/Store/History.antt =====
-- The store over any sequence of its operations (store/memory.go).
use mathlib.Core.Option
use cisync.Prelude.{
  ℕ, ◌+◌, ◌≡◌, subst, String, not, ◌||◌, Option, none, some, List, [], ◌∷◌, string_eq, ◌==◌, nat_eq,
  arith, inl, inr, Bool-cases, Option-cases,
}
use cisync.Prelude.Maps.{lookup}
use cisync.Fleet.Job.{Time, is_terminal, is_running, Job, Claim, Completion, TestResults}
use cisync.Fleet.Store.{
  MemoryStore, enqueue, ensure_worker, queued_job, claim_loop, claim_jobs, heartbeat, finish_job,
  complete, cancel_job, cancel, requeue_loop, requeue_stale,
}
use cisync.Fleet.Store.Evolution.{
  Follows, Follows-refl, Follows-trans, insert-Follows, insert_new-Follows, same-Follows,
  claim_loop-Follows, requeue_loop-Follows, finish_job-Advances, cancel_job-Advances,
  heartbeat_job-Advances,
}

-- The operations that change the store.
pub data Op : Type 0 where
  do_enqueue : Job → Time → Op
  do_ensure_worker : String → Time → Op
  do_claim : Claim → Time → Op
  do_heartbeat : String → ℕ → Time → Op
  do_complete : String → Completion → Time → Op
  do_cancel : String → String → Time → Op
  do_requeue : ℕ → Time → Op

enqueue-Follows :
    (m : MemoryStore) (job : Job) (now : Time) → Follows m.jobs (enqueue m job now).0.jobs
unfolding enqueue
enqueue-Follows m job now = elim (Option-cases (lookup job.run_id m.jobs)) [
  | inl gone ↦
      rw (gone, enqueue)
        (insert_new-Follows m.jobs job.run_id (queued_job job (m.next_id + 1) now) gone)
  | inr (j, found) ↦ rw (found, enqueue) (Follows-refl m.jobs)
]

claim-Follows :
    (m : MemoryStore) (c : Claim) (now : Time) (m' : MemoryStore) (claimed : List Job)
    → claim_jobs m c now ≡ some (m', claimed)
    → Follows m.jobs m'.jobs
unfolding claim_jobs
claim-Follows m c now m' claimed h = elim (Option-cases (claim_loop c now m.jobs [] m.order)) [
  | inl gone ↦ absurd (ground arith)
  | inr ((jobs', taken), found) ↦
      subst (Follows m.jobs) (ground arith)
        (claim_loop-Follows c now m.jobs [] m.order jobs' taken found)
]

requeue-Follows :
    (m : MemoryStore) (threshold : ℕ) (now : Time) (m' : MemoryStore) (requeued : List String)
    → requeue_stale m threshold now ≡ some (m', requeued)
    → Follows m.jobs m'.jobs
unfolding requeue_stale
requeue-Follows m threshold now m' requeued h =
    elim (Option-cases (requeue_loop threshold now m.jobs [] m.order)) [
      | inl gone ↦ absurd (ground arith)
      | inr ((jobs', taken), found) ↦
          subst (Follows m.jobs) (ground arith)
            (requeue_loop-Follows threshold now m.jobs [] m.order jobs' taken found)
    ]

heartbeat-Follows :
    (m : MemoryStore) (r : String) (fence : ℕ) (now : Time)
    → Follows m.jobs (heartbeat m r fence now).0.jobs
unfolding heartbeat
heartbeat-Follows m r fence now = elim (Option-cases (lookup r m.jobs)) [
  | inl gone ↦ rw (gone, heartbeat) (Follows-refl m.jobs)
  | inr (j, found) ↦ elim (Bool-cases (not (is_running j.status) || not (j.fence_token == fence))) [
    | inl bad ↦ rw (found, bad, heartbeat) (Follows-refl m.jobs)
    | inr good ↦
        rw (found, good, heartbeat)
          (insert-Follows m.jobs r j (record j { last_heartbeat = now }) found
            (heartbeat_job-Advances now j (ground arith)))
  ]
]

complete-Follows :
    (digest : TestResults → String) (m : MemoryStore) (r : String) (c : Completion) (now : Time)
    → Follows m.jobs (complete digest m r c now).0.jobs
unfolding complete
complete-Follows digest m r c now = elim (Option-cases (lookup r m.jobs)) [
  | inl gone ↦ rw (gone, complete) (Follows-refl m.jobs)
  | inr (j, found) ↦ elim (Bool-cases j.accepted) [
    | inl old ↦ rw (found, old, complete) (Follows-refl m.jobs)
    | inr new ↦
        elim (Bool-cases (not (is_running j.status) || not (j.fence_token == c.fence_token))) [
          | inl bad ↦ rw (found, new, bad, complete) (Follows-refl m.jobs)
          | inr good ↦
              rw (found, new, good, complete)
                (insert-Follows m.jobs r j (finish_job digest c now j) found
                  (finish_job-Advances digest c now j (ground arith)))
        ]
  ]
]

cancel-Follows :
    (m : MemoryStore) (r reason : String) (now : Time)
    → Follows m.jobs (cancel m r reason now).0.jobs
unfolding cancel
cancel-Follows m r reason now = elim (Option-cases (lookup r m.jobs)) [
  | inl gone ↦ rw (gone, cancel) (Follows-refl m.jobs)
  | inr (j, found) ↦ elim (Bool-cases (is_terminal j.status)) [
    | inl over ↦ rw (found, over, cancel) (Follows-refl m.jobs)
    | inr live ↦
        rw (found, live, cancel)
          (insert-Follows m.jobs r j (cancel_job reason now j) found
            (cancel_job-Advances reason now j live))
  ]
]

carry :
    (m x m' : MemoryStore)
    → ◌≡◌ {A = Option MemoryStore} (some x) (some m')
    → Follows m.jobs x.jobs
    → Follows m.jobs m'.jobs
carry m x m' e f = subst (Follows m.jobs) (ground arith) f

module _ (digest : TestResults → String) where
  -- `none` is a panic.
  unfoldable pub perform : MemoryStore → Op → Option MemoryStore
  perform m (do_enqueue job now) = some (enqueue m job now).0
  perform m (do_ensure_worker id now) = some (ensure_worker m id now)
  perform m (do_claim c now) = Option.map (λ r. r.0) (claim_jobs m c now)
  perform m (do_heartbeat r fence now) = some (heartbeat m r fence now).0
  perform m (do_complete r c now) = some (complete digest m r c now).0
  perform m (do_cancel r reason now) = some (cancel m r reason now).0
  perform m (do_requeue threshold now) = Option.map (λ r. r.0) (requeue_stale m threshold now)

  unfoldable pub run : MemoryStore → List Op → Option MemoryStore
  run m [] = some m
  run m (o ∷ os) = elim (perform m o) [ none ↦ none | some m' ↦ run m' os ]

  pub perform-Follows :
      (m : MemoryStore) (o : Op) (m' : MemoryStore) → perform m o ≡ some m' → Follows m.jobs m'.jobs
  unfolding perform
  perform-Follows m (do_enqueue job now) m' h =
      carry m (enqueue m job now).0 m' h (enqueue-Follows m job now)
  perform-Follows m (do_ensure_worker id now) m' h =
      same-Follows m.jobs m'.jobs (unfold ensure_worker in ground arith)
  perform-Follows m (do_claim c now) m' h = elim (Option-cases (claim_jobs m c now)) [
    | inl gone ↦ absurd (ground arith)
    | inr ((x, claimed), found) ↦
        carry m x m' (ground arith) (claim-Follows m c now x claimed found)
  ]
  perform-Follows m (do_heartbeat r fence now) m' h =
      carry m (heartbeat m r fence now).0 m' h (heartbeat-Follows m r fence now)
  perform-Follows m (do_complete r c now) m' h =
      carry m (complete digest m r c now).0 m' h (complete-Follows digest m r c now)
  perform-Follows m (do_cancel r reason now) m' h =
      carry m (cancel m r reason now).0 m' h (cancel-Follows m r reason now)
  perform-Follows m (do_requeue threshold now) m' h =
      elim (Option-cases (requeue_stale m threshold now)) [
        | inl gone ↦ absurd (ground arith)
        | inr ((x, requeued), found) ↦
            carry m x m' (ground arith) (requeue-Follows m threshold now x requeued found)
      ]

  pub run-Follows :
      (m : MemoryStore) (os : List Op) (m' : MemoryStore)
      → run m os ≡ some m'
      → Follows m.jobs m'.jobs
  unfolding run
  run-Follows m [] m' h = same-Follows m.jobs m'.jobs (ground arith)
  run-Follows m (o ∷ os) m' h = elim (Option-cases (perform m o)) [
    | inl gone ↦ absurd (ground arith)
    | inr (x, found) ↦
        Follows-trans m.jobs x.jobs m'.jobs (perform-Follows m o x found)
          (run-Follows x os m' (ground arith))
  ]
