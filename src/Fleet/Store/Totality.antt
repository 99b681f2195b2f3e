-- ===== src/Fleet/Store/Totality.antt =====
-- The claim order and the jobs of the store (store/memory.go): where a nil job could be read.
use mathlib.Core.Option
use cisync.Prelude.{
  ℕ, ◌+◌, ◌≡◌, refl, ap, String, true, Option, some, List, [], ◌∷◌, ◌++◌, string_eq, arith, inl,
  inr, Bool-cases, Option-cases, is_some, All, All-append, leb, length,
}
use cisync.Prelude.Maps.{lookup, insert, lookup-insert, lookup-insert_self}
use cisync.Fleet.Job.{Time, Job, FleetJob, Claim, Completion, TestResults}
use cisync.Fleet.Store.{
  Jobs, MemoryStore, new_memory_store, enqueue, queued_job, take_job, handed, is_claimable,
  claim_loop, claim_jobs, heartbeat, complete, cancel, ensure_worker, live_workers, is_stale,
  requeue_job, requeue_loop, requeue_stale,
}
use cisync.Fleet.Store.Evolution.{Follows}
use cisync.Fleet.Store.History.{
  Op, do_enqueue, do_ensure_worker, do_claim, do_heartbeat, do_complete, do_cancel, do_requeue,
  perform, run, perform-Follows,
}

-- Every run of the order has a job.
abbrev pub Indexed : Jobs → List String → Type 0
Indexed jobs = All (λ r. is_some (lookup r jobs) ≡ true)

some-is_some {ℓ} : {A : Type ℓ} (o : Option A) {a : A} → o ≡ some a → is_some o ≡ true
some-is_some o h = rw h

Indexed-Follows :
    (jobs jobs' : Jobs) (rs : List String) → Follows jobs jobs' → Indexed jobs rs → Indexed jobs' rs
Indexed-Follows jobs jobs' [] f h = tt
Indexed-Follows jobs jobs' (r ∷ rs) f (here, rest) = (
  elim (Option-cases (lookup r jobs)) [
    | inl gone ↦ absurd (ground arith)
    | inr (j, found) ↦ let (j', found', s) = f r j found in some-is_some (lookup r jobs') found'
  ],
  Indexed-Follows jobs jobs' rs f rest,
)

Indexed-insert :
    (jobs : Jobs) (r : String) (j : FleetJob) (rs : List String)
    → Indexed jobs rs
    → Indexed (insert r j jobs) rs
Indexed-insert jobs r j [] h = tt
Indexed-insert jobs r j (q ∷ rs) (here, rest) =
    (rw (lookup-insert r q j jobs) (ground arith), Indexed-insert jobs r j rs rest)

claim_loop_total :
    (c : Claim) (now : Time) (jobs : Jobs) (claimed : List Job) (rs : List String)
    → Indexed jobs rs
    → (x : Jobs × List Job) × (claim_loop c now jobs claimed rs ≡ some x)
unfolding claim_loop
claim_loop_total c now jobs claimed [] h = ((jobs, claimed), refl)
claim_loop_total c now jobs claimed (r ∷ rs) (here, rest) =
    elim (Bool-cases (leb c.limit (length claimed))) [
      | inl full ↦ ((jobs, claimed), rw (full, claim_loop))
      | inr room ↦ elim (Option-cases (lookup r jobs)) [
        | inl gone ↦ absurd (ground arith)
        | inr (j, found) ↦ elim (Bool-cases (is_claimable c j)) [
          | inl take ↦
              let jobs' = insert r (take_job c now j) jobs in
              let (x, e) =
                claim_loop_total c now jobs' (claimed ++ handed (take_job c now j) ∷ []) rs
                  (Indexed-insert jobs r (take_job c now j) rs rest) in
              (x, rw (room, found, take, claim_loop) e)
          | inr skip ↦
              let (x, e) = claim_loop_total c now jobs claimed rs rest in
              (x, rw (room, found, skip, claim_loop) e)
        ]
      ]
    ]

requeue_loop_total :
    (threshold : ℕ) (now : Time) (jobs : Jobs) (requeued rs : List String)
    → Indexed jobs rs
    → (x : Jobs × List String) × (requeue_loop threshold now jobs requeued rs ≡ some x)
unfolding requeue_loop
requeue_loop_total threshold now jobs requeued [] h = ((jobs, requeued), refl)
requeue_loop_total threshold now jobs requeued (r ∷ rs) (here, rest) =
    elim (Option-cases (lookup r jobs)) [
      | inl gone ↦ absurd (ground arith)
      | inr (j, found) ↦ elim (Bool-cases (is_stale threshold now j)) [
        | inl stale ↦
            let jobs' = insert r (requeue_job j) jobs in
            let (x, e) =
              requeue_loop_total threshold now jobs' (requeued ++ r ∷ []) rs
                (Indexed-insert jobs r (requeue_job j) rs rest) in
            (x, rw (found, stale, requeue_loop) e)
        | inr fresh ↦
            let (x, e) = requeue_loop_total threshold now jobs requeued rs rest in
            (x, rw (found, fresh, requeue_loop) e)
      ]
    ]

abbrev pub IsIndexed : MemoryStore → Type 0
IsIndexed m = Indexed m.jobs m.order

enqueue-IsIndexed :
    (m : MemoryStore) (job : Job) (now : Time) → IsIndexed m → IsIndexed (enqueue m job now).0
unfolding enqueue
enqueue-IsIndexed m job now h = elim (Option-cases (lookup job.run_id m.jobs)) [
  | inr (j, found) ↦ rw (found, enqueue) h
  | inl gone ↦
      let j = queued_job job (m.next_id + 1) now in
      rw (gone, enqueue)
        (All-append (λ r. is_some (lookup r (insert job.run_id j m.jobs)) ≡ true) m.order
          (job.run_id ∷ []) (Indexed-insert m.jobs job.run_id j m.order h)
          (rw (lookup-insert_self job.run_id j m.jobs) refl, tt))
]

claim_jobs_of :
    (m : MemoryStore) (c : Claim) (now : Time) (jobs : Jobs) (claimed : List Job)
    → claim_loop c now m.jobs [] m.order ≡ some (jobs, claimed)
    → claim_jobs m c now
      ≡ some (record m { jobs = jobs; workers = insert c.worker_id now m.workers }, claimed)
unfolding claim_jobs
claim_jobs_of m c now jobs claimed e = rw (e, claim_jobs)

requeue_stale_of :
    (m : MemoryStore) (threshold : ℕ) (now : Time) (jobs : Jobs) (requeued : List String)
    → requeue_loop threshold now m.jobs [] m.order ≡ some (jobs, requeued)
    → requeue_stale m threshold now
      ≡ some (record m { jobs = jobs; workers = live_workers threshold now m.workers }, requeued)
unfolding requeue_stale
requeue_stale_of m threshold now jobs requeued e = rw (e, requeue_stale)

heartbeat-order :
    (m : MemoryStore) (r : String) (fence : ℕ) (now : Time)
    → (heartbeat m r fence now).0.order ≡ m.order
unfolding heartbeat
heartbeat-order m r fence now = ground arith

cancel-order :
    (m : MemoryStore) (r reason : String) (now : Time) → (cancel m r reason now).0.order ≡ m.order
unfolding cancel
cancel-order m r reason now = ground arith

module _ (digest : TestResults → String) where
  complete-order :
      (m : MemoryStore) (r : String) (c : Completion) (now : Time)
      → (complete digest m r c now).0.order ≡ m.order
  unfolding complete
  complete-order m r c now = ground arith

  -- A step that keeps the order keeps the index.
  kept :
      (m : MemoryStore) (o : Op) (m' : MemoryStore)
      → perform digest m o ≡ some m'
      → m'.order ≡ m.order
      → IsIndexed m
      → (x : MemoryStore) × (perform digest m o ≡ some x) × IsIndexed x
  kept m o m' e same h =
      (m', e, rw same (Indexed-Follows m.jobs m'.jobs m.order (perform-Follows digest m o m' e) h))

  perform_total :
      (m : MemoryStore) (o : Op)
      → IsIndexed m
      → (m' : MemoryStore) × (perform digest m o ≡ some m') × IsIndexed m'
  unfolding perform
  perform_total m (do_enqueue job now) h =
      ((enqueue m job now).0, refl, enqueue-IsIndexed m job now h)
  perform_total m (do_ensure_worker id now) h =
      kept m (do_ensure_worker id now) (ensure_worker m id now) refl (unfold ensure_worker in refl)
        h
  perform_total m (do_claim c now) h =
      let ((jobs, claimed), e) = claim_loop_total c now m.jobs [] m.order h in
      kept m (do_claim c now) (record m { jobs = jobs; workers = insert c.worker_id now m.workers })
        (ap (Option.map (λ r. r.0)) (claim_jobs_of m c now jobs claimed e)) refl h
  perform_total m (do_heartbeat r fence now) h =
      kept m (do_heartbeat r fence now) (heartbeat m r fence now).0 refl
        (heartbeat-order m r fence now) h
  perform_total m (do_complete r c now) h =
      kept m (do_complete r c now) (complete digest m r c now).0 refl (complete-order m r c now) h
  perform_total m (do_cancel r reason now) h =
      kept m (do_cancel r reason now) (cancel m r reason now).0 refl (cancel-order m r reason now) h
  perform_total m (do_requeue threshold now) h =
      let ((jobs, requeued), e) = requeue_loop_total threshold now m.jobs [] m.order h in
      kept m (do_requeue threshold now)
        (record m { jobs = jobs; workers = live_workers threshold now m.workers })
        (ap (Option.map (λ r. r.0)) (requeue_stale_of m threshold now jobs requeued e)) refl h

  run_from_total :
      (m : MemoryStore) (os : List Op)
      → IsIndexed m
      → (m' : MemoryStore) × (run digest m os ≡ some m') × IsIndexed m'
  unfolding run
  run_from_total m [] h = (m, refl, h)
  run_from_total m (o ∷ os) h =
      let (x, e, h') = perform_total m o h in
      let (m', e', h'') = run_from_total x os h' in (m', rw (e, run) e', h'')

  -- From an empty store no sequence of operations panics: every run of the claim order has a job, so
  -- the claim and the sweep never read a missing one.
  pub run_total :
      (os : List Op)
      → (m' : MemoryStore) × (run digest new_memory_store os ≡ some m') × IsIndexed m'
  unfolding new_memory_store
  run_total os = run_from_total new_memory_store os tt
