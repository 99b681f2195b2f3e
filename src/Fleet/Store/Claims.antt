-- ===== src/Fleet/Store/Claims.antt =====
-- What one claim takes and what it hands out (`ClaimJobs` of store/memory.go).
use mathlib.Core.Path.{subst₂}
use mathlib.Core.Option.{some_inj}
use cisync.Prelude.{
  ◌≤◌, ◌≡◌, ◌+◌, ◌==◌, refl, sym, ap, ◌∙◌, subst, String, true, false, Option, none, some, List, [],
  ◌∷◌, ◌++◌, string_eq, arith, inl, inr, Bool-cases, Option-cases, All, All-append, leb, length,
  eq_iff, length-append,
}
use cisync.Prelude.Maps.{lookup, insert, lookup-insert, lookup-insert_self}
use cisync.Fleet.Job.{Time, queued, running, Job, FleetJob, Claim, TestResults}
use cisync.Fleet.Store.{
  Jobs, MemoryStore, new_memory_store, take_job, handed, is_claimable, claim_loop, claim_jobs,
}
use cisync.Fleet.Store.History.{Op, run}
use cisync.Fleet.Store.Keyed.{Keyed, reached-Keyed}

module _ (c : Claim) (now : Time) where
  loop_leaves :
      (jobs : Jobs) (claimed : List Job) (rs : List String) (jobs' : Jobs) (claimed' : List Job)
      (q : String) (j : FleetJob)
      → lookup q jobs ≡ some j
      → is_claimable c j ≡ false
      → claim_loop c now jobs claimed rs ≡ some (jobs', claimed')
      → lookup q jobs' ≡ some j
  unfolding claim_loop
  loop_leaves jobs claimed [] jobs' claimed' q j found keep h = ground arith
  loop_leaves jobs claimed (r ∷ rs) jobs' claimed' q j found keep h =
      elim (Bool-cases (leb c.limit (length claimed))) [
        | inl full ↦ ground arith
        | inr room ↦ elim (Option-cases (lookup r jobs)) [
          | inl gone ↦ absurd (ground arith)
          | inr (i, at) ↦ elim (Bool-cases (is_claimable c i)) [
            | inr skip ↦ loop_leaves jobs claimed rs jobs' claimed' q j found keep (ground arith)
            | inl take ↦
                loop_leaves (insert r (take_job c now i) jobs)
                  (claimed ++ handed (take_job c now i) ∷ []) rs jobs' claimed' q j
                  (rw (lookup-insert r q (take_job c now i) jobs) (ground (arith, eq_iff r q))) keep
                  (ground arith)
          ]
        ]
      ]

  -- A claim leaves every job alone that is not queued in its pool; so a run that one worker holds is
  -- never handed to another before it is queued again.
  pub claim_leaves :
      (m m' : MemoryStore) (claimed : List Job) (q : String) (j : FleetJob)
      → lookup q m.jobs ≡ some j
      → is_claimable c j ≡ false
      → claim_jobs m c now ≡ some (m', claimed)
      → lookup q m'.jobs ≡ some j
  unfolding claim_jobs
  claim_leaves m m' claimed q j found keep h =
      elim (Option-cases (claim_loop c now m.jobs [] m.order)) [
        | inl gone ↦ absurd (ground arith)
        | inr ((jobs', taken), e) ↦
            ground (arith, loop_leaves m.jobs [] m.order jobs' taken q j found keep e)
      ]

  -- The work that a job carries.
  abbrev pub SameWork : Job → FleetJob → Type 0
  SameWork x j =
      (x.run_id ≡ j.run_id)
      × (x.attempt ≡ j.attempt)
      × (x.tier ≡ j.tier)
      × (x.pool ≡ j.pool)
      × (x.spec ≡ j.spec)
      × (x.lease_token ≡ j.lease_token)

  -- A handed job is that of a run which waited in the claimed pool. It carries the work of that run
  -- and the next fence token, under which the run is now stored as running for the claiming worker.
  pub record Held (before after : Jobs) (x : Job) : Type 0 where
    pub was : FleetJob
    pub is : FleetJob
    pub was_found : lookup x.run_id before ≡ some was
    pub was_waiting : (was.status ≡ queued) × (was.pool ≡ c.pool)
    pub same_work : SameWork x was × SameWork x is
    pub next_fence : x.fence_token ≡ was.fence_token + 1
    pub found : lookup x.run_id after ≡ some is
    pub is_held : (is.status ≡ running) × (is.claimed_by ≡ c.worker_id)
    pub under_fence : is.fence_token ≡ x.fence_token
    pub since : (is.claimed_at ≡ some now) × (is.last_heartbeat ≡ now)

  -- The claim has not touched the jobs that it could still take.
  abbrev Untaken : Jobs → Jobs → Type 0
  Untaken before jobs =
      (r : String) (i : FleetJob)
      → lookup r jobs ≡ some i
      → is_claimable c i ≡ true
      → lookup r before ≡ some i

  take-Untaken :
      (before jobs : Jobs) (r : String) (i : FleetJob)
      → Untaken before jobs
      → Untaken before (insert r (take_job c now i) jobs)
  unfolding is_claimable take_job
  take-Untaken before jobs r i h q j found take = elim (Bool-cases (r == q)) [
    | inl e ↦
        let same : take_job c now i ≡ j =
          some_inj.0 (sym (lookup-insert r q (take_job c now i) jobs ∙ rw e refl) ∙ found) in
        absurd (ground (arith, ap (λ (x : FleetJob). x.status) same))
    | inr n ↦ h q j (sym (lookup-insert r q (take_job c now i) jobs ∙ rw n refl) ∙ found) take
  ]

  Held-insert :
      (before jobs : Jobs) (r : String) (i j : FleetJob) (x : Job)
      → lookup r jobs ≡ some i
      → is_claimable c i ≡ true
      → Held before jobs x
      → Held before (insert r j jobs) x
  unfolding is_claimable
  Held-insert before jobs r i j x at take h = record {
    was = h.was;
    is = h.is;
    was_found = h.was_found;
    was_waiting = h.was_waiting;
    same_work = h.same_work;
    next_fence = h.next_fence;
    is_held = h.is_held;
    under_fence = h.under_fence;
    since = h.since;
    found =
        rw (lookup-insert r x.run_id j jobs)
          (ground (arith, eq_iff r x.run_id, h.found, h.is_held.0));
  }

  All-Held-insert :
      (before jobs : Jobs) (r : String) (i j : FleetJob) (xs : List Job)
      → lookup r jobs ≡ some i
      → is_claimable c i ≡ true
      → All (Held before jobs) xs
      → All (Held before (insert r j jobs)) xs
  All-Held-insert before jobs r i j [] at take h = tt
  All-Held-insert before jobs r i j (x ∷ xs) at take (here, rest) = (
    Held-insert before jobs r i j x at take here,
    All-Held-insert before jobs r i j xs at take rest,
  )

  take-Held :
      (before jobs : Jobs) (r : String) (i : FleetJob)
      → i.run_id ≡ r
      → lookup r before ≡ some i
      → is_claimable c i ≡ true
      → Held before (insert r (take_job c now i) jobs) (handed (take_job c now i))
  unfolding take_job handed is_claimable
  take-Held before jobs r i own found take = record {
    was = i;
    is = take_job c now i;
    was_found = ap (λ k. lookup k before) own ∙ found;
    was_waiting = (ground arith, ground (arith, eq_iff i.pool c.pool));
    same_work = ((refl, refl, refl, refl, refl, refl), (refl, refl, refl, refl, refl, refl));
    next_fence = refl;
    found =
        ap (λ k. lookup k (insert r (take_job c now i) jobs)) own
        ∙ lookup-insert_self r (take_job c now i) jobs;
    is_held = (refl, refl);
    under_fence = refl;
    since = (refl, refl);
  }

  -- The outcome of the loop.
  abbrev Holds : Jobs → Option (Jobs × List Job) → Type 0
  Holds before none = Unit
  Holds before (some (jobs, claimed)) = All (Held before jobs) claimed × (length claimed ≤ c.limit)

  loop-Holds :
      (before jobs : Jobs) (claimed : List Job) (rs : List String)
      → Keyed before
      → Untaken before jobs
      → All (Held before jobs) claimed
      → length claimed ≤ c.limit
      → Holds before (claim_loop c now jobs claimed rs)
  unfolding claim_loop
  loop-Holds before jobs claimed [] keyed new h le = (h, le)
  loop-Holds before jobs claimed (r ∷ rs) keyed new h le =
      elim (Bool-cases (leb c.limit (length claimed))) [
        | inl full ↦ rw (full, claim_loop) (h, le)
        | inr room ↦ elim (Option-cases (lookup r jobs)) [
          | inl gone ↦ rw (room, gone, claim_loop) tt
          | inr (i, at) ↦ elim (Bool-cases (is_claimable c i)) [
            | inr skip ↦
                rw (room, at, skip, claim_loop) (loop-Holds before jobs claimed rs keyed new h le)
            | inl take ↦
                let i' = take_job c now i in
                let jobs' = insert r i' jobs in
                let first = new r i at take in
                rw (room, at, take, claim_loop)
                  (loop-Holds before jobs' (claimed ++ handed i' ∷ []) rs keyed
                    (take-Untaken before jobs r i new)
                    (All-append (Held before jobs') claimed (handed i' ∷ [])
                      (All-Held-insert before jobs r i i' claimed at take h)
                      (take-Held before jobs r i (keyed r i first) first take, tt))
                    (rw (length-append claimed (handed i' ∷ [])) (ground arith)))
          ]
        ]
      ]

  -- A claim on a store that operations built from the empty one hands out no more jobs than its
  -- limit. Each of them waited in the claimed pool, and carries the work of its run and the fence
  -- token after the run's last one; the run is stored with that token as running, held by the
  -- claiming worker from now on.
  pub claim_holds :
      (digest : TestResults → String) (os : List Op) (m m' : MemoryStore) (claimed : List Job)
      → run digest new_memory_store os ≡ some m
      → claim_jobs m c now ≡ some (m', claimed)
      → All (Held m.jobs m'.jobs) claimed × (length claimed ≤ c.limit)
  unfolding claim_jobs
  claim_holds digest os m m' claimed built h =
      elim (Option-cases (claim_loop c now m.jobs [] m.order)) [
        | inl gone ↦ absurd (ground arith)
        | inr ((jobs', taken), e) ↦
            subst₂ (λ a b. All (Held m.jobs a) b × (length b ≤ c.limit)) (ground arith)
              (ground arith)
              (subst (Holds m.jobs) e (
                loop-Holds m.jobs m.jobs [] m.order (reached-Keyed digest os m built)
                  (λ r i found take. found) tt (omega arith)))
      ]
