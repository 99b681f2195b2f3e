-- ===== src/Fleet/Store/Evolution.antt =====
-- How one job changes under the store's operations (store/memory.go).
use cisync.Prelude.{
  ℕ, ◌≤◌, ◌≡◌, refl, ◌∙◌, subst, String, true, false, none, some, List, [], ◌∷◌, ◌++◌, string_eq,
  ◌==◌, leb, nat_eq, length, arith, inl, inr, Bool-cases, Option-cases, eq_iff,
}
use cisync.Prelude.Maps.{lookup, insert, lookup-insert}
use cisync.Fleet.Job.{Time, is_terminal, is_running, Job, FleetJob, Claim, Completion, TestResults}
use cisync.Fleet.Store.{
  Jobs, take_job, handed, is_claimable, claim_loop, finish_job, cancel_job, requeue_job, is_stale,
  requeue_loop,
}

-- What may happen to a stored job.
pub record Advances (j j' : FleetJob) : Type 0 where
  pub fenced : j.fence_token ≤ j'.fence_token
  pub frozen : is_terminal j.status ≡ true → j' ≡ j

Advances-refl : (j : FleetJob) → Advances j j
Advances-refl j = record { fenced = omega arith; frozen = λ t. refl }

-- Every stored job stays stored, under its key, and only advances.
abbrev pub Follows : Jobs → Jobs → Type 0
Follows jobs jobs' =
    (q : String) (j : FleetJob)
    → lookup q jobs ≡ some j
    → (j' : FleetJob) × (lookup q jobs' ≡ some j') × Advances j j'

pub Follows-refl : (jobs : Jobs) → Follows jobs jobs
Follows-refl jobs q j h = (j, h, Advances-refl j)

pub Follows-trans : (a b c : Jobs) → Follows a b → Follows b c → Follows a c
Follows-trans a b c f g q j h =
    let (j', h', s) = f q j h in
    let (j'', h'', s') = g q j' h' in
    (
      j'',
      h'',
      record {
        fenced = omega (arith, s.fenced, s'.fenced);
        frozen = λ t. s'.frozen (rw (s.frozen t) t) ∙ s.frozen t;
      },
    )

-- A write that advances the job it replaces.
pub insert-Follows :
    (jobs : Jobs) (r : String) (j j' : FleetJob)
    → lookup r jobs ≡ some j
    → Advances j j'
    → Follows jobs (insert r j' jobs)
insert-Follows jobs r j j' found s q i h = elim (Bool-cases (r == q)) [
  | inl e ↦
      let ji : j ≡ i = cc ((eq_iff r q).0 e) in
      (j', rw (lookup-insert r q j' jobs, e), subst (λ x. Advances x j') ji s)
  | inr n ↦ (i, rw (lookup-insert r q j' jobs, n) h, Advances-refl i)
]

-- A write at a key that was absent.
pub insert_new-Follows :
    (jobs : Jobs) (r : String) (j' : FleetJob)
    → lookup r jobs ≡ none
    → Follows jobs (insert r j' jobs)
insert_new-Follows jobs r j' absent q i h = elim (Bool-cases (r == q)) [
  | inl e ↦ cc ((eq_iff r q).0 e)
  | inr n ↦ (i, rw (lookup-insert r q j' jobs, n) h, Advances-refl i)
]

-- Each write of the store advances the job.
take_job-Advances :
    (c : Claim) (now : Time) (j : FleetJob)
    → is_claimable c j ≡ true
    → Advances j (take_job c now j)
unfolding take_job is_claimable is_terminal
take_job-Advances c now j h = ground arith

pub finish_job-Advances :
    (digest : TestResults → String) (c : Completion) (now : Time) (j : FleetJob)
    → is_running j.status ≡ true
    → Advances j (finish_job digest c now j)
unfolding finish_job is_terminal
finish_job-Advances digest c now j h = ground arith

pub cancel_job-Advances :
    (reason : String) (now : Time) (j : FleetJob)
    → is_terminal j.status ≡ false
    → Advances j (cancel_job reason now j)
unfolding cancel_job
cancel_job-Advances reason now j h = ground arith

requeue_job-Advances :
    (threshold : ℕ) (now : Time) (j : FleetJob)
    → is_stale threshold now j ≡ true
    → Advances j (requeue_job j)
unfolding requeue_job is_stale is_terminal
requeue_job-Advances threshold now j h = ground arith

pub heartbeat_job-Advances :
    (now : Time) (j : FleetJob)
    → is_running j.status ≡ true
    → Advances j (record j { last_heartbeat = now })
unfolding is_terminal
heartbeat_job-Advances now j h = ground arith

pub same-Follows : (a b : Jobs) → a ≡ b → Follows a b
same-Follows a b e = subst (Follows a) e (Follows-refl a)

pub claim_loop-Follows :
    (c : Claim) (now : Time) (jobs : Jobs) (claimed : List Job) (rs : List String) (jobs' : Jobs)
    (claimed' : List Job)
    → claim_loop c now jobs claimed rs ≡ some (jobs', claimed')
    → Follows jobs jobs'
unfolding claim_loop
claim_loop-Follows c now jobs claimed [] jobs' claimed' h = same-Follows jobs jobs' (ground arith)
claim_loop-Follows c now jobs claimed (r ∷ rs) jobs' claimed' h =
    elim (Bool-cases (leb c.limit (length claimed))) [
      | inl full ↦ same-Follows jobs jobs' (ground arith)
      | inr room ↦ elim (Option-cases (lookup r jobs)) [
        | inl gone ↦ absurd (ground arith)
        | inr (j, found) ↦ elim (Bool-cases (is_claimable c j)) [
          | inl take ↦
              let jobs'' = insert r (take_job c now j) jobs in
              Follows-trans jobs jobs'' jobs'
                (insert-Follows jobs r j (take_job c now j) found (take_job-Advances c now j take))
                (claim_loop-Follows c now jobs'' (claimed ++ handed (take_job c now j) ∷ []) rs
                  jobs' claimed' (ground arith))
          | inr skip ↦ claim_loop-Follows c now jobs claimed rs jobs' claimed' (ground arith)
        ]
      ]
    ]

pub requeue_loop-Follows :
    (threshold : ℕ) (now : Time) (jobs : Jobs) (requeued rs : List String) (jobs' : Jobs)
    (requeued' : List String)
    → requeue_loop threshold now jobs requeued rs ≡ some (jobs', requeued')
    → Follows jobs jobs'
unfolding requeue_loop
requeue_loop-Follows threshold now jobs requeued [] jobs' requeued' h =
    same-Follows jobs jobs' (ground arith)
requeue_loop-Follows threshold now jobs requeued (r ∷ rs) jobs' requeued' h =
    elim (Option-cases (lookup r jobs)) [
      | inl gone ↦ absurd (ground arith)
      | inr (j, found) ↦ elim (Bool-cases (is_stale threshold now j)) [
        | inl stale ↦
            let jobs'' = insert r (requeue_job j) jobs in
            Follows-trans jobs jobs'' jobs'
              (insert-Follows jobs r j (requeue_job j) found
                (requeue_job-Advances threshold now j stale))
              (requeue_loop-Follows threshold now jobs'' (requeued ++ r ∷ []) rs jobs' requeued'
                (ground arith))
        | inr fresh ↦
            requeue_loop-Follows threshold now jobs requeued rs jobs' requeued' (ground arith)
      ]
    ]
