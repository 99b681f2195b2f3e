-- ===== src/Fleet/Store/Guarantees.antt =====
-- The fencing guarantees of the store over any sequence of operations (store/memory.go).
use cisync.Prelude.{
  ◌<◌, ◌≡◌, ◌≢◌, String, true, false, not, ◌||◌, none, some, List, string_eq, ◌==◌, nat_eq,
  nat_beq_iff, arith, refl, ap, ◌∙◌, ◌⊎◌, false, inl, inr, Bool-cases, Option-cases,
}
use cisync.Prelude.Maps.{lookup, insert, lookup-insert, lookup-insert_self}
use cisync.Fleet.Job.{
  Time, running, is_terminal, is_running, FleetJob, Completion, TestResults, fence_mismatch,
  already_accepted, not_found, duplicate_run, FleetError, result_ref,
}
use cisync.Fleet.Store.{MemoryStore, finish_job, complete}
use cisync.Fleet.Store.History.{Op, run, run-Follows}

module _ (digest : TestResults → String) where
  -- Once a job's status is terminal its record never changes again, whatever operations follow:
  -- claims, heartbeats, completions, cancellations, sweeps and further enqueues of its run.
  pub terminal_frozen :
      (m : MemoryStore) (os : List Op) (m' : MemoryStore) (r : String) (j : FleetJob)
      → lookup r m.jobs ≡ some j
      → is_terminal j.status ≡ true
      → run digest m os ≡ some m'
      → lookup r m'.jobs ≡ some j
  terminal_frozen m os m' r j found over h =
      let (j', found', s) = run-Follows digest m os m' h r j found in rw (← s.frozen over) found'

  -- A completion with another fence token than the stored job's is refused.
  complete_rejects :
      (m : MemoryStore) (r : String) (c : Completion) (now : Time) (j : FleetJob)
      → lookup r m.jobs ≡ some j
      → c.fence_token ≢ j.fence_token
      → (e : FleetError) × (complete digest m r c now ≡ (m, some e))
  unfolding complete
  complete_rejects m r c now j found stale = elim (Bool-cases j.accepted) [
    | inl old ↦ (already_accepted, rw (found, old, complete))
    | inr new ↦ (fence_mismatch, rw (found, new, complete) (ground arith))
  ]

  -- A completion that carries an older fence token than the job had at some point is refused at
  -- every later point, and changes nothing.
  pub stale_completion_refused :
      (m : MemoryStore) (os : List Op) (m' : MemoryStore) (r : String) (j : FleetJob)
      (c : Completion) (now : Time)
      → lookup r m.jobs ≡ some j
      → c.fence_token < j.fence_token
      → run digest m os ≡ some m'
      → (e : FleetError) × (complete digest m' r c now ≡ (m', some e))
  stale_completion_refused m os m' r j c now found stale h =
      let (j', found', s) = run-Follows digest m os m' h r j found in
      complete_rejects m' r c now j' found' (omega (arith, s.fenced))

  -- The branch of `Complete` that stores a result.
  complete_ok :
      (m : MemoryStore) (r : String) (c : Completion) (now : Time)
      → (complete digest m r c now).1 ≡ none
      → (j : FleetJob) × (lookup r m.jobs ≡ some j)
        × (j.status ≡ running)
        × (j.fence_token ≡ c.fence_token)
        × (j.accepted ≡ false)
        × ((complete digest m r c now).0
            ≡ record m { jobs = insert r (finish_job digest c now j) m.jobs })
  unfolding complete
  complete_ok m r c now h = elim (Option-cases (lookup r m.jobs)) [
    | inl gone ↦ absurd (ground arith)
    | inr (j, found) ↦ elim (Bool-cases j.accepted) [
      | inl old ↦ absurd (ground arith)
      | inr new ↦
          elim (Bool-cases (not (is_running j.status) || not (j.fence_token == c.fence_token))) [
            | inl bad ↦ absurd (ground arith)
            | inr good ↦
                (j, found, ground arith, ground arith, new, rw (found, new, good, complete))
          ]
    ]
  ]

  -- What `Complete` makes of the store when it takes a result: the run's job was running, not
  -- accepted, and held under the completion's fence token; it is stored with the status, the time and
  -- the document of the result, accepted, and unchanged else, and nothing else is changed.
  pub record Completes (m m' : MemoryStore) (r : String) (c : Completion) (now : Time)
      : Type 0 where
    pub was : FleetJob
    pub is : FleetJob
    pub was_found : lookup r m.jobs ≡ some was
    pub was_running : was.status ≡ running
    pub was_open : was.accepted ≡ false
    pub was_held : was.fence_token ≡ c.fence_token
    pub found : lookup r m'.jobs ≡ some is
    pub ends : (is.status ≡ c.status) × (is.finished_at ≡ some now)
    pub is_accepted : is.accepted ≡ true
    pub document : is.result_ref ≡ some (result_ref digest c)
    pub run : (is.id ≡ was.id) × (is.run_id ≡ was.run_id) × (is.attempt ≡ was.attempt)
    pub place : (is.tier ≡ was.tier) × (is.pool ≡ was.pool) × (is.spec ≡ was.spec)
    pub lease : (is.fence_token ≡ was.fence_token) × (is.lease_token ≡ was.lease_token)
    pub holder : (is.claimed_by ≡ was.claimed_by) × (is.claimed_at ≡ was.claimed_at)
    pub times : (is.last_heartbeat ≡ was.last_heartbeat) × (is.created_at ≡ was.created_at)
    pub others : (q : String) → (r == q) ≡ false → lookup q m'.jobs ≡ lookup q m.jobs
    pub rest : (m'.order ≡ m.order) × (m'.workers ≡ m.workers) × (m'.next_id ≡ m.next_id)

  -- When `Complete` answers an error.
  abbrev pub Refuses : MemoryStore → String → Completion → FleetError → Type 0
  Refuses m r c not_found = lookup r m.jobs ≡ none
  Refuses m r c already_accepted = (j : FleetJob) × (lookup r m.jobs ≡ some j) × (j.accepted ≡ true)
  Refuses m r c fence_mismatch =
      (j : FleetJob) × (lookup r m.jobs ≡ some j)
      × (j.accepted ≡ false)
      × ((j.status ≢ running) ⊎ (j.fence_token ≢ c.fence_token))
  Refuses m r c duplicate_run = ⊥

  ended :
      (m : MemoryStore) (r : String) (c : Completion) (now : Time) (j : FleetJob)
      → lookup r m.jobs ≡ some j
      → j.status ≡ running
      → j.fence_token ≡ c.fence_token
      → j.accepted ≡ false
      → Completes m (record m { jobs = insert r (finish_job digest c now j) m.jobs }) r c now
  unfolding finish_job
  ended m r c now j found goes held new = record {
    was = j;
    is = finish_job digest c now j;
    was_found = found;
    was_running = goes;
    was_open = new;
    was_held = held;
    found = lookup-insert_self r (finish_job digest c now j) m.jobs;
    ends = (refl, refl);
    is_accepted = refl;
    document = refl;
    run = (refl, refl, refl);
    place = (refl, refl, refl);
    lease = (refl, refl);
    holder = (refl, refl);
    times = (refl, refl);
    others = λ q differ. lookup-insert r q (finish_job digest c now j) m.jobs ∙ rw differ refl;
    rest = (refl, refl, refl);
  }

  mismatch :
      (j : FleetJob) (c : Completion)
      → (not (is_running j.status) || not (j.fence_token == c.fence_token)) ≡ true
      → (j.status ≢ running) ⊎ (j.fence_token ≢ c.fence_token)
  mismatch j c bad = elim (Bool-cases (is_running j.status)) [
    | inr idle ↦ inl (λ e. absurd (cc (ap is_running e)))
    | inl goes ↦ inr (λ e. absurd (ground (arith, nat_beq_iff j.fence_token c.fence_token)))
  ]

  -- `Complete` either takes the result, if and only as `Completes` says, or answers an error, for
  -- the reason that `Refuses` gives of it, and leaves the store as it is.
  pub complete_lem :
      (m : MemoryStore) (r : String) (c : Completion) (now : Time)
      → (((complete digest m r c now).1 ≡ none) × Completes m (complete digest m r c now).0 r c now)
        ⊎ ((e : FleetError) × (complete digest m r c now ≡ (m, some e)) × Refuses m r c e)
  unfolding complete
  complete_lem m r c now = elim (Option-cases (lookup r m.jobs)) [
    | inl gone ↦ inr (not_found, rw (gone, complete) refl, gone)
    | inr (j, found) ↦ elim (Bool-cases j.accepted) [
      | inl old ↦ inr (already_accepted, rw (found, old, complete) refl, (j, found, old))
      | inr new ↦
          elim (Bool-cases (not (is_running j.status) || not (j.fence_token == c.fence_token))) [
            | inl bad ↦ inr (
              fence_mismatch,
              rw (found, new, bad, complete) refl,
              (j, found, new, mismatch j c bad),
            )
            | inr good ↦ inl (
              rw (found, new, good, complete) refl,
              rw (found, new, good, complete)
                  (ended m r c now j found (ground arith) (ground arith) new),
            )
          ]
    ]
  ]

  -- At most one result is accepted for a run: after a completion with a terminal status has been
  -- accepted, every later completion of that run, with any fence token and after any operations,
  -- is answered with ErrAlreadyAccepted and changes nothing.
  pub accepted_once :
      (m : MemoryStore) (r : String) (c : Completion) (now : Time) (os : List Op) (m' : MemoryStore)
      (c' : Completion) (now' : Time)
      → (complete digest m r c now).1 ≡ none
      → is_terminal c.status ≡ true
      → run digest (complete digest m r c now).0 os ≡ some m'
      → complete digest m' r c' now' ≡ (m', some already_accepted)
  unfolding complete finish_job
  accepted_once m r c now os m' c' now' done over h =
      let (j, found, _, _, _, e) = complete_ok m r c now done in
      let stored : lookup r (complete digest m r c now).0.jobs ≡ some (finish_job digest c now j) =
        rw e (lookup-insert_self r (finish_job digest c now j) m.jobs) in
      let later : lookup r m'.jobs ≡ some (finish_job digest c now j) =
        terminal_frozen (complete digest m r c now).0 os m' r (finish_job digest c now j) stored
          over h in
      rw (later, complete)
