-- ===== src/Fleet/LeaseGate.antt =====
-- services/runner-fleet/internal/execute/lease_gate.go, execute/complete.go (`heartbeatOnce`) and
-- internal/api/lease_auth.go: who may change a job. A verifier is the parameter `Verifier`: the
-- Ed25519 and claim checks of a token, which answer its claims or fail.
use cisync.Prelude.{
  ℕ, ◌<◌, ◌≡◌, String, Bool, true, false, not, ◌&&◌, ◌||◌, Option, none, some, List, string_eq,
  nat_eq, ◌==◌, sym, ap, ◌∙◌, refl, inl, inr, Bool-cases, if◌then◌else◌, arith,
}
use cisync.Prelude.Int.{ℤ, pos, pos_part, eq_int}
use cisync.Prelude.Maps.{lookup}
use cisync.Fleet.Job.{Time, Job, FleetJob, TestResults, fence_mismatch}
use cisync.Fleet.Store.{MemoryStore, get, heartbeat}
use cisync.Fleet.Store.History.{Op, run, run-Follows}

pub record Claims : Type 0 where
  pub audience : String
  pub id : String
  pub run_id : String
  pub attempt : ℤ
  pub fence_token : ℤ
  pub repo : String
  pub tier : ℤ
  pub issued_at : ℤ
  pub expires_at : ℤ

abbrev pub Verifier : Type 0
Verifier = String → Option Claims

-- The three equations that `authorizeInternal` returns.
unfoldable pub binds : Claims → Job → Bool
binds claims job =
    claims.run_id == job.run_id
    && (eq_int claims.attempt job.attempt && eq_int claims.fence_token (pos job.fence_token))

-- A nil verifier is `none`.
unfoldable pub authorize_internal : Option Verifier → Job → Bool
unfolding binds
authorize_internal none job = false
authorize_internal (some verify) job =
    if job.lease_token == ""
    then false
    else elim (verify job.lease_token) [ none ↦ false | some claims ↦ binds claims job ]

-- The executor's heartbeat behind the gate: the new store, and whether it was accepted.
unfoldable pub heartbeat_once : Option Verifier → MemoryStore → Job → Time → MemoryStore × Bool
unfolding authorize_internal
heartbeat_once verifier m job now =
    if not (authorize_internal verifier job)
    then (m, false)
    else let (m', e) = heartbeat m job.run_id job.fence_token now in
      (m', elim e [ none ↦ true | some _ ↦ false ])

-- The answers of `authorizeJobMutation`.
pub data Ruling : Type 0 where
  authorized : Claims → Ruling
  not_configured missing_token invalid_token unknown_run not_bound : Ruling

-- `token` is what the Authorization header carries, if it parses.
unfoldable pub authorize_job_mutation :
    Option Verifier → Option String → MemoryStore → String → Ruling
authorize_job_mutation none token m run_id = not_configured
authorize_job_mutation (some verify) none m run_id = missing_token
authorize_job_mutation (some verify) (some token) m run_id = elim (verify token) [
  | none ↦ invalid_token
  | some claims ↦ elim (get m run_id) [
    | none ↦ unknown_run
    | some job ↦
        if not (claims.run_id == run_id) || not (eq_int claims.attempt job.attempt)
        then not_bound
        else authorized claims
  ]
]

-- A copy of a job passes the executor's gate only with a lease for its run, attempt and fence token.
binds-fence :
    (claims : Claims) (job : Job)
    → binds claims job ≡ true
    → claims.fence_token ≡ pos job.fence_token
unfolding binds
binds-fence claims job h = ground arith

passes-fence :
    (verify : Verifier) (x : Job) (claims : Claims) (f : ℕ)
    → claims.fence_token ≡ pos f
    → verify x.lease_token ≡ some claims
    → authorize_internal (some verify) x ≡ true
    → x.fence_token ≡ f
unfolding authorize_internal
passes-fence verify x claims f bound v h =
    let same = binds-fence claims x (ground arith) in pos_inj (sym same ∙ bound)
  where
    pos_inj : {a b : ℕ} → pos a ≡ pos b → a ≡ b
    pos_inj e = ap pos_part e

-- A heartbeat with another fence token than the stored one.
mismatched :
    (m : MemoryStore) (r : String) (f : ℕ) (now : Time) (j : FleetJob)
    → lookup r m.jobs ≡ some j
    → f < j.fence_token
    → heartbeat m r f now ≡ (m, some fence_mismatch)
unfolding heartbeat
mismatched m r f now j found past = rw (found, heartbeat) (ground arith)

-- A lease binds its holder to one fence token. Once the run's token has passed the lease's, no worker
-- with this lease keeps the job alive, whatever copy of the run's job it holds and after any
-- operations of the store: a copy with another token does not pass the executor's gate, and the
-- heartbeat of one that does is refused by the store, which stays as it is.
pub reclaimed_refused :
    (digest : TestResults → String) (verify : Verifier) (m : MemoryStore) (os : List Op)
    (m' : MemoryStore) (j : FleetJob) (x : Job) (claims : Claims) (f : ℕ) (now : Time)
    → lookup x.run_id m.jobs ≡ some j
    → f < j.fence_token
    → claims.fence_token ≡ pos f
    → run digest m os ≡ some m'
    → verify x.lease_token ≡ some claims
    → (authorize_internal (some verify) x ≡ true → x.fence_token ≡ f)
      × (heartbeat_once (some verify) m' x now ≡ (m', false))
unfolding heartbeat_once
reclaimed_refused digest verify m os m' j x claims f now found past bound h v = (
  passes-fence verify x claims f bound v,
  elim (Bool-cases (authorize_internal (some verify) x)) [
    | inr stopped ↦ rw (stopped, heartbeat_once) refl
    | inl passed ↦
        let (i, found', s) = run-Follows digest m os m' h x.run_id j found in
        let token = passes-fence verify x claims f bound v passed in
        let refused =
          mismatched m' x.run_id x.fence_token now i found' (omega (arith, token, s.fenced)) in
        rw (passed, refused, heartbeat_once) refl
  ],
)
