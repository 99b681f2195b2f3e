-- ===== src/Fleet/Job.antt =====
-- services/runner-fleet/internal/domain/job.go and the stored types of internal/store/store.go.
use cisync.Prelude.{
  ℕ, String, Bool, true, false, not, Option, none, some, List, [], ◌∷◌, ◌++◌, string_eq, ◌==◌,
}
use cisync.Prelude.Int.{ℤ, ◌+ℤ◌}

abbrev pub Time : Type 0
Time = ℕ

-- A status string: the six constants, and any other text.
pub data Status : Type 0 where
  queued running succeeded failed timed_out cancelled : Status
  other : String → Status

unfoldable pub is_terminal : Status → Bool
is_terminal succeeded = true
is_terminal failed = true
is_terminal timed_out = true
is_terminal cancelled = true
is_terminal _ = false

-- The tests `Status == StatusQueued` and `Status == StatusRunning`.
abbrev pub is_queued : Status → Bool
is_queued queued = true
is_queued _ = false

abbrev pub is_running : Status → Bool
is_running running = true
is_running _ = false

pub record SimProfile : Type 0 where
  pub duration_ms : ℤ
  pub outcome_bias : String

pub record JobSpec : Type 0 where
  pub kind : String
  pub repo : String
  pub base_sha : String
  pub head_sha : String
  pub patch_ref : String
  pub inputs_hash : String
  pub timeout_ms : ℤ
  pub sim_profile : Option SimProfile
  pub pre_fetched_bundle_ref : String

-- A fence token only ever counts up from 0.
pub record Job : Type 0 where
  pub run_id : String
  pub attempt : ℤ
  pub fence_token : ℕ
  pub tier : ℤ
  pub pool : String
  pub spec : JobSpec
  pub lease_token : String

pub record TestResults : Type 0 where
  pub total : ℤ
  pub passed : ℤ
  pub failed : ℤ
  pub skipped : ℤ
  pub quarantined : ℤ

unfoldable pub sum : TestResults → ℤ
sum r = r.passed +ℤ r.failed +ℤ r.skipped +ℤ r.quarantined

pub record Completion : Type 0 where
  pub fence_token : ℕ
  pub status : Status
  pub logs_digest : String
  pub artifact_digests : List String
  pub duration_ms : ℤ
  pub actual_cost_millicents : ℤ
  pub classification : String
  pub logs_excerpt : String
  pub results : Option TestResults

-- The values of a stored result document.
pub data RefValue : Type 0 where
  status_text : Status → RefValue
  text : String → RefValue
  number : ℤ → RefValue
  texts : List String → RefValue
  census : TestResults → RefValue
  time : Time → RefValue

abbrev pub ResultDoc : Type 0
ResultDoc = List (String × RefValue)

abbrev pub when_doc : Bool → ResultDoc → ResultDoc
when_doc true d = d
when_doc false d = []

abbrev is_empty : List String → Bool
is_empty [] = true
is_empty (x ∷ xs) = false

-- `digest` is the sha256 of the census's JSON text, with its prefix; marshalling five integers
-- does not fail.
unfoldable pub result_ref : (TestResults → String) → Completion → ResultDoc
result_ref digest c =
    (("status", status_text c.status)
      ∷ ("logs_digest", text c.logs_digest)
      ∷ ("duration_ms", number c.duration_ms)
      ∷ ("cost_millicents", number c.actual_cost_millicents)
      ∷ [])
    ++ (when_doc (not (c.classification == "")) (("class", text c.classification) ∷ [])
        ++ (when_doc (not (is_empty c.artifact_digests))
              (("artifact_digests", texts c.artifact_digests) ∷ [])
            ++ (when_doc (not (c.logs_excerpt == "")) (("logs_excerpt", text c.logs_excerpt) ∷ [])
                ++ (elim c.results [
                  | none ↦ []
                  | some r ↦ ("results", census r) ∷ ("results_digest", text (digest r)) ∷ []
                ]))))

-- `id` is the number that `job_%08d` renders; an absent time is `time.Time{}`, an absent document nil.
pub record FleetJob : Type 0 where
  pub id : ℕ
  pub run_id : String
  pub attempt : ℤ
  pub tier : ℤ
  pub pool : String
  pub status : Status
  pub fence_token : ℕ
  pub claimed_by : String
  pub claimed_at : Option Time
  pub last_heartbeat : Time
  pub finished_at : Option Time
  pub result_ref : Option ResultDoc
  pub accepted : Bool
  pub spec : JobSpec
  pub lease_token : String
  pub created_at : Time

-- A negative limit would act as 0 in the loops that test it.
pub record Claim : Type 0 where
  pub pool : String
  pub provider : String
  pub limit : ℕ
  pub worker_id : String

-- domain/errors.go
pub data FleetError : Type 0 where
  not_found fence_mismatch already_accepted duplicate_run : FleetError
