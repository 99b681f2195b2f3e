-- ===== src/Ledger.antt =====
-- services/control-plane/internal/verify/verifier.go and scheduler.go, with `ComputeEntryHash` of
-- domain/event.go. The rows that the queries return are arguments; a text is the list of its bytes.
-- SHA-256 in hexadecimal digits and the check of a checkpoint's signature are parameters.
pub mod Laws
pub mod Numbers
pub mod History
use cisync.Prelude.{
  ℕ, zero, suc, ◌+◌, String, Bool, true, false, not, ◌&&◌, ◌||◌, Option, none, some, List, [], ◌∷◌,
  ◌++◌, if◌then◌else◌, nat_beq, ltb, length, take,
}
use cisync.Prelude.Int.{ℤ}
use cisync.Policy.Glob.{Bytes, bytes}
use cisync.JobLease.{show}

-- `==` of Go on texts.
unfoldable pub same_text : Bytes → Bytes → Bool
same_text [] [] = true
same_text (a ∷ s) (b ∷ t) = nat_beq a b && same_text s t
same_text s t = false

pub record Row : Type 0 where
  pub seq : ℤ
  pub id : Bytes
  pub type : Bytes
  pub version : ℤ
  pub payload_sha : Bytes
  pub prev_hash : Bytes
  pub entry_hash : Bytes

pub record Checkpoint : Type 0 where
  pub seq : ℤ
  pub entry_hash : Bytes
  pub sig : Bytes

abbrev pub hash_prefix : Bytes
hash_prefix = bytes "sha256:"

abbrev pub drop : ℕ → Bytes → Bytes
drop zero s = s
drop (suc n) [] = []
drop (suc n) (x ∷ s) = drop n s

unfoldable pub trim_hash_prefix : Bytes → Bytes
unfolding same_text
trim_hash_prefix s = if ltb 7 (length s) && same_text (take 7 s) hash_prefix then drop 7 s else s

abbrev pub field : Bytes → Bytes → Bytes
field s rest = s ++ (124 ∷ rest)

-- The text `%d|%s|%s|%d|%s|%s` that is hashed.
unfoldable pub hashed_text : Row → Bytes
unfolding trim_hash_prefix show
hashed_text r = field (bytes (show r.seq)) (
    field r.id (
      field r.type (
        field (bytes (show r.version))
          (field (trim_hash_prefix r.payload_sha) (trim_hash_prefix r.prev_hash)))))

pub data LedgerError : Type 0 where
  chain_broken checkpoint_invalid : LedgerError

pub record Report : Type 0 where
  pub entries : ℕ
  pub checkpoints : ℕ
  pub ok : Bool
  pub error : Option LedgerError

abbrev pub start : Report
start = record { entries = 0; checkpoints = 0; ok = false; error = none }

abbrev pub fails : Report → LedgerError → Report
fails rep e = record rep { error = some e }

abbrev pub is_empty : Bytes → Bool
is_empty [] = true
is_empty (x ∷ s) = false

abbrev pub signed_by : Option (ℤ → Bytes → Bytes → Bool) → Checkpoint → Bool
signed_by none cp = true
signed_by (some check) cp = check cp.seq cp.entry_hash cp.sig

-- The loop over the checkpoints, with the signer's check if there is a signer.
unfoldable pub walk_checkpoints :
    Option (ℤ → Bytes → Bytes → Bool) → Report → List Checkpoint → Report
walk_checkpoints signer rep [] = record rep { ok = true }
walk_checkpoints signer rep (cp ∷ cps) =
    let rest = walk_checkpoints signer (record rep { checkpoints = rep.checkpoints + 1 }) cps in
    if not (nat_beq (length cp.sig) 64) || not (signed_by signer cp)
    then fails rep checkpoint_invalid
    else rest

unfoldable pub finish :
    Option (ℤ → Bytes → Bytes → Bool) → List Checkpoint → Report → Option LedgerError → Report
unfolding walk_checkpoints
finish signer cps rep none = walk_checkpoints signer rep cps
finish signer cps rep (some e) = rep

module _ (sha256 : Bytes → Bytes) where
  unfoldable pub compute_entry_hash : Row → Bytes
  unfolding hashed_text
  compute_entry_hash r = hash_prefix ++ sha256 (hashed_text r)

  -- The loop over the rows; `expect` is `expectPrev`, empty before the first row.
  unfoldable pub walk : Bytes → Report → List Row → Report
  unfolding compute_entry_hash same_text
  walk expect rep [] = rep
  walk expect rep (r ∷ rows) =
      let rest = walk r.entry_hash (record rep { entries = rep.entries + 1 }) rows in
      if not (same_text (compute_entry_hash r) r.entry_hash)
      then fails rep chain_broken
      else if not (is_empty expect) && not (same_text r.prev_hash expect)
      then fails rep chain_broken
      else rest

  -- `Verify` when both queries succeed. The error that it returns is the report's.
  unfoldable pub verify : Option (ℤ → Bytes → Bytes → Bool) → List Row → List Checkpoint → Report
  unfolding walk finish
  verify signer rows cps = let rep = walk [] start rows in finish signer cps rep rep.error

-- What one pass of the verifier answers: a report, unless a query failed, and whether there was an
-- error.
pub record Pass : Type 0 where
  pub report : Option Report
  pub failed : Bool

-- What `RunOnce` does besides logging.
pub data Effect : Type 0 where
  notify_ok notify_fail : Effect
  insert_audit : ℕ → ℕ → Effect
  audit_emitted : Effect

abbrev counts : Option Report → ℕ × ℕ
counts none = (0, 0)
counts (some rep) = (rep.entries, rep.checkpoints)

-- The two hooks may be nil; the event may fail to build, and the row to be inserted.
pub record Wiring : Type 0 where
  pub has_notify : Bool
  pub has_on_audit : Bool
  pub builds : Bool
  pub inserts : Bool

abbrev when : Bool → Effect → List Effect
when true e = e ∷ []
when false e = []

unfoldable pub run_once : Wiring → Pass → List Effect
run_once w p =
    let n = counts p.report in
    if not p.failed
    then when w.has_notify notify_ok
    else when w.has_notify notify_fail
      ++ (if not w.builds
          then []
          else insert_audit n.0 n.1 ∷ when (w.inserts && w.has_on_audit) audit_emitted)
