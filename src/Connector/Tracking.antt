-- ===== src/Connector/Tracking.antt =====
-- services/github-connector/internal/tracking: the memory store of check reports (memory.go). Each
-- operation is one step under the mutex; `time.Now()` is an argument.
pub mod Laws
use cisync.Prelude.{
  ℕ, String, Bool, true, false, not, ◌&&◌, Option, none, some, List, [], ◌∷◌, if◌then◌else◌, ◌==◌,
  Eq, string_eq, dec_beq, ltb, take, ◌↔◌, ◌≡◌, ap, ◌||◌, arith, eq_iff,
}
use mathlib.Core.Path.{ap₂}
use cisync.Prelude.Int.{ℤ, pos, eq_int}
use cisync.Prelude.Maps.{lookup, insert, delete}
use cisync.Prelude.Sort.{sort_by}

-- `last_decision` is the JSON text of the envelope, `none` where it is nil.
pub record Record : Type 0 where
  pub candidate_id : String
  pub head_sha : String
  pub repo : String
  pub check_run_id : ℤ
  pub phase : String
  pub conclusion : String
  pub decision_id : String
  pub last_decision : Option String
  pub stalled : Bool
  pub updated_at : ℕ

-- The text `candidateID + "\x00" + headSHA`.
abbrev pub Key : Type 0
Key = String × String

abbrev pub key_beq : Key → Key → Bool
key_beq a b = (a.0 == b.0) && (a.1 == b.1)

pub key_beq_iff : (a b : Key) → (key_beq a b ≡ true) ↔ (a ≡ b)
key_beq_iff (c, h) (d, k) = (
  λ e. ap₂ (λ x y. (x, y)) ((eq_iff c d).0 (ground arith)) ((eq_iff h k).0 (ground arith)),
  λ e. ground (arith, (eq_iff c d).1 (ap (λ x. x.0) e), (eq_iff h k).1 (ap (λ x. x.1) e)),
)

instance abbrev pub key_eq : Eq Key
key_eq = record { beq = key_beq; beq_iff = key_beq_iff }

pub record MemoryStore : Type 0 where
  pub revisions : List (Key × Record)
  pub by_decision : List (String × Key)

abbrev pub new_memory_store : MemoryStore
new_memory_store = record { revisions = []; by_decision = [] }

abbrev pub revision_key : String → String → Key
revision_key candidate_id head_sha = (candidate_id, head_sha)

abbrev or_kept : String → String → String
or_kept old new = if new == "" then old else new

abbrev or_last : Option String → Option String → Option String
or_last old none = old
or_last old (some d) = some d

-- The field-wise merge.
unfoldable pub merge : Record → Record → Record
merge existing rec =
    let done = not (rec.phase == "") && (rec.phase == "completed") in
    record existing {
      check_run_id =
          if eq_int rec.check_run_id (pos 0) then existing.check_run_id else rec.check_run_id;
      phase = or_kept existing.phase rec.phase;
      conclusion = if done then rec.conclusion else existing.conclusion;
      stalled = if done then rec.stalled else existing.stalled;
      decision_id = or_kept existing.decision_id rec.decision_id;
      last_decision = or_last existing.last_decision rec.last_decision;
      repo = or_kept existing.repo rec.repo;
    }

unfoldable pub merged : Option Record → Record → Record
unfolding merge
merged none rec = rec
merged (some existing) rec = merge existing rec

-- The writes of both maps.
unfoldable pub put_record : ℕ → Key → Record → Record → MemoryStore → MemoryStore
put_record now key existing rec m =
    let known = not (existing.decision_id == "") in
    let cleared =
      if known && not (existing.decision_id == rec.decision_id)
      then delete existing.decision_id m.by_decision
      else m.by_decision in
    record {
      revisions = insert key (record existing { updated_at = now }) m.revisions;
      by_decision = if known then insert existing.decision_id key cleared else cleared;
    }

unfoldable pub record_check_report : ℕ → Record → MemoryStore → MemoryStore
unfolding merged put_record
record_check_report now rec m =
    let key = revision_key rec.candidate_id rec.head_sha in
    put_record now key (merged (lookup key m.revisions) rec) rec m

-- `none` is `ErrNotFound`.
unfoldable pub lookup_check_report : String → String → MemoryStore → Option Record
lookup_check_report candidate_id head_sha m =
    lookup (revision_key candidate_id head_sha) m.revisions

-- A key that is indexed has a revision, so that the zero record of a missing one is never read.
unfoldable pub at_key : Option Key → MemoryStore → Option Record
at_key none m = none
at_key (some key) m = lookup key m.revisions

unfoldable pub find_by_decision : String → MemoryStore → Option Record
unfolding at_key
find_by_decision decision_id m = at_key (lookup decision_id m.by_decision) m

-- The loop of `OpenCheckReports`.
unfoldable pub open_loop : ℕ → List (Key × Record) → List Record
open_loop before [] = []
open_loop before ((key, rec) ∷ revisions) =
    let rest = open_loop before revisions in
    if not (rec.phase == "completed") && ltb rec.updated_at before then rec ∷ rest else rest

-- Go leaves the order of equal times open.
unfoldable pub open_check_reports : ℕ → ℕ → MemoryStore → List Record
unfolding open_loop
open_check_reports before limit m =
    take limit (sort_by (λ a b. ltb a.updated_at b.updated_at) (open_loop before m.revisions))
