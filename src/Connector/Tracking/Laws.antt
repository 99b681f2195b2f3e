-- ===== src/Connector/Tracking/Laws.antt =====
-- `RecordCheckReport` of tracking/memory.go and what the lookups answer behind it.
use cisync.Prelude.{
  ℕ, ◌≡◌, ◌≢◌, refl, sym, ap, ◌∙◌, String, not, ◌==◌, string_eq, Option, none, some, if◌then◌else◌,
  beq-false, beq_refl,
}
use cisync.Prelude.Maps.{lookup, delete, lookup-insert_self, lookup-insert_ne}
use cisync.Connector.Tracking.{
  Record, MemoryStore, Key, key_eq, revision_key, merge, merged, put_record, record_check_report,
  lookup_check_report, find_by_decision, at_key,
}

-- The record that a report leaves behind.
abbrev pub reported : ℕ → Record → MemoryStore → Record
reported now rec m =
    record (merged (lookup (revision_key rec.candidate_id rec.head_sha) m.revisions) rec) {
      updated_at = now;
    }

kept :
    (now : ℕ) (rec : Record) (m : MemoryStore)
    → lookup (revision_key rec.candidate_id rec.head_sha) (record_check_report now rec m).revisions
      ≡ some (reported now rec m)
unfolding record_check_report put_record
kept now rec m =
    lookup-insert_self (revision_key rec.candidate_id rec.head_sha) (reported now rec m) m.revisions

indexed :
    (now : ℕ) (rec : Record) (m : MemoryStore)
    → (reported now rec m).decision_id ≢ ""
    → lookup (reported now rec m).decision_id (record_check_report now rec m).by_decision
      ≡ some (revision_key rec.candidate_id rec.head_sha)
unfolding record_check_report put_record
indexed now rec m named = rw (beq-false named) (
    lookup-insert_self (reported now rec m).decision_id (revision_key rec.candidate_id rec.head_sha)
      (if not ((reported now rec m).decision_id == rec.decision_id)
        then delete (reported now rec m).decision_id m.by_decision
        else m.by_decision))

-- Behind a report its revision answers the merged record, by its key and, if it has a decision, by that
-- decision too.
pub report_found :
    (now : ℕ) (rec : Record) (m : MemoryStore)
    → (lookup_check_report rec.candidate_id rec.head_sha (record_check_report now rec m)
        ≡ some (reported now rec m))
      × ((reported now rec m).decision_id ≢ ""
          → find_by_decision (reported now rec m).decision_id (record_check_report now rec m)
            ≡ some (reported now rec m))
unfolding lookup_check_report find_by_decision
report_found now rec m = (
  kept now rec m,
  λ named.
      ap (λ o. at_key o (record_check_report now rec m)) (indexed now rec m named) ∙ kept now rec m,
)

merged_decision :
    (o : Option Record) (rec : Record)
    → rec.decision_id ≢ ""
    → (merged o rec).decision_id ≡ rec.decision_id
unfolding merged merge
merged_decision none rec named = refl
merged_decision (some existing) rec named = rw (beq-false named) refl

old_held :
    (now : ℕ) (rec : Record) (m : MemoryStore) (old : String)
    → lookup old m.by_decision ≡ some (revision_key rec.candidate_id rec.head_sha)
    → rec.decision_id ≢ ""
    → old ≢ rec.decision_id
    → lookup old (record_check_report now rec m).by_decision
      ≡ some (revision_key rec.candidate_id rec.head_sha)
unfolding record_check_report put_record
old_held now rec m old held named other =
    let same =
      merged_decision (lookup (revision_key rec.candidate_id rec.head_sha) m.revisions) rec named in
    rw (same, beq-false named, beq_refl rec.decision_id)
      (lookup-insert_ne rec.decision_id old (revision_key rec.candidate_id rec.head_sha)
          m.by_decision (λ e. other (sym e))
        ∙ held)

-- Reports of other revisions leave a revision alone.
pub others_kept :
    (now : ℕ) (rec : Record) (m : MemoryStore) (key : Key)
    → revision_key rec.candidate_id rec.head_sha ≢ key
    → lookup key (record_check_report now rec m).revisions ≡ lookup key m.revisions
unfolding record_check_report put_record
others_kept now rec m key other =
    lookup-insert_ne (revision_key rec.candidate_id rec.head_sha) key (reported now rec m)
      m.revisions other

-- A decision that a later one of its revision replaces still finds that revision: the entry of the old
-- decision is never deleted.
pub stale_decision :
    (now : ℕ) (rec : Record) (m : MemoryStore) (old : String)
    → lookup old m.by_decision ≡ some (revision_key rec.candidate_id rec.head_sha)
    → rec.decision_id ≢ ""
    → old ≢ rec.decision_id
    → find_by_decision old (record_check_report now rec m) ≡ some (reported now rec m)
unfolding find_by_decision
stale_decision now rec m old held named other =
    ap (λ o. at_key o (record_check_report now rec m)) (old_held now rec m old held named other)
    ∙ kept now rec m
