-- ===== src/Tests/Ledger.antt =====
-- A ledger of three rows under a toy digest (control-plane/internal/verify).
use cisync.Prelude.{◌⊎◌, ℕ, ◌≡◌, ◌≢◌, ◌↔◌, refl, true, false, none, List, [], ◌∷◌, ◌++◌, All}
use cisync.Prelude.Int.{pos}
use cisync.Policy.Glob.{Bytes, bytes}
use cisync.Ledger.{
  Row, hashed_text, hash_prefix, trim_hash_prefix, verify, run_once, notify_fail, insert_audit,
  audit_emitted,
}
use cisync.Ledger.Laws.{Linked, IsSigned, verify_iff}
use cisync.Ledger.History.{Collision, SameRows, head_commits}

-- Longer than what it is of, and so never empty.
abbrev digest : Bytes → Bytes
digest s = 200 ∷ s

digest_full : (a : Bytes) → digest a ≢ []
digest_full a e = absurd (cc)

abbrev row_of : Bytes → ℕ → Bytes → Row
row_of payload n prev =
    let blank : Row = record {
      seq = pos n;
      id = bytes "evt";
      type = bytes "run.started";
      version = pos 1;
      payload_sha = payload;
      prev_hash = prev;
      entry_hash = [];
    } in
    record blank { entry_hash = hash_prefix ++ digest (hashed_text blank) }

abbrev row : ℕ → Bytes → Row
row n prev = row_of (bytes "sha256:00") n prev

abbrev first : Row
first = row 1 []

abbrev second : Row
second = row 2 first.entry_hash

abbrev ledger : List Row
ledger = first ∷ second ∷ []

accepted : (verify digest none ledger []).ok ≡ true
unfolding verify
accepted = refl

-- A row that is not linked to its predecessor.
broken : (verify digest none (first ∷ row 3 (bytes "sha256:x") ∷ []) []).ok ≡ false
unfolding verify
broken = refl

verify_iff_example :
    ((verify digest none ledger []).ok ≡ true) ↔ (Linked digest [] ledger × All (IsSigned none) [])
verify_iff_example = verify_iff digest none ledger []

-- The same rows, the payload digest of the first without its prefix.
abbrev bare_ledger : List Row
bare_ledger = row_of (bytes "00") 1 [] ∷ second ∷ []

bare_accepted : (verify digest none bare_ledger []).ok ≡ true
unfolding verify
bare_accepted = refl

head_commits_example : Collision digest digest_full ⊎ SameRows ledger bare_ledger
unfolding trim_hash_prefix
head_commits_example =
    head_commits digest digest_full none ledger bare_ledger [] [] accepted bare_accepted
      ((refl, refl, refl), ((refl, refl, refl), tt)) ((refl, refl, refl), ((refl, refl, refl), tt))
      refl refl

-- A failed pass is counted and written to the audit stream.
failed_pass :
    run_once
      (record { has_notify = true; has_on_audit = true; builds = true; inserts = true })
      (record { report = none; failed = true })
    ≡ notify_fail ∷ insert_audit 0 0 ∷ audit_emitted ∷ []
unfolding run_once
failed_pass = refl
