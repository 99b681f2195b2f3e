-- ===== src/Ledger/Laws.antt =====
-- The hash chain of verify/verifier.go: what an accepted ledger is.
use cisync.Prelude.{
  ◌+◌, ◌≡◌, refl, sym, ◌⊎◌, inl, inr, ◌↔◌, Bool, true, false, not, ◌&&◌, ◌||◌, Option, none, some,
  List, [], ◌∷◌, All, Bool-cases, arith, nat_beq, nat_beq_iff, length,
}
use cisync.Prelude.Int.{ℤ}
use cisync.Policy.Glob.{Bytes}
use cisync.Ledger.{
  Row, Checkpoint, Report, same_text, compute_entry_hash, walk, walk_checkpoints, finish, verify,
  is_empty, LedgerError, signed_by, start,
}

pub same_text_iff : (s t : Bytes) → (same_text s t ≡ true) ↔ (s ≡ t)
unfolding same_text
same_text_iff [] [] = ((λ h. refl), λ h. refl)
same_text_iff [] (b ∷ t) = ((λ h. absurd (cc)), λ h. absurd (cc))
same_text_iff (a ∷ s) [] = ((λ h. absurd (cc)), λ h. absurd (cc))
same_text_iff (a ∷ s) (b ∷ t) = (
  (λ h. ground (arith, nat_beq_iff a b, same_text_iff s t)),
  λ h. ground (arith, nat_beq_iff a b, same_text_iff s t),
)

linked_before :
    (expect prev : Bytes)
    → (not (is_empty expect) && not (same_text prev expect)) ≡ false
    → (is_empty expect ≡ true) ⊎ (prev ≡ expect)
linked_before [] prev h = inl refl
linked_before (x ∷ s) prev h = inr ((same_text_iff prev (x ∷ s)).0 (ground arith))

before_linked :
    (expect prev : Bytes)
    → (is_empty expect ≡ true) ⊎ (prev ≡ expect)
    → (not (is_empty expect) && not (same_text prev expect)) ≡ false
before_linked [] prev h = refl
before_linked (x ∷ s) prev (inl h) = absurd (cc)
before_linked (x ∷ s) prev (inr h) = ground (arith, (same_text_iff prev (x ∷ s)).1 h)

clash : {b : Bool} → b ≡ false → b ≡ true → ⊥
clash h k = absurd (cc)

-- A checkpoint with a signature of 64 bytes that the signer, if there is one, accepts.
abbrev pub IsSigned : Option (ℤ → Bytes → Bytes → Bool) → Checkpoint → Type 0
IsSigned signer cp = (length cp.sig ≡ 64) × (signed_by signer cp ≡ true)

walk_checkpoints-IsSigned :
    (signer : Option (ℤ → Bytes → Bytes → Bool)) (rep : Report) (cps : List Checkpoint)
    → rep.ok ≡ false
    → (walk_checkpoints signer rep cps).ok ≡ true
    → All (IsSigned signer) cps
unfolding walk_checkpoints
walk_checkpoints-IsSigned signer rep [] e h = tt
walk_checkpoints-IsSigned signer rep (cp ∷ cps) e h =
    elim (Bool-cases (not (nat_beq (length cp.sig) 64) || not (signed_by signer cp))) [
      | inl bad ↦ absurd (clash e (rw (bad, walk_checkpoints) at h))
      | inr good ↦ (
        (ground (arith, nat_beq_iff (length cp.sig) 64), ground arith),
        walk_checkpoints-IsSigned signer (record rep { checkpoints = rep.checkpoints + 1 }) cps e
            (rw (good, walk_checkpoints) at h),
      )
    ]

IsSigned-walk_checkpoints :
    (signer : Option (ℤ → Bytes → Bytes → Bool)) (rep : Report) (cps : List Checkpoint)
    → All (IsSigned signer) cps
    → (walk_checkpoints signer rep cps).ok ≡ true
unfolding walk_checkpoints
IsSigned-walk_checkpoints signer rep [] h = refl
IsSigned-walk_checkpoints signer rep (cp ∷ cps) ((size, signed), h) =
    let good : (not (nat_beq (length cp.sig) 64) || not (signed_by signer cp)) ≡ false =
      ground (arith, (nat_beq_iff (length cp.sig) 64).1 size) in
    rw (good, walk_checkpoints)
      (IsSigned-walk_checkpoints signer (record rep { checkpoints = rep.checkpoints + 1 }) cps h)

module _ (sha256 : Bytes → Bytes) where
  -- Every row holds the hash of its own fields and, but for the first, names its predecessor's.
  abbrev pub Linked : Bytes → List Row → Type 0
  Linked expect [] = Unit
  Linked expect (r ∷ rows) =
      (r.entry_hash ≡ compute_entry_hash sha256 r)
      × ((is_empty expect ≡ true) ⊎ (r.prev_hash ≡ expect))
      × Linked r.entry_hash rows

  walk-Linked :
      (expect : Bytes) (rep : Report) (rows : List Row)
      → (walk sha256 expect rep rows).error ≡ none
      → Linked expect rows × ((walk sha256 expect rep rows).entries ≡ rep.entries + length rows)
  unfolding walk
  walk-Linked expect rep [] h = (tt, omega arith)
  walk-Linked expect rep (r ∷ rows) h =
      elim (Bool-cases (same_text (compute_entry_hash sha256 r) r.entry_hash)) [
        | inr differs ↦ absurd (cc (rw (differs, walk) at h))
        | inl agrees ↦
            elim (Bool-cases (not (is_empty expect) && not (same_text r.prev_hash expect))) [
              | inl breaks ↦ absurd (cc (rw (agrees, breaks, walk) at h))
              | inr links ↦
                  let (l, n) =
                    walk-Linked r.entry_hash (record rep { entries = rep.entries + 1 }) rows
                      (rw (agrees, links, walk) at h) in
                  (
                    (
                      sym ((same_text_iff (compute_entry_hash sha256 r) r.entry_hash).0 agrees),
                      linked_before expect r.prev_hash links,
                      l,
                    ),
                    rw (agrees, links, walk) (omega (arith, n)),
                  )
            ]
      ]

  Linked-walk :
      (expect : Bytes) (rep : Report) (rows : List Row)
      → rep.error ≡ none
      → Linked expect rows
      → (walk sha256 expect rep rows).error ≡ none
  unfolding walk
  Linked-walk expect rep [] e l = e
  Linked-walk expect rep (r ∷ rows) e l =
      let agrees = (same_text_iff (compute_entry_hash sha256 r) r.entry_hash).1 (sym l.0) in
      rw (agrees, before_linked expect r.prev_hash l.1, walk)
        (Linked-walk r.entry_hash (record rep { entries = rep.entries + 1 }) rows e l.2)

  walk-ok :
      (expect : Bytes) (rep : Report) (rows : List Row) → (walk sha256 expect rep rows).ok ≡ rep.ok
  unfolding walk
  walk-ok expect rep [] = refl
  walk-ok expect rep (r ∷ rows) =
      ground (arith, walk-ok r.entry_hash (record rep { entries = rep.entries + 1 }) rows)

  finish-ok :
      (signer : Option (ℤ → Bytes → Bytes → Bool)) (cps : List Checkpoint) (rep : Report)
      (e : Option LedgerError)
      → rep.ok ≡ false
      → (finish signer cps rep e).ok ≡ true
      → (e ≡ none) × All (IsSigned signer) cps
  unfolding finish
  finish-ok signer cps rep none n h = (refl, walk_checkpoints-IsSigned signer rep cps n h)
  finish-ok signer cps rep (some e) n h = absurd (cc)

  -- `Verify` reports a ledger as right exactly if every row holds the hash of its own fields and, but
  -- for the first, names its predecessor's hash, and every checkpoint has a signature of 64 bytes that
  -- the signer accepts, if there is one.
  pub verify_iff :
      (signer : Option (ℤ → Bytes → Bytes → Bool)) (rows : List Row) (cps : List Checkpoint)
      → ((verify sha256 signer rows cps).ok ≡ true) ↔ (Linked [] rows × All (IsSigned signer) cps)
  unfolding verify
  verify_iff signer rows cps = (right, wrong_)
    where
      rep : Report
      rep = walk sha256 [] start rows

      right :
          (finish signer cps rep rep.error).ok ≡ true → Linked [] rows × All (IsSigned signer) cps
      right h =
          let (e, signed) = finish-ok signer cps rep rep.error (walk-ok [] start rows) h in
          ((walk-Linked [] start rows e).0, signed)

      wrong_ :
          Linked [] rows × All (IsSigned signer) cps → (finish signer cps rep rep.error).ok ≡ true
      wrong_ (l, signed) =
          rw (Linked-walk [] start rows refl l, finish)
            (IsSigned-walk_checkpoints signer rep cps signed)

  -- A ledger that has lost its first row is still reported as right: the first row's `prev_hash` is
  -- not compared with that of a genesis.
  pub truncated_accepted :
      (signer : Option (ℤ → Bytes → Bytes → Bool)) (r : Row) (rows : List Row)
      (cps : List Checkpoint)
      → (verify sha256 signer (r ∷ rows) cps).ok ≡ true
      → (verify sha256 signer rows cps).ok ≡ true
  truncated_accepted signer r rows cps h =
      let (l, signed) = (verify_iff signer (r ∷ rows) cps).0 h in
      (verify_iff signer rows cps).1 (without_first rows l.2, signed)
    where
      without_first : (rs : List Row) → Linked r.entry_hash rs → Linked [] rs
      without_first [] k = tt
      without_first (s ∷ rs) k = (k.0, inl refl, k.2)
