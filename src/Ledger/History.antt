-- ===== src/Ledger/History.antt =====
-- What the head of the hash chain of verify/verifier.go commits to.
use cisync.Prelude.{
  ◌≡◌, ◌≢◌, refl, sym, ap, ◌∙◌, ◌⊎◌, inl, inr, Bool, true, false, Option, List, [], ◌∷◌, ◌++◌, All,
  Bool-cases, arith, ltb, length,
}
use cisync.Prelude.Int.{ℤ}
use cisync.Policy.Glob.{Bytes}
use cisync.Ledger.{
  Row, Checkpoint, hash_prefix, trim_hash_prefix, hashed_text, field, compute_entry_hash, verify,
  same_text, is_empty,
}
use cisync.Ledger.Numbers.{has_bar, has_bar-show, show_injective}
use cisync.Ledger.Laws.{Linked, same_text_iff, verify_iff}

split_field :
    (a b rest rest' : Bytes)
    → has_bar a ≡ false
    → has_bar b ≡ false
    → field a rest ≡ field b rest'
    → (a ≡ b) × (rest ≡ rest')
split_field [] [] rest rest' h k e = (refl, cc)
split_field [] (y ∷ b) rest rest' h k e = absurd (ground arith)
split_field (x ∷ a) [] rest rest' h k e = absurd (ground arith)
split_field (x ∷ a) (y ∷ b) rest rest' h k e =
    let same : x ≡ y = cc in
    let (front, back) = split_field a b rest rest' (ground arith) (ground arith) (cc) in
    ((λ i. same i ∷ front i), back)

-- No bar stands in the fields of the row that are texts, but for the hash of its predecessor.
abbrev pub IsPlain : Row → Type 0
IsPlain r =
    (has_bar r.id ≡ false)
    × (has_bar r.type ≡ false)
    × (has_bar (trim_hash_prefix r.payload_sha) ≡ false)

-- The hashed fields agree; the prefix of a digest is not hashed.
abbrev pub SameFields : Row → Row → Type 0
SameFields r s =
    (r.seq ≡ s.seq)
    × (r.id ≡ s.id)
    × (r.type ≡ s.type)
    × (r.version ≡ s.version)
    × (trim_hash_prefix r.payload_sha ≡ trim_hash_prefix s.payload_sha)
    × (trim_hash_prefix r.prev_hash ≡ trim_hash_prefix s.prev_hash)

abbrev pub SameRows : List Row → List Row → Type 0
SameRows [] [] = Unit
SameRows [] (s ∷ rows') = ⊥
SameRows (r ∷ rows) [] = ⊥
SameRows (r ∷ rows) (s ∷ rows') = SameFields r s × SameRows rows rows'

same_fields : (r s : Row) → IsPlain r → IsPlain s → hashed_text r ≡ hashed_text s → SameFields r s
unfolding hashed_text
same_fields r s (id, type, sha) (id', type', sha') e =
    let (seq, e1) = split_field _ _ _ _ (has_bar-show r.seq) (has_bar-show s.seq) e in
    let (same_id, e2) = split_field r.id s.id _ _ id id' e1 in
    let (same_type, e3) = split_field r.type s.type _ _ type type' e2 in
    let (version, e4) = split_field _ _ _ _ (has_bar-show r.version) (has_bar-show s.version) e3 in
    let (digest, prev) = split_field _ _ _ _ sha sha' e4 in
    (
      show_injective r.seq s.seq seq,
      same_id,
      same_type,
      show_injective r.version s.version version,
      digest,
      prev,
    )

trim_prefixed : (h : Bytes) → h ≢ [] → trim_hash_prefix (hash_prefix ++ h) ≡ h
unfolding trim_hash_prefix same_text
trim_prefixed [] ne = absurd (ne refl)
trim_prefixed (x ∷ h) ne =
    let long : ltb 7 (length (hash_prefix ++ (x ∷ h))) ≡ true = ground arith in rw long refl

cut_hash_prefix : {a b : Bytes} → hash_prefix ++ a ≡ hash_prefix ++ b → a ≡ b
cut_hash_prefix h = cc

-- The hash of the last row, of `before` if there is none.
abbrev pub head_hash : Bytes → List Row → Bytes
head_hash before [] = before
head_hash before (r ∷ rows) = head_hash r.entry_hash rows

module _ (sha256 : Bytes → Bytes) (full : (a : Bytes) → sha256 a ≢ []) where
  -- Two texts with one digest.
  abbrev pub Collision : Type 0
  Collision = (a : Bytes) × (b : Bytes) × (a ≢ b) × (sha256 a ≡ sha256 b)

  one_text : (a b : Bytes) → sha256 a ≡ sha256 b → Collision ⊎ (a ≡ b)
  one_text a b h = elim (Bool-cases (same_text a b)) [
    | inl e ↦ inr ((same_text_iff a b).0 e)
    | inr n ↦ inl (a, b, (λ e. absurd (cc ((same_text_iff a b).1 e))), h)
  ]

  -- Rows whose hash is that of their own fields, and is the same.
  rows_agree :
      (r s : Row)
      → IsPlain r
      → IsPlain s
      → sha256 (hashed_text r) ≡ sha256 (hashed_text s)
      → Collision ⊎ SameFields r s
  rows_agree r s plain plain' h = elim (one_text (hashed_text r) (hashed_text s) h) [
    | inl two ↦ inl two
    | inr e ↦ inr (same_fields r s plain plain' e)
  ]

  digests :
      (r s : Row)
      → r.entry_hash ≡ compute_entry_hash sha256 r
      → s.entry_hash ≡ compute_entry_hash sha256 s
      → r.entry_hash ≡ s.entry_hash
      → sha256 (hashed_text r) ≡ sha256 (hashed_text s)
  unfolding compute_entry_hash
  digests r s own own' h = cut_hash_prefix (sym own ∙ h ∙ own')

  -- A row behind another holds its digest.
  names :
      (r s : Row)
      → r.entry_hash ≡ compute_entry_hash sha256 r
      → (is_empty r.entry_hash ≡ true) ⊎ (s.prev_hash ≡ r.entry_hash)
      → trim_hash_prefix s.prev_hash ≡ sha256 (hashed_text r)
  unfolding compute_entry_hash
  names r s own (inl empty) =
      let some_hash : is_empty r.entry_hash ≡ false = ap is_empty own in absurd (cc)
  names r s own (inr e) =
      ap trim_hash_prefix (e ∙ own) ∙ trim_prefixed (sha256 (hashed_text r)) (full (hashed_text r))

  agree_back :
      (r r' : Row) (rows rows' : List Row) (e e' : Bytes)
      → Linked sha256 e (r ∷ rows)
      → Linked sha256 e' (r' ∷ rows')
      → All IsPlain (r ∷ rows)
      → All IsPlain (r' ∷ rows')
      → length rows ≡ length rows'
      → head_hash r.entry_hash rows ≡ head_hash r'.entry_hash rows'
      → Collision ⊎ SameRows (r ∷ rows) (r' ∷ rows')
  agree_back r r' [] [] e e' l l' p p' n h =
      elim (rows_agree r r' p.0 p'.0 (digests r r' l.0 l'.0 h)) [
        | inl two ↦ inl two
        | inr same ↦ inr (same, tt)
      ]
  agree_back r r' [] (s' ∷ rows') e e' l l' p p' n h = absurd (omega arith)
  agree_back r r' (s ∷ rows) [] e e' l l' p p' n h = absurd (omega arith)
  agree_back r r' (s ∷ rows) (s' ∷ rows') e e' l l' p p' n h =
      elim (agree_back s s' rows rows' r.entry_hash r'.entry_hash l.2 l'.2 p.1 p'.1 (omega arith)
        h) [
          | inl two ↦ inl two
          | inr same ↦
              let link = names r s l.0 l.2.1 in
              let link' = names r' s' l'.0 l'.2.1 in
              elim (rows_agree r r' p.0 p'.0 (sym link ∙ same.0.5 ∙ link')) [
                | inl two ↦ inl two
                | inr first ↦ inr (first, same)
              ]
        ]

  -- The head of a ledger commits to all of it: if two ledgers of one length are both reported as
  -- right and have the same last entry hash, then either they show two texts with one digest, or
  -- they have, row by row, the same sequence number, id, type, version, payload digest and hash of
  -- the predecessor (digests without their prefix). The conditions: no id, type or payload digest has
  -- a bar in it, and no digest of the hash function is empty.
  pub head_commits :
      (signer : Option (ℤ → Bytes → Bytes → Bool)) (rows rows' : List Row)
      (cps cps' : List Checkpoint)
      → (verify sha256 signer rows cps).ok ≡ true
      → (verify sha256 signer rows' cps').ok ≡ true
      → All IsPlain rows
      → All IsPlain rows'
      → length rows ≡ length rows'
      → head_hash [] rows ≡ head_hash [] rows'
      → Collision ⊎ SameRows rows rows'
  head_commits signer [] [] cps cps' v v' p p' n h = inr tt
  head_commits signer [] (s ∷ rows') cps cps' v v' p p' n h = absurd (omega arith)
  head_commits signer (r ∷ rows) [] cps cps' v v' p p' n h = absurd (omega arith)
  head_commits signer (r ∷ rows) (r' ∷ rows') cps cps' v v' p p' n h =
      let l = ((verify_iff sha256 signer (r ∷ rows) cps).0 v).0 in
      let l' = ((verify_iff sha256 signer (r' ∷ rows') cps').0 v').0 in
      agree_back r r' rows rows' [] [] l l' p p' (omega arith) h
