-- ===== src/Evidence/Sufficiency/Laws.antt =====
-- The sets behind the share of a dossier (evidence/sufficiency.go).
use cisync.Prelude.{
  ◌≡◌, ◌≢◌, refl, sym, ap, ◌∙◌, suc, ◌≤◌, String, true, false, ◌||◌, List, [], ◌∷◌, ◌++◌, ◌==◌,
  string_eq, if◌then◌else◌, contains, length, arith, Bool-cases, inl, inr, eq_iff, beq-false, Memᴰ,
  ◌⊎◌, subst,
}
use cisync.Evidence.Evaluate.{verdict_pass}
use cisync.Evidence.Sufficiency.{
  AcceptedRecord, status_accepted, add_key, dedupe_loop, dedupe_non_empty, mark, counts, satisfy,
  share_of, sufficiency,
}

-- No key stands twice.
abbrev Distinct : List String → Type 0
Distinct [] = Unit
Distinct (k ∷ ks) = (contains ks k ≡ false) × Distinct ks

abbrev Within : List String → List String → Type 0
Within s r = (k : String) → contains s k ≡ true → contains r k ≡ true

abbrev without : String → List String → List String
without k [] = []
without k (j ∷ js) = if j == k then js else j ∷ without k js

length-without :
    (k : String) (r : List String) → contains r k ≡ true → suc (length (without k r)) ≡ length r
length-without k [] h = absurd (ground arith)
length-without k (j ∷ js) h = ground (arith, length-without k js)

contains-without :
    (k q : String) (r : List String) → k ≢ q → contains r q ≡ true → contains (without k r) q ≡ true
contains-without k q [] n h = absurd (ground arith)
contains-without k q (j ∷ js) n h =
    ground (arith, eq_iff j k, eq_iff j q, contains-without k q js n)

-- The pigeonhole principle.
length-Within : (s r : List String) → Distinct s → Within s r → length s ≤ length r
length-Within [] r d w = omega arith
length-Within (k ∷ s) r (new, d) w =
    let here : contains r k ≡ true = w k (ground (arith, eq_iff k k)) in
    omega (
      arith,
      length-without k r here,
      length-Within s (without k r) d (λ q m.
          contains-without k q r (λ e. ground (arith, ap (contains s) e))
            (w q (ground (arith, m)))),
    )

covers : (s r : List String) → Distinct s → Within s r → length s ≡ length r → Within r s
covers s r d w e k m = elim (Bool-cases (contains s k)) [
  | inl p ↦ p
  | inr n ↦ absurd (
      omega (
        arith,
        e,
        length-Within (k ∷ s) r (n, d)
            (λ q h. elim (Bool-cases (k == q)) [
              | inl p ↦ subst (λ x. contains r x ≡ true) ((eq_iff k q).0 p) m
              | inr p ↦ w q (ground arith)
            ]),
      ))
]

contains-append :
    (q : String) (xs ys : List String) → contains (xs ++ ys) q ≡ (contains xs q || contains ys q)
contains-append q [] ys = refl
contains-append q (x ∷ xs) ys = ground (arith, contains-append q xs ys)

contains-add_key :
    (k q : String) (s : List String) → contains (add_key k s) q ≡ (k == q || contains s q)
contains-add_key k q s = elim (Bool-cases (k == q)) [
  | inl p ↦ ground (arith, ap (contains s) ((eq_iff k q).0 p))
  | inr n ↦ ground arith
]

Distinct-add_key : (k : String) (s : List String) → Distinct s → Distinct (add_key k s)
Distinct-add_key k s d = elim (Bool-cases (contains s k)) [ inl p ↦ rw p d | inr n ↦ rw n (n, d) ]

abbrev step : String → String → List String → List String
step kind k s = if k == kind then add_key k s else s

Distinct-step : (kind k : String) (s : List String) → Distinct s → Distinct (step kind k s)
Distinct-step kind k s d = elim (Bool-cases (k == kind)) [
  | inl p ↦ rw p (Distinct-add_key k s d)
  | inr n ↦ rw n d
]

Distinct-mark : (kind : String) (s ks : List String) → Distinct s → Distinct (mark kind s ks)
unfolding mark
Distinct-mark kind s [] d = d
Distinct-mark kind s (k ∷ ks) d = Distinct-mark kind (step kind k s) ks (Distinct-step kind k s d)

marked :
    (kind : String) (s ks : List String) (q : String)
    → contains (mark kind s ks) q ≡ true
    → (contains s q ≡ true) ⊎ ((q ≡ kind) × (contains ks q ≡ true))
unfolding mark
marked kind s [] q h = inl h
marked kind s (k ∷ ks) q h = elim (marked kind (step kind k s) ks q h) [
  | inr (e, m) ↦ inr (e, ground arith)
  | inl m ↦ elim (Bool-cases (contains s q)) [
    | inl p ↦ inl p
    | inr n ↦ inr (
      ground (arith, contains-add_key k q s, eq_iff k q, eq_iff k kind),
      ground (arith, contains-add_key k q s),
    )
  ]
]

-- An accepted record that passed for the kind.
abbrev pub Passed : String → AcceptedRecord → Type 0
Passed k rec = (rec.kind ≡ k) × (rec.verdict ≡ verdict_pass) × (rec.status ≡ status_accepted)

counts-Passed : (rec : AcceptedRecord) → counts rec ≡ true → Passed rec.kind rec
counts-Passed rec h = (
  refl,
  ground (arith, eq_iff rec.verdict verdict_pass),
  ground (arith, eq_iff rec.status status_accepted),
)

-- One round of the outer loop.
abbrev round : List String → AcceptedRecord → List String → List String
round required rec s = if counts rec then mark rec.kind s required else s

satisfied_Distinct :
    (required s : List String) (recs : List AcceptedRecord)
    → Distinct s
    → Distinct (satisfy required s recs)
unfolding satisfy
satisfied_Distinct required s [] d = d
satisfied_Distinct required s (rec ∷ recs) d = elim (Bool-cases (counts rec)) [
  | inl p ↦ rw p (
      satisfied_Distinct required (mark rec.kind s required) recs
        (Distinct-mark rec.kind s required d))
  | inr n ↦ rw n (satisfied_Distinct required s recs d)
]

abbrev Witnessed : List AcceptedRecord → String → Type 0
Witnessed recs q = (rec : AcceptedRecord) × Memᴰ rec recs × Passed q rec

satisfied_from :
    (required s : List String) (recs : List AcceptedRecord) (q : String)
    → contains (satisfy required s recs) q ≡ true
    → (contains s q ≡ true) ⊎ ((contains required q ≡ true) × Witnessed recs q)
unfolding satisfy
satisfied_from required s [] q h = inl h
satisfied_from required s (rec ∷ recs) q h =
    elim (satisfied_from required (round required rec s) recs q h) [
      | inr (r, (x, m, p)) ↦ inr (r, (x, Memᴰ.tail m, p))
      | inl m ↦ elim (Bool-cases (counts rec)) [
        | inr n ↦ inl (rw n at m)
        | inl c ↦ elim (marked rec.kind s required q (rw c at m)) [
          | inl old ↦ inl old
          | inr (e, r) ↦
              inr
                (r, (rec, Memᴰ.head refl, subst (λ k. Passed k rec) (sym e) (counts-Passed rec c)))
        ]
      ]
    ]

kept_key :
    (seen out ks : List String) (k q : String)
    → Within seen out
    → q ≢ ""
    → (k == "" || contains seen k) ≡ true
    → (contains out q || contains (k ∷ ks) q) ≡ true
    → (contains out q || contains ks q) ≡ true
kept_key seen out ks k q w n skip m = elim (Bool-cases (k == q)) [
  | inl p ↦
      let e : k ≡ q = (eq_iff k q).0 p in
      let empty : (k == "") ≡ false = beq-false (λ h. n (sym e ∙ h)) in
      let old : contains out q ≡ true =
        w q (subst (λ x. contains seen x ≡ true) e (ground arith)) in
      ground (arith, old)
  | inr other ↦ ground arith
]

deduped :
    (seen out ks : List String) (q : String)
    → Within seen out
    → q ≢ ""
    → (contains out q || contains ks q) ≡ true
    → contains (dedupe_loop seen out ks) q ≡ true
unfolding dedupe_loop
deduped seen out [] q w n m = ground arith
deduped seen out (k ∷ ks) q w n m = elim (Bool-cases (k == "" || contains seen k)) [
  | inl skip ↦
      rw (skip, dedupe_loop) (deduped seen out ks q w n (kept_key seen out ks k q w n skip m))
  | inr new ↦
      rw (new, dedupe_loop)
        (deduped (k ∷ seen) (out ++ k ∷ []) ks q
          (λ x h. ground (arith, contains-append x out (k ∷ []), w x)) n
          (ground (arith, contains-append q out (k ∷ []))))
]

full_share :
    (required : List String) (recs : List AcceptedRecord) (k : String)
    → (share_of required recs).satisfied ≡ (share_of required recs).required
    → contains required k ≡ true
    → Witnessed recs k
full_share [] recs k e m = absurd (ground arith)
full_share (r ∷ rs) recs k e m =
    let s = satisfy (r ∷ rs) [] recs in
    let from_records : (q : String)
        → contains s q ≡ true
        → (contains (r ∷ rs) q ≡ true) × Witnessed recs q =
      λ q h. elim (satisfied_from (r ∷ rs) [] recs q h) [
        | inl none_yet ↦ absurd (ground arith)
        | inr found ↦ found
      ] in
    let covered : contains s k ≡ true =
      covers s (r ∷ rs) (satisfied_Distinct (r ∷ rs) [] recs tt) (λ q h. (from_records q h).0) e k
        m in
    (from_records k covered).1

-- A dossier's sufficiency is the full share only if every required kind that is not empty has an
-- accepted record that passed for it.
pub sufficiency_full :
    (kinds : List String) (recs : List AcceptedRecord) (k : String)
    → (sufficiency kinds recs).satisfied ≡ (sufficiency kinds recs).required
    → contains kinds k ≡ true
    → k ≢ ""
    → (rec : AcceptedRecord) × Memᴰ rec recs × Passed k rec
unfolding sufficiency dedupe_non_empty
sufficiency_full kinds recs k e m n =
    full_share (dedupe_loop [] [] kinds) recs k e (deduped [] [] kinds k (λ q h. h) n m)
