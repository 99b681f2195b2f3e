-- ===== src/Cluster/Representative.antt =====
-- services/control-plane/internal/cluster/representative.go: the election of a representative.
use cisync.Prelude.{
  ◌≡◌, refl, sym, ◌∙◌, subst, Bool, true, false, not, Option, none, some, List, [], ◌∷◌, string_eq,
  if◌then◌else◌, arith, Bool-cases, inl, inr, Memᴰ, ◌↔◌,
}
use cisync.Prelude.Int.{ℤ, lt_int, eq_int, eq_int_iff}
use cisync.Prelude.Texts.{less, less_trans, less_irrefl, compare_cases}
use cisync.Cluster.Member.{Member}

unfoldable pub better_rep : Member → Member → Bool
better_rep a b =
    if not (eq_int a.priority b.priority)
    then lt_int b.priority a.priority
    else if not (eq_int a.created_seq b.created_seq)
    then lt_int a.created_seq b.created_seq
    else less a.id b.id

-- The loop: the best member so far, if there is one.
unfoldable pub elect_from : Option Member → List Member → Option Member
elect_from best [] = best
elect_from none (m ∷ ms) = elect_from (some m) ms
elect_from (some best) (m ∷ ms) = elect_from (some (if better_rep m best then m else best)) ms

unfoldable pub elect_representative : List Member → Option Member
unfolding elect_from
elect_representative members = elect_from none members

better_irrefl : (a : Member) → better_rep a a ≡ false
unfolding better_rep
better_irrefl a = ground (arith, less_irrefl a.id)

-- One level of the comparison, the greater or the smaller number first.
abbrev greater_first : ℤ → ℤ → Bool → Bool
greater_first x y tied = if not (eq_int x y) then lt_int y x else tied

abbrev smaller_first : ℤ → ℤ → Bool → Bool
smaller_first x y tied = if not (eq_int x y) then lt_int x y else tied

greater_first_trans :
    (x y z : ℤ) (r s t : Bool)
    → (r ≡ true → s ≡ true → t ≡ true)
    → greater_first x y r ≡ true
    → greater_first y z s ≡ true
    → greater_first x z t ≡ true
greater_first_trans x y z r s t step h k = ground (arith, step)

smaller_first_trans :
    (x y z : ℤ) (r s t : Bool)
    → (r ≡ true → s ≡ true → t ≡ true)
    → smaller_first x y r ≡ true
    → smaller_first y z s ≡ true
    → smaller_first x z t ≡ true
smaller_first_trans x y z r s t step h k = ground (arith, step)

better_trans :
    (a b c : Member) → better_rep a b ≡ true → better_rep b c ≡ true → better_rep a c ≡ true
unfolding better_rep
better_trans a b c h k =
    greater_first_trans a.priority b.priority c.priority
      (smaller_first a.created_seq b.created_seq (less a.id b.id))
      (smaller_first b.created_seq c.created_seq (less b.id c.id))
      (smaller_first a.created_seq c.created_seq (less a.id c.id))
      (smaller_first_trans a.created_seq b.created_seq c.created_seq (less a.id b.id)
        (less b.id c.id) (less a.id c.id) (less_trans a.id b.id c.id))
      h k

-- Two members of which neither beats the other agree in all that counts.
tied :
    (a b : Member)
    → better_rep a b ≡ false
    → better_rep b a ≡ false
    → (a.priority ≡ b.priority) × (a.created_seq ≡ b.created_seq) × (a.id ≡ b.id)
unfolding better_rep
tied a b h k =
    let p : eq_int a.priority b.priority ≡ true = ground arith in
    let q : eq_int a.created_seq b.created_seq ≡ true = ground arith in
    let i : less a.id b.id ≡ false = ground arith in
    let j : less b.id a.id ≡ false = ground arith in
    (
      (eq_int_iff a.priority b.priority).0 p,
      (eq_int_iff a.created_seq b.created_seq).0 q,
      elim (compare_cases a.id b.id) [
        | inl l ↦ absurd (ground arith)
        | inr rest ↦ elim rest [ inl e ↦ e | inr g ↦ absurd (ground arith) ]
      ],
    )

unbeaten_by :
    (m a b : Member)
    → (a.priority ≡ b.priority) × (a.created_seq ≡ b.created_seq) × (a.id ≡ b.id)
    → better_rep m a ≡ better_rep m b
unfolding better_rep
unbeaten_by m a b (p, q, i) = rw (p, q, i) refl

better-false_trans :
    (a b c : Member) → better_rep a b ≡ false → better_rep b c ≡ false → better_rep a c ≡ false
better-false_trans a b c h k = elim (Bool-cases (better_rep c b)) [
  | inl p ↦ elim (Bool-cases (better_rep a c)) [
    | inl q ↦ absurd (ground (arith, better_trans a c b q p))
    | inr n ↦ n
  ]
  | inr n ↦ sym (unbeaten_by a b c (tied b c k n)) ∙ h
]

abbrev Unbeaten : Member → List Member → Type 0
Unbeaten w ms = (m : Member) → Memᴰ m ms → better_rep m w ≡ false

-- What the loop answers: a member, or the best so far, that none of them beats.
abbrev Elected : Member → List Member → Type 0
Elected best ms =
    (w : Member) × (elect_from (some best) ms ≡ some w)
    × Memᴰ w (best ∷ ms)
    × Unbeaten w (best ∷ ms)

skip_mem : (w best n : Member) (ms : List Member) → Memᴰ w (best ∷ ms) → Memᴰ w (best ∷ n ∷ ms)
skip_mem w best n ms (Memᴰ.head e) = Memᴰ.head e
skip_mem w best n ms (Memᴰ.tail t) = Memᴰ.tail (Memᴰ.tail t)

Unbeaten-cons :
    (w x : Member) (ms : List Member) → better_rep x w ≡ false → Unbeaten w ms → Unbeaten w (x ∷ ms)
Unbeaten-cons w x ms h u m (Memᴰ.head e) = subst (λ y. better_rep y w ≡ false) (sym e) h
Unbeaten-cons w x ms h u m (Memᴰ.tail t) = u m t

elect_from-Elected : (best : Member) (ms : List Member) → Elected best ms
unfolding elect_from
elect_from-Elected best [] = (
  best,
  refl,
  Memᴰ.head refl,
  Unbeaten-cons best best [] (better_irrefl best) (λ m t. elim t [ ]),
)
elect_from-Elected best (n ∷ ms) = elim (Bool-cases (better_rep n best)) [
  | inl p ↦
      let (w, e, mem, u) = elect_from-Elected n ms in
      let loser : better_rep best n ≡ false = elim (Bool-cases (better_rep best n)) [
        | inl b ↦ absurd (ground (arith, better_trans best n best b p, better_irrefl best))
        | inr b ↦ b
      ] in
      (
        w,
        rw (p, elect_from) e,
        Memᴰ.tail mem,
        Unbeaten-cons w best (n ∷ ms) (better-false_trans best n w loser (u n (Memᴰ.head refl))) u,
      )
  | inr q ↦
      let (w, e, mem, u) = elect_from-Elected best ms in
      let best_loses : better_rep best w ≡ false = u best (Memᴰ.head refl) in
      (
        w,
        rw (q, elect_from) e,
        skip_mem w best n ms mem,
        Unbeaten-cons w best (n ∷ ms) best_loses (
            Unbeaten-cons w n ms (better-false_trans n best w q best_loses)
              (λ m t. u m (Memᴰ.tail t))),
      )
]

-- The representative of a cluster that is not empty is one of its members, and no member beats it in
-- priority, age and id.
pub elected_best :
    (m : Member) (ms : List Member)
    → (w : Member) × (elect_representative (m ∷ ms) ≡ some w)
      × Memᴰ w (m ∷ ms)
      × ((x : Member) → Memᴰ x (m ∷ ms) → better_rep x w ≡ false)
unfolding elect_representative
elected_best m ms = elect_from-Elected m ms

elected_facts :
    (ms : List Member) (w : Member) → elect_representative ms ≡ some w → Memᴰ w ms × Unbeaten w ms
unfolding elect_representative
elected_facts [] w h = absurd (unfold elect_from in ground arith)
elected_facts (m ∷ ms) w h =
    let (v, e, mem, u) = elect_from-Elected m ms in
    let same : v ≡ w = unfold elect_from in ground arith in
    (subst (λ x. Memᴰ x (m ∷ ms)) same mem, subst (λ x. Unbeaten x (m ∷ ms)) same u)

-- The election does not depend on the order of the members, nor on repetitions: two lists with the
-- same members elect representatives of the same id.
pub elected_any_order :
    (ms ns : List Member) (v w : Member)
    → ((m : Member) → Memᴰ m ms ↔ Memᴰ m ns)
    → elect_representative ms ≡ some v
    → elect_representative ns ≡ some w
    → v.id ≡ w.id
elected_any_order ms ns v w same hv hw =
    let (mv, uv) = elected_facts ms v hv in
    let (mw, uw) = elected_facts ns w hw in
    (tied v w (uw v ((same v).0 mv)) (uv w ((same w).1 mw))).2
