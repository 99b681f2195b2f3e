-- ===== src/Policy/Glob/Segment.antt =====
-- `matchOneSegment` of policy/glob.go against the meaning of a pattern.
use mathlib.Core.List.{append_assoc}
use cisync.Prelude.{
  ℕ, zero, suc, ◌≡◌, refl, sym, ap, ◌∙◌, ◌≢◌, ◌↔◌, inl, inr, Bool, true, Option, none, some, [],
  ◌∷◌, ◌++◌, All-append, length-append, ◌≤◌, Bool-cases, nat_beq_iff, nat_beq, arith, subst, length,
}
use cisync.Policy.Glob.{
  Bytes, Back, next, retry, only_stars, match_loop, proceed, match_one_segment, fuel_for,
}
use cisync.Policy.Glob.Termination.{match_loop_ends}
use cisync.Policy.Glob.Spec.{
  Matches, end, literal, skip, span, IsPlain, Matches-prefix, after_prefix, Matches-span,
  after_star,
}

cut_prefix : (u : Bytes) {a b : Bytes} → u ++ a ≡ u ++ b → a ≡ b
cut_prefix [] h = h
cut_prefix (x ∷ u) h = cut_prefix u (cc)

longer_prefix :
    (u v : Bytes) {a b : Bytes} → length u ≤ length v → u ++ a ≡ v ++ b → (t : Bytes) × (a ≡ t ++ b)
longer_prefix [] v h e = (v, e)
longer_prefix (x ∷ u) [] h e = absurd (omega arith)
longer_prefix (x ∷ u) (y ∷ v) h e = longer_prefix u v (omega arith) (cc)

-- Of two splits of one text, the longer prefix leaves a suffix of the other's rest.
behind : (u v : Bytes) {a b : Bytes} → u ++ a ≡ v ++ (u ++ b) → (t : Bytes) × (a ≡ t ++ b)
behind u v {a} {b} h =
    longer_prefix u (v ++ u) (omega (arith, length-append v u)) (h ∙ sym (append_assoc v u b))

-- What is left to decide when the loop stands at `p` and `s`.
abbrev Goal : Bytes → Bytes → Back → Type 0
Goal p s none = Matches p s
Goal p s (some (q, m)) = Matches (42 ∷ q) m

-- The loop has gone past the same bytes `u`, no star among them, in pattern and text.
abbrev IsAligned : Bytes → Bytes → Back → Type 0
IsAligned p s none = Unit
IsAligned p s (some (q, m)) = (u : Bytes) × IsPlain u × (q ≡ u ++ p) × (m ≡ u ++ s) × IsPlain m

only_stars-Matches : (p : Bytes) → only_stars p ≡ true → Matches p []
unfolding only_stars
only_stars-Matches [] h = end
only_stars-Matches (c ∷ p) h = skip (ground arith) (only_stars-Matches p (ground arith))

Matches-only_stars : {p : Bytes} → Matches p [] → only_stars p ≡ true
unfolding only_stars
Matches-only_stars end = refl
Matches-only_stars (skip e m) = ground (arith, Matches-only_stars m)

-- At the end of the text only stars may be left.
end_iff : (p : Bytes) (back : Back) → IsAligned p [] back → (only_stars p ≡ true) ↔ Goal p [] back
end_iff p none a = (only_stars-Matches p, Matches-only_stars)
end_iff p (some (q, m)) (u, plain, q_eq, m_eq, _) = (
  λ h. skip refl (rw (q_eq, m_eq) (Matches-prefix u plain (only_stars-Matches p h))),
  λ g.
      let (v, w, split, g') = after_star refl g in
      let (v', split', g'') = after_prefix u plain (subst (λ r. Matches r w) q_eq g') in
      let (t, e) = behind u v (sym m_eq ∙ split ∙ ap (λ r. v ++ r) split') in
      Matches-only_stars (nothing_before t e g''),
)
  where
    nothing_before : (t : Bytes) {v' : Bytes} → [] ≡ t ++ v' → Matches p v' → Matches p []
    nothing_before [] e g = subst (Matches p) (sym e) g
    nothing_before (x ∷ t) e g = absurd (cc)

-- What one round owes: the place after it is aligned, and decides the same.
abbrev Kept : Type 0 → Option (Bytes × Bytes × Back) → Type 0
Kept goal none = goal → ⊥
Kept goal (some (p, s, back)) = IsPlain s × IsAligned p s back × (goal ↔ Goal p s back)

-- A byte of the pattern that is no star and does not fit.
IsStuck : Bytes → ℕ → Type 0
IsStuck p x = (s : Bytes) → Matches p (x ∷ s) → ⊥

IsStuck-end : (x : ℕ) → IsStuck [] x
unfolding IsStuck
IsStuck-end x s m = elim m [ ]

IsStuck-byte : (c x : ℕ) (p : Bytes) → c ≢ x → c ≢ 42 → IsStuck (c ∷ p) x
unfolding IsStuck
IsStuck-byte c x p ne ns s (literal e _ _) = ne e
IsStuck-byte c x p ne ns s (skip e _) = ns e
IsStuck-byte c x p ne ns s (span e _) = ns e

retry-Kept :
    (p : Bytes) (x : ℕ) (s : Bytes) (back : Back)
    → IsStuck p x
    → IsAligned p (x ∷ s) back
    → Kept (Goal p (x ∷ s) back) (retry back)
unfolding retry IsStuck
retry-Kept p x s none stuck a = stuck s
retry-Kept p x s (some (q, [])) stuck ([], plain, q_eq, m_eq, all) = absurd (cc)
retry-Kept p x s (some (q, [])) stuck (y ∷ u, plain, q_eq, m_eq, all) = absurd (cc)
retry-Kept p x s (some (q, y ∷ m)) stuck (u, plain, q_eq, m_eq, all) =
    (all.1, ([], tt, refl, refl, all.1), (one_further, λ g. span refl g))
  where
    one_further : Matches (42 ∷ q) (y ∷ m) → Matches (42 ∷ q) m
    one_further (literal _ ne _) = absurd (ne refl)
    one_further (span _ g) = g
    one_further (skip _ g) =
        let (v, e, g') = after_prefix u plain (subst (λ r. Matches r (y ∷ m)) q_eq g) in
        absurd (stuck s (subst (Matches p) (sym (cut_prefix u (sym m_eq ∙ e))) g'))

star-Kept :
    (p : Bytes) (x : ℕ) (s : Bytes) (back : Back)
    → IsPlain (x ∷ s)
    → IsAligned (42 ∷ p) (x ∷ s) back
    → Kept (Goal (42 ∷ p) (x ∷ s) back) (some (p, x ∷ s, some (p, x ∷ s)))
star-Kept p x s none text a = (text, ([], tt, refl, refl, text), ((λ g. g), λ g. g))
star-Kept p x s (some (q, m)) text (u, plain, q_eq, m_eq, all) =
    (text, ([], tt, refl, refl, text), (to_here, from_here))
  where
    to_here : Matches (42 ∷ q) m → Matches (42 ∷ p) (x ∷ s)
    to_here g =
        let (v, w, split, g') = after_star refl g in
        let (v', split', g'') = after_prefix u plain (subst (λ r. Matches r w) q_eq g') in
        let (t, e) = behind u v (sym m_eq ∙ split ∙ ap (λ r. v ++ r) split') in
        subst (Matches (42 ∷ p)) (sym e) (Matches-span t g'')

    from_here : Matches (42 ∷ p) (x ∷ s) → Matches (42 ∷ q) m
    from_here g = skip refl (rw (q_eq, m_eq) (Matches-prefix u plain g))

literal-Kept :
    (c x : ℕ) (p s : Bytes) (back : Back)
    → c ≡ x
    → IsPlain (x ∷ s)
    → IsAligned (c ∷ p) (x ∷ s) back
    → Kept (Goal (c ∷ p) (x ∷ s) back) (some (p, s, back))
literal-Kept c x p s none e (plain, rest) a = (rest, tt, (drop_byte, literal e c_plain))
  where
    c_plain : c ≢ 42
    c_plain h = plain (sym e ∙ h)

    drop_byte : Matches (c ∷ p) (x ∷ s) → Matches p s
    drop_byte (literal _ _ g) = g
    drop_byte (skip h _) = absurd (c_plain h)
    drop_byte (span h _) = absurd (c_plain h)
literal-Kept c x p s (some (q, m)) e (x_plain, rest) (u, plain, q_eq, m_eq, all) = (
  rest,
  (
    u ++ x ∷ [],
    All-append (λ (y : ℕ). y ≢ 42) u (x ∷ []) plain (x_plain, tt),
    q_eq ∙ ap (λ y. u ++ (y ∷ p)) e ∙ sym (append_assoc u (x ∷ []) p),
    m_eq ∙ sym (append_assoc u (x ∷ []) s),
    all,
  ),
  ((λ g. g), λ g. g),
)

next-Kept :
    (p : Bytes) (x : ℕ) (s : Bytes) (back : Back)
    → IsPlain (x ∷ s)
    → IsAligned p (x ∷ s) back
    → Kept (Goal p (x ∷ s) back) (next p x s back)
unfolding next
next-Kept [] x s back text a = retry-Kept [] x s back (IsStuck-end x) a
next-Kept (c ∷ p) x s back text a = elim (Bool-cases (nat_beq c x)) [
  | inl same ↦ rw same (literal-Kept c x p s back ((nat_beq_iff c x).0 same) text a)
  | inr other ↦ rw other (elim (Bool-cases (nat_beq c 42)) [
    | inl starred ↦
        let e = (nat_beq_iff c 42).0 starred in
        rw starred (rw e (star-Kept p x s back text (rw e at a)))
    | inr byte ↦
        rw byte (retry-Kept (c ∷ p) x s back (IsStuck-byte c x p (ground arith) (ground arith)) a)
  ])
]

module _ (goal : Type 0) {b : Bool} (rest : Bytes → Bytes → Back → Option Bool) where
  proceed-decides :
      (o : Option (Bytes × Bytes × Back))
      → Kept goal o
      → proceed rest o ≡ some b
      → ((p s : Bytes) (back : Back)
          → IsPlain s
          → IsAligned p s back
          → rest p s back ≡ some b
          → (b ≡ true) ↔ Goal p s back)
      → (b ≡ true) ↔ goal
  unfolding proceed
  proceed-decides none kept h ih = ((λ e. absurd (cc)), λ g. absurd (kept g))
  proceed-decides (some (p, s, back)) (text, a, same) h ih =
      let here = ih p s back text a h in ((λ e. same.1 (here.0 e)), λ g. here.1 (same.0 g))

match_loop-decides :
    (fuel : ℕ) (p s : Bytes) (back : Back) {b : Bool}
    → IsPlain s
    → IsAligned p s back
    → match_loop fuel p s back ≡ some b
    → (b ≡ true) ↔ Goal p s back
unfolding match_loop
match_loop-decides zero p s back text a h = absurd (cc)
match_loop-decides (suc fuel) p [] back {b} text a h =
    subst (λ c. (c ≡ true) ↔ Goal p [] back) (cc) (end_iff p back a)
match_loop-decides (suc fuel) p (x ∷ s) back text a h =
    proceed-decides (Goal p (x ∷ s) back) (match_loop fuel) (next p x s back)
      (next-Kept p x s back text a) h
      (λ p' s' back' text' a' h'. match_loop-decides fuel p' s' back' text' a' h')

-- `matchOneSegment` answers whether the text is one that the pattern means, for every text that has
-- no star of its own.
pub match_one_segment-Matches :
    (p s : Bytes) → IsPlain s → (match_one_segment p s ≡ true) ↔ Matches p s
unfolding match_one_segment
match_one_segment-Matches p s text =
    let (b, e) = match_loop_ends p s in
    rw (e, match_one_segment) (match_loop-decides (fuel_for p s) p s none text tt e)
