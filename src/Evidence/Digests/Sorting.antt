-- ===== src/Evidence/Digests/Sorting.antt =====
-- `sortStrings` and `sameDigestSet` of evidence/evaluate.go, and the counts of a list's elements.
use mathlib.Core.List.{reverse_aux, reverse-reverse}
use cisync.Prelude.Texts.{less, less_irrefl, less_trans, less-false_trans, compare_cases}
use cisync.Prelude.{
  ℕ, suc, ◌+◌, ◌≡◌, refl, sym, ap, ◌∙◌, String, true, false, List, [], ◌∷◌, ◌++◌, reverse,
  if◌then◌else◌, ◌==◌, string_eq, nat_eq, length, arith, eq_iff, Bool-cases, inl, inr, All, ◌⊎◌,
  beq_refl, nat_beq_iff,
}
use cisync.Evidence.Digests.{sift, sift_all, sort_strings, same_elements, same_digest_set}

-- How often a text stands in a list.
abbrev pub occurrences : String → List String → ℕ
occurrences x [] = 0
occurrences x (y ∷ ys) = if y == x then suc (occurrences x ys) else occurrences x ys

occurrences-append :
    (x : String) (xs ys : List String)
    → occurrences x (xs ++ ys) ≡ occurrences x xs + occurrences x ys
occurrences-append x [] ys = omega arith
occurrences-append x (y ∷ xs) ys = ground (arith, occurrences-append x xs ys)

occurrences-sift :
    (x y : String) (ys : List String) → occurrences x (sift y ys) ≡ occurrences x (y ∷ ys)
unfolding sift
occurrences-sift x y [] = refl
occurrences-sift x y (z ∷ ys) = elim (Bool-cases (less y z)) [
  | inl l ↦ rw (l, sift) (ground (arith, occurrences-sift x y ys))
  | inr g ↦ rw (g, sift) refl
]

occurrences-sift_all :
    (x : String) (done xs : List String)
    → occurrences x (sift_all done xs) ≡ occurrences x done + occurrences x xs
unfolding sift_all
occurrences-sift_all x done [] = omega arith
occurrences-sift_all x done (y ∷ xs) =
    ground (arith, occurrences-sift_all x (sift y done) xs, occurrences-sift x y done)

length-sift : (x : String) (ys : List String) → length (sift x ys) ≡ suc (length ys)
unfolding sift
length-sift x [] = refl
length-sift x (y ∷ ys) = ground (arith, length-sift x ys)

-- No later text is greater than an earlier one.
abbrev Descending : List String → Type 0
Descending [] = Unit
Descending (y ∷ ys) = All (λ z. less y z ≡ false) ys × Descending ys

All-sift :
    (y x : String) (ys : List String)
    → less y x ≡ false
    → All (λ z. less y z ≡ false) ys
    → All (λ z. less y z ≡ false) (sift x ys)
unfolding sift
All-sift y x [] h hs = (h, tt)
All-sift y x (z ∷ zs) h (here, rest) = elim (Bool-cases (less x z)) [
  | inl l ↦ rw (l, sift) (here, All-sift y x zs h rest)
  | inr g ↦ rw (g, sift) (h, (here, rest))
]

All-below :
    (x y : String) (ys : List String)
    → less x y ≡ false
    → All (λ z. less y z ≡ false) ys
    → All (λ z. less x z ≡ false) ys
All-below x y [] h hs = tt
All-below x y (z ∷ zs) h (here, rest) = (less-false_trans x y z h here, All-below x y zs h rest)

Descending-sift : (x : String) (ys : List String) → Descending ys → Descending (sift x ys)
unfolding sift
Descending-sift x [] d = (tt, tt)
Descending-sift x (y ∷ ys) (tops, d) = elim (Bool-cases (less x y)) [
  | inl l ↦
      rw (l, sift)
        (
          All-sift y x ys (ground (arith, less_trans x y x l, less_irrefl x)) tops,
          Descending-sift x ys d,
        )
  | inr g ↦ rw (g, sift) ((g, All-below x y ys g tops), (tops, d))
]

Descending-sift_all : (done xs : List String) → Descending done → Descending (sift_all done xs)
unfolding sift_all
Descending-sift_all done [] d = d
Descending-sift_all done (x ∷ xs) d =
    Descending-sift_all (sift x done) xs (Descending-sift x done d)

-- A text above all of a list's does not stand in it.
absent :
    (x y : String) (ys : List String)
    → less y x ≡ true
    → All (λ z. less y z ≡ false) ys
    → occurrences x ys ≡ 0
absent x y [] h hs = refl
absent x y (z ∷ zs) h (here, rest) = ground (arith, eq_iff z x, absent x y zs h rest)

heads_equal :
    (a b : String) (rest_a rest_b : List String)
    → Descending (a ∷ rest_a)
    → Descending (b ∷ rest_b)
    → ((x : String) → occurrences x (a ∷ rest_a) ≡ occurrences x (b ∷ rest_b))
    → a ≡ b
heads_equal a b rest_a rest_b (ta, da) (tb, db) same = go (compare_cases a b)
  where
    go : (less a b ≡ true) ⊎ ((a ≡ b) ⊎ (less b a ≡ true)) → a ≡ b
    go (inl l) =
        absurd
          (ground (arith, same b, eq_iff b b, eq_iff a b, absent b a rest_a l ta, less_irrefl a))
    go (inr (inl e)) = e
    go (inr (inr g)) =
        absurd
          (ground (arith, same a, eq_iff a a, eq_iff b a, absent a b rest_b g tb, less_irrefl b))

unique :
    (xs ys : List String)
    → Descending xs
    → Descending ys
    → ((x : String) → occurrences x xs ≡ occurrences x ys)
    → xs ≡ ys
unique [] [] dx dy same = refl
unique [] (y ∷ ys) dx dy same = absurd (ground (arith, same y, eq_iff y y))
unique (x ∷ xs) [] dx dy same = absurd (ground (arith, same x, eq_iff x x))
unique (x ∷ xs) (y ∷ ys) dx dy same =
    let e : x ≡ y = heads_equal x y xs ys dx dy same in
    let rest : xs ≡ ys = unique xs ys dx.1 dy.1 (λ z. ground (arith, e, same z)) in
    λ i. e i ∷ rest i

same_elements_refl : (xs : List String) → same_elements xs xs ≡ true
unfolding same_elements
same_elements_refl [] = refl
same_elements_refl (x ∷ xs) = rw (beq_refl x) (same_elements_refl xs)

same_elements→eq :
    (xs ys : List String) → length xs ≡ length ys → same_elements xs ys ≡ true → xs ≡ ys
unfolding same_elements
same_elements→eq [] [] l h = refl
same_elements→eq [] (y ∷ ys) l h = absurd (omega arith)
same_elements→eq (x ∷ xs) [] l h = absurd (omega arith)
same_elements→eq (x ∷ xs) (y ∷ ys) l h = elim (Bool-cases (x == y)) [
  | inl p ↦
      let rest : xs ≡ ys = same_elements→eq xs ys (omega arith) (ground arith) in
      λ i. (eq_iff x y).0 p i ∷ rest i
  | inr n ↦ absurd (ground arith)
]

length-sift_all : (done xs : List String) → length (sift_all done xs) ≡ length done + length xs
unfolding sift_all
length-sift_all done [] = omega arith
length-sift_all done (x ∷ xs) = omega (arith, length-sift_all (sift x done) xs, length-sift x done)

length-reverse_aux : (xs ys : List String) → length (reverse_aux xs ys) ≡ length xs + length ys
length-reverse_aux [] ys = omega arith
length-reverse_aux (x ∷ xs) ys = omega (arith, length-reverse_aux xs (x ∷ ys))

length-sort_strings : (xs : List String) → length (sort_strings xs) ≡ length xs
unfolding sort_strings
length-sort_strings xs =
    omega (arith, length-reverse_aux (sift_all [] xs) [], length-sift_all [] xs)

-- `sameDigestSet` answers true only for two lists that hold every digest equally often.
pub same_digests_only :
    (xs ys : List String) (x : String)
    → same_digest_set xs ys ≡ true
    → occurrences x xs ≡ occurrences x ys
unfolding same_digest_set sort_strings
same_digests_only xs ys x h =
    let l : length xs ≡ length ys = ground (arith, nat_beq_iff (length xs) (length ys)) in
    let sorted : sort_strings xs ≡ sort_strings ys =
      same_elements→eq (sort_strings xs) (sort_strings ys)
        (omega (arith, l, length-sort_strings xs, length-sort_strings ys)) (ground arith) in
    let e : sift_all [] xs ≡ sift_all [] ys =
      sym (reverse-reverse (sift_all [] xs))
      ∙ ap reverse sorted
      ∙ reverse-reverse (sift_all [] ys) in
    omega (arith, ap (occurrences x) e, occurrences-sift_all x [] xs, occurrences-sift_all x [] ys)

sifted_any_order :
    (xs ys : List String)
    → ((x : String) → occurrences x xs ≡ occurrences x ys)
    → sift_all [] xs ≡ sift_all [] ys
sifted_any_order xs ys same =
    unique (sift_all [] xs) (sift_all [] ys) (Descending-sift_all [] xs tt)
      (Descending-sift_all [] ys tt)
      (λ x. omega (arith, same x, occurrences-sift_all x [] xs, occurrences-sift_all x [] ys))

pub sort_strings_any_order :
    (xs ys : List String)
    → ((x : String) → occurrences x xs ≡ occurrences x ys)
    → sort_strings xs ≡ sort_strings ys
unfolding sort_strings
sort_strings_any_order xs ys same = ap reverse (sifted_any_order xs ys same)

-- `sameDigestSet` answers true for any two lists that hold every digest equally often, in whatever
-- order.
pub same_digests_any_order :
    (xs ys : List String)
    → ((x : String) → occurrences x xs ≡ occurrences x ys)
    → same_digest_set xs ys ≡ true
unfolding same_digest_set sort_strings
same_digests_any_order xs ys same =
    let e : sift_all [] xs ≡ sift_all [] ys = sifted_any_order xs ys same in
    let l : length xs ≡ length ys =
      omega (arith, ap length e, length-sift_all [] xs, length-sift_all [] ys) in
    rw (e, l, beq_refl (length ys)) (same_elements_refl (reverse (sift_all [] ys)))
