-- ===== src/Prelude/Sort.antt =====
-- Go's `sort.SliceStable` on lists, as an insertion sort: an element goes before those that it ties
-- with, and elements are placed from the last to the first.

use mathlib.Core.Logic.{inl, inr}
use mathlib.Core.Bool.{Bool}
use mathlib.Core.List.{List, [], ◌∷◌, Memᴰ}
use cisync.Prelude.Tests.{if◌then◌else◌, Bool-cases}

module _ {ℓ} {A : Type ℓ} where
  unfoldable pub place : (A → A → Bool) → A → List A → List A
  place less a [] = a ∷ []
  place less a (b ∷ bs) = let rest = place less a bs in if less b a then b ∷ rest else a ∷ b ∷ bs

  unfoldable pub sort_by : (A → A → Bool) → List A → List A
  unfolding place
  sort_by less [] = []
  sort_by less (a ∷ rest) = place less a (sort_by less rest)

  -- Below an element in front, one list's members pass to another's.
  under : (x a : A) {bs cs : List A} → (Memᴰ x bs → Memᴰ x cs) → Memᴰ x (a ∷ bs) → Memᴰ x (a ∷ cs)
  under x a f (Memᴰ.head e) = Memᴰ.head e
  under x a f (Memᴰ.tail t) = Memᴰ.tail (f t)

  turn : (x a b : A) {cs : List A} → Memᴰ x (a ∷ b ∷ cs) → Memᴰ x (b ∷ a ∷ cs)
  turn x a b (Memᴰ.head e) = Memᴰ.tail (Memᴰ.head e)
  turn x a b (Memᴰ.tail (Memᴰ.head e)) = Memᴰ.head e
  turn x a b (Memᴰ.tail (Memᴰ.tail t)) = Memᴰ.tail (Memᴰ.tail t)

  module _ (less : A → A → Bool) (x : A) where
    place-mem : (a : A) (bs : List A) → Memᴰ x (place less a bs) → Memᴰ x (a ∷ bs)
    unfolding place
    place-mem a [] m = m
    place-mem a (b ∷ bs) m = elim (Bool-cases (less b a)) [
      | inr n ↦ rw (n, place) at m
      | inl p ↦ turn x b a (under x b (place-mem a bs) (rw (p, place) at m))
    ]

    mem-place : (a : A) (bs : List A) → Memᴰ x (a ∷ bs) → Memᴰ x (place less a bs)
    unfolding place
    mem-place a [] m = m
    mem-place a (b ∷ bs) m = elim (Bool-cases (less b a)) [
      | inr n ↦ rw (n, place) m
      | inl p ↦ rw (p, place) (under x b (mem-place a bs) (turn x a b m))
    ]

    pub sort_by-mem : (bs : List A) → Memᴰ x (sort_by less bs) → Memᴰ x bs
    unfolding sort_by
    sort_by-mem [] m = m
    sort_by-mem (b ∷ bs) m = under x b (sort_by-mem bs) (place-mem b (sort_by less bs) m)

    pub mem-sort_by : (bs : List A) → Memᴰ x bs → Memᴰ x (sort_by less bs)
    unfolding sort_by
    mem-sort_by [] m = m
    mem-sort_by (b ∷ bs) m = mem-place b (sort_by less bs) (under x b (mem-sort_by bs) m)
