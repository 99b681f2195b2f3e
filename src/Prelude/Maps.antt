-- ===== src/Prelude/Maps.antt =====
-- Go maps as association lists: a read, a write and `delete`.
use Prim.Native.Nat.{ℕ, ◌+◌}
use mathlib.Core.Path.{◌≡◌, refl}
use mathlib.Core.Logic.{◌≢◌, inl, inr}
use mathlib.Core.List.{List, [], ◌∷◌, Memᴰ}
use mathlib.Core.Option.{Option, none, some}
use native.Mathlib.Omega.{arith}
use cisync.Prelude.Tests.{if◌then◌else◌, Bool-cases}
use cisync.Prelude.Keys.{Eq, ◌==◌, beq_refl, beq-false}

module _ {ℓ κ} {K : Type ℓ} {V : Type κ} ⦃e : Eq K⦄ where
  -- `v, ok := m[k]`
  abbrev pub lookup : K → List (K × V) → Option V
  lookup k [] = none
  lookup k ((j, v) ∷ m) = if j == k then some v else lookup k m

  -- `m[k] = v`
  abbrev pub insert : K → V → List (K × V) → List (K × V)
  insert key new [] = (key, new) ∷ []
  insert key new ((k, old) ∷ rest) =
      if k == key then (key, new) ∷ rest else (k, old) ∷ insert key new rest

  pub lookup-insert :
      (k j : K) (v : V) (m : List (K × V))
      → lookup j (insert k v m) ≡ (if k == j then some v else lookup j m)
  lookup-insert k j v [] = refl
  lookup-insert k j v ((i, w) ∷ m) =
      ground (arith, e.beq_iff k j, e.beq_iff i k, e.beq_iff i j, lookup-insert k j v m)

  pub lookup-insert_self : (k : K) (v : V) (m : List (K × V)) → lookup k (insert k v m) ≡ some v
  lookup-insert_self k v m = rw (lookup-insert k k v m, beq_refl k)

  pub lookup-insert_ne :
      (k j : K) (v : V) (m : List (K × V)) → k ≢ j → lookup j (insert k v m) ≡ lookup j m
  lookup-insert_ne k j v m h = rw (lookup-insert k j v m, beq-false h)

  -- `delete(m, k)`
  abbrev pub delete : K → List (K × V) → List (K × V)
  delete key [] = []
  delete key ((k, v) ∷ rest) = if k == key then delete key rest else (k, v) ∷ delete key rest

  pub lookup-delete :
      (k j : K) (m : List (K × V)) → lookup j (delete k m) ≡ (if k == j then none else lookup j m)
  lookup-delete k j [] = ground arith
  lookup-delete k j ((i, w) ∷ m) =
      ground (arith, e.beq_iff k j, e.beq_iff i k, e.beq_iff i j, lookup-delete k j m)

  pub lookup-mem : (k : K) (m : List (K × V)) {v : V} → lookup k m ≡ some v → Memᴰ (k, v) m
  lookup-mem k [] h = absurd (ground arith)
  lookup-mem k ((j, w) ∷ m) {v} h = elim (Bool-cases (j == k)) [
    | inl p ↦ Memᴰ.head (ground (arith, e.beq_iff j k))
    | inr p ↦ Memᴰ.tail (lookup-mem k m (rw p at h))
  ]

module _ {ℓ} {K : Type ℓ} ⦃e : Eq K⦄ where
  -- `m[k]` of a map to int that holds counts: 0 where the key is absent.
  abbrev pub count_at : K → List (K × ℕ) → ℕ
  count_at k m = elim (lookup k m) [ none ↦ 0 | some n ↦ n ]

  -- `m[k] += n`
  abbrev pub add_at : K → ℕ → List (K × ℕ) → List (K × ℕ)
  add_at k n m = insert k (count_at k m + n) m

  pub count_at-add_at :
      (k j : K) (n : ℕ) (m : List (K × ℕ))
      → count_at j (add_at k n m) ≡ (if k == j then count_at k m + n else count_at j m)
  count_at-add_at k j n m =
      rw (count_at, lookup-insert k j (count_at k m + n) m)
        (elim (Bool-cases (k == j)) [ inl p ↦ rw p refl | inr r ↦ rw r refl ])
