-- ===== src/Prelude/Texts.antt =====
-- The order of texts: Go's `s < t` on strings is the order of their bytes.
use Prim.Native.Nat.{Ordering, compare as compare_ℕ}
use Prim.Native.Char.{Char, code}
use Prim.Native.String.{String, [], ◌∷◌, compare, then}
use Prim.Native.String.compare as Compare
use mathlib.Core.Path.{◌≡◌, refl, sym, ap, ◌∙◌}
use mathlib.Core.Logic.{◌⊎◌, inl, inr}
use mathlib.Core.Bool.{Bool, true, false}
use native.Mathlib.Omega.{arith}
use text.Mathlib.Text.{is_lt}
use text.Mathlib.TextEquality.{codes_equal}
use text.Mathlib.TextPositions.{compare_refl}

abbrev pub less : String → String → Bool
less s t = is_lt (compare s t)

less_cons :
    (c d : Char) (s t : String)
    → less (c ∷ s) (d ∷ t) ≡ is_lt (then (compare_ℕ (code c) (code d)) (compare s t))
less_cons c d s t = ap is_lt (Compare.cons-cons c d s t)

less_nil : (s : String) → less s [] ≡ false
less_nil [] = refl
less_nil (c ∷ s) = ap is_lt (Compare.cons-nil c s)

pub less_trans : (s t u : String) → less s t ≡ true → less t u ≡ true → less s u ≡ true
less_trans s t [] h k = absurd (ground (arith, less_nil t))
less_trans s [] (e ∷ u) h k = absurd (ground (arith, less_nil s))
less_trans [] (d ∷ t) (e ∷ u) h k = ap is_lt (Compare.nil-cons e u)
less_trans (c ∷ s) (d ∷ t) (e ∷ u) h k =
    less_cons c e s u
    ∙ ground (arith, less_trans s t u, sym (less_cons c d s t) ∙ h, sym (less_cons d e t u) ∙ k)

pub less_irrefl : (s : String) → less s s ≡ false
less_irrefl s = ap is_lt (compare_refl s)

pub compare_cases : (s t : String) → (less s t ≡ true) ⊎ ((s ≡ t) ⊎ (less t s ≡ true))
compare_cases [] [] = inr (inl refl)
compare_cases [] (d ∷ t) = inl (ap is_lt (Compare.nil-cons d t))
compare_cases (c ∷ s) [] = inr (inr (ap is_lt (Compare.nil-cons c s)))
compare_cases (c ∷ s) (d ∷ t) = by_codes (compare_ℕ (code c) (code d)) refl (compare_cases s t)
  where
    by_codes :
        (o : Ordering)
        → compare_ℕ (code c) (code d) ≡ o
        → (less s t ≡ true) ⊎ ((s ≡ t) ⊎ (less t s ≡ true))
        → (less (c ∷ s) (d ∷ t) ≡ true) ⊎ (((c ∷ s) ≡ (d ∷ t)) ⊎ (less (d ∷ t) (c ∷ s) ≡ true))
    by_codes Ordering.lt p rest = inl (less_cons c d s t ∙ ground arith)
    by_codes Ordering.gt p rest = inr (inr (less_cons d c t s ∙ ground arith))
    by_codes Ordering.eq p (inl l) = inl (less_cons c d s t ∙ ground arith)
    by_codes Ordering.eq p (inr (inl e)) = inr (inl (λ i. codes_equal c d p i ∷ e i))
    by_codes Ordering.eq p (inr (inr g)) = inr (inr (less_cons d c t s ∙ ground arith))

-- `>=` is transitive.
pub less-false_trans : (s t u : String) → less s t ≡ false → less t u ≡ false → less s u ≡ false
less-false_trans s t u h k = go (compare_cases s t)
  where
    go : (less s t ≡ true) ⊎ ((s ≡ t) ⊎ (less t s ≡ true)) → less s u ≡ false
    go (inl l) = absurd (ground arith)
    go (inr (inl e)) = ap (λ x. less x u) e ∙ k
    go (inr (inr g)) = ground (arith, less_trans t s u g)
