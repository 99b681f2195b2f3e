-- ===== src/Policy/Glob/Termination.antt =====
-- The first loop of `matchOneSegment` of policy/glob.go comes to an end.
use native.Mathlib.Nat.{mul-le-mul_right}
use cisync.Prelude.{
  ℕ, zero, suc, ◌+◌, ◌*◌, ◌≤◌, ◌<◌, ◌≡◌, refl, Bool, false, Option, none, some, [], ◌∷◌, Bool-cases,
  nat_beq, arith, length, inl, inr,
}
use cisync.Policy.Glob.{Bytes, Back, next, retry, match_loop, proceed, fuel_for}

-- How often the loop may still go back.
abbrev returns : Bytes → Back → ℕ
returns s none = suc (length s)
returns s (some (q, m)) = length m

module _ (most : ℕ) where
  -- Every pattern at hand is a rest of the whole one, and the text one of what lies behind `mark`.
  abbrev IsBounded : Bytes → Bytes → Back → Type 0
  IsBounded p s none = length p ≤ most
  IsBounded p s (some (q, m)) = (length p ≤ most) × (length q ≤ most) × (length s ≤ length m)

  -- Going back costs more than any stretch without it.
  abbrev measure : Bytes → Bytes → Back → ℕ
  measure p s back = returns s back * suc most + length p

  abbrev Falls : ℕ → Option (Bytes × Bytes × Back) → Type 0
  Falls m none = Unit
  Falls m (some (p, s, back)) = IsBounded p s back × (measure p s back < m)

  falls_far : (a b c d : ℕ) → a < b → c ≤ most → a * suc most + c < b * suc most + d
  falls_far a b c d h k = omega (arith, mul-le-mul_right {m = suc a} {n = b} (suc most) h)

  falls_near : (a b c d : ℕ) → a ≤ b → c < d → a * suc most + c < b * suc most + d
  falls_near a b c d h k = omega (arith, mul-le-mul_right {m = a} {n = b} (suc most) h)

  retry-Falls :
      (p : Bytes) (x : ℕ) (s : Bytes) (back : Back)
      → IsBounded p (x ∷ s) back
      → Falls (measure p (x ∷ s) back) (retry back)
  unfolding retry
  retry-Falls p x s none b = tt
  retry-Falls p x s (some (q, [])) b = absurd (omega arith)
  retry-Falls p x s (some (q, y ∷ m)) b =
      ((b.1, b.1, omega arith), falls_far (length m) (suc (length m)) _ _ (omega arith) b.1)

  next-Falls :
      (p : Bytes) (x : ℕ) (s : Bytes) (back : Back)
      → IsBounded p (x ∷ s) back
      → Falls (measure p (x ∷ s) back) (next p x s back)
  unfolding next
  next-Falls [] x s back b = retry-Falls [] x s back b
  next-Falls (c ∷ p) x s back b = elim (Bool-cases (nat_beq c x)) [
    | inl same ↦ rw same (literal_round back b)
    | inr other ↦ elim (Bool-cases (nat_beq c 42)) [
      | inl starred ↦ rw (other, starred) (star_round back b)
      | inr byte ↦ rw (other, byte) (retry-Falls (c ∷ p) x s back b)
    ]
  ]
    where
      literal_round :
          (k : Back)
          → IsBounded (c ∷ p) (x ∷ s) k
          → Falls (measure (c ∷ p) (x ∷ s) k) (some (p, s, k))
      literal_round none h = (omega arith, falls_far _ _ _ _ (omega arith) (omega arith))
      literal_round (some (q, m)) h =
          ((omega arith, h.1, omega arith), falls_near _ _ _ _ (omega arith) (omega arith))

      star_round :
          (k : Back)
          → IsBounded (c ∷ p) (x ∷ s) k
          → Falls (measure (c ∷ p) (x ∷ s) k) (some (p, x ∷ s, some (p, x ∷ s)))
      star_round none h =
          ((omega arith, omega arith, omega arith), falls_far _ _ _ _ (omega arith) (omega arith))
      star_round (some (q, m)) h =
          ((omega arith, omega arith, omega arith), falls_near _ _ _ _ h.2 (omega arith))

  proceed_runs :
      (rest : Bytes → Bytes → Back → Option Bool) (m fuel : ℕ) (o : Option (Bytes × Bytes × Back))
      → Falls m o
      → m < suc fuel
      → ((p s : Bytes) (back : Back)
          → IsBounded p s back
          → measure p s back < fuel
          → (b : Bool) × (rest p s back ≡ some b))
      → (b : Bool) × (proceed rest o ≡ some b)
  unfolding proceed
  proceed_runs rest m fuel none f h ih = (false, refl)
  proceed_runs rest m fuel (some (p, s, back)) f h ih = ih p s back f.0 (omega (arith, f.1))

  match_loop_runs :
      (fuel : ℕ) (p s : Bytes) (back : Back)
      → IsBounded p s back
      → measure p s back < fuel
      → (b : Bool) × (match_loop fuel p s back ≡ some b)
  unfolding match_loop
  match_loop_runs zero p s back bounded h = absurd (omega arith)
  match_loop_runs (suc fuel) p [] back bounded h = (_, refl)
  match_loop_runs (suc fuel) p (x ∷ s) back bounded h =
      proceed_runs (match_loop fuel) (measure p (x ∷ s) back) fuel (next p x s back)
        (next-Falls p x s back bounded) h
        (λ p' s' back' b' h'. match_loop_runs fuel p' s' back' b' h')

pub match_loop_ends : (p s : Bytes) → (b : Bool) × (match_loop (fuel_for p s) p s none ≡ some b)
match_loop_ends p s = match_loop_runs (length p) (fuel_for p s) p s none (omega arith) (grind arith)
