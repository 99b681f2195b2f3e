-- ===== src/Connector/Queue/Backoff.antt =====
-- The backoff of the drainer (queue/drainer.go) against its shift on 64 bits.
use native.Mathlib.Omega.{pow_step}
use cisync.Prelude.{
  ℕ, zero, suc, ◌+◌, ◌-◌, ◌*◌, ◌^◌, ◌<◌, ◌≡◌, refl, Bool, true, ◌&&◌, &&-true, nat_beq, nat_beq_iff,
  if◌then◌else◌, ltb, Bool-cases, inl, inr, arith, subst, sym, ap, ◌∙◌,
}
use cisync.Connector.Queue.{backoff_for_attempt, backoff_cap}

abbrev capped : ℕ → ℕ
capped n = if ltb backoff_cap n then backoff_cap else n

abbrev agrees : ℕ → Bool
agrees attempt = nat_beq (backoff_for_attempt attempt) (capped (2_000_000_000 * 2 ^ attempt))

abbrev agrees_below : ℕ → Bool
agrees_below zero = true
agrees_below (suc n) = agrees n && agrees_below n

agrees_below-at : (n a : ℕ) → agrees_below n ≡ true → a < n → agrees a ≡ true
agrees_below-at zero a h lt = absurd (omega arith)
agrees_below-at (suc n) a h lt =
    let (here, below) = &&-true (agrees n) (agrees_below n) h in
    elim (Bool-cases (nat_beq a n)) [
      | inl e ↦ subst (λ x. agrees x ≡ true) (sym ((nat_beq_iff a n).0 e)) here
      | inr e ↦ agrees_below-at n a below (ground arith)
    ]

first_agree : agrees_below 64 ≡ true
unfolding backoff_for_attempt
first_agree = refl

large_power : (k : ℕ) → (m : ℕ) × (2 ^ (k + 64) ≡ 18_446_744_073_709_551_616 * suc m)
large_power zero = (0, refl)
large_power (suc k) =
    let (m, e) = large_power k in
    (2 * m + 1, ap (λ n. 2 ^ n) (omega arith) ∙ pow_step 2 (k + 64) ∙ omega (arith, e))

large_agree : (k : ℕ) → backoff_for_attempt (k + 64) ≡ capped (2_000_000_000 * 2 ^ (k + 64))
unfolding backoff_for_attempt
large_agree k = let (m, e) = large_power k in rw e (ground arith)

-- The shift never misleads the backoff: it is 2 s * 2 ^ attempt capped at 15 minutes, for every attempt,
-- although the shift overflows from the 33rd on.
pub backoff_capped :
    (attempt : ℕ)
    → backoff_for_attempt attempt ≡ (
        if ltb backoff_cap (2_000_000_000 * 2 ^ attempt)
        then backoff_cap
        else 2_000_000_000 * 2 ^ attempt)
backoff_capped attempt = elim (Bool-cases (ltb attempt 64)) [
  | inl few ↦ (nat_beq_iff _ _).0 (agrees_below-at 64 attempt first_agree (ground arith))
  | inr many ↦
      subst (λ n. backoff_for_attempt n ≡ capped (2_000_000_000 * 2 ^ n)) (ground arith)
        (large_agree (attempt - 64))
]
