-- ===== src/Evidence/Census.antt =====
-- services/control-plane/internal/evidence/results.go: the outcome census of a run.
use cisync.Prelude.{◌+◌, ◌≡◌, ap, Bool, true, false, ◌||◌, if◌then◌else◌, arith, ℕ}
use cisync.Prelude.Int.{ℤ, pos, negsuc, ◌+ℤ◌, lt_int, eq_int}

pub record TestResults : Type 0 where
  pub total : ℤ
  pub passed : ℤ
  pub failed : ℤ
  pub skipped : ℤ
  pub quarantined : ℤ

unfoldable pub executed : TestResults → ℤ
executed r = r.passed +ℤ r.failed

unfoldable pub sum : TestResults → ℤ
sum r = r.passed +ℤ r.failed +ℤ r.skipped +ℤ r.quarantined

abbrev pub is_negative : ℤ → Bool
is_negative n = lt_int n (pos 0)

abbrev pub is_positive : ℤ → Bool
is_positive n = lt_int (pos 0) n

unfoldable pub is_valid : TestResults → Bool
unfolding sum
is_valid r =
    if is_negative r.total
      || (is_negative r.passed
          || (is_negative r.failed || (is_negative r.skipped || is_negative r.quarantined)))
    then false
    else eq_int (sum r) r.total

-- What a valid census is: five counts, of which the first is the sum of the others.
abbrev pub census : (passed failed skipped quarantined : ℕ) → TestResults
census p f s q = record {
  total = pos (p + f + s + q);
  passed = pos p;
  failed = pos f;
  skipped = pos s;
  quarantined = pos q;
}

abbrev of_counts : (total passed failed skipped quarantined : ℤ) → TestResults
of_counts t p f s q = record { total = t; passed = p; failed = f; skipped = s; quarantined = q }

summed :
    (t : ℤ) (p f s q : ℕ)
    → eq_int (pos p +ℤ pos f +ℤ pos s +ℤ pos q) t ≡ true
    → t ≡ pos (p + f + s + q)
summed (pos t) p f s q h = ground arith
summed (negsuc t) p f s q h = absurd (ground arith)

counted :
    (t p f s q : ℤ)
    → is_valid (of_counts t p f s q) ≡ true
    → (p' : ℕ) × (f' : ℕ) × (s' : ℕ) × (q' : ℕ) × (of_counts t p f s q ≡ census p' f' s' q')
unfolding is_valid sum
counted t (pos p) (pos f) (pos s) (pos q) h = (
  p,
  f,
  s,
  q,
  ap (λ x. of_counts x (pos p) (pos f) (pos s) (pos q)) (summed t p f s q (ground arith)),
)
counted t (negsuc p) f s q h = absurd (ground arith)
counted t p (negsuc f) s q h = absurd (ground arith)
counted t p f (negsuc s) q h = absurd (ground arith)
counted t p f s (negsuc q) h = absurd (ground arith)

pub valid_counts :
    (r : TestResults)
    → is_valid r ≡ true
    → (p : ℕ) × (f : ℕ) × (s : ℕ) × (q : ℕ) × (r ≡ census p f s q)
valid_counts r h = counted r.total r.passed r.failed r.skipped r.quarantined h

pub census_valid : (p f s q : ℕ) → is_valid (census p f s q) ≡ true
unfolding is_valid sum
census_valid p f s q = ground arith
