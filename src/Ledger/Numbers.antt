-- ===== src/Ledger/Numbers.antt =====
-- The decimal numbers in the text that verify/verifier.go hashes: they are read back.
use Prim.Native.String.{◌++◌ as ◌++ₛ◌, [] as empty, ◌∷◌ as ◌∷ₛ◌}
use Prim.Native.String.append as Append
use Prim.Native.Char.{code}
use cisync.Prelude.{
  ℕ, zero, suc, ◌+◌, ◌-◌, ◌*◌, ◌/◌, ◌%◌, ◌≤◌, ◌<◌, ◌≡◌, refl, sym, ap, ◌∙◌, subst, String, Bool,
  false, ◌||◌, [], ◌∷◌, ◌++◌, All, All-append, Bool-cases, arith, if◌then◌else◌, nat_beq, ltb, inl,
  inr,
}
use cisync.Prelude.Int.{ℤ, pos, negsuc}
use cisync.Policy.Glob.{Bytes, bytes}
use cisync.JobLease.{show, decimal, digit_text}

abbrev pub has_bar : Bytes → Bool
has_bar [] = false
has_bar (c ∷ s) = nat_beq c 124 || has_bar s

bytes_append : (s t : String) → bytes (s ++ₛ t) ≡ bytes s ++ bytes t
bytes_append empty t = ap bytes (Append.nil t)
bytes_append (c ∷ₛ s) t = ap bytes (Append.cons c s t) ∙ ap (λ r. code c ∷ r) (bytes_append s t)

abbrev IsDigit : ℕ → Type 0
IsDigit b = (48 ≤ b) × (b < 58)

read : ℕ → Bytes → ℕ
read acc [] = acc
read acc (b ∷ s) = read (10 * acc + (b - 48)) s

read_append : (acc : ℕ) (s : Bytes) (b : ℕ) → read acc (s ++ b ∷ []) ≡ 10 * read acc s + (b - 48)
unfolding read
read_append acc [] b = refl
read_append acc (c ∷ s) b = read_append (10 * acc + (c - 48)) s b

digit_bytes : (n : ℕ) → n < 10 → bytes (digit_text n) ≡ (48 + n) ∷ []
digit_bytes zero h = refl
digit_bytes (suc zero) h = refl
digit_bytes (suc (suc zero)) h = refl
digit_bytes (suc (suc (suc zero))) h = refl
digit_bytes (suc (suc (suc (suc zero)))) h = refl
digit_bytes (suc (suc (suc (suc (suc zero))))) h = refl
digit_bytes (suc (suc (suc (suc (suc (suc zero)))))) h = refl
digit_bytes (suc (suc (suc (suc (suc (suc (suc zero))))))) h = refl
digit_bytes (suc (suc (suc (suc (suc (suc (suc (suc zero)))))))) h = refl
digit_bytes (suc (suc (suc (suc (suc (suc (suc (suc (suc zero))))))))) h = refl
digit_bytes (suc (suc (suc (suc (suc (suc (suc (suc (suc (suc n)))))))))) h = absurd (omega arith)

-- The text of a number is digits, and reads as the number.
abbrev Reads : ℕ → Bytes → Type 0
Reads n s = All IsDigit s × (read 0 s ≡ n)

decimal-Reads : (fuel n : ℕ) → n < fuel → Reads n (bytes (decimal fuel n))
unfolding decimal read
decimal-Reads zero n h = absurd (omega arith)
decimal-Reads (suc fuel) n h = elim (Bool-cases (ltb n 10)) [
  | inl small ↦
      rw (small, decimal)
        (subst (Reads n) (sym (digit_bytes n (ground arith)))
          (((omega arith, ground arith), tt), omega arith))
  | inr big ↦
      let at_least : 10 ≤ n = ground arith in
      let (digits, value) = decimal-Reads fuel (n / 10) (omega (arith, at_least)) in
      let last = digit_bytes (n % 10) (omega arith) in
      let front = bytes (decimal fuel (n / 10)) in
      rw (big, decimal)
        (subst (Reads n)
          (sym (
            bytes_append (decimal fuel (n / 10)) (digit_text (n % 10)) ∙ ap (λ d. front ++ d) last))
          (
            All-append IsDigit front ((48 + n % 10) ∷ []) digits ((omega arith, omega arith), tt),
            read_append 0 front (48 + n % 10) ∙ omega (arith, value),
          ))
]

digits_free : (s : Bytes) → All IsDigit s → has_bar s ≡ false
digits_free [] h = refl
digits_free (b ∷ s) ((low, high), h) = ground (arith, digits_free s h)

read_int : Bytes → ℤ
read_int [] = pos 0
read_int (b ∷ s) = if nat_beq b 45 then negsuc (read 0 s - 1) else pos (read 0 (b ∷ s))

read_digits : (s : Bytes) {n : ℕ} → Reads n s → read_int s ≡ pos n
unfolding read_int read
read_digits [] (h, e) = ap pos e
read_digits (b ∷ s) (((low, high), h), e) =
    let no_sign : nat_beq b 45 ≡ false = ground arith in rw no_sign (ap pos e)

read_show : (z : ℤ) → read_int (bytes (show z)) ≡ z
unfolding show read_int
read_show (pos n) = read_digits (bytes (decimal (n + 1) n)) (decimal-Reads (n + 1) n (omega arith))
read_show (negsuc n) =
    let (digits, value) = decimal-Reads (n + 2) (n + 1) (omega arith) in
    ap (λ s. read_int s) (bytes_append "-" (decimal (n + 2) (n + 1)))
    ∙ ap negsuc (omega (arith, value))

pub show_injective : (a b : ℤ) → bytes (show a) ≡ bytes (show b) → a ≡ b
show_injective a b h = sym (read_show a) ∙ ap read_int h ∙ read_show b

pub has_bar-show : (z : ℤ) → has_bar (bytes (show z)) ≡ false
unfolding show
has_bar-show (pos n) =
    digits_free (bytes (decimal (n + 1) n)) (decimal-Reads (n + 1) n (omega arith)).0
has_bar-show (negsuc n) =
    ap has_bar (bytes_append "-" (decimal (n + 2) (n + 1)))
    ∙ digits_free (bytes (decimal (n + 2) (n + 1))) (decimal-Reads (n + 2) (n + 1) (omega arith)).0
