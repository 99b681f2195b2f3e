-- ===== src/JobLease/Header.antt =====
-- `FromAuthorizationHeader` of joblease/verifier.go, on a header of ASCII bytes.
use mathlib.Core.List.{reverse_aux, reverse-reverse}
use cisync.Prelude.{
  ℕ, zero, suc, take, ◌≡◌, ◌≢◌, ◌⊎◌, refl, Bool, true, false, not, ◌&&◌, ◌||◌, Option, none, some,
  [], ◌∷◌, ◌++◌, if◌then◌else◌, leb, nat_eq, nat_beq, length, ◌+◌, reverse, All, arith,
}
use cisync.Policy.Glob.{Bytes, bytes}
use cisync.JobLease.{IsWord}

abbrev to_lower : ℕ → ℕ
to_lower c = if leb 65 c && leb c 90 then c + 32 else c

-- `strings.EqualFold` on ASCII.
unfoldable pub equal_fold : Bytes → Bytes → Bool
equal_fold [] [] = true
equal_fold (a ∷ s) (b ∷ t) = nat_beq (to_lower a) (to_lower b) && equal_fold s t
equal_fold s t = false

abbrev is_space : ℕ → Bool
is_space c = (leb 9 c && leb c 13) || nat_beq c 32

unfoldable pub trim_left : Bytes → Bytes
trim_left [] = []
trim_left (c ∷ s) = if is_space c then trim_left s else c ∷ s

-- `strings.TrimSpace` on ASCII.
unfoldable pub trim_space : Bytes → Bytes
unfolding trim_left
trim_space s = reverse (trim_left (reverse (trim_left s)))

-- `strings.ContainsAny(s, " \t")`.
unfoldable pub has_blank : Bytes → Bool
has_blank [] = false
has_blank (c ∷ s) = nat_beq c 32 || nat_beq c 9 || has_blank s

abbrev drop : ℕ → Bytes → Bytes
drop zero s = s
drop (suc n) [] = []
drop (suc n) (x ∷ s) = drop n s

unfoldable pub accept : Bytes → Option Bytes
unfolding has_blank
accept [] = none
accept (c ∷ token) = if has_blank (c ∷ token) then none else some (c ∷ token)

unfoldable pub from_authorization_header : Bytes → Option Bytes
unfolding equal_fold trim_space accept
from_authorization_header header =
    if leb (length header) 7 || not (equal_fold (take 7 header) (bytes "Bearer "))
    then none
    else accept (trim_space (drop 7 header))

-- A byte of a compact token.
abbrev pub IsTokenByte : ℕ → Type 0
IsTokenByte b = IsWord b ⊎ (b ≡ 46)

All-reverse_aux :
    (s t : Bytes) → All IsTokenByte s → All IsTokenByte t → All IsTokenByte (reverse_aux s t)
All-reverse_aux [] t h k = k
All-reverse_aux (c ∷ s) t (w, h) k = All-reverse_aux s (c ∷ t) h (w, k)

trim_nothing : (s : Bytes) → All IsTokenByte s → trim_left s ≡ s
unfolding trim_left
trim_nothing [] h = refl
trim_nothing (c ∷ s) (w, h) = let byte : is_space c ≡ false = ground arith in rw byte refl

no_blank : (s : Bytes) → All IsTokenByte s → has_blank s ≡ false
unfolding has_blank
no_blank [] h = refl
no_blank (c ∷ s) (w, h) = ground (arith, no_blank s h)

accept_token : (s : Bytes) → s ≢ [] → All IsTokenByte s → accept s ≡ some s
unfolding accept
accept_token [] ne h = absurd (ne refl)
accept_token (c ∷ s) ne h = rw (no_blank (c ∷ s) h) refl

-- The token behind `Bearer ` is what the header carries.
pub bearer_token :
    (token : Bytes)
    → token ≢ []
    → All IsTokenByte token
    → from_authorization_header (bytes "Bearer " ++ token) ≡ some token
unfolding from_authorization_header trim_space
bearer_token [] ne h = absurd (ne refl)
bearer_token (c ∷ token) ne h =
    let long : leb (length (bytes "Bearer " ++ (c ∷ token))) 7 ≡ false = ground arith in
    rw
      (
        long,
        trim_nothing (c ∷ token) h,
        trim_nothing (reverse (c ∷ token)) (All-reverse_aux (c ∷ token) [] h tt),
        reverse-reverse (c ∷ token),
      )
      (accept_token (c ∷ token) ne h)
