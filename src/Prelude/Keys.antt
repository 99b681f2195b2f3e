-- ===== src/Prelude/Keys.antt =====
-- Types with a decidable equality, as the instance that the program's maps and tests use.
use Prim.Native.Nat.{ℕ}
use Prim.Native.String.{String}
use mathlib.Core.Path.{◌≡◌, refl, sym}
use mathlib.Core.Logic.{◌≢◌, ◌↔◌, inl, inr}
use mathlib.Core.Bool.{Bool, true, false}
use mathlib.Core.List.{List, [], ◌∷◌, Memᴰ}
use native.Mathlib.Omega.{arith}
use text.Mathlib.Text.{◌==◌ as str_beq}
use text.Mathlib.TextEquality.{eq_iff}
use cisync.Prelude.Tests.{nat_beq, nat_beq_iff, if◌then◌else◌, Bool-cases}

-- What a Go map key or a comparable value offers: `x == y`, and what its answer means.
pub record Eq {ℓ} (A : Type ℓ) : Type ℓ where
  pub beq : A → A → Bool
  pub beq_iff : (x y : A) → beq x y ≡ true ↔ x ≡ y

-- An enumeration is compared through its decision procedure.
abbrev pub dec_beq {ℓ} : {A : Type ℓ} → Discrete A → A → A → Bool
dec_beq dec a b = elim (dec a b) [ yes _ ↦ true | no _ ↦ false ]

pub dec_beq_iff {ℓ} : {A : Type ℓ} (dec : Discrete A) (a b : A) → (dec_beq dec a b ≡ true) ↔ (a ≡ b)
dec_beq_iff dec a b = ground arith

abbrev pub eq_of_discrete {ℓ} : {A : Type ℓ} → Discrete A → Eq A
eq_of_discrete dec = record { beq = dec_beq dec; beq_iff = dec_beq_iff dec }

instance abbrev pub string_eq : Eq String
string_eq = record { beq_iff = eq_iff; beq = str_beq }

infix 50 ◌==◌
abbrev pub ◌==◌ {ℓ} : {K : Type ℓ} ⦃keys : Eq K⦄ → K → K → Bool
◌==◌ ⦃keys⦄ a b = keys.beq a b

instance abbrev pub nat_eq : Eq ℕ
nat_eq = record { beq_iff = nat_beq_iff; beq = nat_beq }

module _ {ℓ} {A : Type ℓ} ⦃e : Eq A⦄ where
  pub beq_refl : (a : A) → (a == a) ≡ true
  beq_refl a = (e.beq_iff a a).1 refl

  pub beq-false : {a b : A} → a ≢ b → (a == b) ≡ false
  beq-false {a} {b} h = ground (arith, e.beq_iff a b)

  -- `for _, x := range xs { if x == a { return true } }; return false`
  abbrev pub contains : List A → A → Bool
  contains [] a = false
  contains (x ∷ xs) a = if x == a then true else contains xs a

  pub contains-mem : (xs : List A) (a : A) → contains xs a ≡ true → Memᴰ a xs
  contains-mem [] a h = absurd (ground arith)
  contains-mem (x ∷ xs) a h = elim (Bool-cases (x == a)) [
    | inl p ↦ Memᴰ.head (sym ((e.beq_iff x a).0 p))
    | inr p ↦ Memᴰ.tail (contains-mem xs a (rw p at h))
  ]

  pub mem-contains : (xs : List A) {a : A} → Memᴰ a xs → contains xs a ≡ true
  mem-contains [] m = elim m [ ]
  mem-contains (x ∷ xs) {a} (Memᴰ.head p) = ground (arith, (e.beq_iff x a).1 (sym p))
  mem-contains (x ∷ xs) {a} (Memᴰ.tail m) = ground (arith, mem-contains xs m)
