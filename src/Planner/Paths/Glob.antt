-- ===== src/Planner/Paths/Glob.antt =====
-- `MatchGlob` of planner/glob.go beside the one of policy/glob.go.
use Prim.Native.String.{◌∷◌ as ◌∷ₛ◌, [] as empty}
use Prim.Native.String.compare as Compare
use Prim.Native.Char.{Char, code}
use text.Mathlib.Text.{is_eq}
use mathlib.Core.List.{append-nil, append_assoc}
use cisync.Prelude.{
  ℕ, ◌≡◌, refl, sym, ap, ◌∙◌, String, false, List, [], ◌∷◌, ◌++◌, ◌==◌, nat_eq, string_eq,
  Bool-cases, arith, inl, inr, eq_iff, suc, ◌+◌, length,
}
use cisync.Policy.Glob.{
  Bytes, bytes, slash, split, to_first, match_segments, match_head, match_one_segment, match_loop,
  fuel_for,
}
use cisync.Policy.Glob as Policy_glob
use cisync.Planner.Paths.{split_loop, split_path, match_glob}

abbrev behind : Bytes → List Bytes → List Bytes
behind part [] = part ∷ []
behind part (first ∷ parts) = (part ++ first) ∷ parts

behind-to_first :
    (part : Bytes) (c : ℕ) (parts : List Bytes)
    → behind (part ++ c ∷ []) parts ≡ behind part (to_first c parts)
behind-to_first part c [] = refl
behind-to_first part c (first ∷ parts) = λ i. append_assoc part (c ∷ []) first i ∷ parts

behind_nothing : (s : Bytes) → behind [] (split s) ≡ split s
unfolding split
behind_nothing [] = refl
behind_nothing (c ∷ s) = elim (Bool-cases (c == slash)) [
  | inl cut ↦ rw (cut, split) refl
  | inr on ↦ rw (on, split) (sym (behind-to_first [] c (split s)))
]

split_loop-split : (part s : Bytes) → split_loop part s ≡ behind part (split s)
unfolding split_loop split
split_loop-split part [] = λ i. sym (append-nil part) i ∷ []
split_loop-split part (c ∷ s) = elim (Bool-cases (c == slash)) [
  | inl cut ↦
      rw (cut, split_loop, split)
        (rw (append-nil part, split_loop-split [] s, behind_nothing s) refl)
  | inr on ↦
      rw (on, split_loop, split)
        (split_loop-split (part ++ c ∷ []) s ∙ behind-to_first part c (split s))
]

split_path_lem : (s : Bytes) → split_path s ≡ split s
unfolding split_path
split_path_lem s = split_loop-split [] s ∙ behind_nothing s

-- After a cut, or at the first byte, the rest has a segment: the pattern without one fails.
no_more : (s : Bytes) → match_segments [] (split s) ≡ false
unfolding split match_segments
no_more [] = refl
no_more (c ∷ s) = elim (Bool-cases (c == slash)) [
  | inl cut ↦ rw (cut, split) refl
  | inr on ↦ rw (on, split) (not_empty (split s))
]
  where
    not_empty : (parts : List Bytes) → match_segments [] (to_first c parts) ≡ false
    not_empty [] = refl
    not_empty (part ∷ parts) = refl

cons_ne_empty : (c : Char) (name : String) → ((c ∷ₛ name) == "") ≡ false
cons_ne_empty c name = ap is_eq (Compare.cons-nil c name)

nothing-cons : (x : ℕ) (s : Bytes) → match_one_segment [] (x ∷ s) ≡ false
unfolding match_one_segment match_loop
nothing-cons x s =
    let enough : fuel_for [] (x ∷ s) ≡ suc (length s + 2) = omega arith in
    rw (enough, match_one_segment) refl

-- The empty pattern has one segment, and means only the name that has no other.
match_nothing : (name : String) → match_segments (split []) (split (bytes name)) ≡ (name == "")
unfolding match_segments split match_loop
match_nothing empty = refl
match_nothing (c ∷ₛ name) = elim (Bool-cases (code c == slash)) [
  | inl cut ↦ rw (cut, split) (no_more (bytes name) ∙ sym (cons_ne_empty c name))
  | inr on ↦ rw (on, split) (first_byte (split (bytes name)) ∙ sym (cons_ne_empty c name))
]
  where
    first_byte :
        (parts : List Bytes) → match_head (match_segments []) [] (to_first (code c) parts) ≡ false
    first_byte [] = rw (nothing-cons (code c) []) refl
    first_byte (part ∷ parts) = rw (nothing-cons (code c) part) refl

-- The copy of `MatchGlob` in the planner answers as the policy package's does, on every pattern and
-- name.
pub match_glob-eq :
    (pattern name : String) → match_glob pattern name ≡ Policy_glob.match_glob pattern name
unfolding match_glob Policy_glob.match_glob
match_glob-eq pattern name =
    rw (split_path_lem (bytes pattern), split_path_lem (bytes name))
      (elim (Bool-cases (pattern == "")) [
        | inl e ↦ rw e (rw ((eq_iff pattern "").0 e) (match_nothing name))
        | inr n ↦ rw n refl
      ])
