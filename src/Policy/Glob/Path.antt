-- ===== src/Policy/Glob/Path.antt =====
-- `matchSegments` and `MatchGlob` of policy/glob.go against the meaning of a pattern.
use cisync.Prelude.{
  ℕ, ◌≡◌, refl, sym, ◌∙◌, ◌≢◌, ◌↔◌, inl, inr, true, false, ◌&&◌, ◌||◌, List, [], ◌∷◌, All,
  Bool-cases, arith, &&-true, String, string_eq, nat_beq, beq-false, nat_eq,
}
use cisync.Policy.Glob.{
  Bytes, bytes, is_double_star, any_suffix, match_head, match_segments, match_one_segment, split,
  match_glob, to_first,
}
use cisync.Policy.Glob.Spec.{IsPlain, MatchesPath, done, deep, more, one}
use cisync.Policy.Glob.Segment.{match_one_segment-Matches}

module _ {pat : List Bytes}
    (ih : (seg : List Bytes)
      → All IsPlain seg
      → (match_segments pat seg ≡ true) ↔ MatchesPath pat seg) where
  one_more_iff :
      (p s : Bytes) (seg : List Bytes)
      → is_double_star p ≡ true
      → All IsPlain (s ∷ seg)
      → (any_suffix (match_segments pat) seg ≡ true) ↔ MatchesPath (p ∷ pat) seg
      → (any_suffix (match_segments pat) (s ∷ seg) ≡ true) ↔ MatchesPath (p ∷ pat) (s ∷ seg)
  unfolding any_suffix
  one_more_iff p s seg h t later = (from, to)
    where
      from :
          (match_segments pat (s ∷ seg) || any_suffix (match_segments pat) seg) ≡ true
          → MatchesPath (p ∷ pat) (s ∷ seg)
      from e = elim (Bool-cases (match_segments pat (s ∷ seg))) [
        | inl now ↦ deep h ((ih (s ∷ seg) t).0 now)
        | inr not_now ↦ more h (later.0 (ground arith))
      ]

      to :
          MatchesPath (p ∷ pat) (s ∷ seg)
          → (match_segments pat (s ∷ seg) || any_suffix (match_segments pat) seg) ≡ true
      to (deep _ m) = let now = (ih (s ∷ seg) t).1 m in ground arith
      to (more _ m) = let then_ = later.1 m in ground arith
      to (one n _ _) = absurd (cc)

  any_suffix_iff :
      (p : Bytes) (seg : List Bytes)
      → is_double_star p ≡ true
      → All IsPlain seg
      → (any_suffix (match_segments pat) seg ≡ true) ↔ MatchesPath (p ∷ pat) seg
  unfolding any_suffix
  any_suffix_iff p [] h t = ((λ e. deep h ((ih [] t).0 e)), at_end)
    where
      at_end : MatchesPath (p ∷ pat) [] → match_segments pat [] ≡ true
      at_end (deep _ m) = (ih [] t).1 m
  any_suffix_iff p (s ∷ seg) h t = one_more_iff p s seg h t (any_suffix_iff p seg h t.1)

  match_head_iff :
      (p : Bytes) (seg : List Bytes)
      → is_double_star p ≡ false
      → All IsPlain seg
      → (match_head (match_segments pat) p seg ≡ true) ↔ MatchesPath (p ∷ pat) seg
  unfolding match_head
  match_head_iff p [] h t = ((λ e. absurd (cc)), nothing_left)
    where
      nothing_left : MatchesPath (p ∷ pat) [] → false ≡ true
      nothing_left (deep d _) = sym h ∙ d
  match_head_iff p (s ∷ seg) h t = (from, to)
    where
      from :
          (match_one_segment p s && match_segments pat seg) ≡ true → MatchesPath (p ∷ pat) (s ∷ seg)
      from e =
          let (here, rest) = &&-true _ _ e in
          one h ((match_one_segment-Matches p s t.0).0 here) ((ih seg t.1).0 rest)

      to :
          MatchesPath (p ∷ pat) (s ∷ seg) → (match_one_segment p s && match_segments pat seg) ≡ true
      to (deep d _) = absurd (cc)
      to (more d _) = absurd (cc)
      to (one _ m r) =
          let here = (match_one_segment-Matches p s t.0).1 m in
          let rest = (ih seg t.1).1 r in ground arith

match_all : {p : Bytes} (seg : List Bytes) → is_double_star p ≡ true → MatchesPath (p ∷ []) seg
match_all [] h = deep h done
match_all (s ∷ seg) h = more h (match_all seg h)

match_segments_iff :
    (pat seg : List Bytes) → All IsPlain seg → (match_segments pat seg ≡ true) ↔ MatchesPath pat seg
unfolding match_segments
match_segments_iff [] [] t = ((λ e. done), λ m. refl)
match_segments_iff [] (s ∷ seg) t = ((λ e. absurd (cc)), λ m. elim m [ ])
match_segments_iff (p ∷ []) seg t = elim (Bool-cases (is_double_star p)) [
  | inl d ↦ rw d ((λ e. match_all seg d), λ m. refl)
  | inr n ↦ rw n (match_head_iff (λ s h. match_segments_iff [] s h) p seg n t)
]
match_segments_iff (p ∷ q ∷ pat) seg t = elim (Bool-cases (is_double_star p)) [
  | inl d ↦ rw d (any_suffix_iff (λ s h. match_segments_iff (q ∷ pat) s h) p seg d t)
  | inr n ↦ rw n (match_head_iff (λ s h. match_segments_iff (q ∷ pat) s h) p seg n t)
]

to_first-IsPlain :
    (c : ℕ) (parts : List Bytes) → c ≢ 42 → All IsPlain parts → All IsPlain (to_first c parts)
to_first-IsPlain c [] h t = ((h, tt), tt)
to_first-IsPlain c (part ∷ parts) h t = ((h, t.0), t.1)

split-IsPlain : (s : Bytes) → IsPlain s → All IsPlain (split s)
unfolding split
split-IsPlain [] h = (tt, tt)
split-IsPlain (c ∷ s) (plain, rest) = elim (Bool-cases (nat_beq c 47)) [
  | inl cut ↦ rw cut (tt, split-IsPlain s rest)
  | inr byte ↦ rw byte (to_first-IsPlain c (split s) plain (split-IsPlain s rest))
]

-- `MatchGlob` answers whether the pattern means the name, for a pattern that is not empty and a
-- name without `*`: `**` stands for any run of segments, `*` for any run of bytes inside one. The
-- empty name is one empty segment, which `*` and `**` match.
pub match_glob_lem :
    (pattern name : String)
    → pattern ≢ ""
    → IsPlain (bytes name)
    → (match_glob pattern name ≡ true) ↔ MatchesPath (split (bytes pattern)) (split (bytes name))
unfolding match_glob
match_glob_lem pattern name ne plain = rw (beq-false ne) (
    match_segments_iff (split (bytes pattern)) (split (bytes name))
      (split-IsPlain (bytes name) plain))
