-- ===== src/Policy/Glob.antt =====
-- services/control-plane/internal/policy/glob.go: `MatchGlob` and the loops behind it. A text is
-- matched as the list of its codes; an index into it is the rest of the list from there.
pub mod Spec
pub mod Segment
pub mod Termination
pub mod Path
use Prim.Native.Char.{Char, code}
use Prim.Native.String.{◌∷◌ as ◌∷ₛ◌, [] as empty}
use cisync.Prelude.{
  ℕ, zero, suc, ◌+◌, ◌*◌, String, Bool, true, false, ◌&&◌, ◌||◌, Option, none, some, List, [], ◌∷◌,
  if◌then◌else◌, ◌==◌, string_eq, nat_eq, length,
}

abbrev pub Bytes : Type 0
Bytes = List ℕ

abbrev pub bytes : String → Bytes
bytes empty = []
bytes (c ∷ₛ s) = code c ∷ bytes s

abbrev pub star : ℕ
star = 42

abbrev pub slash : ℕ
slash = 47

-- Where to go back to: the pattern behind the last `*`, and the text at `mark`.
abbrev pub Back : Type 0
Back = Option (Bytes × Bytes)

abbrev pub tail : Bytes → Bytes
tail [] = []
tail (x ∷ s) = s

unfoldable pub retry : Back → Option (Bytes × Bytes × Back)
retry none = none
retry (some (after, mark)) = some (after, tail mark, some (after, tail mark))

-- One round of the first loop of `matchOneSegment`; `none` is its `return false`.
unfoldable pub next : Bytes → ℕ → Bytes → Back → Option (Bytes × Bytes × Back)
unfolding retry
next [] x s back = retry back
next (c ∷ p) x s back =
    if c == x
    then some (p, s, back)
    else if c == star
    then some (p, x ∷ s, some (p, x ∷ s))
    else retry back

-- The second loop, and the test after it.
unfoldable pub only_stars : Bytes → Bool
only_stars [] = true
only_stars (c ∷ p) = if c == star then only_stars p else false

unfoldable pub proceed :
    (Bytes → Bytes → Back → Option Bool) → Option (Bytes × Bytes × Back) → Option Bool
proceed rest none = some false
proceed rest (some (p, s, back)) = rest p s back

-- The loops with fuel for the first; `none` means that the fuel ran out.
unfoldable pub match_loop : ℕ → Bytes → Bytes → Back → Option Bool
unfolding next only_stars proceed
match_loop zero p s back = none
match_loop (suc fuel) p [] back = some (only_stars p)
match_loop (suc fuel) p (x ∷ s) back = proceed (match_loop fuel) (next p x s back)

abbrev pub fuel_for : Bytes → Bytes → ℕ
fuel_for p s = (length s + 2) * (length p + 1)

unfoldable pub match_one_segment : Bytes → Bytes → Bool
unfolding match_loop
match_one_segment p s = elim (match_loop (fuel_for p s) p s none) [ none ↦ false | some b ↦ b ]

abbrev pub is_double_star : Bytes → Bool
is_double_star (a ∷ b ∷ []) = a == star && b == star
is_double_star p = false

-- `for i := 0; i <= len(seg); i++` with the test on `seg[i:]`.
unfoldable pub any_suffix : (List Bytes → Bool) → List Bytes → Bool
any_suffix test [] = test []
any_suffix test (s ∷ seg) = test (s ∷ seg) || any_suffix test seg

-- After the first segment of a pattern that is not `**`.
unfoldable pub match_head : (List Bytes → Bool) → Bytes → List Bytes → Bool
unfolding match_one_segment
match_head rest p [] = false
match_head rest p (s ∷ seg) = match_one_segment p s && rest seg

unfoldable pub match_segments : List Bytes → List Bytes → Bool
unfolding any_suffix match_head
match_segments [] [] = true
match_segments [] (s ∷ seg) = false
match_segments (p ∷ []) seg =
    if is_double_star p then true else match_head (match_segments []) p seg
match_segments (p ∷ q ∷ pat) seg =
    if is_double_star p
    then any_suffix (match_segments (q ∷ pat)) seg
    else match_head (match_segments (q ∷ pat)) p seg

abbrev pub to_first : ℕ → List Bytes → List Bytes
to_first c [] = (c ∷ []) ∷ []
to_first c (part ∷ parts) = (c ∷ part) ∷ parts

-- `strings.Split(s, "/")` of Go's library.
unfoldable pub split : Bytes → List Bytes
split [] = [] ∷ []
split (c ∷ s) = if c == slash then [] ∷ split s else to_first c (split s)

unfoldable pub match_glob : String → String → Bool
unfolding match_segments split
match_glob pattern name =
    if pattern == ""
    then name == ""
    else match_segments (split (bytes pattern)) (split (bytes name))
