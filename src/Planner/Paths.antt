-- ===== src/Planner/Paths.antt =====
-- services/control-plane/internal/planner/glob.go and surfaces.go: the paths that a change touches.
pub mod Glob
use Prim.Native.Char.{Char, code}
use Prim.Native.String.{◌∷◌ as ◌∷ₛ◌, [] as empty}
use cisync.Prelude.{
  ℕ, String, Bool, true, false, ◌||◌, Option, none, some, List, [], ◌∷◌, ◌++◌, if◌then◌else◌, ◌==◌,
  nat_eq, string_eq, contains,
}
use cisync.Policy.Glob.{Bytes, bytes, slash, match_segments}
use cisync.Evidence.Digests.{sort_strings}

-- The loop of `splitPath`: `part` is `s[start:i]`.
unfoldable pub split_loop : Bytes → Bytes → List Bytes
split_loop part [] = part ∷ []
split_loop part (c ∷ s) =
    let cut = part ∷ split_loop [] s in
    let on = split_loop (part ++ c ∷ []) s in if c == slash then cut else on

unfoldable pub split_path : Bytes → List Bytes
unfolding split_loop
split_path s = split_loop [] s

-- `matchSegments` and `matchOneSegment` of this package are those of policy/glob.go, line by line.
unfoldable pub match_glob : String → String → Bool
unfolding split_path match_segments
match_glob pattern name = match_segments (split_path (bytes pattern)) (split_path (bytes name))

-- `matchAnyPath` of triggers.go.
unfoldable pub match_any_path : String → List String → Bool
unfolding match_glob
match_any_path pattern [] = false
match_any_path pattern (p ∷ paths) = match_glob pattern p || match_any_path pattern paths

abbrev pub behind_char : Char → Option String → Option String
behind_char c none = none
behind_char c (some s) = some (c ∷ₛ s)

-- The text before the first slash, if there is one.
unfoldable pub before_slash : String → Option String
before_slash empty = none
before_slash (c ∷ₛ s) = if code c == slash then some empty else behind_char c (before_slash s)

unfoldable pub class_of : String → String
unfolding before_slash
class_of p = elim (before_slash p) [ none ↦ "_root" | some class ↦ class ]

-- The loop of `SurfaceClasses`; the set `seen` holds what is in `out`.
unfoldable pub class_loop : List String → List String → List String
unfolding class_of
class_loop out [] = out
class_loop out (p ∷ paths) =
    class_loop (if contains out (class_of p) then out else out ++ class_of p ∷ []) paths

-- `sortStrings` is the insertion sort of evidence/evaluate.go, line by line.
unfoldable pub surface_classes : List String → List String
unfolding class_loop sort_strings
surface_classes paths = sort_strings (class_loop [] paths)
