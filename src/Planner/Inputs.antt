-- ===== src/Planner/Inputs.antt =====
-- services/control-plane/internal/planner/inputs_hash.go, with SHA-256 in hexadecimal digits as a
-- parameter.
pub mod Laws
use Prim.Native.String.{◌++◌}
use cisync.Prelude.{String, List, [], ◌∷◌}
use cisync.Evidence.Digests.{sort_strings}

pub record InputsMaterial : Type 0 where
  pub base_sha : String
  pub lockfiles : List String
  pub flags : List String
  pub toolchain : String

-- `strings.Join` of Go's library.
unfoldable pub join : String → List String → String
join sep [] = ""
join sep (s ∷ []) = s
join sep (s ∷ t ∷ rest) = s ++ sep ++ join sep (t ∷ rest)

-- What the builder holds. `sort.Strings` puts a list in its one sorted order, as `sort_strings` does.
unfoldable pub canonical : InputsMaterial → String
unfolding join sort_strings
canonical m =
    "base_sha="
    ++ m.base_sha
    ++ "\nlockfiles="
    ++ join "," (sort_strings m.lockfiles)
    ++ "\nflags="
    ++ join "," (sort_strings m.flags)
    ++ "\ntoolchain="
    ++ m.toolchain

unfoldable pub hash_inputs : (String → String) → InputsMaterial → String
unfolding canonical
hash_inputs sha256 m = "sha256:" ++ sha256 (canonical m)
