-- ===== src/Planner/Inputs/Laws.antt =====
-- `HashInputs` of planner/inputs_hash.go: what it does not tell apart.
use Prim.Native.String.{◌++◌}
use cisync.Prelude.{◌≡◌, refl, String, false, [], ◌∷◌}
use cisync.Prelude.Texts.{less}
use cisync.Evidence.Digests.Sorting.{occurrences, sort_strings_any_order}
use cisync.Planner.Inputs.{InputsMaterial, hash_inputs, join}

-- The hash does not depend on the order in which lockfiles and flags are listed, whatever the digest.
pub hash_any_order :
    (sha256 : String → String) (m n : InputsMaterial)
    → m.base_sha ≡ n.base_sha
    → m.toolchain ≡ n.toolchain
    → ((x : String) → occurrences x m.lockfiles ≡ occurrences x n.lockfiles)
    → ((x : String) → occurrences x m.flags ≡ occurrences x n.flags)
    → hash_inputs sha256 m ≡ hash_inputs sha256 n
unfolding hash_inputs
hash_any_order sha256 m n base tool locks flags =
    let l = sort_strings_any_order m.lockfiles n.lockfiles locks in
    let f = sort_strings_any_order m.flags n.flags flags in
    λ i.
      "sha256:"
      ++ sha256 (
          "base_sha="
          ++ base i
          ++ "\nlockfiles="
          ++ join "," (l i)
          ++ "\nflags="
          ++ join "," (f i)
          ++ "\ntoolchain="
          ++ tool i)

-- Two lockfile entries in order and one entry that joins them with a comma get the same hash.
pub hash_comma :
    (sha256 : String → String) (m : InputsMaterial) (a b : String)
    → less b a ≡ false
    → hash_inputs sha256 (record m { lockfiles = a ∷ b ∷ [] })
      ≡ hash_inputs sha256 (record m { lockfiles = (a ++ "," ++ b) ∷ [] })
unfolding hash_inputs
hash_comma sha256 m a b order = rw order refl
