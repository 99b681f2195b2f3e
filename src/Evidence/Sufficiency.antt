-- ===== src/Evidence/Sufficiency.antt =====
-- services/control-plane/internal/evidence/sufficiency.go: how complete a dossier is.
pub mod Laws
use cisync.Prelude.{
  ℕ, String, Bool, true, false, not, ◌||◌, List, [], ◌∷◌, ◌++◌, ◌==◌, string_eq, if◌then◌else◌,
  contains, length,
}
use cisync.Evidence.Evaluate.{verdict_pass}

pub record AcceptedRecord : Type 0 where
  pub kind : String
  pub verdict : String
  pub status : String

-- The quotient of two counts that the source converts to `float64`.
pub record Share : Type 0 where
  pub satisfied : ℕ
  pub required : ℕ

abbrev pub status_accepted : String
status_accepted = "accepted"

-- The keys of a Go set: `s[k] = struct{}{}`.
abbrev pub add_key : String → List String → List String
add_key k s = if contains s k then s else k ∷ s

unfoldable pub dedupe_loop : List String → List String → List String → List String
dedupe_loop seen out [] = out
dedupe_loop seen out (k ∷ ks) = elim (k == "" || contains seen k) [
  | true ↦ dedupe_loop seen out ks
  | false ↦ dedupe_loop (k ∷ seen) (out ++ k ∷ []) ks
]

unfoldable pub dedupe_non_empty : List String → List String
unfolding dedupe_loop
dedupe_non_empty kinds = dedupe_loop [] [] kinds

-- The inner loop.
unfoldable pub mark : String → List String → List String → List String
mark kind satisfied [] = satisfied
mark kind satisfied (k ∷ ks) = mark kind (if k == kind then add_key k satisfied else satisfied) ks

abbrev pub counts : AcceptedRecord → Bool
counts rec = not (not (rec.verdict == verdict_pass) || not (rec.status == status_accepted))

unfoldable pub satisfy : List String → List String → List AcceptedRecord → List String
unfolding mark
satisfy required satisfied [] = satisfied
satisfy required satisfied (rec ∷ recs) =
    satisfy required (if counts rec then mark rec.kind satisfied required else satisfied) recs

abbrev pub share_of : List String → List AcceptedRecord → Share
share_of [] accepted = record { satisfied = 1; required = 1 }
share_of (k ∷ ks) accepted = record {
  satisfied = length (satisfy (k ∷ ks) [] accepted);
  required = length (k ∷ ks);
}

unfoldable pub sufficiency : List String → List AcceptedRecord → Share
unfolding dedupe_non_empty satisfy
sufficiency required_kinds accepted = share_of (dedupe_non_empty required_kinds) accepted
