-- ===== src/Evidence/Digests.antt =====
-- services/control-plane/internal/evidence/evaluate.go: `isSHA256`, `sameDigestSet`, `sortStrings`.
pub mod Sorting
use Prim.Native.Char.{Char, code}
use Prim.Native.String.{◌∷◌ as ◌∷ₛ◌, [] as empty, len, slice}
use text.Mathlib.Text.{starts_with}
use cisync.Prelude.Texts.{less}
use cisync.Prelude.{
  ℕ, zero, suc, ◌≡◌, refl, String, Bool, true, false, not, ◌&&◌, ◌||◌, List, [], ◌∷◌, reverse,
  if◌then◌else◌, leb, ◌==◌, string_eq, nat_eq, length,
}

-- A digit that `hex.DecodeString` takes.
abbrev is_hex : ℕ → Bool
is_hex c = (leb 48 c && leb c 57) || ((leb 97 c && leb c 102) || (leb 65 c && leb c 70))

-- `hex.DecodeString` on a text of even length returns no error.
unfoldable pub decodes : String → Bool
decodes empty = true
decodes (c ∷ₛ s) = is_hex (code c) && decodes s

unfoldable pub is_sha256 : String → Bool
unfolding decodes
is_sha256 s =
    if not (starts_with s "sha256:")
    then false
    else let hex_part = slice s 7 (len s) in
      if not (len hex_part == 64) then false else decodes hex_part

-- The inner loop of `sortStrings`: the text moves left past every greater one. The prefix that is
-- sorted already is held with its last element first.
unfoldable pub sift : String → List String → List String
sift x [] = x ∷ []
sift x (y ∷ ys) = let rest = sift x ys in if less x y then y ∷ rest else x ∷ y ∷ ys

-- The outer loop.
unfoldable pub sift_all : List String → List String → List String
unfolding sift
sift_all done [] = done
sift_all done (x ∷ xs) = sift_all (sift x done) xs

unfoldable pub sort_strings : List String → List String
unfolding sift_all
sort_strings s = reverse (sift_all [] s)

-- The last loop of `sameDigestSet`, on lists of one length.
unfoldable pub same_elements : List String → List String → Bool
same_elements [] bs = true
same_elements (a ∷ rest) [] = true
same_elements (a ∷ rest) (b ∷ bs) = if not (a == b) then false else same_elements rest bs

unfoldable pub same_digest_set : List String → List String → Bool
unfolding sort_strings same_elements
same_digest_set a b =
    if not (length a == length b) then false else same_elements (sort_strings a) (sort_strings b)
