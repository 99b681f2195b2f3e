-- ===== src/Policy/Glob/Spec.antt =====
-- What a pattern of one segment and a pattern of several mean, for policy/glob.go.
use cisync.Policy.Glob.{Bytes, is_double_star}
use cisync.Prelude.{ℕ, ◌≡◌, refl, sym, ap, ◌≢◌, List, [], ◌∷◌, ◌++◌, All, true, false}

-- `*` stands for any run of bytes, any other byte for itself.
pub data Matches : List ℕ → List ℕ → Type 0 where
  end : Matches [] []
  literal : {c x : ℕ} {p s : List ℕ} → c ≡ x → c ≢ 42 → Matches p s → Matches (c ∷ p) (x ∷ s)
  skip : {c : ℕ} {p s : List ℕ} → c ≡ 42 → Matches p s → Matches (c ∷ p) s
  span : {c x : ℕ} {p s : List ℕ} → c ≡ 42 → Matches (c ∷ p) s → Matches (c ∷ p) (x ∷ s)

abbrev pub IsPlain : List ℕ → Type 0
IsPlain s = All (λ (x : ℕ). x ≢ 42) s

pub Matches-prefix :
    (u : List ℕ) {p s : List ℕ} → IsPlain u → Matches p s → Matches (u ++ p) (u ++ s)
Matches-prefix [] h m = m
Matches-prefix (c ∷ u) h m = literal refl h.0 (Matches-prefix u h.1 m)

pub after_prefix :
    (u : List ℕ) {p w : List ℕ}
    → IsPlain u
    → Matches (u ++ p) w
    → (v : List ℕ) × (w ≡ u ++ v) × Matches p v
after_prefix [] {w = w} h m = (w, refl, m)
after_prefix (c ∷ u) h (literal {s = s} e ne m) =
    let (v, split, rest) = after_prefix u h.1 m in (v, (λ i. sym e i ∷ split i), rest)
after_prefix (c ∷ u) h (skip e m) = absurd (h.0 e)
after_prefix (c ∷ u) h (span e m) = absurd (h.0 e)

pub Matches-span : (v : List ℕ) {p s : List ℕ} → Matches (42 ∷ p) s → Matches (42 ∷ p) (v ++ s)
Matches-span [] m = m
Matches-span (x ∷ v) m = span refl (Matches-span v m)

pub after_star :
    {c : ℕ} {q m : List ℕ}
    → c ≡ 42
    → Matches (c ∷ q) m
    → (v w : List ℕ) × (m ≡ v ++ w) × Matches q w
after_star e (literal _ ne k) = absurd (ne e)
after_star {m = m} e (skip _ k) = ([], m, refl, k)
after_star e (span {x = x} _ k) =
    let (v, w, split, rest) = after_star e k in (x ∷ v, w, ap (λ r. x ∷ r) split, rest)

-- `**` stands for any run of whole segments, any other segment for one segment.
pub data MatchesPath : List Bytes → List Bytes → Type 0 where
  done : MatchesPath [] []
  deep :
      {p : Bytes} {pat seg : List Bytes}
      → is_double_star p ≡ true
      → MatchesPath pat seg
      → MatchesPath (p ∷ pat) seg
  more :
      {p s : Bytes} {pat seg : List Bytes}
      → is_double_star p ≡ true
      → MatchesPath (p ∷ pat) seg
      → MatchesPath (p ∷ pat) (s ∷ seg)
  one :
      {p s : Bytes} {pat seg : List Bytes}
      → is_double_star p ≡ false
      → Matches p s
      → MatchesPath pat seg
      → MatchesPath (p ∷ pat) (s ∷ seg)
