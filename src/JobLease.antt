-- ===== src/JobLease.antt =====
-- services/control-plane/internal/joblease: the signed tokens of job leases. A text that travels is
-- the list of its bytes. Base64url, JSON and Ed25519 are parameters.
pub mod Header
pub mod Laws
use Prim.Native.String.{◌++◌ as ◌++ₛ◌}
use cisync.Prelude.{
  ℕ, zero, suc, ◌+◌, ◌/◌, ◌%◌, ◌<◌, ◌⊎◌, ◌≡◌, String, Bool, true, false, not, ◌&&◌, ◌||◌, Option,
  none, some, List, [], ◌∷◌, ◌++◌, if◌then◌else◌, ltb, ◌==◌, string_eq, nat_eq, All,
}
use cisync.Prelude.Int.{ℤ, pos, negsuc, ◌-ℤ◌, lt_int}
use cisync.Policy.Glob.{Bytes, bytes, to_first}

pub record Claims : Type 0 where
  pub audience : String
  pub id : String
  pub run_id : String
  pub attempt : ℤ
  pub fence_token : ℤ
  pub repo : String
  pub tier : ℤ
  pub issued_at : ℤ
  pub expires_at : ℤ

abbrev pub digit_text : ℕ → String
digit_text n =
    if n == 0
    then "0"
    else if n == 1
    then "1"
    else if n == 2
    then "2"
    else if n == 3
    then "3"
    else if n == 4
    then "4"
    else if n == 5
    then "5"
    else if n == 6
    then "6"
    else if n == 7
    then "7"
    else if n == 8
    then "8"
    else "9"

-- `%d` of Go's `fmt` on a number below 10 ^ fuel.
unfoldable pub decimal : ℕ → ℕ → String
decimal zero n = ""
decimal (suc fuel) n =
    let front = decimal fuel (n / 10) in
    if ltb n 10 then digit_text n else front ++ₛ digit_text (n % 10)

unfoldable pub show : ℤ → String
unfolding decimal
show (pos n) = decimal (n + 1) n
show (negsuc n) = "-" ++ₛ decimal (n + 2) (n + 1)

unfoldable pub jti_builds : String → ℤ → ℤ → String
unfolding show
jti_builds run_id attempt fence =
    "fleet:" ++ₛ run_id ++ₛ ":" ++ₛ show attempt ++ₛ ":" ++ₛ show fence

-- A byte of the base64url alphabet is a letter, a digit, `-` or `_`.
abbrev pub IsWord : ℕ → Type 0
IsWord b = (46 < b) ⊎ (b ≡ 45)

-- What the Go packages encoding/base64, encoding/json and crypto/ed25519 offer, and their documented
-- laws: a decoder reads back what its encoder wrote, and a signature is verified by the public half.
pub record Crypto : Type 1 where
  pub PrivateKey : Type 0
  pub PublicKey : Type 0
  pub public : PrivateKey → PublicKey
  pub sign : PrivateKey → Bytes → Bytes
  pub verify : PublicKey → Bytes → Bytes → Bool
  pub verify_signed : (k : PrivateKey) (m : Bytes) → verify (public k) m (sign k m) ≡ true
  pub encode : Bytes → Bytes
  pub decode : Bytes → Option Bytes
  pub decode_encoded : (b : Bytes) → decode (encode b) ≡ some b
  pub encoded_words : (b : Bytes) → All IsWord (encode b)
  pub marshal : Claims → Bytes
  pub unmarshal : Bytes → Option Claims
  pub alg_of : Bytes → Option String
  pub alg_of_header : alg_of (bytes "{\"alg\":\"EdDSA\",\"typ\":\"JWT\"}") ≡ some "EdDSA"

pub data MintError : Type 0 where
  ttl_too_long wrong_audience wrong_jti : MintError

pub data Minted : Type 0 where
  ok : Bytes → Minted
  err : MintError → Minted

-- `strings.Split(token, ".")`.
unfoldable pub split_dots : Bytes → List Bytes
split_dots [] = [] ∷ []
split_dots (c ∷ s) = let rest = split_dots s in if c == 46 then [] ∷ rest else to_first c rest

pub record Compact : Type 0 where
  pub header : Bytes
  pub payload : Bytes
  pub signature : Bytes

unfoldable pub three_parts : List Bytes → Option Compact
three_parts (h ∷ p ∷ s ∷ []) = some (record { header = h; payload = p; signature = s })
three_parts parts = none

unfoldable pub split_compact : Bytes → Option Compact
unfolding split_dots three_parts
split_compact token = three_parts (split_dots token)

-- The checks of `Verify` on the decoded claims; `none` is `ErrInvalid`.
unfoldable pub check_claims : ℤ → Claims → Option Claims
unfolding jti_builds
check_claims now claims =
    if not (claims.audience == "cisync-fleet")
    then none
    else if not (lt_int now claims.expires_at)
    then none
    else if (claims.run_id == "")
        || lt_int claims.attempt (pos 1)
        || not (claims.id == jti_builds claims.run_id claims.attempt claims.fence_token)
    then none
    else some claims

unfoldable pub check_payload : ℤ → Option Claims → Option Claims
unfolding check_claims
check_payload now none = none
check_payload now (some claims) = check_claims now claims

unfoldable pub decode_json {ℓ} : {A : Type ℓ} → (Bytes → Option A) → Option Bytes → Option A
decode_json read none = none
decode_json read (some raw) = read raw

module _ (c : Crypto) where
  open c use {
    PrivateKey, PublicKey, public, sign, verify, encode, decode, marshal, unmarshal, alg_of,
  }

  unfoldable pub sign_compact : PrivateKey → Claims → Bytes
  sign_compact priv claims =
      let header = encode (bytes "{\"alg\":\"EdDSA\",\"typ\":\"JWT\"}") in
      let payload = encode (marshal claims) in
      let signed = header ++ (46 ∷ payload) in signed ++ (46 ∷ encode (sign priv signed))

  unfoldable pub mint : PrivateKey → Claims → Minted
  unfolding sign_compact jti_builds
  mint priv claims =
      if lt_int (pos 3600) (claims.expires_at -ℤ claims.issued_at)
      then err ttl_too_long
      else if not (claims.audience == "cisync-fleet")
      then err wrong_audience
      else if not (claims.id == jti_builds claims.run_id claims.attempt claims.fence_token)
      then err wrong_jti
      else ok (sign_compact priv claims)

  unfoldable pub check_signature : PublicKey → ℤ → Compact → Option Bytes → Option Claims
  unfolding check_payload decode_json
  check_signature pub_key now t none = none
  check_signature pub_key now t (some sig) =
      if not (verify pub_key (t.header ++ (46 ∷ t.payload)) sig)
      then none
      else check_payload now (decode_json unmarshal (decode t.payload))

  unfoldable pub check_header : PublicKey → ℤ → Compact → Option String → Option Claims
  unfolding check_signature
  check_header pub_key now t none = none
  check_header pub_key now t (some alg) =
      if not (alg == "EdDSA") then none else check_signature pub_key now t (decode t.signature)

  unfoldable pub check_compact : PublicKey → ℤ → Option Compact → Option Claims
  unfolding check_header decode_json
  check_compact pub_key now none = none
  check_compact pub_key now (some t) =
      check_header pub_key now t (decode_json alg_of (decode t.header))

  -- `Verify` at the clock's reading `now`.
  unfoldable pub verify_token : PublicKey → ℤ → Bytes → Option Claims
  unfolding check_compact split_compact
  verify_token pub_key now token = check_compact pub_key now (split_compact token)
