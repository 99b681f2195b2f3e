-- ===== src/Tests/JobLease.antt =====
-- A lease that is minted, carried in a header and verified (control-plane/internal/joblease), with a
-- toy codec and signature.
use cisync.Prelude.{
  ℕ, ◌+◌, ◌-◌, ◌≡◌, refl, ap, String, true, Option, none, some, [], ◌∷◌, ◌++◌, All, if◌then◌else◌,
  arith, inl,
}
use cisync.Prelude.Int.{pos}
use cisync.Policy.Glob.{Bytes, bytes}
use cisync.Ledger.{same_text}
use cisync.Ledger.Laws.{same_text_iff}
use cisync.JobLease.{
  Claims, Crypto, IsWord, Compact, mint, ok, verify_token, jti_builds, sign_compact, decode_json,
  split_compact,
}
use cisync.JobLease.Header.{from_authorization_header}
use cisync.JobLease.Laws.{lease_round_trip, verify_sound, IsCurrent}

abbrev lease : Claims
lease = record {
  audience = "cisync-fleet";
  id = "fleet:run_x:2:17";
  run_id = "run_x";
  attempt = pos 2;
  fence_token = pos 17;
  repo = "acme/payments";
  tier = pos 1;
  issued_at = pos 1000;
  expires_at = pos 4600;
}

jti_runs : jti_builds "run_x" (pos 2) (pos 17) ≡ "fleet:run_x:2:17"
unfolding jti_builds
jti_runs = refl

abbrev shift : Bytes → Bytes
shift [] = []
shift (x ∷ s) = (x + 47) ∷ shift s

abbrev unshift : Bytes → Bytes
unshift [] = []
unshift (x ∷ s) = (x - 47) ∷ unshift s

unshift-shift : (s : Bytes) → unshift (shift s) ≡ s
unshift-shift [] = refl
unshift-shift (x ∷ s) = let e : x + 47 - 47 ≡ x = omega arith in λ i. e i ∷ unshift-shift s i

shift-words : (s : Bytes) → All IsWord (shift s)
shift-words [] = tt
shift-words (x ∷ s) = (inl (omega arith), shift-words s)

abbrev jwt : Bytes
jwt = bytes "{\"alg\":\"EdDSA\",\"typ\":\"JWT\"}"

toy_verifies : (k : ℕ) (m : Bytes) → same_text (k ∷ m) (k ∷ m) ≡ true
toy_verifies k m = (same_text_iff (k ∷ m) (k ∷ m)).1 refl

abbrev toy_alg : Bytes → Option String
toy_alg b = if same_text b jwt then some "EdDSA" else none

toy_reads : toy_alg jwt ≡ some "EdDSA"
unfolding same_text
toy_reads = refl

abbrev toy : Crypto
toy = record {
  PrivateKey = ℕ;
  PublicKey = ℕ;
  public = λ k. k;
  sign = λ k m. k ∷ m;
  verify = λ k m s. same_text s (k ∷ m);
  verify_signed = toy_verifies;
  encode = shift;
  decode = λ s. some (unshift s);
  decode_encoded = λ s. ap some (unshift-shift s);
  encoded_words = shift-words;
  marshal = λ c. bytes c.id;
  unmarshal = λ b. if same_text b (bytes "fleet:run_x:2:17") then some lease else none;
  alg_of = toy_alg;
  alg_of_header = toy_reads;
}

abbrev token : Bytes
token = sign_compact toy 7 lease

minted : mint toy 7 lease ≡ ok token
unfolding mint
minted = refl

read_back : toy.unmarshal (toy.marshal lease) ≡ some lease
unfolding same_text
read_back = refl

lease_round_trip_example :
    (from_authorization_header (bytes "Bearer " ++ token) ≡ some token)
    × (verify_token toy 7 (pos 4599) token ≡ some lease)
lease_round_trip_example =
    lease_round_trip toy 7 lease (pos 4599) minted read_back (omega arith) (λ e. absurd (cc))
      (omega arith)

expired : verify_token toy 7 (pos 4600) token ≡ none
unfolding verify_token sign_compact same_text
expired = refl

forged : verify_token toy 8 (pos 4599) token ≡ none
unfolding verify_token sign_compact same_text
forged = refl

verifies : verify_token toy 7 (pos 4599) token ≡ some lease
unfolding verify_token sign_compact same_text
verifies = refl

verify_sound_example :
    (t : Compact) × (split_compact token ≡ some t)
    × (decode_json toy.alg_of (toy.decode t.header) ≡ some "EdDSA")
    × ((sig : Bytes) × (toy.decode t.signature ≡ some sig)
        × (toy.verify 7 (t.header ++ (46 ∷ t.payload)) sig ≡ true))
    × (decode_json toy.unmarshal (toy.decode t.payload) ≡ some lease)
    × IsCurrent (pos 4599) lease
verify_sound_example = verify_sound toy 7 (pos 4599) token verifies
