-- ===== src/JobLease/Laws.antt =====
-- Minting and verifying of joblease/joblease.go and joblease/verifier.go.
use mathlib.Core.List.{append_assoc}
use cisync.Prelude.{
  ℕ, ◌≡◌, ◌≢◌, refl, sym, ap, inl, inr, String, Bool, true, false, not, ◌||◌, Option, none, some,
  [], ◌∷◌, ◌++◌, if◌then◌else◌, nat_beq, string_eq, ◌==◌, eq_iff, All, All-append, All-map,
  Option-cases, arith, nat_eq, subst,
}
use cisync.Prelude.Int.{ℤ, pos, lt_int, ◌<ℤ◌, ◌≤ℤ◌}
use cisync.Policy.Glob.{Bytes, bytes}
use cisync.JobLease.Header.{IsTokenByte, from_authorization_header, bearer_token}
use cisync.JobLease.{
  Claims, Crypto, IsWord, Compact, ok, err, ttl_too_long, wrong_audience, wrong_jti, mint,
  sign_compact, split_dots, split_compact, check_claims, check_payload, check_signature,
  check_header, check_compact, decode_json, verify_token, jti_builds,
}

split_word : (a rest : Bytes) → All IsWord a → split_dots (a ++ (46 ∷ rest)) ≡ a ∷ split_dots rest
unfolding split_dots
split_word [] rest h = refl
split_word (c ∷ a) rest (w, h) =
    let byte : nat_beq c 46 ≡ false = ground arith in rw (byte, split_word a rest h) refl

split_last : (a : Bytes) → All IsWord a → split_dots a ≡ a ∷ []
unfolding split_dots
split_last [] h = refl
split_last (c ∷ a) (w, h) =
    let byte : nat_beq c 46 ≡ false = ground arith in rw (byte, split_last a h) refl

-- What `Verify` demands of the claims of a token, at the time `now`.
pub record IsCurrent (now : ℤ) (claims : Claims) : Type 0 where
  pub for_fleet : claims.audience ≡ "cisync-fleet"
  pub unexpired : now <ℤ claims.expires_at
  pub of_run : claims.run_id ≢ ""
  pub attempted : pos 1 ≤ℤ claims.attempt
  pub identified : claims.id ≡ jti_builds claims.run_id claims.attempt claims.fence_token

gate :
    (a u r t i : Bool) (claims : Claims) {got : Claims}
    → (if not a
        then none
        else if not u
        then none
        else if r || t || not i
        then none
        else some claims)
      ≡ some got
    → (a ≡ true) × (u ≡ true) × (r ≡ false) × (t ≡ false) × (i ≡ true) × (got ≡ claims)
gate a u r t i claims h = ground arith

clash : {b : Bool} → b ≡ false → b ≡ true → ⊥
clash h k = absurd (cc)

not_before : (a b : ℤ) → lt_int a b ≡ false → b ≤ℤ a
not_before a b h = ground arith

before : (a b : ℤ) → lt_int a b ≡ true → a <ℤ b
before a b h = ground arith

check_claims-IsCurrent :
    (now : ℤ) (claims : Claims) {got : Claims}
    → check_claims now claims ≡ some got
    → IsCurrent now claims × (got ≡ claims)
unfolding check_claims
check_claims-IsCurrent now claims h =
    let (a, u, r, t, i, e) = gate _ _ _ _ _ claims h in
    (
      record {
        for_fleet = (eq_iff claims.audience "cisync-fleet").0 a;
        unexpired = before now claims.expires_at u;
        of_run = λ empty. absurd (clash r ((eq_iff claims.run_id "").1 empty));
        attempted = not_before claims.attempt (pos 1) t;
        identified =
            (eq_iff claims.id (jti_builds claims.run_id claims.attempt claims.fence_token)).0 i;
      },
      e,
    )

IsCurrent-check_claims :
    (now : ℤ) (claims : Claims) → IsCurrent now claims → check_claims now claims ≡ some claims
unfolding check_claims
IsCurrent-check_claims now claims v = ground (
  arith,
  eq_iff claims.audience "cisync-fleet",
  eq_iff claims.run_id "",
  eq_iff claims.id (jti_builds claims.run_id claims.attempt claims.fence_token),
)

mint_gate :
    (l a i : Bool) (signed : Bytes) {token : Bytes}
    → (if l
        then err ttl_too_long
        else if not a
        then err wrong_audience
        else if not i
        then err wrong_jti
        else ok signed)
      ≡ ok token
    → (a ≡ true) × (i ≡ true) × (token ≡ signed)
mint_gate l a i signed h = ground arith

signature_gate :
    (s : Bool) (o : Option Claims) {claims : Claims}
    → (if not s then none else o) ≡ some claims
    → (s ≡ true) × (o ≡ some claims)
signature_gate s o h = ground arith

check_payload-inv :
    (now : ℤ) (o : Option Claims) {claims : Claims}
    → check_payload now o ≡ some claims
    → (o ≡ some claims) × IsCurrent now claims
unfolding check_payload
check_payload-inv now none h = absurd (cc)
check_payload-inv now (some got) h =
    let (v, e) = check_claims-IsCurrent now got h in
    (ap some (sym e), subst (IsCurrent now) (sym e) v)

module _ (c : Crypto) where
  open c use {
    PrivateKey, PublicKey, public, sign, verify, encode, decode, marshal, unmarshal, alg_of,
  }

  abbrev header_part : Bytes
  header_part = encode (bytes "{\"alg\":\"EdDSA\",\"typ\":\"JWT\"}")

  abbrev payload_part : Claims → Bytes
  payload_part claims = encode (marshal claims)

  abbrev signed_part : Claims → Bytes
  signed_part claims = header_part ++ (46 ∷ payload_part claims)

  -- The three parts that `signCompact` joins.
  abbrev parts : PrivateKey → Claims → Compact
  parts k claims = record {
    header = header_part;
    payload = payload_part claims;
    signature = encode (sign k (signed_part claims));
  }

  split_signed :
      (k : PrivateKey) (claims : Claims)
      → split_compact (sign_compact c k claims) ≡ some (parts k claims)
  unfolding split_compact sign_compact
  split_signed k claims =
      let signature = encode (sign k (signed_part claims)) in
      rw
        (
          append_assoc header_part (46 ∷ payload_part claims) (46 ∷ signature),
          split_word header_part (payload_part claims ++ (46 ∷ signature)) (c.encoded_words _),
          split_word (payload_part claims) signature (c.encoded_words _),
          split_last signature (c.encoded_words _),
        )
        refl

  minted :
      (k : PrivateKey) (claims : Claims) {token : Bytes}
      → mint c k claims ≡ ok token
      → (token ≡ sign_compact c k claims)
        × (claims.audience ≡ "cisync-fleet")
        × (claims.id ≡ jti_builds claims.run_id claims.attempt claims.fence_token)
  unfolding mint
  minted k claims h =
      let (a, i, e) = mint_gate _ _ _ (sign_compact c k claims) h in
      (
        e,
        (eq_iff claims.audience "cisync-fleet").0 a,
        (eq_iff claims.id (jti_builds claims.run_id claims.attempt claims.fence_token)).0 i,
      )

  -- A token that `mint` signed is read back by `Verify` with the public half of the key: its claims
  -- are returned as they were, before they expire, if they name a run and an attempt from 1 on and their JSON is read back.
  mint_verify :
      (k : PrivateKey) (claims : Claims) (now : ℤ) {token : Bytes}
      → mint c k claims ≡ ok token
      → unmarshal (marshal claims) ≡ some claims
      → now <ℤ claims.expires_at
      → claims.run_id ≢ ""
      → pos 1 ≤ℤ claims.attempt
      → verify_token c (public k) now token ≡ some claims
  unfolding mint verify_token
  mint_verify k claims now {token = token} h readable current run attempt =
      rw
        (
          (minted k claims {token = token} h).0,
          split_signed k claims,
          check_compact,
          c.decode_encoded (bytes "{\"alg\":\"EdDSA\",\"typ\":\"JWT\"}"),
          decode_json,
          c.alg_of_header,
          check_header,
          c.decode_encoded (sign k (signed_part claims)),
          check_signature,
          c.verify_signed k (signed_part claims),
          c.decode_encoded (marshal claims),
          readable,
          check_payload,
        )
        (IsCurrent-check_claims now claims (record {
          for_fleet = (minted k claims h).1;
          unexpired = current;
          of_run = run;
          attempted = attempt;
          identified = (minted k claims h).2;
        }))

  check_signature-inv :
      (pub_key : PublicKey) (now : ℤ) (t : Compact) (o : Option Bytes) {claims : Claims}
      → check_signature c pub_key now t o ≡ some claims
      → ((sig : Bytes) × (o ≡ some sig)
          × (verify pub_key (t.header ++ (46 ∷ t.payload)) sig ≡ true))
        × (decode_json unmarshal (decode t.payload) ≡ some claims)
        × IsCurrent now claims
  unfolding check_signature
  check_signature-inv pub_key now t none h = absurd (cc)
  check_signature-inv pub_key now t (some sig) h =
      let (good, rest) =
        signature_gate (verify pub_key (t.header ++ (46 ∷ t.payload)) sig)
          (check_payload now (decode_json unmarshal (decode t.payload))) h in
      let (read, v) = check_payload-inv now (decode_json unmarshal (decode t.payload)) rest in
      ((sig, refl, good), read, v)

  check_header-inv :
      (pub_key : PublicKey) (now : ℤ) (t : Compact) (o : Option String) {claims : Claims}
      → check_header c pub_key now t o ≡ some claims
      → (o ≡ some "EdDSA") × (check_signature c pub_key now t (decode t.signature) ≡ some claims)
  unfolding check_header
  check_header-inv pub_key now t none h = absurd (cc)
  check_header-inv pub_key now t (some alg) h =
      let (same, rest) =
        signature_gate (alg == "EdDSA") (check_signature c pub_key now t (decode t.signature)) h in
      (ap some ((eq_iff alg "EdDSA").0 same), rest)

  -- `Verify` accepts only a token of three parts that decode, the first two signed under the key with
  -- the algorithm EdDSA, and returns the claims of the payload, which are current.
  pub verify_sound :
      (pub_key : PublicKey) (now : ℤ) (token : Bytes) {claims : Claims}
      → verify_token c pub_key now token ≡ some claims
      → (t : Compact) × (split_compact token ≡ some t)
        × (decode_json alg_of (decode t.header) ≡ some "EdDSA")
        × ((sig : Bytes) × (decode t.signature ≡ some sig)
            × (verify pub_key (t.header ++ (46 ∷ t.payload)) sig ≡ true))
        × (decode_json unmarshal (decode t.payload) ≡ some claims)
        × IsCurrent now claims
  unfolding verify_token
  verify_sound pub_key now token h = elim (Option-cases (split_compact token)) [
    | inl e ↦ absurd (cc (rw (e, check_compact) at h))
    | inr (t, e) ↦
        let (alg, signed) =
          check_header-inv pub_key now t (decode_json alg_of (decode t.header))
            (rw (e, check_compact) at h) in
        let (sig, read, v) = check_signature-inv pub_key now t (decode t.signature) signed in
        (t, e, alg, sig, read, v)
  ]

  words : (s : Bytes) → All IsTokenByte (encode s)
  words s = All-map IsWord IsTokenByte (λ b w. inl w) (encode s) (c.encoded_words s)

  token_bytes : (k : PrivateKey) (claims : Claims) → All IsTokenByte (sign_compact c k claims)
  unfolding sign_compact
  token_bytes k claims =
      All-append IsTokenByte (signed_part claims) (46 ∷ encode (sign k (signed_part claims)))
        (All-append IsTokenByte header_part (46 ∷ payload_part claims)
          (words (bytes "{\"alg\":\"EdDSA\",\"typ\":\"JWT\"}")) (inr refl, words (marshal claims)))
        (inr refl, words (sign k (signed_part claims)))

  not_empty : (s : Bytes) (b : ℕ) (t : Bytes) → (s ++ (b ∷ t)) ≢ []
  not_empty [] b t e = absurd (cc)
  not_empty (x ∷ s) b t e = absurd (cc)

  -- A minted lease makes the round trip through the header `Bearer <token>`: the header gives back the
  -- token, and `Verify` with the public half of the key gives back the claims as they were, before
  -- they expire, if they name a run and an attempt from 1 on and JSON reads back what it wrote.
  pub lease_round_trip :
      (k : PrivateKey) (claims : Claims) (now : ℤ) {token : Bytes}
      → mint c k claims ≡ ok token
      → unmarshal (marshal claims) ≡ some claims
      → now <ℤ claims.expires_at
      → claims.run_id ≢ ""
      → pos 1 ≤ℤ claims.attempt
      → (from_authorization_header (bytes "Bearer " ++ token) ≡ some token)
        × (verify_token c (public k) now token ≡ some claims)
  unfolding sign_compact
  lease_round_trip k claims now {token = token} h readable current run attempt =
      let e = (minted k claims {token = token} h).0 in
      (
        bearer_token token (subst (λ s. s ≢ []) (sym e) (not_empty (signed_part claims) _ _))
            (subst (All IsTokenByte) (sym e) (token_bytes k claims)),
        mint_verify k claims now h readable current run attempt,
      )
