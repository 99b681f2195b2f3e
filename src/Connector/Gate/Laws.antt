-- ===== src/Connector/Gate/Laws.antt =====
-- `Do` of ratelimit/gate.go: when it succeeds, and how long it waits.
use cisync.Prelude.{
  Option, ◌∙◌, ap, Bool, ◌&&◌, ◌||◌, not, if◌then◌else◌, sym, subst, ◌==◌, nat_eq, nat_beq_iff, ℕ,
  zero, suc, ◌+◌, ◌≡◌, refl, true, false, none, some, ◌≤◌, ◌<◌, arith, ◌↔◌, is_some, Bool-cases,
  Option-cases, inl, inr, ◌⊎◌,
}
use cisync.Prelude.Int.{ℤ, pos, ◌≤ℤ◌, lt_int, eq_int, eq_int_iff, neg_part}
use cisync.Connector.Gate.{
  after_call, Attempts, GoError, backoff_for, jittered_backoff, retry_after_header, do_loop,
  gate_do,
}

-- The errors after which the gate tries again: a secondary limit that says how long to wait, the
-- primary limit, an answer of 500 and more, and a 429 whose header is a number that is not negative.
-- A secondary limit without a wait and a 429 without such a header are not among them.
abbrev pub Retries : GoError → Type 0
Retries (GoError.abuse none) = ⊥
Retries (GoError.abuse (some wait)) = Unit
Retries GoError.primary_limit = Unit
Retries (GoError.response code header) =
    (pos 500 ≤ℤ code) ⊎ ((code ≡ pos 429) × (secs : ℕ) × (header ≡ some (pos secs)))
Retries GoError.context_over = ⊥
Retries GoError.budget_exhausted = ⊥
Retries GoError.other = ⊥

header_wait :
    (header : Option ℤ)
    → (is_some (retry_after_header header) ≡ true) ↔ ((secs : ℕ) × (header ≡ some (pos secs)))
unfolding retry_after_header
header_wait none = ((λ h. absurd (cc)), λ (secs, e). absurd (cc))
header_wait (some (ℤ.negsuc n)) = (
  (λ h. absurd (cc)),
  λ (secs, e).
      absurd (omega (arith, ap (λ o. elim o as (λ o'. ℕ) [ none ↦ 0 | some z ↦ neg_part z ]) e)),
)
header_wait (some (pos n)) = ((λ h. (n, refl)), λ h. refl)

-- The two tests of an answer, on what they are of.
waits :
    (limited failed : Bool) (wait : Option ℤ) (n : ℕ)
    → is_some (if limited && is_some wait then wait else if failed then some (pos n) else none)
      ≡ (failed || (limited && is_some wait))
waits true failed (some w) n = ground arith
waits true true none n = refl
waits true false none n = refl
waits false true wait n = refl
waits false false wait n = refl

response_iff :
    (code : ℤ) (header : Option ℤ) (n : ℕ)
    → (is_some (
          if eq_int code (pos 429) && is_some (retry_after_header header)
          then retry_after_header header
          else if not (lt_int code (pos 500))
          then some (pos n)
          else none)
        ≡ true)
      ↔ Retries (GoError.response code header)
response_iff code header n =
    let either =
      waits (eq_int code (pos 429)) (not (lt_int code (pos 500))) (retry_after_header header) n in
    (
      λ h. elim (Bool-cases (not (lt_int code (pos 500)))) [
        | inl failed ↦ inl (ground arith)
        | inr small ↦
            let (l, w) =
              limited _ _ (eq_int code (pos 429)) (is_some (retry_after_header header)) either small
                h in
            let (secs, named) = (header_wait header).0 w in
            inr ((eq_int_iff code (pos 429)).0 l, secs, named)
      ],
      λ r. elim r [
        | inl failed ↦ either ∙ ground arith
        | inr (e, secs, named) ↦
            either
            ∙ both (not (lt_int code (pos 500))) ((eq_int_iff code (pos 429)).1 e)
                ((header_wait header).1 (secs, named))
      ],
    )
  where
    limited :
        (o failed l w : Bool)
        → o ≡ (failed || (l && w))
        → failed ≡ false
        → o ≡ true
        → (l ≡ true) × (w ≡ true)
    limited o failed l w a b c = ground arith

    both : (failed : Bool) {l w : Bool} → l ≡ true → w ≡ true → (failed || (l && w)) ≡ true
    both failed a b = ground arith

backoff_for_iff : (e : GoError) (k r : ℕ) → (is_some (backoff_for e k r) ≡ true) ↔ Retries e
unfolding backoff_for
backoff_for_iff (GoError.abuse none) k r = ((λ h. absurd (cc)), λ h. absurd h)
backoff_for_iff (GoError.abuse (some wait)) k r = ((λ h. tt), λ h. refl)
backoff_for_iff GoError.primary_limit k r = ((λ h. tt), λ h. refl)
backoff_for_iff (GoError.response code header) k r = response_iff code header (jittered_backoff k r)
backoff_for_iff GoError.context_over k r = ((λ h. absurd (cc)), λ h. absurd h)
backoff_for_iff GoError.budget_exhausted k r = ((λ h. absurd (cc)), λ h. absurd h)
backoff_for_iff GoError.other k r = ((λ h. absurd (cc)), λ h. absurd h)

-- The attempt is made and fails with an error after which the gate goes on.
abbrev pub GoesOn : Attempts → ℕ → Type 0
GoesOn x k = (x.over k ≡ false) × ((e : GoError) × (x.calls k ≡ some e) × Retries e)

abbrev pub Succeeds : Attempts → ℕ → Type 0
Succeeds x k = (x.over k ≡ false) × (x.calls k ≡ none)

-- Attempt `k` of the attempts from `a` on succeeds, after others that failed and were retried.
abbrev Ends : Attempts → ℕ → ℕ → Type 0
Ends x rounds a =
    (k : ℕ) × (a ≤ k) × (k < a + rounds) × Succeeds x k × ((j : ℕ) → a ≤ j → j < k → GoesOn x j)

Ends-later :
    (x : Attempts) (rounds a : ℕ) → GoesOn x a → Ends x rounds (a + 1) → Ends x (suc rounds) a
Ends-later x rounds a on (k, le, lt, good, before) = (
  k,
  omega arith,
  omega arith,
  good,
  λ j from to. elim (Bool-cases (j == a)) [
    | inl e ↦ subst (GoesOn x) (sym ((nat_beq_iff j a).0 e)) on
    | inr e ↦ before j (ground arith) to
  ],
)

go_on :
    (x : Attempts) (rounds a : ℕ) (e : GoError) (rest : Option GoError)
    → after_call x rounds a (some e) rest ≡ none
    → (is_some (backoff_for e a (x.random a)) ≡ true) × ((rounds == 0) ≡ false) × (rest ≡ none)
unfolding after_call
go_on x rounds a e rest h = ground arith

do_loop-Ends :
    (x : Attempts) (rounds a : ℕ)
    → (rounds == 0) ≡ false
    → do_loop x rounds a ≡ none
    → Ends x rounds a
unfolding do_loop
do_loop-Ends x zero a some_left h = absurd (ground arith)
do_loop-Ends x (suc rounds) a some_left h = elim (Bool-cases (x.over a)) [
  | inl e ↦ absurd (ground arith)
  | inr e ↦ elim (Option-cases (x.calls a)) [
    | inl c ↦ (a, omega arith, omega arith, (e, c), λ j from to. absurd (omega arith))
    | inr (err, c) ↦
        let (retried, more, rest) =
          go_on x rounds a err (do_loop x rounds (a + 1)) (rw (e, c) at h) in
        Ends-later x rounds a (e, (err, c, (backoff_for_iff err a (x.random a)).0 retried))
          (do_loop-Ends x rounds (a + 1) more rest)
  ]
]

Ends-do_loop : (x : Attempts) (rounds a : ℕ) → Ends x rounds a → do_loop x rounds a ≡ none
unfolding do_loop after_call
Ends-do_loop x zero a h = refl
Ends-do_loop x (suc rounds) a (k, le, lt, good, before) = elim (Bool-cases (k == a)) [
  | inl e ↦
      let first = subst (Succeeds x) ((nat_beq_iff k a).0 e) good in rw (first.0, first.1) refl
  | inr e ↦
      let (going, (err, c, again)) = before a (omega arith) (ground arith) in
      let retried = (backoff_for_iff err a (x.random a)).1 again in
      let more : (rounds == 0) ≡ false = ground arith in
      rw (going, c, retried, more)
        (Ends-do_loop x rounds (a + 1)
          (k, ground arith, omega arith, good, λ j from to. before j (omega arith) to))
]

-- `Do` returns nil exactly if the budget had a token and one of the first three attempts succeeds,
-- each one before it having failed with an error that is retried, and none after the context's end.
-- Retried are the primary limit, an answer of 500 and more, a secondary limit with a wait and a 429
-- whose Retry-After header is a number; a secondary limit or a 429 without one ends the loop.
pub gate_do_iff :
    (x : Attempts)
    → (gate_do x ≡ none)
      ↔ ((x.acquires ≡ true) × ((k : ℕ) × (k < 3) × Succeeds x k × ((j : ℕ) → j < k → GoesOn x j)))
unfolding gate_do
gate_do_iff x = (succeeded, succeeds)
  where
    succeeded :
        (if not x.acquires then some GoError.budget_exhausted else do_loop x 3 0) ≡ none
        → (x.acquires ≡ true) × ((k : ℕ) × (k < 3) × Succeeds x k × ((j : ℕ) → j < k → GoesOn x j))
    succeeded h = elim (Bool-cases x.acquires) [
      | inl e ↦
          let (k, le, lt, good, before) = do_loop-Ends x 3 0 refl (rw e at h) in
          (e, (k, omega arith, good, λ j to. before j (omega arith) to))
      | inr e ↦ absurd (ground arith)
    ]

    succeeds :
        (x.acquires ≡ true) × ((k : ℕ) × (k < 3) × Succeeds x k × ((j : ℕ) → j < k → GoesOn x j))
        → (if not x.acquires then some GoError.budget_exhausted else do_loop x 3 0) ≡ none
    succeeds (e, (k, lt, good, before)) =
        rw e (Ends-do_loop x 3 0 (k, omega arith, omega arith, good, λ j from to. before j to))
