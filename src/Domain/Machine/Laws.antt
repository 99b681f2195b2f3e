-- ===== src/Domain/Machine/Laws.antt =====
-- Laws of the transition guard, for any aggregate's terminal test and table, and of a run of
-- triggers in which a refused trigger changes nothing.
use cisync.Prelude.{
  ◌≡◌, refl, sym, Bool, true, false, not, ◌||◌, List, [], ◌∷◌, Memᴰ, String, Eq, string_eq, ◌==◌,
  some, arith, Bool-cases, Option-cases, inl, inr, every, every-mem, ◌≢◌, eq_iff,
}
use cisync.Prelude.Maps.{lookup, lookup-mem}
use cisync.Domain.Machine.{
  Result, ok, err, TransitionRule, Table, matches_state, next_state, post_terminal,
}

-- The state after the guard's answer.
abbrev pub settle : {S : Type 0} → Result S → S → S
settle (ok t) cur = t
settle (err e) cur = cur

-- A rule of a table is guarded for `P` by the trigger `k`: another trigger enters `P` only from `P`.
abbrev pub guarded : {S : Type 0} → (S → Bool) → String → String × TransitionRule S → Bool
guarded P k (trigger, rule) = trigger == k || (not (P rule.to) || every P rule.from)

module _ {S : Type 0} ⦃e : Eq S⦄ where
  matches_state-mem : (from : List S) {cur : S} → matches_state from cur ≡ true → Memᴰ cur from
  unfolding matches_state
  matches_state-mem [] h = absurd (ground arith)
  matches_state-mem (f ∷ from) {cur} h = elim (Bool-cases (f == cur)) [
    | inl p ↦ Memᴰ.head (sym ((e.beq_iff f cur).0 p))
    | inr p ↦ Memᴰ.tail (matches_state-mem from (rw p at h))
  ]

  mem-matches_state : (from : List S) {cur : S} → Memᴰ cur from → matches_state from cur ≡ true
  unfolding matches_state
  mem-matches_state [] m = elim m [ ]
  mem-matches_state (f ∷ from) {cur} (Memᴰ.head p) = ground (arith, (e.beq_iff f cur).1 (sym p))
  mem-matches_state (f ∷ from) {cur} (Memᴰ.tail m) = ground (arith, mem-matches_state from m)

  module _ (terminal : S → Bool) (table : Table S) where
    -- A move is by a rule of the table, from one of its `from` states, and never from a terminal one.
    pub next_state-rule :
        (cur : S) (trigger : String) {t : S}
        → next_state terminal table cur trigger ≡ ok t
        → (r : TransitionRule S) × (lookup trigger table ≡ some r)
          × Memᴰ cur r.from
          × (r.to ≡ t)
          × (terminal cur ≡ false)
    unfolding next_state
    next_state-rule cur trigger h = elim (Option-cases (lookup trigger table)) [
      | inl p ↦ absurd (ground arith)
      | inr (r, p) ↦ (r, p, matches_state-mem r.from (ground arith), ground arith, ground arith)
    ]

    pub rule-next_state :
        (cur : S) (trigger : String) (r : TransitionRule S)
        → terminal cur ≡ false
        → lookup trigger table ≡ some r
        → Memᴰ cur r.from
        → next_state terminal table cur trigger ≡ ok r.to
    unfolding next_state
    rule-next_state cur trigger r live found m = ground (arith, mem-matches_state r.from m)

    pub next_state-terminal :
        (cur : S) (trigger : String)
        → terminal cur ≡ true
        → next_state terminal table cur trigger ≡ err post_terminal
    unfolding next_state
    next_state-terminal cur trigger h = ground arith

    -- A state that is not terminal never answers ErrPostTerminal.
    pub next_state_live :
        (cur : S) (trigger : String)
        → terminal cur ≡ false
        → next_state terminal table cur trigger ≢ err post_terminal
    unfolding next_state
    next_state_live cur trigger live = λ h. ground arith

    unfoldable pub drive : S → List String → S
    drive cur [] = cur
    drive cur (t ∷ ts) = drive (settle (next_state terminal table cur t) cur) ts

    pub drive-terminal : (cur : S) (ts : List String) → terminal cur ≡ true → drive cur ts ≡ cur
    unfolding drive
    drive-terminal cur [] h = refl
    drive-terminal cur (t ∷ ts) h = rw (next_state-terminal cur t h) (drive-terminal cur ts h)

    step_guarded :
        (P : S → Bool) (k : String) (cur : S) (t : String)
        → every (guarded P k) table ≡ true
        → P cur ≡ false
        → t ≢ k
        → P (settle (next_state terminal table cur t) cur) ≡ false
    step_guarded P k cur t check out other = go (next_state terminal table cur t) refl
      where
        go : (o : Result S) → next_state terminal table cur t ≡ o → P (settle o cur) ≡ false
        go (err x) p = out
        go (ok u) p =
            let (r, found, m, to, live) = next_state-rule cur t p in
            ground (
              arith,
              eq_iff t k,
              every-mem (guarded P k) table check (lookup-mem t table found),
              λ (h : every P r.from ≡ true). every-mem P r.from h m,
            )

    -- `P` is entered only through `k`, so a run that enters it has `k` among its triggers.
    pub drive_needs :
        (P : S → Bool) (k : String) (cur : S) (ts : List String)
        → every (guarded P k) table ≡ true
        → P cur ≡ false
        → P (drive cur ts) ≡ true
        → Memᴰ k ts
    unfolding drive
    drive_needs P k cur [] check out into = absurd (ground arith)
    drive_needs P k cur (t ∷ ts) check out into = elim (Bool-cases (t == k)) [
      | inl p ↦ Memᴰ.head (sym ((eq_iff t k).0 p))
      | inr p ↦ Memᴰ.tail (
          drive_needs P k (settle (next_state terminal table cur t) cur) ts check
            (step_guarded P k cur t check out (λ q. ground (arith, eq_iff t k))) into)
    ]

    -- A test that holds of every rule of the table holds of the rule behind a move.
    pub moved-rule :
        (test : String × TransitionRule S → Bool) (cur : S) (t : String) {u : S}
        → every test table ≡ true
        → next_state terminal table cur t ≡ ok u
        → (r : TransitionRule S) × (test (t, r) ≡ true)
          × Memᴰ cur r.from
          × (r.to ≡ u)
          × (terminal cur ≡ false)
    moved-rule test cur t check p =
        let (r, found, m, to, live) = next_state-rule cur t p in
        (r, every-mem test table check (lookup-mem t table found), m, to, live)
