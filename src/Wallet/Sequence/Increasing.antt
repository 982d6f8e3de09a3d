-- ===== src/Wallet/Sequence/Increasing.antt =====
-- No account is given a sequence number twice (getNextSequenceNumber of
-- apps/backend/wallet/src/queue/txQueue.ts).
use text.Mathlib.TextLemmas.{append_cancel_left}
use delego.Base.{
  ℕ, ◌+◌, ◌-◌, ◌<◌, ◌≡◌, refl, ◌∙◌, ◌≢◌, String, true, false, Option, none, some, List, [], ◌∷◌,
  arith, ltb, if◌then◌else◌, str_eq, eq_iff, Bool-cases, inl, inr, ap,
}
use delego.Wallet.Redis.{Redis}
use delego.Wallet.Sequence.{
  cache_key, next_sequence, get_next_sequence_number, reset_before_retry, SequenceCall, used_by,
  sequences,
}

-- Strictly increasing, and above a bound.
abbrev pub IncreasesFrom : ℕ → List ℕ → Type 0
IncreasesFrom n [] = Unit
IncreasesFrom n (m ∷ ms) = (n < m) × IncreasesFrom m ms

abbrev pub stored_at : ℕ → ℕ → Option ℕ → ℕ
stored_at last now none = last
stored_at last now (some ledger) = now

-- The calls for `a` are first attempts, and each comes before the number that was stored at time
-- `last` runs out.
abbrev pub Spaced : String → ℕ → List SequenceCall → Type 0
Spaced a last [] = Unit
Spaced a last (c ∷ cs) =
    if str_eq c.source a
    then (c.attempt ≡ 1) × (c.now < last + 60000) × Spaced a (stored_at last c.now c.ledger) cs
    else Spaced a last cs

cache_key-ne : (a b : String) → str_eq a b ≡ false → cache_key a ≢ cache_key b
cache_key-ne a b h e =
    let same : a ≡ b = append_cancel_left "seq:" a b e in ground (arith, eq_iff a b)

next_sequence-lt : (ledger cached : ℕ) → cached < next_sequence ledger (some cached)
next_sequence-lt ledger cached = ground arith

next_sequence-pos :
    (ledger : ℕ) (cached : Option ℕ)
    → next_sequence ledger cached - 1 + 1 ≡ next_sequence ledger cached
next_sequence-pos ledger cached = ground arith

used_by-other :
    (a source : String) (n : Option ℕ) (rest : List ℕ)
    → str_eq source a ≡ false
    → used_by a source n rest ≡ rest
used_by-other a source none rest h = refl
used_by-other a source (some n) rest h = rw h

module _ (redis : Redis) where
  open redis use {State, get, set, del, get-set_self, get-set_ne, get-del_ne}

  -- Until 60 seconds after `last`, the cache of `a` holds `v`.
  abbrev Stored : String → ℕ → ℕ → State → Type 0
  Stored a v last s = (t : ℕ) → t < last + 60000 → get t (cache_key a) s ≡ some v

  set-Stored : (a : String) (v now : ℕ) (s : State) → Stored a v now (set now (cache_key a) v 60 s)
  set-Stored a v now s t h = get-set_self s (cache_key a) v 60 now t (omega arith)

  reset-Stored :
      (a b : String) (v last attempt : ℕ) (s : State)
      → str_eq b a ≡ false
      → Stored a v last s
      → Stored a v last (reset_before_retry redis b attempt s)
  reset-Stored a b v last attempt s ne h t early = elim (Bool-cases (ltb 1 attempt)) [
    | inl retry ↦
        rw retry (get-del_ne s (cache_key b) (cache_key a) t (cache_key-ne b a ne) ∙ h t early)
    | inr first ↦ rw first (h t early)
  ]

  -- A call for another account leaves the cache of `a`.
  other-Stored :
      (a b : String) (v last now attempt : ℕ) (ledger : Option ℕ) (s : State)
      → str_eq b a ≡ false
      → Stored a v last s
      → Stored a v last (get_next_sequence_number redis b now attempt ledger s).1
  unfolding get_next_sequence_number
  other-Stored a b v last now attempt none s ne h t early =
      reset-Stored a b v last attempt s ne h t early
  other-Stored a b v last now attempt (some ledger) s ne h t early =
      get-set_ne (reset_before_retry redis b attempt s) (cache_key b) (cache_key a) _ 60 now t
        (cache_key-ne b a ne)
      ∙ reset-Stored a b v last attempt s ne h t early

  own_call :
      (a : String) (v last now ledger : ℕ) (s : State)
      → Stored a v last s
      → now < last + 60000
      → get_next_sequence_number redis a now 1 (some ledger) s ≡ (
        some (next_sequence ledger (some v) - 1),
        set now (cache_key a) (next_sequence ledger (some v)) 60 s,
      )
  unfolding get_next_sequence_number
  own_call a v last now ledger s h early = rw (h now early)

  -- A first attempt for `a`, and what comes after it.
  own_step :
      (a : String) (v last now : ℕ) (ledger : Option ℕ) (s : State) (rest : State → List ℕ)
      → Stored a v last s
      → now < last + 60000
      → ((v' : ℕ) (s' : State)
          → Stored a v' (stored_at last now ledger) s'
          → IncreasesFrom v' (rest s'))
      → let (n, s') = get_next_sequence_number redis a now 1 ledger s in
        IncreasesFrom v (used_by a a n (rest s'))
  unfolding get_next_sequence_number
  own_step a v last now none s rest h early next = next v s h
  own_step a v last now (some ledger) s rest h early next =
      let self : str_eq a a ≡ true = ground (arith, eq_iff a a) in
      let v' = next_sequence ledger (some v) in
      rw (h now early) (
        rw self (
          rw (next_sequence-pos ledger (some v)) (
            next_sequence-lt ledger v,
            next v' (set now (cache_key a) v' 60 s) (set-Stored a v' now s),
          )))

  sequences_from :
      (a : String) (cs : List SequenceCall) (v last : ℕ) (s : State)
      → Stored a v last s
      → Spaced a last cs
      → IncreasesFrom v (sequences redis a cs s)
  unfolding sequences
  sequences_from a [] v last s h sp = tt
  sequences_from a (c ∷ cs) v last s h sp = elim (Bool-cases (str_eq c.source a)) [
    | inl own ↦
        let (first, early, later) = rw own at sp in
        rw ((eq_iff c.source a).0 own, first)
          (own_step a v last c.now c.ledger s (sequences redis a cs) h early
            (λ v' s' h'. sequences_from a cs v' (stored_at last c.now c.ledger) s' h' later))
    | inr other ↦ rw (used_by-other a c.source _ _ other) (
        sequences_from a cs v last _
          (other-Stored a c.source v last c.now c.attempt c.ledger s other h) (rw other at sp))
  ]

  -- After a call for the account `a` has given a transaction the sequence number `n + 1`, the
  -- numbers that later first attempts for `a` are given increase strictly from there, whatever the
  -- ledger reports and whatever calls for other accounts come between, as long as each comes
  -- within the 60 seconds that the last number stays in Redis.
  pub sequences-IncreasesFrom :
      (a : String) (now attempt ledger n : ℕ) (cs : List SequenceCall) (s s' : State)
      → get_next_sequence_number redis a now attempt (some ledger) s ≡ (some n, s')
      → Spaced a now cs
      → IncreasesFrom (n + 1) (sequences redis a cs s')
  unfolding get_next_sequence_number
  sequences-IncreasesFrom a now attempt ledger n cs s s' e sp =
      let t = reset_before_retry redis a attempt s in
      let cached = get now (cache_key a) t in
      let v = next_sequence ledger cached in
      let same : v - 1 ≡ n = cc (ap (λ p. p.0) e) in
      let state : set now (cache_key a) v 60 t ≡ s' = ap (λ p. p.1) e in
      rw (← same, next_sequence-pos ledger cached)
        (sequences_from a cs v now s' (rw (← state) (set-Stored a v now t)) sp)
