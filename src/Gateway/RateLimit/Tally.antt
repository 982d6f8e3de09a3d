-- ===== src/Gateway/RateLimit/Tally.antt =====
-- apps/backend/gateway/src/rateLimit/rateLimiter.ts: within a window, the counter of a key stands at
-- the number of transactions for the key.
use delego.Base.{
  ℕ, suc, ◌+◌, ◌<◌, ◌≡◌, refl, sym, ap, ◌∙◌, subst, true, none, List, [], ◌∷◌, All, Bool-cases, inl,
  inr, arith,
}
use delego.Base.Text.{Text, same_text, same_text_iff}
use delego.Gateway.RateLimit.{
  Request, config_of, key_of, ttl_seconds, has_run, count_request, set_expiry,
}
use delego.Gateway.RateLimit.Redis.{Counters}
use delego.Gateway.RateLimit.Counted.{
  Event, arrives, expires, fits, counted, tallied, value-tallied, tallied-raised, step, run,
  tallied-expire,
}

module _ (redis : Counters) (key : Text) (start length : ℕ) where
  open redis use {State, incr, find, incr-value, find-incr_self, find-incr_ne, find-expire_ne}

  abbrev pub Stands : ℕ → State → Type 0
  Stands n s = tallied (start + length) n (find key s) ≡ true

  abbrev pub Fit : Event → Type 0
  Fit e = fits key start length e ≡ true

  at_count : {m n : ℕ} (s : State) → m ≡ n → Stands m s → Stands n s
  at_count s same h = subst (λ m. Stands m s) same h

  incr-Stands :
      (k : Text) (n now : ℕ) (s : State)
      → k ≡ key
      → now < start + length
      → Stands n s
      → Stands (suc n) (incr now k s).1
  incr-Stands k n now s same lt h =
      subst (λ k. Stands (suc n) (incr now k s).1) (sym same)
        (rw (find-incr_self s key now) (tallied-raised (start + length) n now (find key s) h lt))

  pub arrives-Stands :
      (r : Request) (n : ℕ) (s : State)
      → Fit (arrives r)
      → Stands n s
      → Stands (n + counted key (arrives r ∷ [])) (step redis (arrives r) s)
  unfolding step count_request counted
  arrives-Stands r n s fit h = elim (Bool-cases (has_run r.reply)) [
    | inl ran ↦ elim (Bool-cases (same_text (key_of r) key)) [
      | inl same ↦ rw ran (
          rw same (
            at_count {m = suc n} {n = n + 1} (incr r.served (key_of r) s).1 (omega arith) (
              incr-Stands (key_of r) n r.served s ((same_text_iff (key_of r) key).0 same)
                (ground (arith, fit, same)) h)))
      | inr other ↦ rw ran (
          rw other (
            at_count {m = n} {n = n + 0} (incr r.served (key_of r) s).1 (omega arith)
              (rw (find-incr_ne s (key_of r) key r.served other) h)))
    ]
    | inr skipped ↦ elim (Bool-cases (same_text (key_of r) key)) [
      | inl same ↦ rw skipped (rw same (at_count {m = n} {n = n + 0} s (omega arith) h))
      | inr other ↦ rw skipped (rw other (at_count {m = n} {n = n + 0} s (omega arith) h))
    ]
  ]

  pub expires-Stands :
      (r : Request) (at n : ℕ) (s : State)
      → Fit (expires r at)
      → Stands n s
      → Stands n (step redis (expires r at) s)
  unfolding step set_expiry
  expires-Stands r at n s fit h = elim (Bool-cases (same_text (key_of r) key)) [
    | inl same ↦
        subst (λ k. Stands n (redis.expire at k (ttl_seconds (config_of r)) s))
          (sym ((same_text_iff (key_of r) key).0 same))
          (tallied-expire redis key (start + length) n (ttl_seconds (config_of r)) at s (find key s)
            refl h (ground (arith, fit, same)) (ground (arith, fit, same)))
    | inr other ↦ rw (find-expire_ne s (key_of r) key (ttl_seconds (config_of r)) at other) h
  ]

  run-Stands :
      (es : List Event) (n : ℕ) (s : State)
      → All Fit es
      → Stands n s
      → Stands (n + counted key es) (run redis es s)
  unfolding run counted
  run-Stands [] n s fit h = at_count {m = n} {n = n + 0} s (omega arith) h
  run-Stands (arrives r ∷ es) n s (fit, fit_all) h =
      at_count (run redis es (step redis (arrives r) s)) (ground arith) (
        run-Stands es (n + counted key (arrives r ∷ [])) (step redis (arrives r) s) fit_all
          (arrives-Stands r n s fit h))
  run-Stands (expires r at ∷ es) n s (fit, fit_all) h =
      run-Stands es n (step redis (expires r at) s) fit_all (expires-Stands r at n s fit h)

  pub run-Stands_from_none :
      (es : List Event) (s : State)
      → All Fit es
      → find key s ≡ none
      → Stands (counted key es) (run redis es s)
  run-Stands_from_none es s fit absent =
      at_count (run redis es s) (omega arith) (run-Stands es 0 s fit (rw absent refl))

  pub incr-counts :
      (k : Text) (n now : ℕ) (s : State)
      → k ≡ key
      → now < start + length
      → Stands n s
      → (incr now k s).0 ≡ suc n
  incr-counts k n now s same lt h =
      subst (λ k. (incr now k s).0 ≡ suc n) (sym same)
        (incr-value s key now ∙ ap suc (value-tallied (start + length) n now (find key s) h lt))
