-- ===== src/Gateway/RateLimit/Quota.antt =====
-- apps/backend/gateway/src/rateLimit/rateLimiter.ts: what a check answers behind any others, and how
-- many requests of a window pass.
use delego.Base.{
  ℕ, suc, ◌+◌, ◌-◌, ◌*◌, ◌/◌, ◌≤◌, ◌<◌, ◌≡◌, refl, ◌∙◌, true, false, none, some, List, [], ◌∷◌, All,
  leb, ltb, ◌==◌, if◌then◌else◌, Bool-cases, inl, inr, arith,
}
use delego.Base.Text.{Text, same_text, same_text_iff}
use delego.Gateway.RateLimit.{
  Request, config_of, key_of, has_run, count_request, Reply, replied, errored, lost, count_of,
  result_of, Rest, check_rate_limit, returns, reset_in, finish_check,
}
use delego.Gateway.RateLimit.Redis.{Counters}
use delego.Gateway.RateLimit.Tally.{
  Stands, Fit, arrives-Stands, expires-Stands, run-Stands_from_none, incr-counts,
}
use delego.Gateway.RateLimit.Counted.{
  Event, arrives, expires, is_in, fits, counted, step, run, keeps_to, is_errored, failed_counts,
  admits, passes,
}

leb-suc : (n max : ℕ) → leb (suc n) max ≡ ltb n max
leb-suc n max = ground arith

is_in-lt : (start length t : ℕ) → is_in start length t ≡ true → t < start + length
is_in-lt start length t h = ground arith

-- The start of the window that the key of a request names.
abbrev pub window_start : Request → ℕ
window_start r = r.now / (config_of r).window_ms * (config_of r).window_ms

by_reply :
    (m n max : ℕ) (reply : Reply)
    → max ≤ m
    → (if admits max (count_of reply (suc n)) then 1 else 0)
        + (m - (n + (if has_run reply then 1 else 0)))
      ≤ (m - n) + (if is_errored reply then 1 else 0)
by_reply m n max replied h = ground arith
by_reply m n max errored h = ground arith
by_reply m n max (lost true) h = ground arith
by_reply m n max (lost false) h = ground arith

module _ (redis : Counters) (key : Text) (start length : ℕ) where
  open redis use {State, find}

  -- One request adds no more to the passes and the failed counts than it takes from the quota.
  admits-quota :
      (m n : ℕ) (r : Request) (s : State)
      → Fit redis key start length (arrives r)
      → keeps_to key m (arrives r) ≡ true
      → Stands redis key start length n s
      → passes redis key (arrives r ∷ []) s + (m - (n + counted key (arrives r ∷ [])))
        ≤ (m - n) + failed_counts key (arrives r ∷ [])
  unfolding passes counted failed_counts count_request
  admits-quota m n r s fit keeps h = elim (Bool-cases (same_text (key_of r) key)) [
    | inl same ↦
        let count =
          incr-counts redis key start length (key_of r) n r.served s
            ((same_text_iff (key_of r) key).0 same) (ground (arith, fit, same)) h in
        rw same
          (rw count (by_reply m n (config_of r).max_requests r.reply (ground (arith, keeps, same))))
    | inr other ↦ rw other (omega arith)
  ]

  passes-cons :
      (e : Event) (es : List Event) (s : State)
      → passes redis key (e ∷ es) s
        ≡ passes redis key (e ∷ []) s + passes redis key es (step redis e s)
  unfolding passes
  passes-cons (arrives r) es s = ground arith
  passes-cons (expires r at) es s = omega arith

  failed_counts-cons :
      (e : Event) (es : List Event)
      → failed_counts key (e ∷ es) ≡ failed_counts key (e ∷ []) + failed_counts key es
  unfolding failed_counts
  failed_counts-cons (arrives r) es = ground arith
  failed_counts-cons (expires r at) es = omega arith

  run-quota :
      (m : ℕ) (es : List Event) (n : ℕ) (s : State)
      → All (Fit redis key start length) es
      → All (λ e. keeps_to key m e ≡ true) es
      → Stands redis key start length n s
      → passes redis key es s ≤ (m - n) + failed_counts key es
  unfolding passes failed_counts
  run-quota m [] n s fit keeps h = omega arith
  run-quota m (arrives r ∷ es) n s (fit, fit_all) (keep, keeps) h =
      let rest =
        run-quota m es (n + counted key (arrives r ∷ [])) (step redis (arrives r) s) fit_all keeps
          (arrives-Stands redis key start length r n s fit h) in
      omega (
        arith,
        rest,
        admits-quota m n r s fit keep h,
        passes-cons (arrives r) es s,
        failed_counts-cons (arrives r) es,
      )
  run-quota m (expires r at ∷ es) n s (fit, fit_all) (keep, keeps) h =
      run-quota m es n (step redis (expires r at) s) fit_all keeps
        (expires-Stands redis key start length r at n s fit h)

module _ (redis : Counters) where
  open redis use {State, incr, find}

  -- For any Redis server that keeps the laws, let the transactions and the EXPIREs of any requests
  -- reach it in any order, from a state without the key, where each request with the key has its
  -- transaction, and its EXPIRE, if any, run within one window and has a limit of at most `m`. Then
  -- the requests with the key that pass are no more than `m` and those whose transaction came back
  -- without a count.
  pub run_passes-Bounded :
      (key : Text) (start length m : ℕ) (es : List Event) (s : State)
      → find key s ≡ none
      → All (λ e. fits key start length e ≡ true) es
      → All (λ e. keeps_to key m e ≡ true) es
      → passes redis key es s ≤ m + failed_counts key es
  run_passes-Bounded key start length m es s absent fit_all keeps =
      omega (arith, run-quota redis key start length m es 0 s fit_all keeps (rw absent refl))

  finish_check_lem :
      (r : Request) (rest : Rest) (count : ℕ) (s : State)
      → returns rest.expire_reply ≡ true
      → (finish_check redis r rest (some count) s).0
        ≡ some (result_of r rest.end_read rest.reset_read count)
  finish_check_lem r rest count s returned = elim (Bool-cases (count == 1)) [
    | inl first ↦ rw first (rw returned refl)
    | inr later ↦ rw later refl
  ]

  -- For any Redis server that keeps the laws, and any requests whose commands have reached it, in any
  -- order, from a state without the key of a request, those with this key within the window of the
  -- request: when the transaction of the request is answered within its window, and its EXPIRE does
  -- not throw, the check answers. It lets the request pass exactly when Redis had counted fewer
  -- requests with the key than the limit, and what remains is the limit less these and this one.
  pub check_rate_limit-counted :
      (r : Request) (rest : Rest) (es : List Event) (s : State)
      → find (key_of r) s ≡ none
      → All (λ e. fits (key_of r) (window_start r) (config_of r).window_ms e ≡ true) es
      → is_in (window_start r) (config_of r).window_ms r.served ≡ true
      → r.reply ≡ replied
      → returns rest.expire_reply ≡ true
      → (check_rate_limit redis r rest (run redis es s)).0
        ≡ some (record {
          allowed = ltb (counted (key_of r) es) (config_of r).max_requests;
          limit = (config_of r).max_requests;
          remaining = (config_of r).max_requests - suc (counted (key_of r) es);
          reset_in_seconds = reset_in (config_of r).window_ms rest.end_read rest.reset_read;
          identifier = r.identifier;
        })
  unfolding check_rate_limit count_request
  check_rate_limit-counted r rest es s absent fit_all inside reply returned =
      let config = config_of r in
      let start = window_start r in
      let n = counted (key_of r) es in
      let s' = run redis es s in
      let stands =
        run-Stands_from_none redis (key_of r) start config.window_ms es s fit_all absent in
      let count =
        incr-counts redis (key_of r) start config.window_ms (key_of r) n r.served s' refl
          (is_in-lt start config.window_ms r.served inside) stands in
      let below = leb-suc n config.max_requests in
      rw reply (
        rw count (
          finish_check_lem r rest (suc n) (incr r.served (key_of r) s').1 returned ∙ rw below refl))
