-- ===== src/Payments/Fees/Floor.antt =====
-- What holds of the estimates of apps/backend/payments/escrow/feeEstimator.ts.
use delego.Base.{
  ℕ, ◌+◌, ◌<◌, ◌≡◌, refl, true, Option, none, some, List, [], ◌∷◌, arith, All, ltb, lt→ltb,
}
use delego.Base.Int.{pos, ◌≤ℤ◌}
use delego.Base.Value.{Value}
use delego.Payments.Fees.{
  Percentile, FeeEstimate, CacheEntry, is_valid_fee_stats, horizon_estimate,
  estimate_transaction_fee_with_server, get_cached_fee_estimate, FeeCall, estimate, cached, clear,
  optional, run_calls, cache_ttl_ms,
}

abbrev pub IsSafeFee : FeeEstimate → Type 0
IsSafeFee e = pos 100 ≤ℤ e.recommended_fee_stroops

abbrev IsSafeCache : Option CacheEntry → Type 0
IsSafeCache none = Unit {0}
IsSafeCache (some entry) = IsSafeFee entry.estimate

estimate-IsSafeFee :
    (p : Percentile) (now later : ℕ) (answer : Option Value) (cache : Option CacheEntry)
    → IsSafeCache cache
    → let (e, cache') = estimate_transaction_fee_with_server p now later answer cache in
      IsSafeFee e × IsSafeCache cache'
unfolding estimate_transaction_fee_with_server
estimate-IsSafeFee p now later answer cache h = ground arith

optional-IsSafeFee :
    (now : ℕ) (cache : Option CacheEntry) (es : List FeeEstimate)
    → IsSafeCache cache
    → All IsSafeFee es
    → All IsSafeFee (optional (get_cached_fee_estimate now cache) es)
unfolding get_cached_fee_estimate
optional-IsSafeFee now none es h hs = hs
optional-IsSafeFee now (some entry) es h hs = ground arith

run_calls_from :
    (calls : List FeeCall) (cache : Option CacheEntry)
    → IsSafeCache cache
    → All IsSafeFee (run_calls calls cache)
unfolding run_calls
run_calls_from [] cache h = tt
run_calls_from (estimate p now later answer ∷ calls) cache h =
    let (safe, next) = estimate-IsSafeFee p now later answer cache h in
    (safe, run_calls_from calls _ next)
run_calls_from (cached now ∷ calls) cache h =
    optional-IsSafeFee now cache _ h (run_calls_from calls cache h)
run_calls_from (clear ∷ calls) cache h = run_calls_from calls none tt

-- Whatever Horizon answers, an error and any value included, no estimate that the module ever
-- returns recommends less than 100 stroops: not from Horizon, not from the fallback, and not from
-- the cache.
pub run_calls-IsSafeFee : (calls : List FeeCall) → All IsSafeFee (run_calls calls none)
run_calls-IsSafeFee calls = run_calls_from calls none tt

-- After a fetch for `p` that found valid fees, every request within the time to live is answered
-- with the estimate for `p`, whichever percentile it asks for, without looking at Horizon's new
-- answer, and leaves the cache as it is.
pub estimate-estimate :
    (p q : Percentile) (now later now' later' : ℕ) (stats : Value) (answer : Option Value)
    → is_valid_fee_stats stats ≡ true
    → now' < later + 30000
    → let (e, cache) = estimate_transaction_fee_with_server p now later (some stats) none in
      (e ≡ horizon_estimate p stats later)
      × (estimate_transaction_fee_with_server q now' later' answer cache ≡ (e, cache))
unfolding estimate_transaction_fee_with_server
estimate-estimate p q now later now' later' stats answer valid soon =
    let live : ltb now' (later + cache_ttl_ms) ≡ true = lt→ltb now' (later + cache_ttl_ms) soon in
    rw valid (refl, rw (live, estimate_transaction_fee_with_server) refl)
