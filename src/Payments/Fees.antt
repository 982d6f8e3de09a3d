-- ===== src/Payments/Fees.antt =====
-- apps/backend/payments/escrow/feeEstimator.ts. The module's `feeCache` is passed along. Horizon's
-- answer is an argument, `none` when the request throws; a fee is an integer number of stroops.
pub mod Floor
mod Tests
use delego.Base.{
  ℕ, ◌+◌, Bool, true, false, not, ◌&&◌, Option, none, some, List, [], ◌∷◌, ltb, if◌then◌else◌,
}
use delego.Base.Int.{ℤ, pos, ltb_ℤ}
use delego.Base.Value.{Value, undefined, null, num, get, not_object}

pub data Percentile : Type 0 where
  p50 p95 p99 : Percentile

pub data Source : Type 0 where
  horizon fallback : Source

pub record FeeEstimate : Type 0 where
  pub source : Source
  pub base_fee_stroops : ℤ
  pub recommended_fee_stroops : ℤ
  pub percentile : Percentile
  pub fetched_at : ℕ

pub record CacheEntry : Type 0 where
  pub estimate : FeeEstimate
  pub expires_at : ℕ

abbrev pub default_fallback_fee : ℤ
default_fallback_fee = pos 100

abbrev pub cache_ttl_ms : ℕ
cache_ttl_ms = 30000

abbrev is_number : Value → Bool
is_number (num _) = true
is_number _ = false

abbrev is_nullish : Value → Bool
is_nullish undefined = true
is_nullish null = true
is_nullish _ = false

unfoldable pub is_valid_fee_stats : Value → Bool
is_valid_fee_stats stats =
    if not_object stats
    then false
    else let max_fee = get "max_fee" stats in
      is_number (get "last_ledger" stats)
      && is_number (get "last_ledger_base_fee" stats)
      && is_number (get "ledger_capacity_usage" stats)
      && not (is_nullish max_fee)
      && is_number (get "p50" max_fee)
      && is_number (get "p95" max_fee)
      && is_number (get "p99" max_fee)

-- A number that the validation has found to be one.
abbrev pub as_number : Value → ℤ
as_number (num n) = n
as_number _ = pos 0

-- `maxFeeData[percentile]`
abbrev pub fee_at : Percentile → Value → Value
fee_at p50 fees = get "p50" fees
fee_at p95 fees = get "p95" fees
fee_at p99 fees = get "p99" fees

-- `Math.max`
abbrev pub max_ℤ : ℤ → ℤ → ℤ
max_ℤ a b = if ltb_ℤ a b then b else a

unfoldable pub create_fallback_estimate : Percentile → ℕ → FeeEstimate
create_fallback_estimate p now = record {
  source = fallback;
  base_fee_stroops = default_fallback_fee;
  recommended_fee_stroops = default_fallback_fee;
  percentile = p;
  fetched_at = now;
}

abbrev pub horizon_estimate : Percentile → Value → ℕ → FeeEstimate
horizon_estimate p stats now = record {
  source = horizon;
  base_fee_stroops = as_number (get "last_ledger_base_fee" stats);
  recommended_fee_stroops = max_ℤ (as_number (fee_at p (get "max_fee" stats))) default_fallback_fee;
  percentile = p;
  fetched_at = now;
}

-- `feeCache && feeCache.expiresAt > Date.now()`
abbrev pub fresh : Option CacheEntry → ℕ → Option FeeEstimate
fresh none now = none
fresh (some entry) now = if ltb now entry.expires_at then some entry.estimate else none

abbrev fetched : Percentile → ℕ → Option CacheEntry → Option Value → FeeEstimate × Option CacheEntry
fetched p later cache none = (create_fallback_estimate p later, cache)
fetched p later cache (some stats) =
    if is_valid_fee_stats stats
    then (
      horizon_estimate p stats later,
      some
          (record { estimate = horizon_estimate p stats later; expires_at = later + cache_ttl_ms }),
    )
    else (create_fallback_estimate p later, cache)

-- The clock reads `now` at the call, and `later` when Horizon has answered.
unfoldable pub estimate_transaction_fee_with_server :
    Percentile
    → (now later : ℕ) → Option Value
    → Option CacheEntry
    → FeeEstimate × Option CacheEntry
unfolding create_fallback_estimate
estimate_transaction_fee_with_server p now later answer cache = elim (fresh cache now) [
  | some estimate ↦ (estimate, cache)
  | none ↦ fetched p later cache answer
]

unfoldable pub clear_fee_cache : Option CacheEntry → Option CacheEntry
clear_fee_cache cache = none

unfoldable pub get_cached_fee_estimate : ℕ → Option CacheEntry → Option FeeEstimate
get_cached_fee_estimate now cache = fresh cache now

-- Calls of the module, one after another, and the estimates that they return.
pub data FeeCall : Type 0 where
  estimate : Percentile → (now later : ℕ) → Option Value → FeeCall
  cached : ℕ → FeeCall
  clear : FeeCall

abbrev pub optional : Option FeeEstimate → List FeeEstimate → List FeeEstimate
optional none es = es
optional (some e) es = e ∷ es

unfoldable pub run_calls : List FeeCall → Option CacheEntry → List FeeEstimate
unfolding estimate_transaction_fee_with_server clear_fee_cache get_cached_fee_estimate
run_calls [] cache = []
run_calls (estimate p now later answer ∷ calls) cache =
    let (e, cache') = estimate_transaction_fee_with_server p now later answer cache in
    e ∷ run_calls calls cache'
run_calls (cached now ∷ calls) cache =
    optional (get_cached_fee_estimate now cache) (run_calls calls cache)
run_calls (clear ∷ calls) cache = run_calls calls (clear_fee_cache cache)
