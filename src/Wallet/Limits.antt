-- ===== src/Wallet/Limits.antt =====
-- apps/backend/wallet/src/spendLimits.ts: the check of a spending limit, and what recording a
-- spend does to the counters of one day, week and wallet. An amount is a `bigint`; the counters
-- are those that MGET returns, a missing one being 0. `findOne` is an argument: it gives a row of
-- the table for a query, if there is one.
pub mod Laws
pub mod Runs
mod Tests
use delego.Base.{
  Bool, true, false, Option, none, some, String, List, [], ◌∷◌, if◌then◌else◌, str_eq,
}
use delego.Base.Int.{ℤ, pos, ◌+ℤ◌, ltb_ℤ}

pub record SpendLimit : Type 0 where
  pub user_id : String
  pub wallet_id : Option String
  pub delegation_id : Option String
  pub limit_per_transaction : Option ℤ
  pub limit_daily : Option ℤ
  pub limit_weekly : Option ℤ
  pub limit_lifetime : Option ℤ

-- The `where` objects of the four queries.
pub data Query : Type 0 where
  exact : (user : String) → (delegation wallet : Option String) → Query
  by_delegation : String → Query
  by_wallet : String → Query
  by_user : String → Query

pub data Reason : Type 0 where
  per_transaction daily weekly lifetime : Reason

-- `reason`, `limit`, `currentSpend` and `requestedAmount` of a refusal.
pub data SpendCheckResult : Type 0 where
  allowed : SpendCheckResult
  denied : Reason → ℤ → Option ℤ → ℤ → SpendCheckResult

pub record Counters : Type 0 where
  pub daily_spend : ℤ
  pub weekly_spend : ℤ
  pub lifetime_spend : ℤ

-- `value || null`: an empty text counts as none.
abbrev pub truthy : Option String → Option String
truthy none = none
truthy (some s) = if str_eq s "" then none else some s

abbrev or_else : Option SpendLimit → Option SpendLimit → Option SpendLimit
or_else none other = other
or_else (some config) other = some config

abbrev query_if : (Query → Option SpendLimit) → (String → Query) → Option String → Option SpendLimit
query_if find_one by none = none
query_if find_one by (some key) = find_one (by key)

-- The queries of `checkSpendLimit`, each made when those before it have found nothing.
unfoldable pub find_config :
    (Query → Option SpendLimit) → (user wallet : String) → Option String → Option SpendLimit
find_config find_one user wallet delegation =
    or_else (find_one (exact user (truthy delegation) (truthy (some wallet)))) (
      or_else (query_if find_one by_delegation (truthy delegation))
        (or_else (query_if find_one by_wallet (truthy (some wallet))) (find_one (by_user user))))

-- A refusal when the new total is above the limit, and otherwise what comes next.
abbrev pub limit_total : Reason → Option ℤ → ℤ → ℤ → SpendCheckResult → SpendCheckResult
limit_total reason none current amount next = next
limit_total reason (some limit) current amount next =
    if ltb_ℤ limit (current +ℤ amount) then denied reason limit (some current) amount else next

abbrev pub limit_amount : Option ℤ → ℤ → SpendCheckResult → SpendCheckResult
limit_amount none amount next = next
limit_amount (some limit) amount next =
    if ltb_ℤ limit amount then denied per_transaction limit none amount else next

unfoldable pub check_config : Option SpendLimit → Counters → ℤ → SpendCheckResult
check_config none counters amount = allowed
check_config (some config) counters amount = limit_amount config.limit_per_transaction amount (
    limit_total daily config.limit_daily counters.daily_spend amount (
      limit_total weekly config.limit_weekly counters.weekly_spend amount
        (limit_total lifetime config.limit_lifetime counters.lifetime_spend amount allowed)))

unfoldable pub check_spend_limit :
    (Query → Option SpendLimit)
    → Counters
    → (user wallet : String) → Option String
    → ℤ
    → SpendCheckResult
unfolding find_config check_config
check_spend_limit find_one counters user wallet delegation amount =
    check_config (find_config find_one user wallet delegation) counters amount

-- The three INCRBY of the script of `recordSpend`.
unfoldable pub record_spend : ℤ → Counters → Counters
record_spend amount c = record {
  daily_spend = c.daily_spend +ℤ amount;
  weekly_spend = c.weekly_spend +ℤ amount;
  lifetime_spend = c.lifetime_spend +ℤ amount;
}
