-- ===== src/Wallet/Enqueue.antt =====
-- addTransactionToQueue of apps/backend/wallet/src/queue/txQueue.ts, in the mode that runs the job
-- in place (`runTestJob`). What the tables of wallets and limits and the counters answer is an
-- argument.
pub mod Guards
mod Tests
use delego.Base.{
  ℕ, String, Bool, true, false, Option, none, some, List, [], ◌∷◌, ◌++◌, if◌then◌else◌,
}
use delego.Base.Int.{ℤ, pos}
use delego.Base.Text.{Text, text, includes}
use delego.Wallet.Redis.{Redis}
use delego.Wallet.Limits.{
  SpendLimit, Query, Reason, per_transaction, daily, weekly, lifetime, SpendCheckResult, allowed,
  denied, Counters, truthy, check_spend_limit,
}
use delego.Wallet.Job.{
  Stroops, numeral, not_numeral, empty, TransactionRequest, Tried, ok, threw, Answers, Outcome,
  World, run_test_job,
}

-- `Wallet.findOne` for the source address: the wallet's user and id.
pub record Tables : Type 0 where
  pub find_wallet : Tried (Option (String × String))
  pub limits : Tried ((Query → Option SpendLimit) × Counters)

-- `request.amountStroops ? BigInt(request.amountStroops) : 0n`, `none` when it throws.
abbrev pub amount_of : Option Stroops → Option ℤ
amount_of (some (numeral n)) = some n
amount_of (some not_numeral) = none
amount_of _ = some (pos 0)

abbrev or_else : Option String → String → String
or_else none other = other
or_else (some s) other = s

-- The user and the wallet, when both are known.
abbrev both : Option String → Option String → Option (String × String)
both (some user) (some wallet) = some (user, wallet)
both _ _ = none

abbrev completed_by :
    Option String → Option String → Tried (Option (String × String)) → Option (String × String)
completed_by user wallet (ok (some (u, w))) =
    both (truthy (some (or_else user u))) (truthy (some (or_else wallet w)))
completed_by user wallet _ = both user wallet

abbrev lookup_unless : Option String → Option String → Tables → Option (String × String)
lookup_unless (some user) (some wallet) tables = some (user, wallet)
lookup_unless user wallet tables = completed_by user wallet tables.find_wallet

unfoldable pub owner_of : TransactionRequest → Tables → Option (String × String)
owner_of request tables = lookup_unless (truthy request.user_id) (truthy request.wallet_id) tables

abbrev reason_text : Reason → Text
reason_text per_transaction = text "Per-transaction limit exceeded"
reason_text daily = text "Daily limit exceeded"
reason_text weekly = text "Weekly limit exceeded"
reason_text lifetime = text "Lifetime limit exceeded"

-- What becomes of the request: an error, or the job that it is run as.
pub data Admission : Type 0 where
  refused : Text → Admission
  admitted : TransactionRequest → Admission

abbrev pub owned : TransactionRequest → (user wallet : String) → ℤ → TransactionRequest
owned request user wallet amount = record request {
  user_id = some user;
  wallet_id = some wallet;
  delegation_id = request.delegation_id;
  amount_stroops = some (numeral amount);
}

abbrev pub answer_to :
    TransactionRequest → (user wallet : String) → ℤ → SpendCheckResult → Admission
answer_to request user wallet amount allowed = admitted (owned request user wallet amount)
answer_to request user wallet amount (denied reason _ _ _) =
    refused (text "Spending limit exceeded: " ++ reason_text reason)

-- The check, and the `catch` around it, which goes on after an error of the database.
abbrev pub check_owner :
    TransactionRequest
    → Tables
    → ℤ
    → (user wallet : String) → Tried ((Query → Option SpendLimit) × Counters)
    → Admission
check_owner request tables amount user wallet (threw error) =
    if includes (text "Spending limit exceeded") error then refused error else admitted request
check_owner request tables amount user wallet (ok (find_one, counters)) =
    answer_to request user wallet amount
      (check_spend_limit find_one counters user wallet request.delegation_id amount)

abbrev pub admit_owner : TransactionRequest → Tables → ℤ → Option (String × String) → Admission
admit_owner request tables amount none = admitted request
admit_owner request tables amount (some (user, wallet)) =
    check_owner request tables amount user wallet tables.limits

abbrev pub admit_amount : TransactionRequest → Tables → Option ℤ → Admission
admit_amount request tables none = refused (text "SyntaxError")
admit_amount request tables (some amount) =
    admit_owner request tables amount (owner_of request tables)

unfoldable pub admit : TransactionRequest → Tables → Admission
admit request tables = admit_amount request tables (amount_of request.amount_stroops)

pub data Added (redis : Redis) : Type 0 where
  rejected : Text → World redis → Added redis
  ran : Outcome → World redis → Added redis

module _ (redis : Redis) where
  abbrev pub run_if : (ℕ → Answers) → World redis → Admission → Added redis
  run_if answers w (refused error) = rejected error w
  run_if answers w (admitted request) =
      let (outcome, w') = run_test_job redis request answers w in ran outcome w'

  unfoldable pub add_transaction_to_queue :
      TransactionRequest → Tables → (ℕ → Answers) → World redis → Added redis
  unfolding admit
  add_transaction_to_queue request tables answers w = run_if answers w (admit request tables)
