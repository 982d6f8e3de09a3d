-- ===== src/Wallet/Enqueue/Guards.antt =====
-- Which transactions are run, and what they record (apps/backend/wallet/src/queue/txQueue.ts).
use delego.Base.{ℕ, ◌≡◌, refl, ap, String, Bool, true, false, Option, none, some}
use delego.Base.Int.{ℤ}
use delego.Base.Text.{Text}
use delego.Wallet.Redis.{Redis}
use delego.Wallet.Limits.{
  SpendLimit, Query, SpendCheckResult, allowed, denied, Counters, check_spend_limit,
}
use delego.Wallet.Job.{TransactionRequest, Tried, ok, threw, Answers, Outcome, World, run_test_job}
use delego.Wallet.Job.Attempt.{Account, is_done}
use delego.Wallet.Job.Spends.{run_test_job-Account}
use delego.Wallet.Enqueue.{
  Tables, amount_of, owner_of, Admission, refused, admitted, answer_to, check_owner, admit_owner,
  admit_amount, admit, Added, rejected, ran, run_if, add_transaction_to_queue,
}

-- Why a transaction is let through: its owner is not known, the limits could not be read, or they
-- allow the spend.
pub data Cleared (request : TransactionRequest) (tables : Tables) : Type 0 where
  no_owner : owner_of request tables ≡ none → Cleared request tables
  not_checked : (error : Text) → tables.limits ≡ threw error → Cleared request tables
  within :
      (user wallet : String) (amount : ℤ) (find_one : Query → Option SpendLimit)
      (counters : Counters)
      → owner_of request tables ≡ some (user, wallet)
      → amount_of request.amount_stroops ≡ some amount
      → tables.limits ≡ ok (find_one, counters)
      → check_spend_limit find_one counters user wallet request.delegation_id amount ≡ allowed
      → Cleared request tables

abbrev is_admitted : Admission → Bool
is_admitted (admitted _) = true
is_admitted (refused _) = false

module _ (request : TransactionRequest) (tables : Tables) where
  check_owner-Cleared :
      (user wallet : String) (amount : ℤ) (limits : Tried ((Query → Option SpendLimit) × Counters))
      → owner_of request tables ≡ some (user, wallet)
      → amount_of request.amount_stroops ≡ some amount
      → tables.limits ≡ limits
      → is_admitted (check_owner request tables amount user wallet limits) ≡ true
      → Cleared request tables
  check_owner-Cleared user wallet amount (threw error) owner stroops limits h =
      not_checked error limits
  check_owner-Cleared user wallet amount (ok (find_one, counters)) owner stroops limits h =
      answered (check_spend_limit find_one counters user wallet request.delegation_id amount) refl h
    where
      answered :
          (result : SpendCheckResult)
          → check_spend_limit find_one counters user wallet request.delegation_id amount ≡ result
          → is_admitted (answer_to request user wallet amount result) ≡ true
          → Cleared request tables
      answered allowed e h' = within user wallet amount find_one counters owner stroops limits e
      answered (denied reason limit current requested) e h' = absurd (cc)

  admit_owner-Cleared :
      (amount : ℤ) (owner : Option (String × String))
      → amount_of request.amount_stroops ≡ some amount
      → owner_of request tables ≡ owner
      → is_admitted (admit_owner request tables amount owner) ≡ true
      → Cleared request tables
  admit_owner-Cleared amount none stroops owner h = no_owner owner
  admit_owner-Cleared amount (some (user, wallet)) stroops owner h =
      check_owner-Cleared user wallet amount tables.limits owner stroops refl h

  admit_amount-Cleared :
      (amount : Option ℤ)
      → amount_of request.amount_stroops ≡ amount
      → is_admitted (admit_amount request tables amount) ≡ true
      → Cleared request tables
  admit_amount-Cleared none stroops h = absurd (cc)
  admit_amount-Cleared (some amount) stroops h =
      admit_owner-Cleared amount (owner_of request tables) stroops refl h

  admit-Cleared : is_admitted (admit request tables) ≡ true → Cleared request tables
  unfolding admit
  admit-Cleared h = admit_amount-Cleared (amount_of request.amount_stroops) refl h

  -- What adding a transaction comes to.
  pub data Handled (redis : Redis) (w : World redis) : Added redis → Type 0 where
    was_rejected : (error : Text) → Handled redis w (rejected error w)
    was_run :
        (outcome : Outcome) (w' : World redis) (job : TransactionRequest)
        → Cleared request tables
        → admit request tables ≡ admitted job
        → Account job w.spends w'.spends (is_done outcome)
        → Handled redis w (ran outcome w')

  run_if-Handled :
      (redis : Redis) (answers : ℕ → Answers) (w : World redis) (admission : Admission)
      → admit request tables ≡ admission
      → Handled redis w (run_if redis answers w admission)
  run_if-Handled redis answers w (refused error) e = was_rejected error
  run_if-Handled redis answers w (admitted job) e =
      was_run (run_test_job redis job answers w).0 (run_test_job redis job answers w).1 job
        (admit-Cleared (ap is_admitted e)) e (run_test_job-Account redis job answers w)

  -- A transaction that is added is run only if its owner is not known, or the limits could not be
  -- read, or they allow its amount at the counters of then; when it is run, nothing is recorded as
  -- spent, or the job is done and the spend of the request that it is run as is recorded once. One
  -- that is not run changes nothing.
  pub add_transaction_to_queue-Handled :
      (redis : Redis) (answers : ℕ → Answers) (w : World redis)
      → Handled redis w (add_transaction_to_queue redis request tables answers w)
  unfolding add_transaction_to_queue
  add_transaction_to_queue-Handled redis answers w =
      run_if-Handled redis answers w (admit request tables) refl
