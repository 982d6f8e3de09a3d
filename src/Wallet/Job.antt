-- ===== src/Wallet/Job.antt =====
-- executeTxJob and runTestJob of apps/backend/wallet/src/queue/txQueue.ts. What an attempt gets from
-- the vault, Horizon, the RPC server and the SDK is a record of answers; its state is the Redis
-- server with the cached sequence numbers, and the spends recorded so far, the latest first.
pub mod Attempt
pub mod Spends
pub mod Ends
mod Tests
use delego.Base.{
  ℕ, zero, suc, ◌+◌, Bool, true, false, ◌&&◌, ◌||◌, Option, none, some, String, List, [], ◌∷◌, ◌++◌,
  ltb, if◌then◌else◌,
}
use delego.Base.Int.{ℤ, pos, ltb_ℤ}
use delego.Base.Text.{Text, text, includes}
use delego.Wallet.Redis.{Redis}
use delego.Wallet.Sequence.{cache_key, get_next_sequence_number}
use delego.Wallet.Limits.{truthy}
use delego.Wallet.Failure.{
  FailureCode, error_object, classify_submission_failure, simulation_failed_message,
  transaction_failed_message,
}

-- A `string` of an amount: what `BigInt` reads, or one that it rejects. The empty one is falsy.
pub data Stroops : Type 0 where
  numeral : ℤ → Stroops
  not_numeral empty : Stroops

pub record TransactionRequest : Type 0 where
  pub source_address : String
  pub user_id : Option String
  pub wallet_id : Option String
  pub delegation_id : Option String
  pub amount_stroops : Option Stroops

pub data Tried (A : Type 0) : Type 0 where
  ok : A → Tried A
  threw : Text → Tried A

pub data Sent : Type 0 where
  send_error : (json : Text) → Sent
  sent : (status hash : Text) → Sent

pub data Polled : Type 0 where
  succeeded : (ledger : ℕ) → Polled
  failed : (result_xdr : Text) → Polled
  other_status : Polled

-- `simulate` gives the text of the answer when it is no success; `poll` is asked with the retries
-- that are left; `verify` is `verifyLedgerSubmission`, which turns every error into `false`.
pub record Answers : Type 0 where
  pub now : ℕ
  pub get_key : Tried Unit
  pub ledger : Option ℕ
  pub ledger_error : Text
  pub build : Tried Unit
  pub simulate : Tried (Option Text)
  pub sign : Tried Unit
  pub send : Tried Sent
  pub poll : ℕ → Tried Polled
  pub reset : Tried Unit
  pub record_spend_works : Bool
  pub verify : Bool

pub record Spend : Type 0 where
  pub user : String
  pub wallet : String
  pub amount : ℤ

pub record TransactionResult : Type 0 where
  pub hash : Text
  pub ledger : ℕ

-- What a job ends with: a result, an `Error`, or an `UnrecoverableError`.
pub data Outcome : Type 0 where
  done : TransactionResult → Outcome
  thrown : Text → Outcome
  unrecoverable : FailureCode → Text → Outcome

abbrev positive_spend : String → String → ℤ → Option Spend
positive_spend user wallet amount =
    if ltb_ℤ (pos 0) amount
    then some (record { user = user; wallet = wallet; amount = amount })
    else none

abbrev spend_of : Option String → Option String → Option Stroops → Option Spend
spend_of (some user) (some wallet) (some (numeral amount)) = positive_spend user wallet amount
spend_of _ _ _ = none

-- The spend that a confirmed request is recorded as, if it is.
unfoldable pub due_spend : TransactionRequest → Option Spend
due_spend request =
    spend_of (truthy request.user_id) (truthy request.wallet_id) request.amount_stroops

abbrev pub bad_sequence : Text → Bool
bad_sequence detail = includes (text "tx_bad_seq") detail || includes (text "bad_seq") detail

-- `throwClassifiedSubmissionFailure` of the classified error, for what the `try` block threw.
unfoldable pub settle : Option Text → Tried TransactionResult → Outcome
settle tx_hash (ok result) = done result
settle tx_hash (threw message) =
    let failure = classify_submission_failure (error_object message) tx_hash in
    if failure.retryable then thrown failure.message else unrecoverable failure.code failure.message

pub record World (redis : Redis) : Type 0 where
  pub store : redis.State
  pub spends : List Spend

module _ (redis : Redis) where
  -- The transaction's hash once it is sent, what the `try` block ends with, and the state then.
  abbrev pub Ended : Type 0
  Ended = Option Text × Tried TransactionResult × World redis

  abbrev pub try_then : {A : Type 0} → Tried A → World redis → (A → Ended) → Ended
  try_then (threw message) w next = (none, threw message, w)
  try_then (ok a) w next = next a

  abbrev pub after_reset : String → Tried Unit → Option Text → Text → World redis → Ended
  after_reset source (threw error) tx_hash message w = (tx_hash, threw error, w)
  after_reset source (ok _) tx_hash message w =
      (tx_hash, threw message, record w { store = redis.del (cache_key source) w.store })

  -- The cache is reset when the detail of the error names a sequence error, and the error thrown.
  abbrev pub fail_with : String → Tried Unit → Option Text → Text → Text → World redis → Ended
  fail_with source reset tx_hash detail message w =
      if bad_sequence detail
      then after_reset source reset tx_hash message w
      else (tx_hash, threw message, w)

  abbrev pub record_due : Option Spend → Bool → World redis → World redis
  record_due (some spend) true w = record w { spends = spend ∷ w.spends }
  record_due _ _ w = w

  -- After a successful poll: an error of `recordSpend` is only logged.
  unfoldable pub record_confirmed : TransactionRequest → Answers → World redis → World redis
  record_confirmed request answers w = record_due (due_spend request) answers.record_spend_works w

  abbrev pub polled :
      TransactionRequest → Answers → (hash : Text) → World redis → Tried Polled → Ended → Ended
  polled request answers hash w (threw error) rest = (some hash, threw error, w)
  polled request answers hash w (ok (succeeded ledger)) rest =
      (some hash, ok (record { hash = hash; ledger = ledger }), record_confirmed request answers w)
  polled request answers hash w (ok (failed result_xdr)) rest =
      fail_with request.source_address answers.reset (some hash) result_xdr
        (transaction_failed_message result_xdr) w
  polled request answers hash w (ok other_status) rest = rest

  abbrev pub unconfirmed : Answers → (status hash : Text) → World redis → Ended
  unconfirmed answers status hash w =
      if answers.verify
      then (some hash, ok (record { hash = hash; ledger = 0 }), w)
      else (some hash, threw (text "Transaction timeout or status untracked: " ++ status), w)

  -- The polling loop, on the retries that are left, and what follows it.
  unfoldable pub poll_loop :
      TransactionRequest → Answers → (status hash : Text) → (retries : ℕ) → World redis → Ended
  poll_loop request answers status hash zero w = unconfirmed answers status hash w
  poll_loop request answers status hash (suc retries) w =
      let rest = poll_loop request answers status hash retries w in
      polled request answers hash w (answers.poll (suc retries)) rest

  abbrev pub after_send : TransactionRequest → Answers → Sent → World redis → Ended
  after_send request answers (send_error json) w =
      fail_with request.source_address answers.reset none json (text "Submission failed: " ++ json)
        w
  after_send request answers (sent status hash) w = poll_loop request answers status hash 12 w

  abbrev pub after_simulation : TransactionRequest → Answers → Option Text → World redis → Ended
  after_simulation request answers (some json) w = (none, threw (simulation_failed_message json), w)
  after_simulation request answers none w =
      try_then answers.sign w (λ _. try_then answers.send w (λ s. after_send request answers s w))

  -- The `try` block.
  unfoldable pub submit : TransactionRequest → Answers → World redis → Ended
  submit request answers w =
      try_then answers.build w
        (λ _. try_then answers.simulate w (λ refusal. after_simulation request answers refusal w))

  abbrev pub settled : Ended → Outcome × World redis
  settled (tx_hash, ended, w) = (settle tx_hash ended, w)

  abbrev pub with_sequence :
      TransactionRequest → Answers → Option ℕ → World redis → Outcome × World redis
  with_sequence request answers none w = (thrown answers.ledger_error, w)
  with_sequence request answers (some sequence) w = settled (submit request answers w)

  abbrev pub with_key :
      TransactionRequest → ℕ → Answers → Tried Unit → World redis → Outcome × World redis
  with_key request attempt answers (threw error) w = (thrown error, w)
  with_key request attempt answers (ok _) w =
      let (sequence, store) =
        get_next_sequence_number redis request.source_address answers.now attempt answers.ledger
          w.store in
      with_sequence request answers sequence (record w { store = store })

  unfoldable pub execute_tx_job :
      TransactionRequest → (attempt : ℕ) → Answers → World redis → Outcome × World redis
  unfolding submit
  execute_tx_job request attempt answers w = with_key request attempt answers answers.get_key w

  abbrev pub retryable_error : Text → Bool
  retryable_error message = (classify_submission_failure (error_object message) none).retryable

  abbrev pub after_attempt :
      (made : ℕ)
      → Outcome × World redis
      → (World redis → Outcome × World redis)
      → Outcome × World redis
  after_attempt made (thrown message, w) again =
      if retryable_error message && ltb made 5 then again w else (thrown message, w)
  after_attempt made (outcome, w) again = (outcome, w)

  -- The loop of `runTestJob`, on the attempts that are left and those made. The nth attempt has
  -- the nth answers.
  unfoldable pub attempt_loop :
      TransactionRequest → (ℕ → Answers) → (left made : ℕ) → World redis → Outcome × World redis
  unfolding execute_tx_job
  attempt_loop request answers zero made w = (thrown (text "Job failed after max attempts"), w)
  attempt_loop request answers (suc left) made w =
      after_attempt (made + 1) (execute_tx_job request (made + 1) (answers (made + 1)) w)
        (λ w'. attempt_loop request answers left (made + 1) w')

  unfoldable pub run_test_job :
      TransactionRequest → (ℕ → Answers) → World redis → Outcome × World redis
  run_test_job request answers w = attempt_loop request answers 5 0 w
