-- ===== src/Wallet/Job/Spends.antt =====
-- What a job records as spent over its attempts (apps/backend/wallet/src/queue/txQueue.ts).
use delego.Base.{
  ℕ, zero, suc, ◌+◌, ◌≡◌, refl, sym, Bool, false, ◌&&◌, Option, none, some, List, Bool-cases, inl,
  inr, ltb,
}
use delego.Base.Text.{Text}
use delego.Wallet.Redis.{Redis}
use delego.Wallet.Sequence.{get_next_sequence_number}
use delego.Wallet.Failure.{error_object, classify_submission_failure}
use delego.Wallet.Job.{
  TransactionRequest, Answers, Spend, TransactionResult, Tried, ok, threw, Outcome, done, thrown,
  unrecoverable, World, Ended, submit, settle, settled, with_sequence, with_key, after_attempt,
  execute_tx_job, attempt_loop, run_test_job, retryable_error,
}
use delego.Wallet.Job.Attempt.{Account, same, paid, is_done, is_ok, EndAccount, submit-EndAccount}

module _ (redis : Redis) (request : TransactionRequest) where
  abbrev RunAccount : List Spend → Outcome × World redis → Type 0
  RunAccount before run = Account request before run.1.spends (is_done run.0)

  -- What is classified from an error is never `done`.
  settle-is_done :
      (tx_hash : Option Text) (ended : Tried TransactionResult)
      → is_done (settle tx_hash ended) ≡ is_ok ended
  unfolding settle
  settle-is_done tx_hash (ok result) = refl
  settle-is_done tx_hash (threw message) =
      elim (Bool-cases (classify_submission_failure (error_object message) tx_hash).retryable) [
        | inl h ↦ rw h refl
        | inr h ↦ rw h refl
      ]

  settled-RunAccount :
      (before : List Spend) (e : Ended redis)
      → EndAccount redis request before e
      → RunAccount before (settled redis e)
  unfolding EndAccount
  settled-RunAccount before (tx_hash, ended, w) h = rw (settle-is_done tx_hash ended) h

  with_sequence-RunAccount :
      (answers : Answers) (sequence : Option ℕ) (w : World redis)
      → RunAccount w.spends (with_sequence redis request answers sequence w)
  with_sequence-RunAccount answers none w = same refl
  with_sequence-RunAccount answers (some sequence) w =
      settled-RunAccount w.spends (submit redis request answers w)
        (submit-EndAccount redis request answers w)

  with_key-RunAccount :
      (attempt : ℕ) (answers : Answers) (key : Tried Unit) (w : World redis)
      → RunAccount w.spends (with_key redis request attempt answers key w)
  with_key-RunAccount attempt answers (threw error) w = same refl
  with_key-RunAccount attempt answers (ok _) w =
      with_sequence-RunAccount answers
        (get_next_sequence_number redis request.source_address answers.now attempt answers.ledger
          w.store).0
        (record w {
          store =
              (get_next_sequence_number redis request.source_address answers.now attempt
                answers.ledger w.store).1;
        })

  execute_tx_job-RunAccount :
      (attempt : ℕ) (answers : Answers) (w : World redis)
      → RunAccount w.spends (execute_tx_job redis request attempt answers w)
  unfolding execute_tx_job
  execute_tx_job-RunAccount attempt answers w =
      with_key-RunAccount attempt answers answers.get_key w

  -- An attempt that threw has recorded nothing.
  thrown-same :
      (before after : List Spend) (finished : Bool)
      → Account request before after finished
      → finished ≡ false
      → after ≡ before
  thrown-same before after finished (same e) h = e
  thrown-same before after finished (paid spend due e) h = absurd (cc)

  after_attempt-RunAccount :
      (before : List Spend) (made : ℕ) (run : Outcome × World redis)
      (again : World redis → Outcome × World redis)
      → RunAccount before run
      → ((w : World redis) → RunAccount w.spends (again w))
      → RunAccount before (after_attempt redis made run again)
  after_attempt-RunAccount before made (done result, w) again h k = h
  after_attempt-RunAccount before made (unrecoverable code message, w) again h k = h
  after_attempt-RunAccount before made (thrown message, w) again h k =
      elim (Bool-cases (retryable_error redis message && ltb made 5)) [
        | inl more ↦ rw (more, sym (thrown-same before w.spends false h refl)) (k w)
        | inr stop ↦ rw stop h
      ]

  attempt_loop-RunAccount :
      (answers : ℕ → Answers) (left made : ℕ) (w : World redis)
      → RunAccount w.spends (attempt_loop redis request answers left made w)
  unfolding attempt_loop
  attempt_loop-RunAccount answers zero made w = same refl
  attempt_loop-RunAccount answers (suc left) made w =
      after_attempt-RunAccount w.spends (made + 1)
        (execute_tx_job redis request (made + 1) (answers (made + 1)) w)
        (λ w'. attempt_loop redis request answers left (made + 1) w')
        (execute_tx_job-RunAccount (made + 1) (answers (made + 1)) w)
        (λ w'. attempt_loop-RunAccount answers left (made + 1) w')

  -- Whatever the network, the vault and the ledger answer to its attempts, and however often it is
  -- tried again, a job records nothing as spent, or it ends with a result and has recorded the
  -- spend of its request, once.
  pub run_test_job-Account :
      (answers : ℕ → Answers) (w : World redis)
      → Account request w.spends
          (run_test_job redis request answers w).1.spends
          (is_done (run_test_job redis request answers w).0)
  unfolding run_test_job
  run_test_job-Account answers w = attempt_loop-RunAccount answers 5 0 w
