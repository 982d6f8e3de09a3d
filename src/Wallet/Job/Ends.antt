-- ===== src/Wallet/Job/Ends.antt =====
-- How an attempt whose transaction was sent ends, and a job whose simulation is refused
-- (apps/backend/wallet/src/queue/txQueue.ts).
use delego.Base.{
  ℕ, zero, suc, ◌≤◌, ◌<◌, ◌≡◌, refl, ◌∙◌, ap, Bool, true, false, Option, none, some, List, ◌∷◌,
  Bool-cases, inl, inr, arith, ltb, ltb→lt,
}
use delego.Base.Text.{Text}
use delego.Wallet.Redis.{Redis}
use delego.Wallet.Sequence.{get_next_sequence_number}
use delego.Wallet.Failure.{
  FailureCode, error_object, classify_submission_failure, simulation_failed_message,
  get_error_message,
}
use delego.Wallet.Failure.Terminal.{simulation_failed-not_retryable}
use delego.Wallet.Job.{
  TransactionRequest, Answers, Spend, ok, threw, sent, succeeded, other_status, done, unrecoverable,
  World, due_spend, poll_loop, submit, settled, settle, execute_tx_job, attempt_loop, run_test_job,
  record_confirmed, record_due,
}

-- Everything before the polling went well.
pub record IsSent (answers : Answers) (status hash : Text) : Type 0 where
  pub has_key : answers.get_key ≡ ok tt
  pub has_ledger : (n : ℕ) × (answers.ledger ≡ some n)
  pub is_built : answers.build ≡ ok tt
  pub is_simulated : answers.simulate ≡ ok none
  pub is_signed : answers.sign ≡ ok tt
  pub is_sent : answers.send ≡ ok (sent status hash)

-- No answer while more than so many retries are left.
abbrev pub IsPending : Answers → ℕ → Type 0
IsPending answers left = (r : ℕ) → left < r → r ≤ 12 → answers.poll r ≡ ok other_status

abbrev recorded : Option Spend → Bool → List Spend → List Spend
recorded (some spend) true spends = spend ∷ spends
recorded _ _ spends = spends

module _ (redis : Redis) (request : TransactionRequest) (answers : Answers) where
  poll_loop-IsPending :
      (status hash : Text) (left retries : ℕ) (w : World redis)
      → IsPending answers left
      → left ≤ retries
      → retries ≤ 12
      → poll_loop redis request answers status hash retries w
        ≡ poll_loop redis request answers status hash left w
  unfolding poll_loop
  poll_loop-IsPending status hash left zero w h from to =
      let none_left : 0 ≡ left = omega arith in
      ap (λ r. poll_loop redis request answers status hash r w) none_left
  poll_loop-IsPending status hash left (suc retries) w h from to =
      elim (Bool-cases (ltb left (suc retries))) [
        | inl lt ↦
            rw (h (suc retries) (ltb→lt _ _ lt) to)
              (poll_loop-IsPending status hash left retries w h (ground arith) (omega arith))
        | inr ge ↦
            let reached : suc retries ≡ left = ground arith in
            ap (λ r. poll_loop redis request answers status hash r w) reached
      ]

  submit-IsSent :
      (status hash : Text) (w : World redis)
      → IsSent answers status hash
      → submit redis request answers w ≡ poll_loop redis request answers status hash 12 w
  unfolding submit
  submit-IsSent status hash w s = rw (s.is_built, s.is_simulated, s.is_signed, s.is_sent) refl

  -- The end of a sent attempt is that of its polling, which starts with the spends before it.
  execute-IsSent :
      (attempt : ℕ) (status hash : Text) (w : World redis)
      → IsSent answers status hash
      → (w' : World redis) × (w'.spends ≡ w.spends)
        × (execute_tx_job redis request attempt answers w
            ≡ settled redis (poll_loop redis request answers status hash 12 w'))
  unfolding execute_tx_job get_next_sequence_number
  execute-IsSent attempt status hash w s =
      let w' : World redis = record w {
        store =
            (get_next_sequence_number redis request.source_address answers.now attempt
              (some s.has_ledger.0) w.store).1;
      } in
      (
        w',
        refl,
        simp (s.has_key, s.has_ledger.1) (ap (settled redis) (submit-IsSent status hash w' s)),
      )

  recorded_lem :
      (due : Option Spend) (works : Bool) (w : World redis)
      → (record_due redis due works w).spends ≡ recorded due works w.spends
  recorded_lem (some spend) true w = refl
  recorded_lem (some spend) false w = refl
  recorded_lem none works w = refl

  -- A transaction that a poll reports as succeeded, after polls without an answer, ends the attempt
  -- with its hash and ledger, and its spend is recorded if it is due and Redis takes it.
  pub confirmed-recorded :
      (attempt : ℕ) (status hash : Text) (left ledger : ℕ) (w : World redis)
      → IsSent answers status hash
      → IsPending answers (suc left)
      → suc left ≤ 12
      → answers.poll (suc left) ≡ ok (succeeded ledger)
      → ((execute_tx_job redis request attempt answers w).0
          ≡ done (record { hash = hash; ledger = ledger }))
        × ((execute_tx_job redis request attempt answers w).1.spends
            ≡ recorded (due_spend request) answers.record_spend_works w.spends)
  unfolding poll_loop settle record_confirmed
  confirmed-recorded attempt status hash left ledger w s pending le poll =
      let (w', same, e) = execute-IsSent attempt status hash w s in
      rw (e, poll_loop-IsPending status hash (suc left) 12 w' pending le (omega arith), poll)
        (
          refl,
          recorded_lem (due_spend request) answers.record_spend_works w'
              ∙ ap (recorded (due_spend request) answers.record_spend_works) same,
        )

  -- A transaction that none of the twelve polls reports and that Horizon then knows ends the attempt
  -- with its hash too, but nothing is recorded, whatever spend is due.
  pub late-not_recorded :
      (attempt : ℕ) (status hash : Text) (w : World redis)
      → IsSent answers status hash
      → IsPending answers 0
      → answers.verify ≡ true
      → ((execute_tx_job redis request attempt answers w).0
          ≡ done (record { hash = hash; ledger = 0 }))
        × ((execute_tx_job redis request attempt answers w).1.spends ≡ w.spends)
  unfolding poll_loop settle
  late-not_recorded attempt status hash w s pending verified =
      let (w', same, e) = execute-IsSent attempt status hash w s in
      rw (e, poll_loop-IsPending status hash 0 12 w' pending (omega arith) (omega arith), verified)
        (refl, same)

-- Everything before the simulation went well, and the answer to it is no success.
pub record IsRefused (answers : Answers) (json : Text) : Type 0 where
  pub has_key : answers.get_key ≡ ok tt
  pub has_ledger : (n : ℕ) × (answers.ledger ≡ some n)
  pub is_built : answers.build ≡ ok tt
  pub is_refused : answers.simulate ≡ ok (some json)

message-classify :
    (message : Text) (tx_hash : Option Text)
    → (classify_submission_failure (error_object message) tx_hash).message ≡ message
unfolding classify_submission_failure get_error_message
message-classify message tx_hash = refl

refused_code : Text → FailureCode
refused_code json =
    (classify_submission_failure (error_object (simulation_failed_message json)) none).code

settle-refused :
    (json : Text)
    → settle none (threw (simulation_failed_message json))
      ≡ unrecoverable (refused_code json) (simulation_failed_message json)
unfolding settle refused_code
settle-refused json = rw (simulation_failed-not_retryable json none) (
    ap (unrecoverable (refused_code json)) (message-classify (simulation_failed_message json) none))

module _ (redis : Redis) (request : TransactionRequest) where
  submit-IsRefused :
      (answers : Answers) (json : Text) (w : World redis)
      → IsRefused answers json
      → submit redis request answers w ≡ (none, threw (simulation_failed_message json), w)
  unfolding submit
  submit-IsRefused answers json w s = rw (s.is_built, s.is_refused) refl

  execute-IsRefused :
      (attempt : ℕ) (answers : Answers) (json : Text) (w : World redis)
      → IsRefused answers json
      → (w' : World redis) × (w'.spends ≡ w.spends)
        × (execute_tx_job redis request attempt answers w
            ≡ (settle none (threw (simulation_failed_message json)), w'))
  unfolding execute_tx_job get_next_sequence_number
  execute-IsRefused attempt answers json w s =
      let w' : World redis = record w {
        store =
            (get_next_sequence_number redis request.source_address answers.now attempt
              (some s.has_ledger.0) w.store).1;
      } in
      (
        w',
        refl,
        simp (s.has_key, s.has_ledger.1) (ap (settled redis) (submit-IsRefused answers json w' s)),
      )

  -- A job whose first simulation is refused ends with that attempt and is not tried again: its
  -- outcome is an unrecoverable error with the text of the answer in it, whatever that text is,
  -- and nothing is recorded.
  pub run_test_job-refused :
      (answers : ℕ → Answers) (json : Text) (w : World redis)
      → IsRefused (answers 1) json
      → (code : FailureCode) × ((run_test_job redis request answers w).0
          ≡ unrecoverable code (simulation_failed_message json))
        × ((run_test_job redis request answers w).1.spends ≡ w.spends)
        × (run_test_job redis request answers w ≡ execute_tx_job redis request 1 (answers 1) w)
  unfolding run_test_job attempt_loop
  run_test_job-refused answers json w s =
      let (w', same, e) = execute-IsRefused 1 (answers 1) json w s in
      (
        refused_code json,
        rw (e, settle-refused json) refl,
        rw (e, settle-refused json) same,
        rw (e, settle-refused json) refl,
      )
