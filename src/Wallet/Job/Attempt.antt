-- ===== src/Wallet/Job/Attempt.antt =====
-- What one attempt of a job records as spent (apps/backend/wallet/src/queue/txQueue.ts).
use delego.Base.{
  ℕ, zero, suc, ◌≡◌, refl, Bool, true, false, Option, none, some, String, List, ◌∷◌, if◌then◌else◌,
}
use delego.Base.Text.{Text}
use delego.Wallet.Redis.{Redis}
use delego.Wallet.Failure.{transaction_failed_message}
use delego.Wallet.Job.{
  TransactionRequest, Answers, Spend, TransactionResult, Tried, ok, threw, Sent, send_error, sent,
  Polled, succeeded, failed, other_status, Outcome, done, World, due_spend, record_confirmed, Ended,
  fail_with, poll_loop, submit, bad_sequence, after_reset, after_simulation, after_send, polled,
  record_due, try_then,
}

-- The spends after the code ran: those before, or, when it is `done`, also the request's spend.
pub data Account (request : TransactionRequest) (before after : List Spend) : Bool → Type 0 where
  same : {finished : Bool} → after ≡ before → Account request before after finished
  paid :
      (spend : Spend)
      → due_spend request ≡ some spend
      → after ≡ spend ∷ before
      → Account request before after true

abbrev pub is_ok : Tried TransactionResult → Bool
is_ok (ok _) = true
is_ok (threw _) = false

abbrev pub is_done : Outcome → Bool
is_done (done _) = true
is_done _ = false

module _ (redis : Redis) (request : TransactionRequest) where
  unfoldable pub EndAccount : List Spend → Ended redis → Type 0
  EndAccount before (tx_hash, ended, w) = Account request before w.spends (is_ok ended)

  if-EndAccount :
      (before : List Spend) (test : Bool) (x y : Ended redis)
      → EndAccount before x
      → EndAccount before y
      → EndAccount before (if test then x else y)
  if-EndAccount before true x y h k = h
  if-EndAccount before false x y h k = k

  record_due-Account :
      (due : Option Spend) (works : Bool) (w : World redis)
      → due_spend request ≡ due
      → Account request w.spends (record_due redis due works w).spends true
  record_due-Account (some spend) true w e = paid spend e refl
  record_due-Account (some spend) false w e = same refl
  record_due-Account none works w e = same refl

  confirmed-EndAccount :
      (answers : Answers) (hash : Text) (ledger : ℕ) (w : World redis)
      → EndAccount w.spends (
        some hash,
        ok (record { hash = hash; ledger = ledger }),
        record_confirmed redis request answers w,
      )
  unfolding EndAccount record_confirmed
  confirmed-EndAccount answers hash ledger w =
      record_due-Account (due_spend request) answers.record_spend_works w refl

  after_reset-EndAccount :
      (source : String) (reset : Tried Unit) (tx_hash : Option Text) (message : Text)
      (w : World redis)
      → EndAccount w.spends (after_reset redis source reset tx_hash message w)
  unfolding EndAccount
  after_reset-EndAccount source (threw error) tx_hash message w = same refl
  after_reset-EndAccount source (ok _) tx_hash message w = same refl

  threw-EndAccount :
      (tx_hash : Option Text) (message : Text) (w : World redis)
      → EndAccount w.spends (tx_hash, threw message, w)
  unfolding EndAccount
  threw-EndAccount tx_hash message w = same refl

  ok-EndAccount :
      (tx_hash : Option Text) (result : TransactionResult) (w : World redis)
      → EndAccount w.spends (tx_hash, ok result, w)
  unfolding EndAccount
  ok-EndAccount tx_hash result w = same refl

  fail_with-EndAccount :
      (source : String) (reset : Tried Unit) (tx_hash : Option Text) (detail message : Text)
      (w : World redis)
      → EndAccount w.spends (fail_with redis source reset tx_hash detail message w)
  fail_with-EndAccount source reset tx_hash detail message w =
      if-EndAccount w.spends (bad_sequence detail)
        (after_reset redis source reset tx_hash message w) (tx_hash, threw message, w)
        (after_reset-EndAccount source reset tx_hash message w) (threw-EndAccount tx_hash message w)

  polled-EndAccount :
      (answers : Answers) (hash : Text) (w : World redis) (answer : Tried Polled)
      (rest : Ended redis)
      → EndAccount w.spends rest
      → EndAccount w.spends (polled redis request answers hash w answer rest)
  polled-EndAccount answers hash w (threw error) rest h = threw-EndAccount (some hash) error w
  polled-EndAccount answers hash w (ok (succeeded ledger)) rest h =
      confirmed-EndAccount answers hash ledger w
  polled-EndAccount answers hash w (ok (failed result_xdr)) rest h =
      fail_with-EndAccount request.source_address answers.reset (some hash) result_xdr
        (transaction_failed_message result_xdr) w
  polled-EndAccount answers hash w (ok other_status) rest h = h

  poll_loop-EndAccount :
      (answers : Answers) (status hash : Text) (retries : ℕ) (w : World redis)
      → EndAccount w.spends (poll_loop redis request answers status hash retries w)
  unfolding poll_loop
  poll_loop-EndAccount answers status hash zero w =
      if-EndAccount w.spends answers.verify _ _ (ok-EndAccount (some hash) _ w)
        (threw-EndAccount (some hash) _ w)
  poll_loop-EndAccount answers status hash (suc retries) w =
      polled-EndAccount answers hash w (answers.poll (suc retries)) _
        (poll_loop-EndAccount answers status hash retries w)

  after_send-EndAccount :
      (answers : Answers) (s : Sent) (w : World redis)
      → EndAccount w.spends (after_send redis request answers s w)
  after_send-EndAccount answers (send_error json) w =
      fail_with-EndAccount request.source_address answers.reset none json _ w
  after_send-EndAccount answers (sent status hash) w = poll_loop-EndAccount answers status hash 12 w

  try_then-EndAccount :
      {A : Type 0} (tried : Tried A) (w : World redis) (next : A → Ended redis)
      → ((a : A) → EndAccount w.spends (next a))
      → EndAccount w.spends (try_then redis tried w next)
  try_then-EndAccount (threw message) w next h = threw-EndAccount none message w
  try_then-EndAccount (ok a) w next h = h a

  after_simulation-EndAccount :
      (answers : Answers) (refusal : Option Text) (w : World redis)
      → EndAccount w.spends (after_simulation redis request answers refusal w)
  after_simulation-EndAccount answers (some json) w = threw-EndAccount none _ w
  after_simulation-EndAccount answers none w =
      try_then-EndAccount answers.sign w _
        (λ _. try_then-EndAccount answers.send w _ (λ s. after_send-EndAccount answers s w))

  pub submit-EndAccount :
      (answers : Answers) (w : World redis) → EndAccount w.spends (submit redis request answers w)
  unfolding submit
  submit-EndAccount answers w = try_then-EndAccount answers.build w _ (λ _.
      try_then-EndAccount answers.simulate w _
        (λ refusal. after_simulation-EndAccount answers refusal w))
