-- ===== src/Wallet/Job/Tests.antt =====
-- Tests of the transaction worker, and the theorems at concrete requests and answers.
use delego.Base.{ℕ, ◌≡◌, refl, true, Option, none, some, List, [], ◌∷◌, arith, ◌==◌, if◌then◌else◌}
use delego.Base.Int.{pos}
use delego.Base.Text.{text, includes, to_lower}
use delego.Wallet.Redis.{cell_server, read, write, expire}
use delego.Wallet.Sequence.{get_next_sequence_number}
use delego.Wallet.Failure.{classify_submission_failure}
use delego.Wallet.Job.{
  TransactionRequest, numeral, Answers, Spend, Tried, ok, threw, sent, Polled, succeeded,
  other_status, done, World, run_test_job, execute_tx_job, attempt_loop, poll_loop, settle,
  due_spend, record_confirmed,
}
use delego.Wallet.Job.Attempt.{Account, is_done}
use delego.Wallet.Job.Spends.{run_test_job-Account}
use delego.Wallet.Job.Ends.{confirmed-recorded, late-not_recorded}

abbrev payment : TransactionRequest
payment = record {
  source_address = "GA";
  user_id = some "u";
  wallet_id = some "w";
  delegation_id = none;
  amount_stroops = some (numeral (pos 500));
}

abbrev spend : Spend
spend = record { user = "u"; wallet = "w"; amount = pos 500 }

abbrev at_start : World cell_server
at_start = record { store = []; spends = [] }

abbrev confirmed_at_10 : ℕ → Tried Polled
confirmed_at_10 retries = if retries == 10 then ok (succeeded 77) else ok other_status

abbrev never_answered : ℕ → Tried Polled
never_answered retries = ok other_status

abbrev answers_with : Tried (Option (List ℕ)) → (ℕ → Tried Polled) → Answers
answers_with simulate poll = record {
  now = 0;
  get_key = ok tt;
  ledger = some 41;
  ledger_error = [];
  build = ok tt;
  simulate = simulate;
  sign = ok tt;
  send = ok (sent (text "PENDING") (text "ab"));
  poll = poll;
  reset = ok tt;
  record_spend_works = true;
  verify = true;
}

abbrev good : Answers
good = answers_with (ok none) confirmed_at_10

abbrev late : Answers
late = answers_with (ok none) never_answered

-- The first attempt fails on the network, and the second is confirmed.
abbrev second_time : ℕ → Answers
second_time attempt =
    if attempt == 1 then answers_with (threw (text "fetch failed")) confirmed_at_10 else good

abbrev refused : ℕ → Answers
refused attempt = answers_with (ok (some (text "budget exceeded"))) never_answered

retried :
    (run_test_job cell_server payment second_time at_start).0
    ≡ done (record { hash = text "ab"; ledger = 77 })
unfolding run_test_job attempt_loop poll_loop settle classify_submission_failure
    get_next_sequence_number includes to_lower read write expire
retried = refl

retried_spends : (run_test_job cell_server payment second_time at_start).1.spends ≡ spend ∷ []
unfolding run_test_job attempt_loop poll_loop settle classify_submission_failure
    get_next_sequence_number includes to_lower read write expire record_confirmed due_spend
retried_spends = refl

run_test_job-Account_example :
    Account payment []
      (run_test_job cell_server payment second_time at_start).1.spends
      (is_done (run_test_job cell_server payment second_time at_start).0)
run_test_job-Account_example = run_test_job-Account cell_server payment second_time at_start

confirmed-recorded_example :
    ((execute_tx_job cell_server payment 1 good at_start).0
      ≡ done (record { hash = text "ab"; ledger = 77 }))
    × ((execute_tx_job cell_server payment 1 good at_start).1.spends ≡ spend ∷ [])
unfolding due_spend
confirmed-recorded_example =
    confirmed-recorded cell_server payment good 1 (text "PENDING") (text "ab") 9 77 at_start
      (record {
        has_key = refl;
        has_ledger = (41, refl);
        is_built = refl;
        is_simulated = refl;
        is_signed = refl;
        is_sent = refl;
      })
      (λ r above le. ground arith) (omega arith) refl

late-not_recorded_example :
    ((execute_tx_job cell_server payment 1 late at_start).0
      ≡ done (record { hash = text "ab"; ledger = 0 }))
    × ((execute_tx_job cell_server payment 1 late at_start).1.spends ≡ [])
late-not_recorded_example =
    late-not_recorded cell_server payment late 1 (text "PENDING") (text "ab") at_start
      (record {
        has_key = refl;
        has_ledger = (41, refl);
        is_built = refl;
        is_simulated = refl;
        is_signed = refl;
        is_sent = refl;
      })
      (λ r above le. refl) refl
