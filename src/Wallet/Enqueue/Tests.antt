-- ===== src/Wallet/Enqueue/Tests.antt =====
-- Tests of the admission of transactions, and the theorem at concrete requests.
use delego.Base.{ℕ, ◌≡◌, refl, true, Option, none, some, []}
use delego.Base.Int.{pos, ◌+ℤ◌}
use delego.Base.Text.{text, includes}
use delego.Wallet.Redis.{cell_server}
use delego.Wallet.Limits.{SpendLimit, Counters, Query, by_wallet, check_spend_limit}
use delego.Wallet.Job.{TransactionRequest, numeral, Answers, ok, threw, sent, succeeded, World}
use delego.Wallet.Enqueue.{
  Tables, owner_of, admit, refused, admitted, owned, add_transaction_to_queue,
}
use delego.Wallet.Enqueue.Guards.{Handled, add_transaction_to_queue-Handled}

abbrev payment : TransactionRequest
payment = record {
  source_address = "GA";
  user_id = none;
  wallet_id = some "w";
  delegation_id = none;
  amount_stroops = some (numeral (pos 500));
}

abbrev daily_limit : SpendLimit
daily_limit = record {
  user_id = "u";
  wallet_id = some "w";
  delegation_id = none;
  limit_per_transaction = none;
  limit_daily = some (pos 600);
  limit_weekly = none;
  limit_lifetime = none;
}

abbrev find_one : Query → Option SpendLimit
find_one (by_wallet _) = some daily_limit
find_one _ = none

abbrev spent : ℕ → Counters
spent n = record { daily_spend = pos n; weekly_spend = pos n; lifetime_spend = pos n }

abbrev tables : ℕ → Tables
tables n = record { find_wallet = ok (some ("u", "w")); limits = ok (find_one, spent n) }

abbrev down : Tables
down = record { find_wallet = ok (some ("u", "w")); limits = threw (text "connection lost") }

below : admit payment (tables 100) ≡ admitted (owned payment "u" "w" (pos 500))
unfolding admit owner_of check_spend_limit ◌+ℤ◌
below = refl

above : admit payment (tables 101) ≡ refused (text "Spending limit exceeded: Daily limit exceeded")
unfolding admit owner_of check_spend_limit ◌+ℤ◌
above = refl

-- When the limits cannot be read, the transaction goes on as it came.
unread : admit payment down ≡ admitted payment
unfolding admit owner_of includes
unread = refl

abbrev answers : ℕ → Answers
answers attempt = record {
  now = 0;
  get_key = ok tt;
  ledger = some 41;
  ledger_error = [];
  build = ok tt;
  simulate = ok none;
  sign = ok tt;
  send = ok (sent (text "PENDING") (text "ab"));
  poll = λ retries. ok (succeeded 77);
  reset = ok tt;
  record_spend_works = true;
  verify = true;
}

abbrev at_start : World cell_server
at_start = record { store = []; spends = [] }

add_transaction_to_queue-Handled_example :
    Handled payment
      (tables 100)
      cell_server
      at_start
      (add_transaction_to_queue cell_server payment (tables 100) answers at_start)
add_transaction_to_queue-Handled_example =
    add_transaction_to_queue-Handled payment (tables 100) cell_server answers at_start
