-- ===== src/Wallet/Limits/Tests.antt =====
-- A daily limit of 100, and the theorems at it.
use delego.Base.{ℕ, ◌≡◌, refl, true, false, Option, none, some, List, [], ◌∷◌, arith}
use delego.Base.Int.{pos, negsuc, ◌+ℤ◌}
use delego.Wallet.Limits.{
  SpendLimit, Query, exact, by_user, by_delegation, by_wallet, daily, denied, Counters,
  check_config, find_config, check_spend_limit, record_spend,
}
use delego.Wallet.Limits.Laws.{Says, check_spend_limit-Says}
use delego.Wallet.Limits.Runs.{Spend, Sound, spend_all, spend_all-Sound}

abbrev config : SpendLimit
config = record {
  user_id = "u";
  wallet_id = none;
  delegation_id = none;
  limit_per_transaction = none;
  limit_daily = some (pos 100);
  limit_weekly = none;
  limit_lifetime = none;
}

abbrev table : Query → Option SpendLimit
table (by_user user) = some config
table (exact _ _ _) = none
table (by_delegation _) = none
table (by_wallet _) = none

abbrev spent : ℕ → Counters
spent n = record { daily_spend = pos n; weekly_spend = pos n; lifetime_spend = pos n }

check_test :
    check_spend_limit table (spent 60) "u" "w" none (pos 50)
    ≡ denied daily (pos 100) (some (pos 60)) (pos 50)
unfolding check_spend_limit ◌+ℤ◌
check_test = refl

check_spend_limit-Says_example :
    Says
      (find_config table "u" "w" none)
      (spent 60)
      (pos 50)
      (check_spend_limit table (spent 60) "u" "w" none (pos 50))
check_spend_limit-Says_example = check_spend_limit-Says table (spent 60) "u" "w" none (pos 50)

abbrev spends : List Spend
spends =
    record { amount = pos 50; confirmed = true }
    ∷ record { amount = negsuc 4; confirmed = true }
    ∷ record { amount = pos 40; confirmed = false }
    ∷ record { amount = pos 51; confirmed = true }
    ∷ record { amount = pos 50; confirmed = true }
    ∷ []

spends_test : (spend_all (some config) spends (spent 0)).daily_spend ≡ pos 100
unfolding spend_all check_config record_spend ◌+ℤ◌
spends_test = refl

spent-Sound : Sound config (spent 0)
spent-Sound = omega arith

spend_all-Sound_example : Sound config (spend_all (some config) spends (spent 0))
spend_all-Sound_example = spend_all-Sound config spends (spent 0) spent-Sound
