-- ===== src/Payments/Fees/Tests.antt =====
-- Fee statistics, and the estimator's theorems at them.
use delego.Base.{◌≡◌, refl, true, none, some, List, [], ◌∷◌, All}
use delego.Base.Int.{pos}
use delego.Base.Value.{Value, num, obj, no_members, member, str, get}
use delego.Payments.Fees.{p50, p95, FeeCall, estimate, cached, clear, run_calls, is_valid_fee_stats}
use delego.Payments.Fees.Floor.{IsSafeFee, run_calls-IsSafeFee}

abbrev fees : Value
fees = obj (
    member "p50" (num (pos 20))
      (member "p95" (num (pos 250)) (member "p99" (num (pos 900)) no_members)))

abbrev stats : Value
stats = obj (
    member "last_ledger" (num (pos 7)) (
      member "last_ledger_base_fee" (num (pos 100))
        (member "ledger_capacity_usage" (num (pos 1)) (member "max_fee" fees no_members))))

stats_valid : is_valid_fee_stats stats ≡ true
unfolding is_valid_fee_stats get
stats_valid = refl

abbrev calls : List FeeCall
calls =
    estimate p95 0 5 (some stats)
    ∷ estimate p50 10 11 none
    ∷ cached 20
    ∷ clear
    ∷ estimate p50 30 31 (some (str "oops"))
    ∷ estimate p50 40 41 (some stats)
    ∷ []

run_calls-IsSafeFee_example : All IsSafeFee (run_calls calls none)
run_calls-IsSafeFee_example = run_calls-IsSafeFee calls
