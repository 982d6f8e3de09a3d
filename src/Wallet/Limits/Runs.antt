-- ===== src/Wallet/Limits/Runs.antt =====
-- Checked spends in a row, and two that are checked at once
-- (apps/backend/wallet/src/spendLimits.ts).
use delego.Base.{
  ◌≡◌, Bool, true, false, Option, none, some, arith, List, [], ◌∷◌, Bool-cases, subst, inl, inr,
  if◌then◌else◌, ◌&&◌,
}
use delego.Base.Int.{ℤ, pos, ◌+ℤ◌, ltb_ℤ, ◌≤ℤ◌}
use delego.Wallet.Limits.{
  SpendLimit, SpendCheckResult, allowed, denied, daily, Counters, check_config, record_spend,
}
use delego.Wallet.Limits.Laws.{Keeps, Within, Says, check_config-Says, ◌<ℤ◌}

-- A spend: its amount, and whether its transaction is confirmed.
pub record Spend : Type 0 where
  pub amount : ℤ
  pub confirmed : Bool

abbrev is_allowed : SpendCheckResult → Bool
is_allowed allowed = true
is_allowed _ = false

-- A spend whose check, transaction and recording come one after the other: the check of
-- `addTransactionToQueue`, and what `executeTxJob` records of a positive amount that is confirmed.
abbrev pub spend_one : Option SpendLimit → Spend → Counters → Counters
spend_one config s c =
    if is_allowed (check_config config c s.amount) && s.confirmed && ltb_ℤ (pos 0) s.amount
    then record_spend s.amount c
    else c

unfoldable pub spend_all : Option SpendLimit → List Spend → Counters → Counters
spend_all config [] c = c
spend_all config (s ∷ ss) c = spend_all config ss (spend_one config s c)

-- The counters are within the limits.
pub record Sound (config : SpendLimit) (c : Counters) : Type 0 where
  pub daily : Keeps config.limit_daily c.daily_spend
  pub weekly : Keeps config.limit_weekly c.weekly_spend
  pub lifetime : Keeps config.limit_lifetime c.lifetime_spend

Says-allowed :
    (config : SpendLimit) (c : Counters) (amount : ℤ) (result : SpendCheckResult)
    → Says (some config) c amount result
    → is_allowed result ≡ true
    → Within config c amount
Says-allowed config c amount allowed says h = says
Says-allowed config c amount (denied reason limit current requested) says h = absurd (cc)

spend_one-Sound :
    (config : SpendLimit) (s : Spend) (c : Counters)
    → Sound config c
    → Sound config (spend_one (some config) s c)
unfolding record_spend
spend_one-Sound config s c h =
    let result = check_config (some config) c s.amount in
    elim (Bool-cases (is_allowed result && s.confirmed && ltb_ℤ (pos 0) s.amount)) [
      | inl go ↦
          let w =
            Says-allowed config c s.amount result (check_config-Says (some config) c s.amount)
              (ground arith) in
          rw go (record { daily = w.daily; weekly = w.weekly; lifetime = w.lifetime })
      | inr stay ↦ rw stay h
    ]

-- Let the counters be within the daily, weekly and lifetime limit of a configuration, and let each
-- spend be checked and, when its transaction is confirmed, recorded before the next is checked, under
-- the same configuration and within one day and week. Then the counters are within these limits
-- afterwards: whatever the amounts, negative ones included, and whichever transactions are confirmed.
pub spend_all-Sound :
    (config : SpendLimit) (ss : List Spend) (c : Counters)
    → Sound config c
    → Sound config (spend_all (some config) ss c)
unfolding spend_all
spend_all-Sound config [] c h = h
spend_all-Sound config (s ∷ ss) c h =
    spend_all-Sound config ss (spend_one (some config) s c) (spend_one-Sound config s c h)

-- With a daily limit alone, two spends that fit one by one and pass the limit together are both
-- allowed when both are checked before either is recorded, and the counters then pass the limit;
-- had the first been recorded before the second was checked, the second would have been refused.
pub spend_race :
    (config : SpendLimit) (c : Counters) (limit a b : ℤ)
    → config.limit_per_transaction ≡ none
    → config.limit_daily ≡ some limit
    → config.limit_weekly ≡ none
    → config.limit_lifetime ≡ none
    → c.daily_spend +ℤ a ≤ℤ limit
    → c.daily_spend +ℤ b ≤ℤ limit
    → limit <ℤ c.daily_spend +ℤ a +ℤ b
    → (check_config (some config) c a ≡ allowed)
      × (check_config (some config) c b ≡ allowed)
      × (¬ Sound config (record_spend b (record_spend a c)))
      × (check_config (some config) (record_spend a c) b
          ≡ denied daily limit (some (c.daily_spend +ℤ a)) b)
unfolding record_spend check_config
spend_race config c limit a b e0 e1 e2 e3 fa fb over = (
  ground arith,
  ground arith,
  λ sound.
      let passed : Keeps (some limit) (c.daily_spend +ℤ a +ℤ b) =
        subst (λ l. Keeps l (c.daily_spend +ℤ a +ℤ b)) e1 sound.daily in
      omega arith,
  ground arith,
)
