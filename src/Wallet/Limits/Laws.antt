-- ===== src/Wallet/Limits/Laws.antt =====
-- The decision of `checkSpendLimit` (apps/backend/wallet/src/spendLimits.ts).
use delego.Base.{
  ◌+◌, ◌<◌, ◌≡◌, refl, inl, inr, Option, none, some, String, arith, ltb→lt, Bool-cases,
}
use delego.Base.Int.{ℤ, ◌+ℤ◌, ltb_ℤ, ◌≤ℤ◌, pos_part, neg_part}
use delego.Wallet.Limits.{
  SpendLimit, Query, Reason, per_transaction, daily, weekly, lifetime, SpendCheckResult, allowed,
  denied, Counters, limit_total, limit_amount, check_config, find_config, check_spend_limit,
}

infix 50 ◌<ℤ◌
abbrev pub ◌<ℤ◌ : ℤ → ℤ → Type 0
a <ℤ b = pos_part a + neg_part b < pos_part b + neg_part a

-- A limit, where there is one, is kept by a number.
abbrev pub Keeps : Option ℤ → ℤ → Type 0
Keeps none n = Unit
Keeps (some limit) n = n ≤ℤ limit

pub record Within (config : SpendLimit) (c : Counters) (amount : ℤ) : Type 0 where
  pub per_transaction : Keeps config.limit_per_transaction amount
  pub daily : Keeps config.limit_daily (c.daily_spend +ℤ amount)
  pub weekly : Keeps config.limit_weekly (c.weekly_spend +ℤ amount)
  pub lifetime : Keeps config.limit_lifetime (c.lifetime_spend +ℤ amount)

-- What an answer says of the configuration that was found, the counters and the amount.
abbrev pub Says : Option SpendLimit → Counters → ℤ → SpendCheckResult → Type 0
Says none c amount result = result ≡ allowed
Says (some config) c amount allowed = Within config c amount
Says (some config) c amount (denied per_transaction limit current requested) =
    (config.limit_per_transaction ≡ some limit)
    × (current ≡ none)
    × (requested ≡ amount)
    × (limit <ℤ amount)
Says (some config) c amount (denied daily limit current requested) =
    (config.limit_daily ≡ some limit)
    × (current ≡ some c.daily_spend)
    × (requested ≡ amount)
    × (limit <ℤ c.daily_spend +ℤ amount)
Says (some config) c amount (denied weekly limit current requested) =
    (config.limit_weekly ≡ some limit)
    × (current ≡ some c.weekly_spend)
    × (requested ≡ amount)
    × (limit <ℤ c.weekly_spend +ℤ amount)
Says (some config) c amount (denied lifetime limit current requested) =
    (config.limit_lifetime ≡ some limit)
    × (current ≡ some c.lifetime_spend)
    × (requested ≡ amount)
    × (limit <ℤ c.lifetime_spend +ℤ amount)

-- The two ways through a check of a total: refused above the limit, or on to what comes next.
limit_total_rule :
    (P : SpendCheckResult → Type 0) (reason : Reason) (limit : Option ℤ) (current amount : ℤ)
    (next : SpendCheckResult)
    → ((l : ℤ)
        → limit ≡ some l
        → l <ℤ current +ℤ amount
        → P (denied reason l (some current) amount))
    → (Keeps limit (current +ℤ amount) → P next)
    → P (limit_total reason limit current amount next)
limit_total_rule P reason none current amount next refuse pass = pass tt
limit_total_rule P reason (some l) current amount next refuse pass =
    elim (Bool-cases (ltb_ℤ l (current +ℤ amount))) [
      | inl over ↦ rw over (refuse l refl (ltb→lt _ _ over))
      | inr kept ↦ rw kept (pass (ground arith))
    ]

limit_amount_rule :
    (P : SpendCheckResult → Type 0) (limit : Option ℤ) (amount : ℤ) (next : SpendCheckResult)
    → ((l : ℤ) → limit ≡ some l → l <ℤ amount → P (denied per_transaction l none amount))
    → (Keeps limit amount → P next)
    → P (limit_amount limit amount next)
limit_amount_rule P none amount next refuse pass = pass tt
limit_amount_rule P (some l) amount next refuse pass = elim (Bool-cases (ltb_ℤ l amount)) [
  | inl over ↦ rw over (refuse l refl (ltb→lt _ _ over))
  | inr kept ↦ rw kept (pass (ground arith))
]

pub check_config-Says :
    (config : Option SpendLimit) (c : Counters) (amount : ℤ)
    → Says config c amount (check_config config c amount)
unfolding check_config
check_config-Says none c amount = refl
check_config-Says (some config) c amount =
    let P = Says (some config) c amount in
    limit_amount_rule P config.limit_per_transaction amount _ (λ l e over. (e, refl, refl, over))
      (λ k0.
        limit_total_rule P daily config.limit_daily c.daily_spend amount _
          (λ l e over. (e, refl, refl, over))
          (λ k1.
            limit_total_rule P weekly config.limit_weekly c.weekly_spend amount _
              (λ l e over. (e, refl, refl, over))
              (λ k2.
                limit_total_rule P lifetime config.limit_lifetime c.lifetime_spend amount _
                  (λ l e over. (e, refl, refl, over))
                  (λ k3. record { per_transaction = k0; daily = k1; weekly = k2; lifetime = k3 }))))

-- What `checkSpendLimit` answers: a spend is allowed when no configuration is found; with one, it
-- is allowed only within the limit for a transaction and when all three new totals are within
-- their limits; and a refusal names a limit of that configuration with the amount and the counter
-- that pass it.
pub check_spend_limit-Says :
    (find_one : Query → Option SpendLimit) (c : Counters) (user wallet : String)
    (delegation : Option String) (amount : ℤ)
    → Says
        (find_config find_one user wallet delegation)
        c
        amount
        (check_spend_limit find_one c user wallet delegation amount)
unfolding check_spend_limit
check_spend_limit-Says find_one c user wallet delegation amount =
    check_config-Says (find_config find_one user wallet delegation) c amount
