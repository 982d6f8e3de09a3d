-- ===== src/Wallet/Sequence.antt =====
-- getNextSequenceNumber of apps/backend/wallet/src/queue/txQueue.ts. The account's sequence number
-- on the ledger is an argument, `none` when loading the account throws.
pub mod Increasing
mod Tests
use Prim.Native.String
use delego.Base.{
  ℕ, ◌+◌, ◌-◌, String, Option, none, some, List, [], ◌∷◌, ltb, leb, if◌then◌else◌, str_eq,
}
use delego.Wallet.Redis.{Redis}

-- `seq:${sourceAddress}`
abbrev pub cache_key : String → String
cache_key source = String.◌++◌ "seq:" source

-- One more than the larger of the ledger's and the cached sequence number.
abbrev pub next_sequence : ℕ → Option ℕ → ℕ
next_sequence ledger none = ledger + 1
next_sequence ledger (some cached) = if leb ledger cached then cached + 1 else ledger + 1

module _ (redis : Redis) where
  open redis use {State, get, set, del}

  abbrev pub reset_before_retry : String → ℕ → State → State
  reset_before_retry source attempt s = if ltb 1 attempt then del (cache_key source) s else s

  abbrev pub store_next : String → ℕ → ℕ → State → Option ℕ × State
  store_next source now next s = (some (next - 1), set now (cache_key source) next 60 s)

  -- The result is the sequence to build the transaction with, one less than the one it gets.
  unfoldable pub get_next_sequence_number :
      String → (now attempt : ℕ) → Option ℕ → State → Option ℕ × State
  get_next_sequence_number source now attempt none s = (none, reset_before_retry source attempt s)
  get_next_sequence_number source now attempt (some ledger) s =
      let s' = reset_before_retry source attempt s in
      store_next source now (next_sequence ledger (get now (cache_key source) s')) s'

-- TransactionBuilder gives the transaction the sequence after the one it is built with.
abbrev pub used_by : String → String → Option ℕ → List ℕ → List ℕ
used_by a source none rest = rest
used_by a source (some n) rest = if str_eq source a then (n + 1) ∷ rest else rest

pub record SequenceCall : Type 0 where
  pub source : String
  pub now : ℕ
  pub attempt : ℕ
  pub ledger : Option ℕ

module _ (redis : Redis) where
  open redis use {State}

  -- The sequence numbers of the transactions of one account, over calls for any accounts.
  unfoldable pub sequences : String → List SequenceCall → State → List ℕ
  unfolding get_next_sequence_number
  sequences a [] s = []
  sequences a (c ∷ cs) s =
      let (n, s') = get_next_sequence_number redis c.source c.now c.attempt c.ledger s in
      used_by a c.source n (sequences a cs s')
