-- ===== src/Payments/Dedup.antt =====
-- apps/backend/payments/events/dedup-store.ts: escrow contract events are handled once. The store is
-- passed along with the ids of the events that handlers have worked through, the latest first;
-- whether the handler's promise resolves is an argument.
pub mod Once
mod Tests
use Prim.Native.String
use delego.Base.{
  ℕ, zero, suc, ◌/◌, ◌%◌, String, Bool, true, false, Option, none, some, List, [], ◌∷◌,
  if◌then◌else◌, ltb, ◌==◌,
}
use delego.Base.Maps.{Map, lookup, insert}

pub record ProcessedContractEventRecord : Type 0 where
  pub event_id : String
  pub contract_id : String
  pub processed_at : ℕ

pub record EscrowContractEvent : Type 0 where
  pub tx_hash : String
  pub event_index : ℕ
  pub contract_id : String

abbrev digit : ℕ → String
digit n =
    if n == 0
    then "0"
    else if n == 1
    then "1"
    else if n == 2
    then "2"
    else if n == 3
    then "3"
    else if n == 4
    then "4"
    else if n == 5
    then "5"
    else if n == 6
    then "6"
    else if n == 7
    then "7"
    else if n == 8
    then "8"
    else "9"

-- A number in a template: one digit for each unit of fuel at most, and a number has no more digits
-- than itself and one.
abbrev decimal : (fuel n : ℕ) → String
decimal zero n = digit n
decimal (suc fuel) n =
    let front = decimal fuel (n / 10) in
    if ltb n 10 then digit n else String.◌++◌ front (digit (n % 10))

-- `${txHash}:${eventIndex}`
unfoldable pub derive_contract_event_id : String → ℕ → String
derive_contract_event_id tx_hash event_index =
    String.◌++◌ tx_hash (String.◌++◌ ":" (decimal event_index event_index))

pub record World : Type 0 where
  pub processed : Map ProcessedContractEventRecord
  pub handled : List String

abbrev is_some {ℓ} : {A : Type ℓ} → Option A → Bool
is_some none = false
is_some (some _) = true

-- `has` of the store.
unfoldable pub has : String → World → Bool
unfolding lookup
has event_id w = is_some (lookup event_id w.processed)

-- `markProcessed` of the store.
unfoldable pub mark_processed : (event_id contract_id : String) → ℕ → World → World
mark_processed event_id contract_id now w = record w {
  processed =
      insert event_id
        (record { event_id = event_id; contract_id = contract_id; processed_at = now }) w.processed;
}

pub data Delivered : Type 0 where
  processed duplicate handler_failed : Delivered

abbrev pub event_id_of : EscrowContractEvent → String
event_id_of event = derive_contract_event_id event.tx_hash event.event_index

-- After `has` was false: the handler and then the mark.
unfoldable pub handle_and_mark :
    EscrowContractEvent → (handler_works : Bool) → ℕ → World → Delivered × World
unfolding mark_processed derive_contract_event_id
handle_and_mark event handler_works now w =
    if handler_works
    then (
      processed,
      mark_processed (event_id_of event) event.contract_id now
          (record w { handled = event_id_of event ∷ w.handled }),
    )
    else (handler_failed, w)

unfoldable pub process_escrow_contract_event :
    EscrowContractEvent → (handler_works : Bool) → ℕ → World → Delivered × World
unfolding handle_and_mark has
process_escrow_contract_event event handler_works now w =
    if has (event_id_of event) w then (duplicate, w) else handle_and_mark event handler_works now w
