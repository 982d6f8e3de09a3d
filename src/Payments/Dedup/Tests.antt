-- ===== src/Payments/Dedup/Tests.antt =====
-- Tests of the contract events, and the theorems at concrete deliveries.
use delego.Base.{ℕ, ◌≡◌, refl, true, false, Bool, List, [], ◌∷◌}
use delego.Base.Maps.{lookup, insert}
use delego.Payments.Dedup.{
  derive_contract_event_id, EscrowContractEvent, has, mark_processed, event_id_of, handle_and_mark,
  process_escrow_contract_event,
}
use delego.Payments.Dedup.Once.{
  Delivery, process_all, times, bit, any_working, nothing_processed, process_all-once,
}

id_test : derive_contract_event_id "ab" 120 ≡ "ab:120"
unfolding derive_contract_event_id
id_test = refl

abbrev event : EscrowContractEvent
event = record { tx_hash = "ab"; event_index = 0; contract_id = "c" }

abbrev delivery : Bool → ℕ → Delivery
delivery works now = record { event = event; handler_works = works; now = now }

abbrev deliveries : List Delivery
deliveries = delivery false 1 ∷ delivery true 2 ∷ delivery true 3 ∷ []

once : times "ab:0" (process_all deliveries nothing_processed).handled ≡ 1
unfolding process_all process_escrow_contract_event handle_and_mark has mark_processed lookup insert
    derive_contract_event_id
once = refl

process_all-once_example :
    times "ab:0" (process_all deliveries nothing_processed).handled
    ≡ bit (any_working "ab:0" deliveries)
process_all-once_example = process_all-once "ab:0" deliveries

unmarked : has (event_id_of event) nothing_processed ≡ false
unfolding has lookup
unmarked = refl
