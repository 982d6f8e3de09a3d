-- ===== src/Orchestrator/Checkout/Tests.antt =====
-- Runs of the checkout, and concrete instances of its theorems.
use delego.Base.{ℕ, true, none, some, List, [], ◌∷◌, length, ◌≤◌, ◌≡◌, refl}
use delego.Base.Maps.{lookup}
use delego.Base.Text.{text}
use delego.Orchestrator.Purchase.{WorkflowSnapshot}
use delego.Orchestrator.Purchase.Store.{Services, Calls, first_snapshot, load_workflow}
use delego.Orchestrator.Saga.Spec.{Shows}
use delego.Orchestrator.Saga.Coordinator.{
  Coordinator, constructed, World, default_claim_lease_ms, rejected,
}
use delego.Orchestrator.Checkout.{
  CheckoutState, pending_approval, approved, completed, cancelled, user_rejected, other_reason,
  Sinks, CheckoutWorkflow, initial_workflow, new_checkout_workflow, transition_to,
  invalid_state_transition, reason_required, invalid_reason,
}
use delego.Orchestrator.Checkout.Tracked.{Call, run_calls, Tracked, run_calls-Tracked_from_new}
use delego.Orchestrator.Checkout.Payments.{
  CheckoutWorkflowInput, CheckoutContext, Fetched, unreachable, replied, Payments,
  call_payments_service, deposited, checkout_steps, create_checkout_saga_coordinator,
  initial_context, checkout_workflow,
}
use delego.Orchestrator.Checkout.Ends.{ended_by, checkout_workflow-Shows}
use delego.Orchestrator.Checkout.Timeout.{handle_timeout}
use delego.Orchestrator.Checkout.Overdue.{Timed, handle_timeout-Timed}

abbrev no_events : Sinks
no_events = record { emitted = []; published = [] }

abbrev checkout : CheckoutWorkflow
checkout = initial_workflow "o1" "c1"

run_skip :
    transition_to approved none 5 checkout no_events
    ≡ (invalid_state_transition CheckoutState.initiated approved, checkout, no_events)
unfolding transition_to
run_skip = refl

run_no_reason :
    transition_to cancelled (some (other_reason "")) 5 checkout no_events
    ≡ (reason_required, checkout, no_events)
unfolding transition_to
run_no_reason = refl

run_bad_reason :
    transition_to cancelled (some (other_reason "bored")) 5 checkout no_events
    ≡ (invalid_reason (other_reason "bored"), checkout, no_events)
unfolding transition_to
run_bad_reason = refl

abbrev calls : List Call
calls =
    record { next = pending_approval; reason = none; now = 2 }
    ∷ record { next = completed; reason = none; now = 3 }
    ∷ record { next = cancelled; reason = some user_rejected; now = 4 }
    ∷ record { next = approved; reason = none; now = 5 }
    ∷ []

run_calls-length :
    let (w, sinks) = new_checkout_workflow "o1" "c1" 1 no_events in
    length (run_calls calls w sinks).1.emitted ≡ 3
unfolding new_checkout_workflow transition_to run_calls
run_calls-length = refl

run_calls-Tracked_from_new_example :
    let (w, sinks) = new_checkout_workflow "o1" "c1" 1 no_events in
    let (ended, sinks') = run_calls calls w sinks in
    (t : Tracked "o1" "c1" no_events ended sinks') × (length t.events ≤ 5)
run_calls-Tracked_from_new_example = run_calls-Tracked_from_new "o1" "c1" 1 calls no_events

abbrev paid : Fetched
paid = replied (record {
  is_ok = true;
  status = "200";
  error = none;
  data_field = some (record { tx_hash = "t1"; ledger = 9; success = true; escrow_id = some "e1" });
})

abbrev without_id : Fetched
without_id = replied (record {
  is_ok = true;
  status = "200";
  error = none;
  data_field = some (record { tx_hash = "t1"; ledger = 9; success = true; escrow_id = none });
})

abbrev payments : Payments
payments = record { deposit = λ t c. paid; refund = λ t id source. unreachable "refused" }

abbrev input : CheckoutWorkflowInput
input = record {
  order_id = "o1";
  source_address = "GA";
  buyer_address = "GB";
  seller_address = "GS";
}

abbrev coordinator : Coordinator CheckoutContext
coordinator = record { steps = checkout_steps payments; claim_lease_ms = default_claim_lease_ms }

abbrev clock : ℕ → ℕ
clock n = n

abbrev no_sagas : World CheckoutContext
no_sagas = record { store = []; trace = []; ticks = 0 }

run_created : create_checkout_saga_coordinator payments ≡ constructed coordinator
unfolding create_checkout_saga_coordinator
run_created = refl

run_new : lookup "s1" no_sagas.store ≡ none
unfolding lookup
run_new = refl

run_without_id :
    deposited (call_payments_service without_id) (initial_context input)
    ≡ rejected "Payments service did not return an escrowId for the deposit"
unfolding call_payments_service
run_without_id = refl

run_unreachable :
    call_payments_service (unreachable "timeout") ≡ rejected "Payments service unavailable: timeout"
unfolding call_payments_service
run_unreachable = refl

checkout_workflow-Shows_example :
    let c = initial_context input in
    let (out, w') = checkout_workflow input coordinator clock "s1" no_sagas in
    Shows "s1"
      (ended_by
        (deposited (call_payments_service (payments.deposit no_sagas.trace c)) c)
        c
        no_sagas.trace)
      out
      w'
checkout_workflow-Shows_example =
    checkout_workflow-Shows payments coordinator clock input "s1" no_sagas run_created run_new

abbrev order : WorkflowSnapshot
order = first_snapshot "o1" "u1" "d1" "shoes" 1

abbrev stored : Services
stored = record {
  rows =
      (
        "o1",
        record { user_id = "u1"; state = order.state; context = order.context; updated_at = 1 },
      )
      ∷ [];
  published = [];
}

abbrev works : Calls
works = record { now = 9; load_works = true; persist_works = true; publish_works = true }

run_loaded : load_workflow "o1" stored ≡ some order
unfolding load_workflow lookup
run_loaded = refl

handle_timeout-Timed_example :
    Timed order works stored (handle_timeout "o1" works (text "down") stored)
handle_timeout-Timed_example =
    handle_timeout-Timed order works (text "down") stored refl refl run_loaded
