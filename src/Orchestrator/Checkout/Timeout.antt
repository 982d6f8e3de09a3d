-- ===== src/Orchestrator/Checkout/Timeout.antt =====
-- apps/backend/orchestrator/workflows/checkout/index.ts: the timer of an order. BullMQ runs
-- `handleTimeout` when the job of the order is due.
use delego.Base.{ℕ, Bool, true, false, ◌+◌, ◌*◌, String, ◌++◌, if◌then◌else◌}
use Prim.Native.String
use delego.Base.Text.{Text, text, includes}
use delego.Orchestrator.Purchase
use delego.Orchestrator.Purchase.{
  PurchaseState, EventType, type_cancel, transitions, WorkflowSnapshot, apply_event,
  PurchaseContext,
}
use delego.Orchestrator.Purchase.Store.{
  Services, Calls, Reply, reply, workflow_not_found, invalid_transition, database_error,
  transition_workflow,
}

pub data TimeoutReason : Type 0 where
  approval_timeout funding_timeout fulfillment_timeout : TimeoutReason

pub record CheckoutTimeoutJob : Type 0 where
  pub order_id : String
  pub expires_at : ℕ
  pub reason : TimeoutReason

-- TIMEOUT_MS
abbrev pub timeout_ms : ℕ
timeout_ms = 30 * 60 * 1000

-- What `scheduleTimeout` adds to the queue: the data, the delay and the id of the job.
unfoldable pub schedule_timeout :
    (order_id : String) → TimeoutReason → ℕ → CheckoutTimeoutJob × ℕ × String
schedule_timeout order_id reason now = (
  record { order_id = order_id; expires_at = now + timeout_ms; reason = reason },
  timeout_ms,
  String.◌++◌ "timeout:" order_id,
)

abbrev pub state_name : PurchaseState → Text
state_name PurchaseState.initiated = text "INITIATED"
state_name PurchaseState.searching = text "SEARCHING"
state_name PurchaseState.found = text "FOUND"
state_name PurchaseState.approved = text "APPROVED"
state_name PurchaseState.escrow_funded = text "ESCROW_FUNDED"
state_name PurchaseState.purchased = text "PURCHASED"
state_name PurchaseState.delivering = text "DELIVERING"
state_name PurchaseState.delivered = text "DELIVERED"
state_name PurchaseState.completed = text "COMPLETED"
state_name PurchaseState.cancelled = text "CANCELLED"
state_name PurchaseState.failed = text "FAILED"

-- How `handleTimeout` ends: the order is cancelled, or it is left alone, or the error is thrown.
pub data TimedOut : Type 0 where
  order_cancelled skipped : TimedOut
  threw : (message : Text) → TimedOut

abbrev pub caught : (message : Text) → TimedOut
caught message = if includes (text "Invalid transition") message then skipped else threw message

-- The event is CANCEL, so the message of a transition that is not valid names it. `database` is the
-- message of an error of the database.
abbrev pub handled : {A : Type 0} → (database : Text) → Reply A × Services → TimedOut × Services
handled database (reply _, w) = (order_cancelled, w)
handled database (workflow_not_found order_id, w) =
    (caught (text "Workflow not found: " ++ text order_id), w)
handled database (invalid_transition _ state, w) =
    (caught (text "Invalid transition: CANCEL from " ++ state_name state), w)
handled database (database_error, w) = (caught database, w)

unfoldable pub handle_timeout :
    (order_id : String) → Calls → (database : Text) → Services → TimedOut × Services
unfolding transition_workflow includes
handle_timeout order_id calls database w =
    handled database (transition_workflow order_id (Purchase.cancel "checkout_timeout") calls w)

-- The states before the delivery, in which an order can still be cancelled.
abbrev pub is_before_delivery : PurchaseState → Bool
is_before_delivery PurchaseState.delivering = false
is_before_delivery PurchaseState.delivered = false
is_before_delivery PurchaseState.completed = false
is_before_delivery PurchaseState.cancelled = false
is_before_delivery PurchaseState.failed = false
is_before_delivery _ = true
