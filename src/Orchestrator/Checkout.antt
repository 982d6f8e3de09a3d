-- ===== src/Orchestrator/Checkout.antt =====
-- apps/backend/orchestrator/workflows/checkout/index.ts: `CheckoutWorkflow`, with the events that it
-- emits, and the cancellation by a merchant. A timestamp is a number of milliseconds.
pub mod Trail
pub mod Tracked
pub mod Payments
pub mod Ends
pub mod Timeout
pub mod Overdue
mod Tests
use delego.Base.{
  ℕ, String, Bool, true, false, not, Option, none, some, List, [], ◌∷◌, ◌++◌, if◌then◌else◌, str_eq,
  any, ◌||◌,
}

pub data CheckoutState : Type 0 where
  initiated pending_approval approved funding completed cancelled : CheckoutState

-- `CheckoutCancellationReason`, and any other text, which the code looks out for.
pub data CheckoutCancellationReason : Type 0 where
  user_rejected approval_timeout funding_failed merchant_unavailable : CheckoutCancellationReason
  system_error : CheckoutCancellationReason
  other_reason : String → CheckoutCancellationReason

-- An envelope of workflow-events.ts with the payload of the checkout. Its type is "checkout_" and
-- the name of a state.
pub record CheckoutWorkflowEvent : Type 0 where
  pub correlation_id : String
  pub order_id : String
  pub type : CheckoutState
  pub from_state : CheckoutState
  pub to_state : CheckoutState
  pub cancellation_reason : Option CheckoutCancellationReason
  pub timestamp : ℕ

-- `emittedEvents`, and `publishedWorkflowEvents` of workflow-events.ts.
pub record Sinks : Type 0 where
  pub emitted : List CheckoutWorkflowEvent
  pub published : List CheckoutWorkflowEvent

abbrev pub emit_checkout_event : CheckoutWorkflowEvent → Sinks → Sinks
emit_checkout_event event sinks = record {
  emitted = sinks.emitted ++ (event ∷ []);
  published = sinks.published ++ (event ∷ []);
}

pub record CheckoutWorkflow : Type 0 where
  pub order_id : String
  pub correlation_id : String
  pub state : CheckoutState
  pub cancellation_reason : Option CheckoutCancellationReason

abbrev pub event_of :
    CheckoutWorkflow
    → (to : CheckoutState) → Option CheckoutCancellationReason
    → ℕ
    → CheckoutWorkflowEvent
event_of w to reason now = record {
  correlation_id = w.correlation_id;
  order_id = w.order_id;
  type = to;
  from_state = w.state;
  to_state = to;
  cancellation_reason = reason;
  timestamp = now;
}

abbrev pub initial_workflow : (order_id correlation_id : String) → CheckoutWorkflow
initial_workflow order_id correlation_id = record {
  order_id = order_id;
  correlation_id = correlation_id;
  state = initiated;
  cancellation_reason = none;
}

-- The constructor.
unfoldable pub new_checkout_workflow :
    (order_id correlation_id : String) → ℕ → Sinks → CheckoutWorkflow × Sinks
new_checkout_workflow order_id correlation_id now sinks =
    let w = initial_workflow order_id correlation_id in
    (w, emit_checkout_event (event_of w initiated none now) sinks)

-- What `transitionTo` ends with: it returns, or throws one of its errors.
pub data Moved : Type 0 where
  moved : Moved
  terminal_state : CheckoutState → Moved
  invalid_state_transition : (from to : CheckoutState) → Moved
  reason_required : Moved
  invalid_reason : CheckoutCancellationReason → Moved

abbrev pub is_terminal : CheckoutState → Bool
is_terminal completed = true
is_terminal cancelled = true
is_terminal _ = false

-- `allowedTransitions[from].includes(to)`
abbrev pub is_allowed : (from to : CheckoutState) → Bool
is_allowed initiated pending_approval = true
is_allowed initiated cancelled = true
is_allowed pending_approval approved = true
is_allowed pending_approval cancelled = true
is_allowed approved funding = true
is_allowed approved cancelled = true
is_allowed funding completed = true
is_allowed funding cancelled = true
is_allowed _ _ = false

-- A reason counts when it is there and not an empty text.
abbrev pub truthy : Option CheckoutCancellationReason → Option CheckoutCancellationReason
truthy none = none
truthy (some (other_reason s)) = if str_eq s "" then none else some (other_reason s)
truthy (some reason) = some reason

abbrev pub is_valid_reason : CheckoutCancellationReason → Bool
is_valid_reason (other_reason _) = false
is_valid_reason _ = true

abbrev pub move_to :
    CheckoutState
    → (reason : Option CheckoutCancellationReason)
    → (cancellation_reason : Option CheckoutCancellationReason) → ℕ
    → CheckoutWorkflow
    → Sinks
    → Moved × CheckoutWorkflow × Sinks
move_to next reason cancellation_reason now w sinks = (
  moved,
  record w { state = next; cancellation_reason = cancellation_reason },
  emit_checkout_event (event_of w next reason now) sinks,
)

-- The move to "cancelled", by the reason that counts.
abbrev pub cancel_for :
    Option CheckoutCancellationReason
    → ℕ
    → CheckoutWorkflow
    → Sinks
    → Moved × CheckoutWorkflow × Sinks
cancel_for none now w sinks = (reason_required, w, sinks)
cancel_for (some reason) now w sinks =
    if not (is_valid_reason reason)
    then (invalid_reason reason, w, sinks)
    else move_to cancelled (some reason) (some reason) now w sinks

abbrev pub enter :
    CheckoutState
    → Option CheckoutCancellationReason
    → ℕ
    → CheckoutWorkflow
    → Sinks
    → Moved × CheckoutWorkflow × Sinks
enter cancelled reason now w sinks = cancel_for reason now w sinks
enter next reason now w sinks = move_to next reason w.cancellation_reason now w sinks

unfoldable pub transition_to :
    CheckoutState
    → Option CheckoutCancellationReason
    → ℕ
    → CheckoutWorkflow
    → Sinks
    → Moved × CheckoutWorkflow × Sinks
transition_to next reason now w sinks =
    if is_terminal w.state
    then (terminal_state w.state, w, sinks)
    else if not (is_allowed w.state next)
    then (invalid_state_transition w.state next, w, sinks)
    else enter next (truthy reason) now w sinks

pub record MerchantCancellationEvent : Type 0 where
  pub order_id : String
  pub merchant_id : String
  pub reason_code : String
  pub occurred_at : String

-- Its status is always "canceled".
pub record CanceledCheckout : Type 0 where
  pub order_id : String
  pub reason : String
  pub canceled_at : String
  pub refund_needed : Bool

pub record RefundNeededEvent : Type 0 where
  pub order_id : String
  pub merchant_id : String
  pub triggered_at : String

unfoldable pub handle_merchant_cancellation :
    MerchantCancellationEvent → (escrow_funded : Bool) → CanceledCheckout × Option RefundNeededEvent
handle_merchant_cancellation event escrow_funded = (
  record {
    order_id = event.order_id;
    reason = event.reason_code;
    canceled_at = event.occurred_at;
    refund_needed = escrow_funded;
  },
  if escrow_funded
      then some (record {
        order_id = event.order_id;
        merchant_id = event.merchant_id;
        triggered_at = event.occurred_at;
      })
      else none,
)
