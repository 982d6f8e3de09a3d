-- ===== src/Orchestrator/Checkout/Payments.antt =====
-- apps/backend/orchestrator/workflows/checkout/index.ts: the calls of the payments service, and the
-- checkout as a saga of the coordinator. The answers of the service are arguments.
use delego.Base.{
  ℕ, String, Bool, true, false, not, ◌||◌, Option, none, some, List, [], ◌∷◌, if◌then◌else◌, str_eq,
}
use Prim.Native.String
use delego.Orchestrator.Saga.Store.{SagaRecord}
use delego.Orchestrator.Saga.Coordinator.{
  Settled, resolved, rejected, SagaStep, Trace, Coordinator, Constructed, new_coordinator, M, run,
}

pub record CheckoutWorkflowInput : Type 0 where
  pub order_id : String
  pub source_address : String
  pub buyer_address : String
  pub seller_address : String

pub record CheckoutContext : Type 0 where
  pub order_id : String
  pub source_address : String
  pub buyer_address : String
  pub seller_address : String
  pub escrow_id : Option String
  pub confirmed : Bool

pub record EscrowOperationResult : Type 0 where
  pub tx_hash : String
  pub ledger : ℕ
  pub success : Bool
  pub escrow_id : Option String

-- `response.ok`, the status as it is printed, and the body: the message of its error, if it has an
-- error, and its data.
pub record PaymentsReply : Type 0 where
  pub is_ok : Bool
  pub status : String
  pub error : Option (Option String)
  pub data_field : Option EscrowOperationResult

-- What `fetch` and then `json` do: either may reject with a message.
pub data Fetched : Type 0 where
  unreachable : String → Fetched
  unreadable : String → Fetched
  replied : PaymentsReply → Fetched

abbrev error_message : (status : String) → Option (Option String) → String
error_message status (some (some message)) = message
error_message status _ = String.◌++◌ "Payments service returned status " status

abbrev data_of : Option EscrowOperationResult → Settled EscrowOperationResult
data_of none = rejected "Payments service returned an empty response"
data_of (some result) = resolved result

abbrev has_error : Option (Option String) → Bool
has_error none = false
has_error (some _) = true

unfoldable pub call_payments_service : Fetched → Settled EscrowOperationResult
call_payments_service (unreachable message) =
    rejected (String.◌++◌ "Payments service unavailable: " message)
call_payments_service (unreadable message) = rejected message
call_payments_service (replied r) =
    if not r.is_ok || has_error r.error
    then rejected (error_message r.status r.error)
    else data_of r.data_field

-- The answers to a deposit for a context and to the refund of an escrow, after what has run.
pub record Payments : Type 0 where
  pub deposit : Trace → CheckoutContext → Fetched
  pub refund : Trace → (escrow_id source_address : String) → Fetched

abbrev pub non_empty : Option String → Option String
non_empty none = none
non_empty (some s) = if str_eq s "" then none else some s

abbrev pub with_escrow : Option String → CheckoutContext → Settled CheckoutContext
with_escrow none c = rejected "Payments service did not return an escrowId for the deposit"
with_escrow (some id) c = resolved (record c { escrow_id = some id })

abbrev pub deposited : Settled EscrowOperationResult → CheckoutContext → Settled CheckoutContext
deposited (rejected message) c = rejected message
deposited (resolved result) c = with_escrow (non_empty result.escrow_id) c

abbrev refunded : Settled EscrowOperationResult → CheckoutContext → Settled CheckoutContext
refunded (rejected message) c = rejected message
refunded (resolved _) c = resolved (record c { escrow_id = none })

abbrev refund_escrow : Payments → Trace → Option String → CheckoutContext → Settled CheckoutContext
refund_escrow p t none c = resolved c
refund_escrow p t (some id) c = refunded (call_payments_service (p.refund t id c.source_address)) c

abbrev pub deposit_escrow_step : Payments → SagaStep CheckoutContext
deposit_escrow_step p = record {
  name = "deposit-escrow";
  action = λ t c. deposited (call_payments_service (p.deposit t c)) c;
  compensation = λ t c error. refund_escrow p t (non_empty c.escrow_id) c;
}

abbrev pub confirm_checkout_step : SagaStep CheckoutContext
confirm_checkout_step = record {
  name = "confirm-checkout";
  action = λ t c. resolved (record c { confirmed = true });
  compensation = λ t c error. resolved (record c { confirmed = false });
}

abbrev pub checkout_steps : Payments → List (SagaStep CheckoutContext)
checkout_steps p = deposit_escrow_step p ∷ confirm_checkout_step ∷ []

unfoldable pub create_checkout_saga_coordinator : Payments → Constructed CheckoutContext
unfolding new_coordinator
create_checkout_saga_coordinator p = new_coordinator (checkout_steps p) none

abbrev pub initial_context : CheckoutWorkflowInput → CheckoutContext
initial_context input = record {
  order_id = input.order_id;
  source_address = input.source_address;
  buyer_address = input.buyer_address;
  seller_address = input.seller_address;
  escrow_id = none;
  confirmed = false;
}

-- The clock is that of the coordinator.
unfoldable pub checkout_workflow :
    CheckoutWorkflowInput
    → Coordinator CheckoutContext
    → (clock : ℕ → ℕ) → (saga_id : String) → M CheckoutContext (SagaRecord CheckoutContext)
checkout_workflow input co clock saga_id =
    run co clock saga_id input.order_id (initial_context input)
