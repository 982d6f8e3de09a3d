-- ===== src/Orchestrator/Purchase.antt =====
-- apps/backend/orchestrator/workflows/purchase/index.ts: the states, events and transitions of the
-- purchase workflows that are kept in PostgreSQL and announced over Redis. A timestamp is a number
-- of milliseconds.
pub mod Store
pub mod Chain
pub mod Messages
pub mod Delivery
pub mod Listing
pub mod Race
pub mod Restore
mod Tests
use delego.Base.{ℕ, String, Option, none, some, List}

pub record ProductMatch : Type 0 where
  pub id : String
  pub name : String
  pub merchant : String
  pub price_stroops : String
  pub url : String

pub data PurchaseState : Type 0 where
  initiated searching found approved escrow_funded purchased delivering delivered : PurchaseState
  completed cancelled failed : PurchaseState

pub data PurchaseEvent : Type 0 where
  search : (query delegation_id : String) → PurchaseEvent
  products_found : List ProductMatch → PurchaseEvent
  approve : (selected_product_id : String) → PurchaseEvent
  reject : PurchaseEvent
  fund_escrow : (escrow_id tx_hash : String) → PurchaseEvent
  fail_escrow : (reason : String) → PurchaseEvent
  purchase_confirmed : (merchant_order_id : String) → PurchaseEvent
  delivery_confirmed : (proof : String) → PurchaseEvent
  settle : (tx_hash : String) → PurchaseEvent
  cancel : (reason : String) → PurchaseEvent
  timeout : PurchaseEvent
  fail : (error : String) → PurchaseEvent

-- `PurchaseEvent["type"]`
pub data EventType : Type 0 where
  type_search type_products_found type_approve type_reject type_escrow_funded : EventType
  type_escrow_failed type_purchase_confirmed type_delivery_confirmed type_settle : EventType
  type_cancel type_timeout type_fail : EventType

abbrev pub type_of : PurchaseEvent → EventType
type_of (search _ _) = type_search
type_of (products_found _) = type_products_found
type_of (approve _) = type_approve
type_of reject = type_reject
type_of (fund_escrow _ _) = type_escrow_funded
type_of (fail_escrow _) = type_escrow_failed
type_of (purchase_confirmed _) = type_purchase_confirmed
type_of (delivery_confirmed _) = type_delivery_confirmed
type_of (settle _) = type_settle
type_of (cancel _) = type_cancel
type_of timeout = type_timeout
type_of (fail _) = type_fail

pub record PurchaseContext : Type 0 where
  pub order_id : String
  pub user_id : String
  pub delegation_id : String
  pub query : String
  pub products : List ProductMatch
  pub selected_product_id : Option String
  pub escrow_id : Option String
  pub escrow_tx_hash : Option String
  pub merchant_order_id : Option String
  pub settlement_tx_hash : Option String
  pub error : Option String
  pub created_at : ℕ

pub record WorkflowSnapshot : Type 0 where
  pub order_id : String
  pub state : PurchaseState
  pub context : PurchaseContext
  pub updated_at : ℕ

pub record WorkflowEvent : Type 0 where
  pub order_id : String
  pub user_id : String
  pub previous_state : PurchaseState
  pub current_state : PurchaseState
  pub event : EventType
  pub timestamp : ℕ

-- The table `TRANSITIONS`.
unfoldable pub transitions : PurchaseState → EventType → Option PurchaseState
transitions initiated type_search = some searching
transitions initiated type_cancel = some cancelled
transitions searching type_products_found = some found
transitions searching type_cancel = some cancelled
transitions searching type_timeout = some cancelled
transitions searching type_fail = some failed
transitions found type_approve = some approved
transitions found type_reject = some cancelled
transitions found type_cancel = some cancelled
transitions approved type_escrow_funded = some escrow_funded
transitions approved type_escrow_failed = some cancelled
transitions approved type_cancel = some cancelled
transitions escrow_funded type_purchase_confirmed = some purchased
transitions escrow_funded type_cancel = some cancelled
transitions escrow_funded type_fail = some failed
transitions purchased type_delivery_confirmed = some delivering
transitions purchased type_cancel = some cancelled
transitions purchased type_fail = some failed
transitions delivering type_settle = some delivered
transitions delivering type_fail = some failed
transitions delivered type_settle = some completed
transitions _ _ = none

-- The `switch` of `applyEvent`.
unfoldable pub update_context : PurchaseEvent → PurchaseContext → PurchaseContext
update_context (search q d) ctx = record ctx { query = q; delegation_id = d }
update_context (products_found ps) ctx = record ctx { products = ps }
update_context (approve id) ctx = record ctx { selected_product_id = some id }
update_context (fund_escrow id tx) ctx = record ctx {
  escrow_id = some id;
  escrow_tx_hash = some tx;
}
update_context (fail_escrow reason) ctx = record ctx { error = some reason }
update_context (purchase_confirmed id) ctx = record ctx { merchant_order_id = some id }
update_context (settle tx) ctx = record ctx { settlement_tx_hash = some tx }
update_context (cancel reason) ctx = record ctx { error = some reason }
update_context (fail e) ctx = record ctx { error = some e }
update_context _ ctx = ctx

-- `none` when it throws "Invalid transition".
unfoldable pub apply_event :
    PurchaseState → PurchaseEvent → PurchaseContext → Option (PurchaseState × PurchaseContext)
unfolding update_context
apply_event state event ctx = elim (transitions state (type_of event)) [
  | none ↦ none
  | some next ↦ some (next, update_context event ctx)
]
