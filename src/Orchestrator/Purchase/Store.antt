-- ===== src/Orchestrator/Purchase/Store.antt =====
-- The table `purchase_workflows` and the operations of
-- apps/backend/orchestrator/workflows/purchase/index.ts on it. The table is a map from order ids,
-- and the published messages are a list, the latest first. The new order id, the clock and whether
-- the database and Redis answer are arguments.
use delego.Base.{ℕ, String, Bool, Option, none, some, List, [], ◌∷◌, if◌then◌else◌}
use delego.Base.Maps.{Map, lookup, insert}
use delego.Orchestrator.Purchase.{
  PurchaseState, initiated, PurchaseEvent, EventType, type_of, PurchaseContext, WorkflowSnapshot,
  WorkflowEvent, apply_event,
}

pub record Row : Type 0 where
  pub user_id : String
  pub state : PurchaseState
  pub context : PurchaseContext
  pub updated_at : ℕ

pub record Services : Type 0 where
  pub rows : Map Row
  pub published : List WorkflowEvent

-- What a call meets: the time, and whether SELECT, INSERT and PUBLISH go through.
pub record Calls : Type 0 where
  pub now : ℕ
  pub load_works : Bool
  pub persist_works : Bool
  pub publish_works : Bool

-- The user of a row that is there already stays: `ON CONFLICT` does not set it.
abbrev owner_or : Option Row → String → String
owner_or none user = user
owner_or (some row) user = row.user_id

-- `persistWorkflow`, when the database takes it.
unfoldable pub persist_workflow : WorkflowSnapshot → Services → Services
persist_workflow s w = record w {
  rows =
      insert s.order_id
        (record {
          user_id = owner_or (lookup s.order_id w.rows) s.context.user_id;
          state = s.state;
          context = s.context;
          updated_at = s.updated_at;
        })
        w.rows;
}

abbrev pub snapshot_of : String → Row → WorkflowSnapshot
snapshot_of order_id row = record {
  order_id = order_id;
  state = row.state;
  context = row.context;
  updated_at = row.updated_at;
}

-- `loadWorkflow`, when the database answers.
unfoldable pub load_workflow : String → Services → Option WorkflowSnapshot
load_workflow order_id w = elim (lookup order_id w.rows) [
  | none ↦ none
  | some row ↦ some (snapshot_of order_id row)
]

-- `publishEvent`: an error of Redis is only logged.
unfoldable pub publish_event : WorkflowEvent → Calls → Services → Services
publish_event evt calls w =
    if calls.publish_works then record w { published = evt ∷ w.published } else w

-- What a promise of the API ends with.
pub data Reply {ℓ} (A : Type ℓ) : Type ℓ where
  reply : A → Reply A
  workflow_not_found : String → Reply A
  invalid_transition : EventType → PurchaseState → Reply A
  database_error : Reply A

abbrev pub first_snapshot : (order_id user delegation query : String) → ℕ → WorkflowSnapshot
first_snapshot order_id user delegation query now = record {
  order_id = order_id;
  state = initiated;
  context = record {
    order_id = order_id;
    user_id = user;
    delegation_id = delegation;
    query = query;
    products = [];
    selected_product_id = none;
    escrow_id = none;
    escrow_tx_hash = none;
    merchant_order_id = none;
    settlement_tx_hash = none;
    error = none;
    created_at = now;
  };
  updated_at = now;
}

-- The first argument is the new `generateId()`.
unfoldable pub create_workflow :
    (order_id user delegation query : String) → Calls → Services → Reply String × Services
create_workflow order_id user delegation query calls w =
    if calls.persist_works
    then (
      reply order_id,
      persist_workflow (first_snapshot order_id user delegation query calls.now) w,
    )
    else (database_error, w)

abbrev pub event_of :
    WorkflowSnapshot → PurchaseEvent → PurchaseState → PurchaseContext → ℕ → WorkflowEvent
event_of snapshot event state context now = record {
  order_id = snapshot.order_id;
  user_id = context.user_id;
  previous_state = snapshot.state;
  current_state = state;
  event = type_of event;
  timestamp = now;
}

abbrev pub next_snapshot : WorkflowSnapshot → PurchaseState → PurchaseContext → ℕ → WorkflowSnapshot
next_snapshot snapshot state context now = record {
  order_id = snapshot.order_id;
  state = state;
  context = context;
  updated_at = now;
}

abbrev pub store_move :
    WorkflowSnapshot
    → PurchaseEvent
    → Calls
    → Option (PurchaseState × PurchaseContext)
    → Services
    → Reply WorkflowSnapshot × Services
store_move snapshot event calls none w = (invalid_transition (type_of event) snapshot.state, w)
store_move snapshot event calls (some (state, context)) w =
    if calls.persist_works
    then (
      reply (next_snapshot snapshot state context calls.now),
      publish_event (event_of snapshot event state context calls.now) calls
          (persist_workflow (next_snapshot snapshot state context calls.now) w),
    )
    else (database_error, w)

-- `transitionWorkflow` from the loaded snapshot on.
unfoldable pub write_transition :
    WorkflowSnapshot → PurchaseEvent → Calls → Services → Reply WorkflowSnapshot × Services
unfolding apply_event publish_event persist_workflow
write_transition snapshot event calls w =
    store_move snapshot event calls (apply_event snapshot.state event snapshot.context) w

abbrev pub on_loaded :
    String
    → PurchaseEvent
    → Calls
    → Option WorkflowSnapshot
    → Services
    → Reply WorkflowSnapshot × Services
on_loaded order_id event calls none w = (workflow_not_found order_id, w)
on_loaded order_id event calls (some snapshot) w = write_transition snapshot event calls w

unfoldable pub transition_workflow :
    String → PurchaseEvent → Calls → Services → Reply WorkflowSnapshot × Services
unfolding write_transition load_workflow
transition_workflow order_id event calls w =
    if calls.load_works
    then on_loaded order_id event calls (load_workflow order_id w) w
    else (database_error, w)

abbrev got : String → Option WorkflowSnapshot → Reply WorkflowSnapshot
got order_id none = workflow_not_found order_id
got order_id (some snapshot) = reply snapshot

unfoldable pub get_workflow : String → Calls → Services → Reply WorkflowSnapshot
unfolding load_workflow
get_workflow order_id calls w =
    if calls.load_works then got order_id (load_workflow order_id w) else database_error
