-- ===== src/Orchestrator/Machine.antt =====
-- apps/backend/orchestrator/state/machine.ts and types.ts: the purchase workflow machine. A
-- timestamp is a number of milliseconds; `send` reads the clock twice, so it takes two of them.
-- What the `onTransition` hook does with a record is an argument of `send`: `none` when its
-- promise resolves, `some e` when it rejects.
pub mod Graph
pub mod Invariant
pub mod Snapshot
mod Tests
use delego.Base.{
  ℕ, String, Bool, true, false, Option, none, some, List, [], ◌∷◌, ◌++◌, if◌then◌else◌,
}
use delego.Base.Int.{ℤ}

pub data PurchaseState : Type 0 where
  discovery spending_check user_approval_pending escrow_locking merchant_fulfillment : PurchaseState
  delivery_verification completed refunded : PurchaseState

pub data PurchaseEvent : Type 0 where
  product_found : (product_id merchant_id : String) → (total_stroops : ℤ) → PurchaseEvent
  spend_approved : PurchaseEvent
  spend_denied : (reason : String) → PurchaseEvent
  user_approved : PurchaseEvent
  user_rejected : PurchaseEvent
  escrow_locked : (escrow_contract_id : String) → PurchaseEvent
  escrow_failed : (reason : String) → PurchaseEvent
  fulfillment_confirmed : PurchaseEvent
  delivery_verified : PurchaseEvent
  refund_initiated : (reason : String) → PurchaseEvent

-- `PurchaseEvent["type"]`
pub data EventType : Type 0 where
  type_product_found type_spend_approved type_spend_denied type_user_approved : EventType
  type_user_rejected type_escrow_locked type_escrow_failed type_fulfillment_confirmed : EventType
  type_delivery_verified type_refund_initiated : EventType

abbrev pub type_of : PurchaseEvent → EventType
type_of (product_found _ _ _) = type_product_found
type_of spend_approved = type_spend_approved
type_of (spend_denied _) = type_spend_denied
type_of user_approved = type_user_approved
type_of user_rejected = type_user_rejected
type_of (escrow_locked _) = type_escrow_locked
type_of (escrow_failed _) = type_escrow_failed
type_of fulfillment_confirmed = type_fulfillment_confirmed
type_of delivery_verified = type_delivery_verified
type_of (refund_initiated _) = type_refund_initiated

pub record PurchaseContext : Type 0 where
  pub workflow_id : String
  pub delegation_id : String
  pub user_id : String
  pub product_id : Option String
  pub merchant_id : Option String
  pub total_stroops : Option ℤ
  pub escrow_contract_id : Option String
  pub rejection_reason : Option String
  pub created_at : ℕ
  pub updated_at : ℕ

pub record StateTransitionRecord : Type 0 where
  pub workflow_id : String
  pub from_state : PurchaseState
  pub to_state : PurchaseState
  pub event : EventType
  pub context : PurchaseContext
  pub timestamp : ℕ

pub record WorkflowSnapshot : Type 0 where
  pub workflow_id : String
  pub current_state : PurchaseState
  pub context : PurchaseContext
  pub history : List StateTransitionRecord
  pub version : ℕ

abbrev pub snapshot_version : ℕ
snapshot_version = 1

-- The table `TRANSITIONS`.
unfoldable pub transitions : PurchaseState → EventType → Option PurchaseState
transitions discovery type_product_found = some spending_check
transitions spending_check type_spend_approved = some user_approval_pending
transitions spending_check type_spend_denied = some refunded
transitions user_approval_pending type_user_approved = some escrow_locking
transitions user_approval_pending type_user_rejected = some refunded
transitions escrow_locking type_escrow_locked = some merchant_fulfillment
transitions escrow_locking type_escrow_failed = some refunded
transitions merchant_fulfillment type_fulfillment_confirmed = some delivery_verification
transitions merchant_fulfillment type_refund_initiated = some refunded
transitions delivery_verification type_delivery_verified = some completed
transitions delivery_verification type_refund_initiated = some refunded
transitions _ _ = none

-- `TERMINAL_STATES.has`
abbrev pub terminal_states : PurchaseState → Bool
terminal_states completed = true
terminal_states refunded = true
terminal_states _ = false

unfoldable pub apply_context_update : PurchaseContext → PurchaseEvent → ℕ → PurchaseContext
apply_context_update ctx (product_found p m t) now = record ctx {
  product_id = some p;
  merchant_id = some m;
  total_stroops = some t;
  updated_at = now;
}
apply_context_update ctx (spend_denied reason) now = record ctx {
  rejection_reason = some reason;
  updated_at = now;
}
apply_context_update ctx user_rejected now = record ctx {
  rejection_reason = some "user_rejected";
  updated_at = now;
}
apply_context_update ctx (escrow_locked c) now = record ctx {
  escrow_contract_id = some c;
  updated_at = now;
}
apply_context_update ctx (escrow_failed reason) now = record ctx {
  rejection_reason = some reason;
  updated_at = now;
}
apply_context_update ctx (refund_initiated reason) now = record ctx {
  rejection_reason = some reason;
  updated_at = now;
}
apply_context_update ctx _ now = record ctx { updated_at = now }

-- The fields of `PurchaseWorkflowMachine` that change: its snapshot.
pub record Machine : Type 0 where
  pub snapshot : WorkflowSnapshot

-- The constructor.
unfoldable pub new_machine : (workflow_id delegation_id user_id : String) (now : ℕ) → Machine
new_machine workflow_id delegation_id user_id now = record {
  snapshot = record {
    workflow_id = workflow_id;
    current_state = discovery;
    context = record {
      workflow_id = workflow_id;
      delegation_id = delegation_id;
      user_id = user_id;
      product_id = none;
      merchant_id = none;
      total_stroops = none;
      escrow_contract_id = none;
      rejection_reason = none;
      created_at = now;
      updated_at = now;
    };
    history = [];
    version = snapshot_version;
  };
}

-- What the promise of `send` does: it resolves with a snapshot, or rejects.
pub data Sent : Type 0 where
  sent : WorkflowSnapshot → Sent
  in_terminal_state : PurchaseState → Sent
  not_valid_in_state : EventType → PurchaseState → Sent
  hook_rejected : String → Sent

pub record Reading : Type 0 where
  pub updated : ℕ
  pub recorded : ℕ

abbrev pub Hook : Type 0
Hook = Option (StateTransitionRecord → Option String)

abbrev pub run_hook : Hook → StateTransitionRecord → Option String
run_hook none r = none
run_hook (some hook) r = hook r

-- The transition record of an accepted event, and the snapshot after it.
abbrev pub record_of :
    WorkflowSnapshot → PurchaseEvent → PurchaseState → Reading → StateTransitionRecord
record_of s e next now = record {
  workflow_id = s.workflow_id;
  from_state = s.current_state;
  to_state = next;
  event = type_of e;
  context = apply_context_update s.context e now.updated;
  timestamp = now.recorded;
}

abbrev pub advance : WorkflowSnapshot → PurchaseEvent → PurchaseState → Reading → WorkflowSnapshot
advance s e next now = record s {
  current_state = next;
  context = apply_context_update s.context e now.updated;
  history = s.history ++ record_of s e next now ∷ [];
}

-- `await this.onTransition(record)` comes after the snapshot is replaced.
abbrev pub notify : Hook → StateTransitionRecord → WorkflowSnapshot → Machine × Sent
notify hook r s =
    (record { snapshot = s }, elim (run_hook hook r) [ none ↦ sent s | some e ↦ hook_rejected e ])

unfoldable pub send : Hook → Reading → Machine → PurchaseEvent → Machine × Sent
unfolding transitions apply_context_update
send hook now m e =
    if terminal_states m.snapshot.current_state
    then (m, in_terminal_state m.snapshot.current_state)
    else elim (transitions m.snapshot.current_state (type_of e)) [
      | none ↦ (m, not_valid_in_state (type_of e) m.snapshot.current_state)
      | some next ↦ notify hook (record_of m.snapshot e next now) (advance m.snapshot e next now)
    ]

-- Calls of `send`, each with its hook's behaviour and its clock readings.
pub record Call : Type 0 where
  pub hook : Hook
  pub now : Reading
  pub event : PurchaseEvent

unfoldable pub send_all : Machine → List Call → Machine
send_all m [] = m
send_all m (c ∷ cs) = send_all (send c.hook c.now m c.event).0 cs
