-- ===== src/Orchestrator/Machine/Graph.antt =====
-- The transition table of apps/backend/orchestrator/state/machine.ts as a graph.
use delego.Base.{ℕ, ◌+◌, ◌≡◌, refl, ◌≢◌, ◌↔◌, some, List, [], ◌∷◌, ◌++◌, arith}
use delego.Orchestrator.Machine.{
  PurchaseState, discovery, spending_check, user_approval_pending, escrow_locking,
  merchant_fulfillment, delivery_verification, completed, refunded, EventType, type_spend_denied,
  type_user_rejected, type_escrow_failed, type_refund_initiated, StateTransitionRecord, transitions,
}

-- A list of transition records that leads from one state to another along the table.
abbrev pub Chain : PurchaseState → List StateTransitionRecord → PurchaseState → Type 0
Chain a [] b = a ≡ b
Chain a (r ∷ rs) b =
    (r.from_state ≡ a) × (transitions a r.event ≡ some r.to_state) × Chain r.to_state rs b

pub Chain-append :
    (a : PurchaseState) (rs : List StateTransitionRecord) {b : PurchaseState}
    (r : StateTransitionRecord)
    → Chain a rs b
    → r.from_state ≡ b
    → transitions b r.event ≡ some r.to_state
    → Chain a (rs ++ r ∷ []) r.to_state
Chain-append a [] r e from step = ground arith
Chain-append a (q ∷ rs) r (e, s, c) from step = (e, s, Chain-append q.to_state rs r c from step)

-- How many transitions a state is from `Discovery` on the way to `Completed`.
abbrev pub depth : PurchaseState → ℕ
depth discovery = 0
depth spending_check = 1
depth user_approval_pending = 2
depth escrow_locking = 3
depth merchant_fulfillment = 4
depth delivery_verification = 5
depth completed = 6
depth refunded = 6

-- A step off the path to `Refunded` goes one deeper.
pub transitions-depth :
    (a b : PurchaseState) (e : EventType)
    → transitions a e ≡ some b
    → b ≢ refunded
    → depth b ≡ depth a + 1
unfolding transitions
transitions-depth a b e h n = ground arith

abbrev pub HasRefundEdge : PurchaseState → Type 0
HasRefundEdge a = (e : EventType) × (transitions a e ≡ some refunded)

-- The states from which one event leads to `Refunded`.
pub data CanRefund : PurchaseState → Type 0 where
  from_spending_check : CanRefund spending_check
  from_user_approval_pending : CanRefund user_approval_pending
  from_escrow_locking : CanRefund escrow_locking
  from_merchant_fulfillment : CanRefund merchant_fulfillment
  from_delivery_verification : CanRefund delivery_verification

refund_event : {a : PurchaseState} → CanRefund a → EventType
refund_event from_spending_check = type_spend_denied
refund_event from_user_approval_pending = type_user_rejected
refund_event from_escrow_locking = type_escrow_failed
refund_event from_merchant_fulfillment = type_refund_initiated
refund_event from_delivery_verification = type_refund_initiated

transitions-refund_event :
    {a : PurchaseState} (c : CanRefund a) → transitions a (refund_event c) ≡ some refunded
unfolding transitions refund_event
transitions-refund_event from_spending_check = refl
transitions-refund_event from_user_approval_pending = refl
transitions-refund_event from_escrow_locking = refl
transitions-refund_event from_merchant_fulfillment = refl
transitions-refund_event from_delivery_verification = refl

transitions-CanRefund :
    (a : PurchaseState) (e : EventType) → transitions a e ≡ some refunded → CanRefund a
unfolding transitions
transitions-CanRefund spending_check e h = from_spending_check
transitions-CanRefund user_approval_pending e h = from_user_approval_pending
transitions-CanRefund escrow_locking e h = from_escrow_locking
transitions-CanRefund merchant_fulfillment e h = from_merchant_fulfillment
transitions-CanRefund delivery_verification e h = from_delivery_verification
transitions-CanRefund a e h = ground arith

-- The states with an edge to `Refunded` are the five between `Discovery` and `Completed`:
-- there is none from `Discovery`.
pub refund_edge_iff : (a : PurchaseState) → HasRefundEdge a ↔ CanRefund a
refund_edge_iff a =
    (λ p. transitions-CanRefund a p.0 p.1, λ c. (refund_event c, transitions-refund_event c))
