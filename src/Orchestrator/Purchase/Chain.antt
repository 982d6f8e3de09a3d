-- ===== src/Orchestrator/Purchase/Chain.antt =====
-- What the messages and the stored context of a purchase workflow say
-- (apps/backend/orchestrator/workflows/purchase/index.ts).
use delego.Base.{
  ℕ, ◌+◌, ◌≤◌, ◌≡◌, inl, inr, String, Bool, true, false, Option, none, some, List, [], ◌∷◌, arith,
  length, Option-cases, leb,
}
use delego.Orchestrator.Purchase.{
  PurchaseState, initiated, searching, found, approved, escrow_funded, purchased, delivering,
  delivered, cancelled, failed, PurchaseEvent, EventType, type_of, PurchaseContext, WorkflowEvent,
  transitions, update_context, apply_event,
}

abbrev is_some : Option String → Bool
is_some none = false
is_some (some _) = true

abbrev pub is_stopped : PurchaseState → Bool
is_stopped cancelled = true
is_stopped failed = true
is_stopped _ = false

-- How many transitions a state is from `INITIATED` on the way to `COMPLETED`.
abbrev pub depth : PurchaseState → ℕ
depth initiated = 0
depth searching = 1
depth found = 2
depth approved = 3
depth escrow_funded = 4
depth purchased = 5
depth delivering = 6
depth delivered = 7
depth _ = 8

abbrev from_depth : ℕ → PurchaseState → Bool
from_depth n s = leb n (depth s)

-- The context holds what the state says has happened, unless the workflow has stopped; a stopped
-- one was never settled.
pub record Fits (s : PurchaseState) (c : PurchaseContext) : Type 0 where
  pub selected : is_stopped s ≡ false → is_some c.selected_product_id ≡ leb 3 (depth s)
  pub escrow : is_stopped s ≡ false → is_some c.escrow_id ≡ leb 4 (depth s)
  pub escrow_tx : is_stopped s ≡ false → is_some c.escrow_tx_hash ≡ leb 4 (depth s)
  pub ordered : is_stopped s ≡ false → is_some c.merchant_order_id ≡ leb 5 (depth s)
  pub settled : is_stopped s ≡ false → is_some c.settlement_tx_hash ≡ leb 7 (depth s)
  pub unsettled : is_stopped s ≡ true → c.settlement_tx_hash ≡ none

update-Fits :
    (a b : PurchaseState) (c : PurchaseContext) (e : PurchaseEvent)
    → transitions a (type_of e) ≡ some b
    → Fits a c
    → Fits b (update_context e c)
unfolding transitions update_context
update-Fits a b c e h f = ground arith

transitions-depth :
    (a b : PurchaseState) (e : EventType) → transitions a e ≡ some b → depth a + 1 ≤ depth b
unfolding transitions
transitions-depth a b e h = ground arith

-- Messages, the latest first, that lead along the table from `INITIATED` to a state.
abbrev pub Linked : List WorkflowEvent → PurchaseState → Type 0
Linked [] s = initiated ≡ s
Linked (e ∷ es) s =
    (e.current_state ≡ s)
    × (transitions e.previous_state e.event ≡ some s)
    × Linked es e.previous_state

pub Linked-depth : (es : List WorkflowEvent) (s : PurchaseState) → Linked es s → length es ≤ depth s
Linked-depth [] s h = omega arith
Linked-depth (e ∷ es) s (h, t, l) =
    omega
      (arith, Linked-depth es e.previous_state l, transitions-depth e.previous_state s e.event t)

pub apply_event-Fits :
    (a b : PurchaseState) (e : PurchaseEvent) (c d : PurchaseContext)
    → apply_event a e c ≡ some (b, d)
    → Fits a c
    → (transitions a (type_of e) ≡ some b) × Fits b d
unfolding apply_event
apply_event-Fits a b e c d h f = elim (Option-cases (transitions a (type_of e))) [
  | inl none_next ↦ absurd (ground (arith, none_next, h))
  | inr (next, valid) ↦ let fits = update-Fits a next c e valid f in ground (arith, valid, h, fits)
]
