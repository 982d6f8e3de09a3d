-- ===== src/Orchestrator/Checkout/Overdue.antt =====
-- What the timer of an order does to it.
use delego.Base.{
  ℕ, String, Bool, true, false, Option, none, some, ◌∷◌, ◌++◌, ◌≡◌, ◌≢◌, refl, sym, subst, ap, ◌∙◌,
  inl, inr, Bool-cases, if◌then◌else◌, eq_iff, arith,
}
use delego.Base.Maps.{lookup, lookup-insert}
use delego.Base.Text.{Text, text, includes, includes-append}
use delego.Orchestrator.Purchase
use delego.Orchestrator.Purchase.{
  PurchaseState, PurchaseEvent, PurchaseContext, type_cancel, transitions, update_context,
  WorkflowSnapshot, WorkflowEvent, apply_event,
}
use delego.Orchestrator.Purchase.Store.{
  Services, Calls, load_workflow, Reply, Row, publish_event, persist_workflow, snapshot_of,
  store_move, write_transition, transition_workflow,
}
use delego.Orchestrator.Purchase.Race.{load-persist, publish_event-rows}
use delego.Orchestrator.Checkout.Timeout.{
  TimedOut, order_cancelled, skipped, state_name, handled, handle_timeout, is_before_delivery,
}

abbrev cancellation : PurchaseEvent
cancellation = Purchase.cancel "checkout_timeout"

found_in :
    (name : Text)
    → includes (text "Invalid transition") (text "Invalid transition: CANCEL from " ++ name) ≡ true
unfolding includes
found_in name =
    includes-append (text "Invalid transition") (text "Invalid transition: CANCEL from ") name refl

-- A state from which a purchase can be cancelled, or one that refuses it.
data ByCancel (s : PurchaseState) (ctx : PurchaseContext) : Type 0 where
  cancels :
      apply_event s cancellation ctx
        ≡ some (PurchaseState.cancelled, update_context cancellation ctx)
      → is_before_delivery s ≡ true
      → ByCancel s ctx
  refuses :
      apply_event s cancellation ctx ≡ none
      → is_before_delivery s ≡ false
      → includes
          (text "Invalid transition")
          (text "Invalid transition: CANCEL from " ++ state_name s)
        ≡ true
      → ByCancel s ctx

by_cancel : (s : PurchaseState) (ctx : PurchaseContext) → ByCancel s ctx
unfolding apply_event transitions
by_cancel PurchaseState.initiated ctx = cancels refl refl
by_cancel PurchaseState.searching ctx = cancels refl refl
by_cancel PurchaseState.found ctx = cancels refl refl
by_cancel PurchaseState.approved ctx = cancels refl refl
by_cancel PurchaseState.escrow_funded ctx = cancels refl refl
by_cancel PurchaseState.purchased ctx = cancels refl refl
by_cancel PurchaseState.delivering ctx =
    refuses refl refl (found_in (state_name PurchaseState.delivering))
by_cancel PurchaseState.delivered ctx =
    refuses refl refl (found_in (state_name PurchaseState.delivered))
by_cancel PurchaseState.completed ctx =
    refuses refl refl (found_in (state_name PurchaseState.completed))
by_cancel PurchaseState.cancelled ctx =
    refuses refl refl (found_in (state_name PurchaseState.cancelled))
by_cancel PurchaseState.failed ctx = refuses refl refl (found_in (state_name PurchaseState.failed))

-- The order as a cancellation by the timer leaves it.
abbrev pub cancelled_order : WorkflowSnapshot → ℕ → WorkflowSnapshot
cancelled_order snapshot now = record {
  order_id = snapshot.order_id;
  state = PurchaseState.cancelled;
  context = record snapshot.context { error = some "checkout_timeout" };
  updated_at = now;
}

-- The message about it.
abbrev pub cancelled_event : WorkflowSnapshot → ℕ → WorkflowEvent
cancelled_event snapshot now = record {
  order_id = snapshot.order_id;
  user_id = snapshot.context.user_id;
  previous_state = snapshot.state;
  current_state = PurchaseState.cancelled;
  event = type_cancel;
  timestamp = now;
}

-- What the timer does to a stored order, by whether it can be cancelled.
pub TimedBy : Bool → WorkflowSnapshot → Calls → Services → TimedOut × Services → Type 0
TimedBy true snapshot calls w (end, w') =
    (end ≡ order_cancelled)
    × (load_workflow snapshot.order_id w' ≡ some (cancelled_order snapshot calls.now))
    × ((k : String) → k ≢ snapshot.order_id → load_workflow k w' ≡ load_workflow k w)
    × (w'.published ≡ (
        if calls.publish_works
        then cancelled_event snapshot calls.now ∷ w.published
        else w.published))
TimedBy false snapshot calls w (end, w') = (end ≡ skipped) × (w' ≡ w)

abbrev pub Timed : WorkflowSnapshot → Calls → Services → TimedOut × Services → Type 0
Timed snapshot calls w r = TimedBy (is_before_delivery snapshot.state) snapshot calls w r

publish_event-published :
    (evt : WorkflowEvent) (calls : Calls) (w : Services)
    → (publish_event evt calls w).published
      ≡ (if calls.publish_works then evt ∷ w.published else w.published)
unfolding publish_event
publish_event-published evt calls w = elim (Bool-cases calls.publish_works) [
  | inl works ↦ rw works refl
  | inr fails ↦ rw fails refl
]

load-persist_other :
    (snapshot : WorkflowSnapshot) (evt : WorkflowEvent) (calls : Calls) (w : Services) (k : String)
    → k ≢ snapshot.order_id
    → load_workflow k (publish_event evt calls (persist_workflow snapshot w)) ≡ load_workflow k w
unfolding load_workflow persist_workflow
load-persist_other snapshot evt calls w k ne =
    let rows : lookup k (publish_event evt calls (persist_workflow snapshot w)).rows
        ≡ lookup k w.rows =
      ap (lookup k) (publish_event-rows evt calls (persist_workflow snapshot w))
      ∙ lookup-insert w.rows snapshot.order_id k _
      ∙ ground (arith, eq_iff snapshot.order_id k) in
    ap {A = Option Row} {B = Option WorkflowSnapshot}
      (λ row. elim row [ none ↦ none | some r ↦ some (snapshot_of k r) ]) rows

write-Timed :
    (snapshot : WorkflowSnapshot) (calls : Calls) (database : Text) (w : Services)
    → calls.persist_works ≡ true
    → Timed snapshot calls w (handled database (write_transition snapshot cancellation calls w))
unfolding write_transition TimedBy
write-Timed snapshot calls database w works = by (by_cancel snapshot.state snapshot.context)
  where
    at : Reply WorkflowSnapshot × Services → Type 0
    at r = Timed snapshot calls w (handled database r)

    stored :
        (o : Option (PurchaseState × PurchaseContext))
        → apply_event snapshot.state cancellation snapshot.context ≡ o
        → at (store_move snapshot cancellation calls o w)
        → at (write_transition snapshot cancellation calls w)
    stored o h t = subst (λ o. at (store_move snapshot cancellation calls o w)) (sym h) t

    by :
        ByCancel snapshot.state snapshot.context
        → at (write_transition snapshot cancellation calls w)
    by (cancels applied before) =
        let next = cancelled_order snapshot calls.now in
        let event = cancelled_event snapshot calls.now in
        stored _ applied (
          rw (works, before)
            (
              refl,
              load-persist next event calls w,
              load-persist_other next event calls w,
              publish_event-published event calls (persist_workflow next w),
            ))
    by (refuses applied after skips) = stored _ applied (rw (after, skips) (refl, refl))

-- When the timer of a stored order is due and the database works, it does not throw. An order that
-- has not got as far as its delivery is cancelled, also if its escrow has been funded or the purchase
-- has been made: the stored order is in the state CANCELLED, with "checkout_timeout" as its error and
-- the rest of its context kept, every other order is as it was, and the message about it is published
-- if Redis works. For an order that is being delivered, or later, or at an end, nothing at all is
-- stored or published.
pub handle_timeout-Timed :
    (snapshot : WorkflowSnapshot) (calls : Calls) (database : Text) (w : Services)
    → calls.load_works ≡ true
    → calls.persist_works ≡ true
    → load_workflow snapshot.order_id w ≡ some snapshot
    → Timed snapshot calls w (handle_timeout snapshot.order_id calls database w)
unfolding handle_timeout transition_workflow
handle_timeout-Timed snapshot calls database w loads works loaded =
    simp loads (rw loaded (write-Timed snapshot calls database w works))
