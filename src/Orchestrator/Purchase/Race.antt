-- ===== src/Orchestrator/Purchase/Race.antt =====
-- Two transitions of one workflow that overlap: both load it before either stores it
-- (apps/backend/orchestrator/workflows/purchase/index.ts).
use delego.Base.{
  ℕ, ◌≡◌, refl, sym, ap, subst, ◌∙◌, inl, inr, String, Bool, true, false, Option, none, some, arith,
  str_eq, eq_iff, Bool-cases,
}
use delego.Base.Maps.{Map, lookup, insert, lookup-insert}
use delego.Orchestrator.Purchase.{
  WorkflowEvent, PurchaseState, completed, cancelled, failed, PurchaseEvent, EventType, type_of,
  PurchaseContext, WorkflowSnapshot, transitions, apply_event,
}
use delego.Orchestrator.Purchase.Store.{
  Row, Services, Calls, persist_workflow, snapshot_of, load_workflow, publish_event, reply,
  invalid_transition, next_snapshot, event_of, store_move, write_transition, on_loaded,
  transition_workflow,
}

abbrev pub is_final : PurchaseState → Bool
is_final completed = true
is_final cancelled = true
is_final failed = true
is_final _ = false

final-none : (s : PurchaseState) (e : EventType) → is_final s ≡ true → transitions s e ≡ none
unfolding transitions
final-none s e h = ground arith

apply_event-final :
    (s : PurchaseState) (e : PurchaseEvent) (c : PurchaseContext)
    → is_final s ≡ true
    → apply_event s e c ≡ none
unfolding apply_event
apply_event-final s e c h = ground (arith, final-none s (type_of e) h)

load-row :
    (order_id : String) (w : Services) (row : Row)
    → lookup order_id w.rows ≡ some row
    → load_workflow order_id w ≡ some (snapshot_of order_id row)
unfolding load_workflow
load-row order_id w row h = ground (arith, h)

pub publish_event-rows :
    (evt : WorkflowEvent) (calls : Calls) (w : Services) → (publish_event evt calls w).rows ≡ w.rows
unfolding publish_event
publish_event-rows evt calls w = elim (Bool-cases calls.publish_works) [
  | inl works ↦ rw works refl
  | inr fails ↦ rw fails refl
]

lookup-insert_own :
    {A : Type 0} (m : Map A) (key : String) (value : A)
    → lookup key (insert key value m) ≡ some value
lookup-insert_own {A = A} m key value =
    let own : str_eq key key ≡ true = ground (arith, eq_iff key key) in
    let found = lookup-insert m key key value in rw own at found

pub load-persist :
    (snapshot : WorkflowSnapshot) (evt : WorkflowEvent) (calls : Calls) (w : Services)
    → load_workflow snapshot.order_id (publish_event evt calls (persist_workflow snapshot w))
      ≡ some snapshot
unfolding persist_workflow
load-persist snapshot evt calls w =
    load-row snapshot.order_id (publish_event evt calls (persist_workflow snapshot w)) _ (
      ap (lookup snapshot.order_id) (publish_event-rows evt calls (persist_workflow snapshot w))
      ∙ lookup-insert_own w.rows snapshot.order_id _)

-- What a valid transition replies with is what is loaded after it, whatever was stored before.
write-loads :
    (snapshot : WorkflowSnapshot) (e : PurchaseEvent) (calls : Calls) (s : PurchaseState)
    (c : PurchaseContext) (w : Services)
    → apply_event snapshot.state e snapshot.context ≡ some (s, c)
    → calls.persist_works ≡ true
    → ((write_transition snapshot e calls w).0 ≡ reply (next_snapshot snapshot s c calls.now))
      × (load_workflow snapshot.order_id (write_transition snapshot e calls w).1
          ≡ some (next_snapshot snapshot s c calls.now))
unfolding write_transition
write-loads snapshot e calls s c w applied works =
    let Replied : Option (PurchaseState × PurchaseContext) → Type 0 = λ moved.
      ((store_move snapshot e calls moved w).0 ≡ reply (next_snapshot snapshot s c calls.now))
      × (load_workflow snapshot.order_id (store_move snapshot e calls moved w).1
          ≡ some (next_snapshot snapshot s c calls.now)) in
    subst Replied (sym applied) (
      simp works (
        refl,
        load-persist (next_snapshot snapshot s c calls.now) (event_of snapshot e s c calls.now)
            calls w,
      ))

late-refused :
    (snapshot : WorkflowSnapshot) (f : PurchaseEvent) (calls : Calls) (s : PurchaseState)
    (c : PurchaseContext) (now : ℕ) (w : Services)
    → is_final s ≡ true
    → load_workflow snapshot.order_id w ≡ some (next_snapshot snapshot s c now)
    → (on_loaded snapshot.order_id f calls (load_workflow snapshot.order_id w) w).0
      ≡ invalid_transition (type_of f) s
unfolding write_transition
late-refused snapshot f calls s c now w final loaded =
    let Refused : Option WorkflowSnapshot → Type 0 =
      λ found. (on_loaded snapshot.order_id f calls found w).0 ≡ invalid_transition (type_of f) s in
    let Stopped : Option (PurchaseState × PurchaseContext) → Type 0 = λ moved.
      (store_move (next_snapshot snapshot s c now) f calls moved w).0
      ≡ invalid_transition (type_of f) s in
    subst Refused (sym loaded) (subst Stopped (sym (apply_event-final s f c final)) refl)

-- Two transitions that are both valid for a workflow, the first of which ends it, and that both
-- load it before either stores, both succeed when the database answers; what is stored then is
-- the second alone, computed from the workflow as it was before the first. One that loads after
-- the first is refused.
pub write_transition-overwrites :
    (snapshot : WorkflowSnapshot) (e f : PurchaseEvent) (calls calls' : Calls) (s t : PurchaseState)
    (c d : PurchaseContext) (w : Services)
    → apply_event snapshot.state e snapshot.context ≡ some (s, c)
    → apply_event snapshot.state f snapshot.context ≡ some (t, d)
    → is_final s ≡ true
    → calls.persist_works ≡ true
    → calls'.persist_works ≡ true
    → calls'.load_works ≡ true
    → ((write_transition snapshot e calls w).0 ≡ reply (next_snapshot snapshot s c calls.now))
      × ((write_transition snapshot f calls' (write_transition snapshot e calls w).1).0
          ≡ reply (next_snapshot snapshot t d calls'.now))
      × (load_workflow snapshot.order_id
            (write_transition snapshot f calls' (write_transition snapshot e calls w).1).1
          ≡ some (next_snapshot snapshot t d calls'.now))
      × ((transition_workflow snapshot.order_id f calls' (write_transition snapshot e calls w).1).0
          ≡ invalid_transition (type_of f) s)
unfolding transition_workflow
write_transition-overwrites snapshot e f calls calls' s t c d w es fs final works works' loads =
    let first = write-loads snapshot e calls s c w es works in
    let w' = (write_transition snapshot e calls w).1 in
    let second = write-loads snapshot f calls' t d w' fs works' in
    (
      first.0,
      second.0,
      second.1,
      simp loads (late-refused snapshot f calls' s c calls.now w' final first.1),
    )
