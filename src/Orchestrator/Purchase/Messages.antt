-- ===== src/Orchestrator/Purchase/Messages.antt =====
-- What the messages about a purchase workflow and its stored row say
-- (apps/backend/orchestrator/workflows/purchase/index.ts).
use delego.Base.{
  ℕ, ◌≤◌, ◌≡◌, refl, sym, ap, subst, ◌∙◌, ◌⊎◌, inl, inr, String, true, false, Option, none, some,
  List, [], ◌∷◌, arith, length, filter, Bool-cases, Option-cases, str_eq, eq_iff,
}
use delego.Base.Maps.{lookup, insert, lookup-insert}
use delego.Orchestrator.Purchase.{
  PurchaseState, initiated, PurchaseEvent, PurchaseContext, WorkflowSnapshot, WorkflowEvent,
  apply_event,
}
use delego.Orchestrator.Purchase.Store.{
  Row, Services, Calls, persist_workflow, snapshot_of, load_workflow, publish_event, first_snapshot,
  create_workflow, event_of, next_snapshot, store_move, write_transition, on_loaded,
  transition_workflow,
}
use delego.Orchestrator.Purchase.Chain.{Fits, Linked, depth, apply_event-Fits, Linked-depth}

abbrev pub events_of : String → List WorkflowEvent → List WorkflowEvent
events_of order_id = filter (λ e. str_eq e.order_id order_id)

abbrev pub Tracked : List WorkflowEvent → Option Row → Type 0
Tracked es none = es ≡ []
Tracked es (some row) = Linked es row.state × Fits row.state row.context

-- For every order the messages lead to the state that is stored, whose context fits it.
unfoldable pub IsTracked : Services → Type 0
IsTracked w =
    (order_id : String) → Tracked (events_of order_id w.published) (lookup order_id w.rows)

str_eq_self : (s : String) → str_eq s s ≡ true
str_eq_self s = ground (arith, eq_iff s s)

-- One row is stored, and only messages about its order are published.
stored-IsTracked :
    (w w' : Services) (order_id : String) (row : Row)
    → w'.rows ≡ insert order_id row w.rows
    → ((other : String)
        → str_eq order_id other ≡ false
        → events_of other w'.published ≡ events_of other w.published)
    → Tracked (events_of order_id w'.published) (some row)
    → IsTracked w
    → IsTracked w'
unfolding IsTracked
stored-IsTracked w w' order_id row rows others own h other =
    let found_row = ap (lookup other) rows ∙ lookup-insert w.rows order_id other row in
    elim (Bool-cases (str_eq order_id other)) [
      | inl e ↦
          let found_own : lookup other w'.rows ≡ some row = rw e at found_row in
          let here : Tracked (events_of other w'.published) (some row) =
            subst (λ o. Tracked (events_of o w'.published) (some row)) ((eq_iff order_id other).0 e)
              own in
          subst (Tracked (events_of other w'.published)) (sym found_own) here
      | inr ne ↦
          let kept : lookup other w'.rows ≡ lookup other w.rows = rw ne at found_row in
          let here : Tracked (events_of other w'.published) (lookup other w.rows) =
            subst (λ es. Tracked es (lookup other w.rows)) (sym (others other ne)) (h other) in
          subst (Tracked (events_of other w'.published)) (sym kept) here
    ]

first-Fits :
    (order_id user delegation query : String) (now : ℕ)
    → Fits initiated (first_snapshot order_id user delegation query now).context
first-Fits order_id user delegation query now = ground arith

create-IsTracked :
    (order_id user delegation query : String) (calls : Calls) (w : Services)
    → lookup order_id w.rows ≡ none
    → IsTracked w
    → IsTracked (create_workflow order_id user delegation query calls w).1
unfolding create_workflow persist_workflow IsTracked
create-IsTracked order_id user delegation query calls w fresh h =
    let w' = persist_workflow (first_snapshot order_id user delegation query calls.now) w in
    let none_yet : events_of order_id w.published ≡ [] =
      subst (Tracked (events_of order_id w.published)) fresh (h order_id) in
    elim (Bool-cases calls.persist_works) [
      | inl stored ↦ rw stored (
          stored-IsTracked w w' order_id _ refl (λ other ne. refl)
            (rw none_yet (refl, first-Fits order_id user delegation query calls.now)) h)
      | inr refused ↦ rw refused h
    ]

store_move-IsTracked :
    (order_id : String) (row : Row) (event : PurchaseEvent) (calls : Calls)
    (moved : Option (PurchaseState × PurchaseContext)) (w : Services)
    → calls.publish_works ≡ true
    → lookup order_id w.rows ≡ some row
    → apply_event row.state event row.context ≡ moved
    → IsTracked w
    → IsTracked (store_move (snapshot_of order_id row) event calls moved w).1
unfolding publish_event persist_workflow IsTracked
store_move-IsTracked order_id row event calls none w works has e h = h
store_move-IsTracked order_id row event calls (some (state, context)) w works has e h =
    let (linked, fits) : Tracked (events_of order_id w.published) (some row) =
      subst (Tracked (events_of order_id w.published)) has (h order_id) in
    let (valid, fits') = apply_event-Fits row.state state event row.context context e fits in
    let message = event_of (snapshot_of order_id row) event state context calls.now in
    let saved =
      persist_workflow (next_snapshot (snapshot_of order_id row) state context calls.now) w in
    let w' : Services = record saved { published = message ∷ saved.published } in
    elim (Bool-cases calls.persist_works) [
      | inr refused ↦ rw refused h
      | inl stored ↦
          rw (stored, works)
            (stored-IsTracked w w' order_id _ refl (λ other ne. rw ne refl)
              (rw (str_eq_self order_id) ((refl, valid, linked), fits')) h)
    ]

load_workflow-cases :
    (order_id : String) (w : Services)
    → (load_workflow order_id w ≡ none)
      ⊎ ((row : Row) × (lookup order_id w.rows ≡ some row)
          × (load_workflow order_id w ≡ some (snapshot_of order_id row)))
unfolding load_workflow
load_workflow-cases order_id w = elim (Option-cases (lookup order_id w.rows)) [
  | inl missing ↦ inl (ground (arith, missing))
  | inr (row, has) ↦ inr (row, has, ground (arith, has))
]

on_loaded-IsTracked :
    (order_id : String) (event : PurchaseEvent) (calls : Calls) (w : Services)
    → calls.publish_works ≡ true
    → IsTracked w
    → IsTracked (on_loaded order_id event calls (load_workflow order_id w) w).1
unfolding write_transition
on_loaded-IsTracked order_id event calls w works h =
    let Kept : Option WorkflowSnapshot → Type 0 =
      λ loaded. IsTracked (on_loaded order_id event calls loaded w).1 in
    elim (load_workflow-cases order_id w) [
      | inl missing ↦ subst Kept (sym missing) h
      | inr (row, has, loaded) ↦ subst Kept (sym loaded) (
          store_move-IsTracked order_id row event calls (apply_event row.state event row.context) w
            works has refl h)
    ]

transition-IsTracked :
    (order_id : String) (event : PurchaseEvent) (calls : Calls) (w : Services)
    → calls.publish_works ≡ true
    → IsTracked w
    → IsTracked (transition_workflow order_id event calls w).1
unfolding transition_workflow
transition-IsTracked order_id event calls w works h = elim (Bool-cases calls.load_works) [
  | inr refused ↦ simp refused h
  | inl answers ↦ simp answers (on_loaded-IsTracked order_id event calls w works h)
]

pub data Request : Type 0 where
  create : (order_id user delegation query : String) → Calls → Request
  move : (order_id : String) → PurchaseEvent → Calls → Request

abbrev pub perform : Request → Services → Services
perform (create order_id user delegation query calls) w =
    (create_workflow order_id user delegation query calls w).1
perform (move order_id event calls) w = (transition_workflow order_id event calls w).1

unfoldable pub perform_all : List Request → Services → Services
unfolding create_workflow transition_workflow
perform_all [] w = w
perform_all (r ∷ rs) w = perform_all rs (perform r w)

-- A generated id is new, and Redis takes the messages.
abbrev pub IsOrdinary : Request → Services → Type 0
IsOrdinary (create order_id _ _ _ _) w = lookup order_id w.rows ≡ none
IsOrdinary (move _ _ calls) w = calls.publish_works ≡ true

abbrev pub AreOrdinary : List Request → Services → Type 0
AreOrdinary [] w = Unit
AreOrdinary (r ∷ rs) w = IsOrdinary r w × AreOrdinary rs (perform r w)

perform-IsTracked :
    (r : Request) (w : Services) → IsOrdinary r w → IsTracked w → IsTracked (perform r w)
perform-IsTracked (create order_id user delegation query calls) w fresh h =
    create-IsTracked order_id user delegation query calls w fresh h
perform-IsTracked (move order_id event calls) w works h =
    transition-IsTracked order_id event calls w works h

all-IsTracked :
    (rs : List Request) (w : Services)
    → AreOrdinary rs w
    → IsTracked w
    → IsTracked (perform_all rs w)
unfolding perform_all
all-IsTracked [] w ready h = h
all-IsTracked (r ∷ rs) w (ready, more) h =
    all-IsTracked rs (perform r w) more (perform-IsTracked r w ready h)

abbrev pub nothing_yet : Services
nothing_yet = record { rows = []; published = [] }

nothing-IsTracked : IsTracked nothing_yet
unfolding IsTracked lookup
nothing-IsTracked order_id = refl

-- After any creations and transitions of any workflows, some refused by the table or by the
-- database, when ids are new and Redis takes the messages: for each stored workflow the messages
-- about it lead along the table from INITIATED to its stored state, and its context holds exactly
-- what that state says has happened, a cancelled or failed one having no settlement; and there are
-- no messages about an order that is not stored.
pub perform_all-Tracked :
    (rs : List Request) (order_id : String)
    → AreOrdinary rs nothing_yet
    → Tracked
        (events_of order_id (perform_all rs nothing_yet).published)
        (lookup order_id (perform_all rs nothing_yet).rows)
unfolding IsTracked
perform_all-Tracked rs order_id ready =
    all-IsTracked rs nothing_yet ready nothing-IsTracked order_id

depth_le : (s : PurchaseState) → depth s ≤ 8
depth_le s = ground arith

short_enough : (es : List WorkflowEvent) (row : Option Row) → Tracked es row → length es ≤ 8
short_enough es none h = subst (λ l. length l ≤ 8) (sym h) (omega arith)
short_enough es (some row) (linked, fits) =
    omega (arith, Linked-depth es row.state linked, depth_le row.state)

-- After any creations and transitions of any workflows, when ids are new and Redis takes the
-- messages, at most eight transitions of one workflow have been announced, however many were
-- asked for.
pub perform_all-short :
    (rs : List Request) (order_id : String)
    → AreOrdinary rs nothing_yet
    → length (events_of order_id (perform_all rs nothing_yet).published) ≤ 8
perform_all-short rs order_id ready =
    let es = events_of order_id (perform_all rs nothing_yet).published in
    short_enough es (lookup order_id (perform_all rs nothing_yet).rows)
      (perform_all-Tracked rs order_id ready)
