-- ===== src/Payments/Dedup/Once.antt =====
-- How often an escrow contract event is handled (apps/backend/payments/events/dedup-store.ts).
use delego.Base.{
  ℕ, suc, ◌+◌, ◌≡◌, refl, ap, ◌∙◌, String, Bool, true, false, not, ◌&&◌, ◌||◌, List, [], ◌∷◌,
  if◌then◌else◌, str_eq, eq_iff, arith, Bool-cases, inl, inr,
}
use delego.Base.Maps.{lookup, lookup-insert}
use delego.Payments.Dedup.{
  EscrowContractEvent, World, has, mark_processed, Delivered, duplicate, event_id_of,
  handle_and_mark, process_escrow_contract_event,
}

pub record Delivery : Type 0 where
  pub event : EscrowContractEvent
  pub handler_works : Bool
  pub now : ℕ

abbrev pub process : Delivery → World → Delivered × World
process d w = process_escrow_contract_event d.event d.handler_works d.now w

unfoldable pub process_all : List Delivery → World → World
process_all [] w = w
process_all (d ∷ ds) w = process_all ds (process d w).1

abbrev pub times : String → List String → ℕ
times id [] = 0
times id (k ∷ ks) = if str_eq k id then suc (times id ks) else times id ks

abbrev pub any_working : String → List Delivery → Bool
any_working id [] = false
any_working id (d ∷ ds) = (str_eq (event_id_of d.event) id && d.handler_works) || any_working id ds

abbrev pub bit : Bool → ℕ
bit true = 1
bit false = 0

abbrev is_new : Delivery → World → Bool
is_new d w = d.handler_works && not (has (event_id_of d.event) w)

has-mark_processed :
    (id key contract : String) (now : ℕ) (w : World)
    → has id (mark_processed key contract now w) ≡ (str_eq key id || has id w)
unfolding has mark_processed
has-mark_processed id key contract now w = ground (
  arith,
  lookup-insert w.processed key id
      (record { event_id = key; contract_id = contract; processed_at = now }),
)

-- What a delivery does, by whether it is marked and its handler works.
pub data ProcessCase (d : Delivery) (w : World) : Type 0 where
  left_alone : is_new d w ≡ false → (process d w).1 ≡ w → ProcessCase d w
  worked_through :
      is_new d w ≡ true
      → (process d w).1
        ≡ mark_processed
            (event_id_of d.event)
            d.event.contract_id
            d.now
            (record w { handled = event_id_of d.event ∷ w.handled })
      → ProcessCase d w

process-cases : (d : Delivery) (w : World) → ProcessCase d w
unfolding process_escrow_contract_event handle_and_mark
process-cases d w = elim (Bool-cases (has (event_id_of d.event) w)) [
  | inl marked ↦ left_alone (ground (arith, marked)) (rw marked refl)
  | inr unmarked ↦ elim (Bool-cases d.handler_works) [
    | inl works ↦ worked_through (ground (arith, unmarked, works)) (rw (unmarked, works) refl)
    | inr fails ↦ left_alone (ground (arith, fails)) (rw (unmarked, fails) refl)
  ]
]

had-old : (same new had : Bool) → new ≡ false → had ≡ ((same && new) || had)
had-old same new had h = ground arith

had-new : (same new had : Bool) → new ≡ true → (same || had) ≡ ((same && new) || had)
had-new same new had h = ground arith

count-old : (same new : Bool) (n : ℕ) → new ≡ false → n ≡ bit (same && new) + n
count-old same new n h = ground arith

count-new :
    (same new : Bool) (n : ℕ) → new ≡ true → (if same then suc n else n) ≡ bit (same && new) + n
count-new same new n h = ground arith

has-process :
    (id : String) (d : Delivery) (w : World)
    → has id (process d w).1 ≡ ((str_eq (event_id_of d.event) id && is_new d w) || has id w)
unfolding has
has-process id d w = elim (process-cases d w) [
  | left_alone old same ↦
      ap (has id) same ∙ had-old (str_eq (event_id_of d.event) id) (is_new d w) (has id w) old
  | worked_through new marked ↦
      ap (has id) marked
      ∙ has-mark_processed id (event_id_of d.event) d.event.contract_id d.now _
      ∙ had-new (str_eq (event_id_of d.event) id) (is_new d w) (has id w) new
]

times-process :
    (id : String) (d : Delivery) (w : World)
    → times id (process d w).1.handled
      ≡ bit (str_eq (event_id_of d.event) id && is_new d w) + times id w.handled
unfolding mark_processed
times-process id d w = elim (process-cases d w) [
  | left_alone old same ↦
      ap (λ v. times id v.handled) same
      ∙ count-old (str_eq (event_id_of d.event) id) (is_new d w) (times id w.handled) old
  | worked_through new marked ↦
      ap (λ v. times id v.handled) marked
      ∙ count-new (str_eq (event_id_of d.event) id) (is_new d w) (times id w.handled) new
]

counted :
    (same works had_own had later : Bool) (n : ℕ)
    → (same ≡ true → had_own ≡ had)
    → bit (not ((same && (works && not had_own)) || had) && later)
        + (bit (same && (works && not had_own)) + n)
      ≡ bit (not had && ((same && works) || later)) + n
counted same works had_own had later n e = ground arith

nothing_more : (b : Bool) → bit b + 0 ≡ bit b
nothing_more b = omega arith

process_all-times :
    (id : String) (ds : List Delivery) (w : World)
    → times id (process_all ds w).handled
      ≡ bit (not (has id w) && any_working id ds) + times id w.handled
unfolding process_all
process_all-times id [] w = ground arith
process_all-times id (d ∷ ds) w =
    rw (process_all-times id ds (process d w).1, has-process id d w, times-process id d w)
      (counted (str_eq (event_id_of d.event) id) d.handler_works (has (event_id_of d.event) w)
        (has id w) (any_working id ds) (times id w.handled)
        (λ same. ap (λ k. has k w) ((eq_iff (event_id_of d.event) id).0 same)))

abbrev pub nothing_processed : World
nothing_processed = record { processed = []; handled = [] }

-- When deliveries are processed one after another, in whatever order and however often each event
-- arrives, the events of an id are worked through exactly once if a handler works for one of them,
-- and never otherwise: a delivery whose handler fails leaves it to a later one.
pub process_all-once :
    (id : String) (ds : List Delivery)
    → times id (process_all ds nothing_processed).handled ≡ bit (any_working id ds)
unfolding has lookup
process_all-once id ds =
    process_all-times id ds nothing_processed ∙ nothing_more (any_working id ds)

has-handle_and_mark :
    (event : EscrowContractEvent) (now : ℕ) (w : World)
    → has (event_id_of event) (handle_and_mark event true now w).1 ≡ true
unfolding handle_and_mark
has-handle_and_mark event now w =
    let own : str_eq (event_id_of event) (event_id_of event) ≡ true =
      (eq_iff (event_id_of event) (event_id_of event)).1 refl in
    has-mark_processed (event_id_of event) (event_id_of event) event.contract_id now _ ∙ rw own refl

-- Two deliveries of an event that has not been processed, with handlers that work, overlap so
-- that both have asked the store before either has marked the event: both handle it, so that it
-- is handled twice. A delivery that asks after the first is done is skipped.
pub handle_and_mark-twice :
    (event : EscrowContractEvent) (now later : ℕ) (w : World)
    → has (event_id_of event) w ≡ false
    → ((process_escrow_contract_event event true now w).1.handled ≡ event_id_of event ∷ w.handled)
      × ((handle_and_mark event true later
            (process_escrow_contract_event event true now w).1).1.handled
          ≡ event_id_of event ∷ event_id_of event ∷ w.handled)
      × ((process_escrow_contract_event event true later
            (process_escrow_contract_event event true now w).1).0
          ≡ duplicate)
unfolding process_escrow_contract_event handle_and_mark mark_processed
handle_and_mark-twice event now later w unmarked =
    let marked = has-handle_and_mark event now w in
    (rw unmarked refl, rw unmarked refl, rw (unmarked, marked) refl)
