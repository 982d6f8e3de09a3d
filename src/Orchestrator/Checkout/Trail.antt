-- ===== src/Orchestrator/Checkout/Trail.antt =====
-- What the events of a checkout tell of it.
use delego.Base.{
  ℕ, suc, ◌≤◌, String, Bool, true, false, Option, none, some, List, [], ◌∷◌, ◌++◌, length,
  length-append, ◌≡◌, refl, arith,
}
use delego.Orchestrator.Checkout.{
  CheckoutState, initiated, pending_approval, approved, funding, completed, cancelled,
  CheckoutCancellationReason, CheckoutWorkflowEvent, event_of, initial_workflow, is_terminal,
  is_allowed, is_valid_reason,
}

-- The moves of a checkout. Only a cancellation changes the reason that is kept, and it has one.
pub data Move
    : CheckoutState → CheckoutState → (kept : Option CheckoutCancellationReason) → Type 0 where
  ask : Move initiated pending_approval none
  approve : Move pending_approval approved none
  fund : Move approved funding none
  complete : Move funding completed none
  cancel :
      (from : CheckoutState) (reason : CheckoutCancellationReason)
      → is_terminal from ≡ false
      → is_valid_reason reason ≡ true
      → Move from cancelled (some reason)

-- The events of a checkout that has come to a state with the reason that is kept there.
pub data Trail (order_id correlation_id : String)
    : List CheckoutWorkflowEvent → CheckoutState → Option CheckoutCancellationReason → Type 0 where
  start :
      (now : ℕ)
      → Trail order_id correlation_id
          (event_of (initial_workflow order_id correlation_id) initiated none now ∷ [])
          initiated
          none
  move :
      {events : List CheckoutWorkflowEvent} {from to : CheckoutState}
      {before kept : Option CheckoutCancellationReason}
      → Trail order_id correlation_id events from before
      → Move from to kept
      → (event : CheckoutWorkflowEvent) → event.order_id ≡ order_id
      → event.correlation_id ≡ correlation_id
      → event.type ≡ to
      → event.from_state ≡ from
      → event.to_state ≡ to
      → Trail order_id correlation_id (events ++ (event ∷ [])) to kept

abbrev pub is_cancelled : CheckoutState → Bool
is_cancelled cancelled = true
is_cancelled _ = false

pub allowed-Move :
    (from to : CheckoutState)
    → is_allowed from to ≡ true
    → is_cancelled to ≡ false
    → Move from to none
allowed-Move initiated initiated h n = absurd (cc)
allowed-Move initiated pending_approval h n = ask
allowed-Move initiated approved h n = absurd (cc)
allowed-Move initiated funding h n = absurd (cc)
allowed-Move initiated completed h n = absurd (cc)
allowed-Move initiated cancelled h n = absurd (cc)
allowed-Move pending_approval initiated h n = absurd (cc)
allowed-Move pending_approval pending_approval h n = absurd (cc)
allowed-Move pending_approval approved h n = approve
allowed-Move pending_approval funding h n = absurd (cc)
allowed-Move pending_approval completed h n = absurd (cc)
allowed-Move pending_approval cancelled h n = absurd (cc)
allowed-Move approved initiated h n = absurd (cc)
allowed-Move approved pending_approval h n = absurd (cc)
allowed-Move approved approved h n = absurd (cc)
allowed-Move approved funding h n = fund
allowed-Move approved completed h n = absurd (cc)
allowed-Move approved cancelled h n = absurd (cc)
allowed-Move funding initiated h n = absurd (cc)
allowed-Move funding pending_approval h n = absurd (cc)
allowed-Move funding approved h n = absurd (cc)
allowed-Move funding funding h n = absurd (cc)
allowed-Move funding completed h n = complete
allowed-Move funding cancelled h n = absurd (cc)
allowed-Move completed to h n = absurd (cc)
allowed-Move cancelled to h n = absurd (cc)

pub Trail-none :
    {order_id correlation_id : String} {events : List CheckoutWorkflowEvent} {s : CheckoutState}
    {kept : Option CheckoutCancellationReason}
    → Trail order_id correlation_id events s kept
    → is_cancelled s ≡ false
    → kept ≡ none
Trail-none (start now) h = refl
Trail-none (move t ask _ _ _ _ _ _) h = refl
Trail-none (move t approve _ _ _ _ _ _) h = refl
Trail-none (move t fund _ _ _ _ _ _) h = refl
Trail-none (move t complete _ _ _ _ _ _) h = refl
Trail-none (move t (cancel _ _ _ _) _ _ _ _ _ _) h = absurd (cc)

pub running_state : (s : CheckoutState) → is_terminal s ≡ false → is_cancelled s ≡ false
running_state s h = ground arith

pub limit : CheckoutState → ℕ
limit initiated = 1
limit pending_approval = 2
limit approved = 3
limit funding = 4
limit completed = 5
limit cancelled = 5

Move-limit :
    {from to : CheckoutState} {kept : Option CheckoutCancellationReason}
    → Move from to kept
    → suc (limit from) ≤ limit to
unfolding limit
Move-limit ask = omega arith
Move-limit approve = omega arith
Move-limit fund = omega arith
Move-limit complete = omega arith
Move-limit (cancel initiated _ _ _) = omega arith
Move-limit (cancel pending_approval _ _ _) = omega arith
Move-limit (cancel approved _ _ _) = omega arith
Move-limit (cancel funding _ _ _) = omega arith
Move-limit (cancel completed _ h _) = absurd (cc)
Move-limit (cancel cancelled _ h _) = absurd (cc)

pub Trail-limit :
    {order_id correlation_id : String} {events : List CheckoutWorkflowEvent} {s : CheckoutState}
    {kept : Option CheckoutCancellationReason}
    → Trail order_id correlation_id events s kept
    → length events ≤ limit s
unfolding limit
Trail-limit (start now) = omega arith
Trail-limit (move {events} t m event _ _ _ _ _) =
    omega (arith, length-append events (event ∷ []), Trail-limit t, Move-limit m)

pub limit-five : (s : CheckoutState) → limit s ≤ 5
unfolding limit
limit-five s = ground arith
