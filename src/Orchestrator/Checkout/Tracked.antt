-- ===== src/Orchestrator/Checkout/Tracked.antt =====
-- A checkout is tracked by the events that it emits.
use delego.Base.{
  ℕ, ◌≤◌, String, true, false, Option, none, some, List, [], ◌∷◌, ◌++◌, length, ◌≡◌, refl, sym, ◌∙◌,
  ap, subst, arith, Bool-cases, inl, inr,
}
use mathlib.Core.List.{append_assoc}
use delego.Orchestrator.Checkout.{
  CheckoutState, initiated, pending_approval, approved, funding, completed, cancelled,
  CheckoutCancellationReason, CheckoutWorkflowEvent, Sinks, CheckoutWorkflow, event_of,
  initial_workflow, new_checkout_workflow, Moved, is_terminal, is_allowed, truthy, is_valid_reason,
  move_to, cancel_for, enter, transition_to,
}
use delego.Orchestrator.Checkout.Trail.{
  Move, cancel, Trail, start, move, is_cancelled, allowed-Move, Trail-none, running_state,
  Trail-limit, limit-five,
}

-- A call of `transitionTo`: the state, the reason and the time.
pub record Call : Type 0 where
  pub next : CheckoutState
  pub reason : Option CheckoutCancellationReason
  pub now : ℕ

-- Calls one after the other, whatever each ends with.
unfoldable pub run_calls : List Call → CheckoutWorkflow → Sinks → CheckoutWorkflow × Sinks
run_calls [] w sinks = (w, sinks)
run_calls (call ∷ calls) w sinks =
    let (_, w', sinks') = transition_to call.next call.reason call.now w sinks in
    run_calls calls w' sinks'

-- The sinks have what was there before and then the trail of the checkout.
pub record Tracked (order_id correlation_id : String) (before : Sinks) (w : CheckoutWorkflow)
    (sinks : Sinks) : Type 0 where
  pub events : List CheckoutWorkflowEvent
  pub trail : Trail order_id correlation_id events w.state w.cancellation_reason
  pub of_order : w.order_id ≡ order_id
  pub of_correlation : w.correlation_id ≡ correlation_id
  pub emitted : sinks.emitted ≡ before.emitted ++ events
  pub published : sinks.published ≡ before.published ++ events

module _ (order_id correlation_id : String) (before : Sinks) where
  abbrev TrackedAt : Moved × CheckoutWorkflow × Sinks → Type 0
  TrackedAt r = Tracked order_id correlation_id before r.1 r.2

  move_to-Tracked :
      (next : CheckoutState) (reason kept : Option CheckoutCancellationReason) (now : ℕ)
      (w : CheckoutWorkflow) (sinks : Sinks)
      → Tracked order_id correlation_id before w sinks
      → Move w.state next kept
      → TrackedAt (move_to next reason kept now w sinks)
  move_to-Tracked next reason kept now w sinks t m = record {
    events = t.events ++ (event_of w next reason now ∷ []);
    trail = move t.trail m (event_of w next reason now) t.of_order t.of_correlation refl refl refl;
    of_order = t.of_order;
    of_correlation = t.of_correlation;
    emitted =
        ap (λ es. es ++ (event_of w next reason now ∷ [])) t.emitted
        ∙ append_assoc before.emitted t.events _;
    published =
        ap (λ es. es ++ (event_of w next reason now ∷ [])) t.published
        ∙ append_assoc before.published t.events _;
  }

  cancel_for-Tracked :
      (reason : Option CheckoutCancellationReason) (now : ℕ) (w : CheckoutWorkflow) (sinks : Sinks)
      → Tracked order_id correlation_id before w sinks
      → is_terminal w.state ≡ false
      → TrackedAt (cancel_for reason now w sinks)
  cancel_for-Tracked none now w sinks t h = t
  cancel_for-Tracked (some reason) now w sinks t h = elim (Bool-cases (is_valid_reason reason)) [
    | inl fine ↦ rw fine (
        move_to-Tracked cancelled (some reason) (some reason) now w sinks t
          (cancel w.state reason h fine))
    | inr bad ↦ rw bad t
  ]

  enter-Tracked :
      (next : CheckoutState) (reason : Option CheckoutCancellationReason) (now : ℕ)
      (w : CheckoutWorkflow) (sinks : Sinks)
      → Tracked order_id correlation_id before w sinks
      → is_terminal w.state ≡ false
      → is_allowed w.state next ≡ true
      → TrackedAt (enter next reason now w sinks)
  enter-Tracked next reason now w sinks t h allowed = by_next next allowed
    where
      none_kept : w.cancellation_reason ≡ none
      none_kept = Trail-none t.trail (running_state w.state h)

      plain :
          (to : CheckoutState)
          → is_allowed w.state to ≡ true
          → is_cancelled to ≡ false
          → TrackedAt (move_to to reason w.cancellation_reason now w sinks)
      plain to allowed ordinary =
          move_to-Tracked to reason w.cancellation_reason now w sinks t
            (subst (Move w.state to) (sym none_kept) (allowed-Move w.state to allowed ordinary))

      by_next :
          (to : CheckoutState)
          → is_allowed w.state to ≡ true
          → TrackedAt (enter to reason now w sinks)
      by_next cancelled a = cancel_for-Tracked reason now w sinks t h
      by_next initiated a = plain initiated a refl
      by_next pending_approval a = plain pending_approval a refl
      by_next approved a = plain approved a refl
      by_next funding a = plain funding a refl
      by_next completed a = plain completed a refl

  transition_to-Tracked :
      (next : CheckoutState) (reason : Option CheckoutCancellationReason) (now : ℕ)
      (w : CheckoutWorkflow) (sinks : Sinks)
      → Tracked order_id correlation_id before w sinks
      → TrackedAt (transition_to next reason now w sinks)
  unfolding transition_to
  transition_to-Tracked next reason now w sinks t = elim (Bool-cases (is_terminal w.state)) [
    | inl over ↦ rw over t
    | inr open_state ↦ rw open_state (elim (Bool-cases (is_allowed w.state next)) [
      | inl allowed ↦
          rw allowed (enter-Tracked next (truthy reason) now w sinks t open_state allowed)
      | inr refused ↦ rw refused t
    ])
  ]

  run_calls-Tracked :
      (calls : List Call) (w : CheckoutWorkflow) (sinks : Sinks)
      → Tracked order_id correlation_id before w sinks
      → let (ended, sinks') = run_calls calls w sinks in
        Tracked order_id correlation_id before ended sinks'
  unfolding run_calls
  run_calls-Tracked [] w sinks t = t
  run_calls-Tracked (call ∷ calls) w sinks t =
      run_calls-Tracked calls _ _ (transition_to-Tracked call.next call.reason call.now w sinks t)

-- A new checkout and any calls of `transitionTo` on it, also such as throw: both sinks get the events
-- of this order and correlation, and nothing else. They are a path through the states from
-- "initiated" that ends in the state of the checkout, each event with the move that it announces;
-- there are at most five of them; and a cancelled checkout has kept one of the known reasons, any
-- other one none.
pub run_calls-Tracked_from_new :
    (order_id correlation_id : String) (now : ℕ) (calls : List Call) (before : Sinks)
    → let (w, sinks) = new_checkout_workflow order_id correlation_id now before in
      let (ended, sinks') = run_calls calls w sinks in
      (t : Tracked order_id correlation_id before ended sinks') × (length t.events ≤ 5)
unfolding new_checkout_workflow
run_calls-Tracked_from_new order_id correlation_id now calls before =
    let t = run_calls-Tracked order_id correlation_id before calls _ _ (record {
      events = event_of (initial_workflow order_id correlation_id) initiated none now ∷ [];
      trail = start now;
      of_order = refl;
      of_correlation = refl;
      emitted = refl;
      published = refl;
    }) in
    (t, omega (arith, Trail-limit t.trail, limit-five _))
