-- ===== src/Orchestrator/Checkout/Ends.antt =====
-- How a checkout ends, by the answer to its deposit.
use delego.Base.{ℕ, String, true, none, List, [], ◌∷◌, ◌++◌, ◌≡◌, refl, sym, ◌∙◌, ap, subst}
use delego.Base.Maps.{lookup}
use delego.Orchestrator.Saga.Store.{completed, failed}
use delego.Orchestrator.Saga.Coordinator.{
  Settled, resolved, rejected, Trace, did, action_failed, Coordinator, Constructed, constructed,
  refused, SagaStep, World, run, find_step, step_order,
}
use delego.Orchestrator.Saga.Spec.{End, Shows, spec_do, spec_undo}
use delego.Orchestrator.Saga.Refines.{run-Shows}
use delego.Orchestrator.Checkout.Payments.{
  CheckoutWorkflowInput, CheckoutContext, Payments, call_payments_service, deposited,
  checkout_steps, create_checkout_saga_coordinator, initial_context, checkout_workflow,
}

-- The end of a checkout whose deposit gave an escrow id, or was rejected.
abbrev pub ended_by : Settled CheckoutContext → CheckoutContext → Trace → End CheckoutContext
ended_by (rejected message) c t = record {
  status = failed;
  thrown = none;
  context = c;
  done = [];
  trace = t ++ (action_failed "deposit-escrow" message ∷ []);
}
ended_by (resolved paid) c t = record {
  status = completed;
  thrown = none;
  context = record paid { confirmed = true };
  done = "deposit-escrow" ∷ "confirm-checkout" ∷ [];
  trace = (t ++ (did "deposit-escrow" ∷ [])) ++ (did "confirm-checkout" ∷ []);
}

spec_checkout :
    (p : Payments) (c : CheckoutContext) (t : Trace) (r : Settled CheckoutContext)
    → deposited (call_payments_service (p.deposit t c)) c ≡ r
    → spec_do (checkout_steps p) (step_order (checkout_steps p)) c [] t ≡ ended_by r c t
unfolding spec_do spec_undo find_step
spec_checkout p c t (rejected message) h = rw h refl
spec_checkout p c t (resolved paid) h = rw h refl

steps_or_none : Constructed CheckoutContext → List (SagaStep CheckoutContext)
steps_or_none (constructed co) = co.steps
steps_or_none (refused _) = []

steps_of :
    (p : Payments) (co : Coordinator CheckoutContext)
    → create_checkout_saga_coordinator p ≡ constructed co
    → checkout_steps p ≡ co.steps
unfolding create_checkout_saga_coordinator steps_or_none
steps_of p co h = ap steps_or_none h

-- A checkout under a new saga id, with no other runner, makes one deposit for the initial context.
-- When the payments service rejects it, cannot be reached, or gives no escrow id, the saga is failed
-- with the context as it was; otherwise it is completed and confirmed with that escrow id. The call
-- returns the record that is stored, and never throws.
pub checkout_workflow-Shows :
    (p : Payments) (co : Coordinator CheckoutContext) (clock : ℕ → ℕ)
    (input : CheckoutWorkflowInput) (saga_id : String) (w : World CheckoutContext)
    → create_checkout_saga_coordinator p ≡ constructed co
    → lookup saga_id w.store ≡ none
    → let c = initial_context input in
      let (out, w') = checkout_workflow input co clock saga_id w in
      Shows saga_id
        (ended_by (deposited (call_payments_service (p.deposit w.trace c)) c) c w.trace)
        out
        w'
unfolding checkout_workflow
checkout_workflow-Shows p co clock input saga_id w made new =
    let c = initial_context input in
    let end_of : Coordinator CheckoutContext → End CheckoutContext =
      λ co. spec_do co.steps (step_order co.steps) c [] w.trace in
    let same : (end_of co
        ≡ ended_by (deposited (call_payments_service (p.deposit w.trace c)) c) c w.trace) =
      ap (λ steps. spec_do steps (step_order steps) c [] w.trace) (sym (steps_of p co made))
      ∙ spec_checkout p c w.trace _ refl in
    let (out, w') = run co clock saga_id input.order_id c w in
    subst (λ end. Shows saga_id end out w') same (run-Shows co clock saga_id input.order_id c w new)
