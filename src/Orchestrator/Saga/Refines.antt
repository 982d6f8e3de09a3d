-- ===== src/Orchestrator/Saga/Refines.antt =====
-- A coordinator that runs alone does what the saga specification says
-- (apps/backend/orchestrator/src/saga/coordinator.ts).
use delego.Base.{
  ℕ, ◌+◌, ◌≡◌, refl, ap, filter, not, String, true, false, Option, none, some, List, [], ◌∷◌, ◌++◌,
  reverse,
}
use delego.Base.Maps.{lookup}
use delego.Orchestrator.Saga.Store.{
  SagaRecord, is_incomplete, get, create_if_not_exists, keep_existing, running, compensating,
  completed, failed, SagaStatus,
}
use delego.Orchestrator.Saga.Coordinator.{
  Coordinator, World, Outcome, claimed_record, is_live, SagaStep, find_step, undo_all, do_all,
  compensate, advance, finish, undo_step, after_undo, run_compensation, run_action,
  after_compensation, after_action, missing_message, is_compensating, message_or, remaining,
  unless_finished, resume, run, initial_record, found, step_order, includes, did, undid,
  action_failed, compensation_failed, without, resolved, rejected, Settled, after_do, do_step,
  Trace,
}
use delego.Orchestrator.Saga.Spec.{
  End, Shows, spec_undo, spec_do, spec_undo_step, spec_undone, spec_done, spec_do_step,
}
use delego.Orchestrator.Saga.Alone.{bump, put, Holds, Holds-put, save_record_alone, claim_step_free}

-- Nothing is filtered out of the steps of a saga that has completed none.
remaining_none : (ks : List String) → filter (λ k. not (includes [] k)) ks ≡ ks
remaining_none [] = refl
remaining_none (k ∷ ks) = ap (◌∷◌ k) (remaining_none ks)

module _ {C : Type 0} (co : Coordinator C) (clock : ℕ → ℕ) where
  abbrev ShowsPair : String → End C → Outcome (SagaRecord C) × World C → Type 0
  ShowsPair id end (out, w) = Shows id end out w

  -- What the steps that are left refine, from every record that is held and not leased.
  abbrev UndoRest : List String → String → Type 0
  UndoRest names e =
      (r : SagaRecord C) (w : World C)
      → Holds r w
      → r.status ≡ compensating
      → is_live r (clock w.ticks) ≡ false
      → ShowsPair r.saga_id (spec_undo co.steps names e r.context r.completed_steps w.trace)
          (undo_all co clock names e r w)

  finish-Shows :
      (status : SagaStatus) (r : SagaRecord C) (w : World C)
      → Holds r w
      → ShowsPair r.saga_id
          (record {
            status = status;
            thrown = none;
            context = r.context;
            done = r.completed_steps;
            trace = w.trace;
          })
          (finish co clock status r w)
  finish-Shows status r w h =
      let r' = record r {
        status = status;
        current_step = none;
        claim_expires_at = none;
        updated_at = clock w.ticks;
      } in
      rw (save_record_alone r r' w h refl refl) (record {
        final = bump r';
        held = Holds-put w (bump r');
        status = refl;
        context = refl;
        done = refl;
        trace = refl;
        answer = refl;
      })

  -- After a compensation, by how it ended.
  undone-Shows :
      (name : String) (names : List String) (e : String) (step : SagaStep C) (r : SagaRecord C)
      (w : World C) (end : Settled C)
      → UndoRest names e
      → Holds r w
      → r.status ≡ compensating
      → ShowsPair r.saga_id
          (spec_undone co.steps step.name r.context r.completed_steps w.trace
            (λ c' t'. spec_undo co.steps names e c' (without name r.completed_steps) t')
            end)
          (after_undo co clock name r
            (undo_all co clock names e)
            (after_compensation step.name w end))
  undone-Shows name names e step r w (resolved c) ih h comp =
      let w' = record w { trace = w.trace ++ undid step.name ∷ []; ticks = w.ticks + 1 } in
      let r' = record r {
        context = c;
        completed_steps = without name r.completed_steps;
        claim_expires_at = none;
        updated_at = clock w'.ticks;
      } in
      rw (save_record_alone r r' w' h refl refl)
        (ih (bump r') (put w' (bump r')) (Holds-put w' (bump r')) comp refl)
  undone-Shows name names e step r w (rejected why) ih h comp =
      let w' = record w {
        trace = w.trace ++ compensation_failed step.name why ∷ [];
        ticks = w.ticks + 1;
      } in
      let r' = record r { claim_expires_at = none; updated_at = clock w'.ticks } in
      rw (save_record_alone r r' w' h refl refl) (record {
        final = bump r';
        held = Holds-put w' (bump r');
        status = comp;
        context = refl;
        done = refl;
        trace = refl;
        answer = refl;
      })

  undo_step-Shows :
      (name : String) (names : List String) (e : String) (r : SagaRecord C) (w : World C)
      (found : Option (SagaStep C))
      → UndoRest names e
      → Holds r w
      → r.status ≡ compensating
      → is_live r (clock w.ticks) ≡ false
      → ShowsPair r.saga_id
          (spec_undo_step co.steps name e r.context r.completed_steps w.trace
            (λ c' t'. spec_undo co.steps names e c' (without name r.completed_steps) t')
            found)
          (undo_step co clock name e (undo_all co clock names e) r found w)
  unfolding run_compensation
  undo_step-Shows name names e r w none ih h comp free =
      let r' = record r { error = some (missing_message name); updated_at = clock w.ticks } in
      rw (save_record_alone r r' w h refl refl) (record {
        final = bump r';
        held = Holds-put w (bump r');
        status = comp;
        context = refl;
        done = refl;
        trace = refl;
        answer = refl;
      })
  undo_step-Shows name names e r w (some step) ih h comp free =
      let r' = bump (claimed_record co clock r name (clock w.ticks)) in
      rw (claim_step_free co clock r name w h free) (
        undone-Shows name names e step r' (put w r') (step.compensation w.trace r.context e) ih
          (Holds-put w r') comp)

  undo_all-Shows : (names : List String) (e : String) → UndoRest names e
  unfolding undo_all spec_undo
  undo_all-Shows [] e r w h comp free = finish-Shows failed r w h
  undo_all-Shows (name ∷ names) e r w h comp free =
      undo_step-Shows name names e r w (find_step name co.steps) (undo_all-Shows names e) h comp
        free

  compensate-Shows :
      (e : String) (r : SagaRecord C) (w : World C)
      → Holds r w
      → r.status ≡ compensating
      → is_live r (clock w.ticks) ≡ false
      → ShowsPair r.saga_id
          (spec_undo co.steps (reverse r.completed_steps) e r.context r.completed_steps w.trace)
          (compensate co clock r e w)
  unfolding compensate
  compensate-Shows e r w h comp free = undo_all-Shows (reverse r.completed_steps) e r w h comp free

  abbrev DoRest : List String → Type 0
  DoRest names =
      (r : SagaRecord C) (w : World C)
      → Holds r w
      → r.status ≡ running
      → is_live r (clock w.ticks) ≡ false
      → ShowsPair r.saga_id (spec_do co.steps names r.context r.completed_steps w.trace)
          (do_all co clock names r w)

  -- After an action, by how it ended: a failure is saved, and compensation starts.
  done-Shows :
      (name : String) (names : List String) (step : SagaStep C) (r : SagaRecord C) (w : World C)
      (end : Settled C)
      → DoRest names
      → Holds r w
      → r.status ≡ running
      → ShowsPair r.saga_id
          (spec_done co.steps step.name r.context r.completed_steps w.trace
            (λ c' t'. spec_do co.steps names c' (r.completed_steps ++ name ∷ []) t')
            end)
          (after_do co clock name r (do_all co clock names) (after_action step.name w end))
  done-Shows name names step r w (resolved c) ih h status =
      let w' = record w { trace = w.trace ++ did step.name ∷ []; ticks = w.ticks + 1 } in
      let r' = record r {
        context = c;
        completed_steps = r.completed_steps ++ name ∷ [];
        claim_expires_at = none;
        updated_at = clock w'.ticks;
      } in
      rw (save_record_alone r r' w' h refl refl)
        (ih (bump r') (put w' (bump r')) (Holds-put w' (bump r')) status refl)
  done-Shows name names step r w (rejected why) ih h status =
      let w' = record w {
        trace = w.trace ++ action_failed step.name why ∷ [];
        ticks = w.ticks + 1;
      } in
      let r' = record r {
        status = compensating;
        error = some why;
        claim_expires_at = none;
        updated_at = clock w'.ticks;
      } in
      rw (save_record_alone r r' w' h refl refl)
        (compensate-Shows why (bump r') (put w' (bump r')) (Holds-put w' (bump r')) refl refl)

  do_step-Shows :
      (name : String) (names : List String) (r : SagaRecord C) (w : World C)
      (found : Option (SagaStep C))
      → DoRest names
      → Holds r w
      → r.status ≡ running
      → is_live r (clock w.ticks) ≡ false
      → ShowsPair r.saga_id
          (spec_do_step co.steps name r.context r.completed_steps w.trace
            (λ c' t'. spec_do co.steps names c' (r.completed_steps ++ name ∷ []) t')
            found)
          (do_step co clock name (do_all co clock names) r found w)
  unfolding run_action
  do_step-Shows name names r w none ih h status free = record {
    final = r;
    held = h;
    status = status;
    context = refl;
    done = refl;
    trace = refl;
    answer = refl;
  }
  do_step-Shows name names r w (some step) ih h status free =
      let r' = bump (claimed_record co clock r name (clock w.ticks)) in
      rw (claim_step_free co clock r name w h free) (
        done-Shows name names step r' (put w r') (step.action w.trace r.context) ih (Holds-put w r')
          status)

  do_all-Shows : (names : List String) → DoRest names
  unfolding do_all spec_do
  do_all-Shows [] r w h status free = finish-Shows completed r w h
  do_all-Shows (name ∷ names) r w h status free =
      do_step-Shows name names r w (find_step name co.steps) (do_all-Shows names) h status free

  -- What `resume` promises of a stored record: a finished saga stays as it is, one that is being
  -- compensated goes on with that, and a running one goes on with the steps that remain.
  abbrev pub spec_resume_at : SagaStatus → SagaRecord C → Trace → End C
  spec_resume_at running r t = spec_do co.steps (remaining co clock r) r.context r.completed_steps t
  spec_resume_at compensating r t =
      spec_undo co.steps (reverse r.completed_steps) (message_or r.error) r.context
        r.completed_steps t
  spec_resume_at status r t = record {
    status = status;
    thrown = none;
    context = r.context;
    done = r.completed_steps;
    trace = t;
  }

  abbrev pub spec_resume : SagaRecord C → Trace → End C
  spec_resume r t = spec_resume_at r.status r t

  resume_at-Shows :
      (status : SagaStatus) (r : SagaRecord C) (w : World C)
      → r.status ≡ status
      → Holds r w
      → is_live r (clock w.ticks) ≡ false
      → ShowsPair r.saga_id (spec_resume_at status r w.trace) (unless_finished co clock r w)
  unfolding advance
  resume_at-Shows running r w e h free =
      let live : is_incomplete r.status ≡ true = ap is_incomplete e in
      let which : is_compensating r.status ≡ false = ap is_compensating e in
      rw live (rw which (do_all-Shows (remaining co clock r) r w h e free))
  resume_at-Shows compensating r w e h free =
      let live : is_incomplete r.status ≡ true = ap is_incomplete e in
      let which : is_compensating r.status ≡ true = ap is_compensating e in
      rw live (rw which (compensate-Shows (message_or r.error) r w h e free))
  resume_at-Shows completed r w e h free =
      rw (let live : is_incomplete r.status ≡ false = ap is_incomplete e in live) (record {
        final = r;
        held = h;
        status = e;
        context = refl;
        done = refl;
        trace = refl;
        answer = refl;
      })
  resume_at-Shows failed r w e h free =
      rw (let live : is_incomplete r.status ≡ false = ap is_incomplete e in live) (record {
        final = r;
        held = h;
        status = e;
        context = refl;
        done = refl;
        trace = refl;
        answer = refl;
      })

  -- A call of `resume` that no other runner interferes with, for a saga in the store under its own
  -- id whose step claim is free (no lease, or one that has run out), ends as the specification
  -- says: the stored record has its status, context and completed steps, exactly its actions and
  -- compensations have run, and the call answers with the stored record or throws its error.
  pub resume-Shows :
      (r : SagaRecord C) (w : World C)
      → lookup r.saga_id w.store ≡ some r
      → is_live r (clock (w.ticks + 1)) ≡ false
      → Shows r.saga_id
          (spec_resume r w.trace)
          (resume co clock r.saga_id w).0
          (resume co clock r.saga_id w).1
  unfolding resume get
  resume-Shows r w h free =
      rw (h, found) (resume_at-Shows r.status r (record w { ticks = w.ticks + 1 }) refl h free)

  -- A call of `run` that no other runner interferes with, for a saga id that is not in the store
  -- yet, ends as the specification says of all the steps in order, from the given context: the
  -- stored record, the trace and the answer are the specification's, also when an action or a
  -- compensation fails.
  pub run-Shows :
      (id order : String) (c : C) (w : World C)
      → lookup id w.store ≡ none
      → Shows id
          (spec_do co.steps (step_order co.steps) c [] w.trace)
          (run co clock id order c w).0
          (run co clock id order c w).1
  unfolding run create_if_not_exists
  run-Shows id order c w h =
      let r = initial_record co clock id order c (clock w.ticks) in
      rw (h, keep_existing)
        (rw (← remaining_none (step_order co.steps))
          (resume_at-Shows running r (put w r) refl (Holds-put w r) refl))
