-- ===== src/Orchestrator/Saga/Spec.antt =====
-- What a saga promises, with no store, versions, leases or clock: the steps that remain run in
-- order; when one fails, the completed ones are undone in reverse; and a compensation that fails
-- leaves the saga to be taken up again, with the steps that are still to be undone.
-- (apps/backend/orchestrator/src/saga/coordinator.ts)
use delego.Base.{String, ◌≡◌, Option, none, some, List, [], ◌∷◌, ◌++◌, reverse}
use delego.Base.Maps.{lookup}
use delego.Orchestrator.Saga.Store.{
  SagaStatus, running, compensating, completed, failed, SagaRecord,
}
use delego.Orchestrator.Saga.Coordinator.{
  SagaError, step_error, unknown_step, unknown_compensation, did, action_failed, undid,
  compensation_failed, Trace, Settled, resolved, rejected, SagaStep, World, Outcome, ok, threw,
  find_step, without,
}

-- The end of a call: the status that is left in the store, what the call threw if it threw, the
-- context, the steps whose effect stands, and everything that has run.
pub record End (C : Type 0) : Type 0 where
  pub status : SagaStatus
  pub thrown : Option SagaError
  pub context : C
  pub done : List String
  pub trace : Trace

module _ {C : Type 0} where
  module _ (steps : List (SagaStep C)) where
    abbrev pub spec_undone :
        String → C → List String → Trace → (C → Trace → End C) → Settled C → End C
    spec_undone name c done t next (resolved c') = next c' (t ++ undid name ∷ [])
    spec_undone name c done t next (rejected e) = record {
      status = compensating;
      thrown = some (step_error e);
      context = c;
      done = done;
      trace = t ++ compensation_failed name e ∷ [];
    }

    abbrev pub spec_undo_step :
        String
        → String
        → C
        → List String
        → Trace
        → (C → Trace → End C)
        → Option (SagaStep C)
        → End C
    spec_undo_step name e c done t next none = record {
      status = compensating;
      thrown = some (unknown_compensation name);
      context = c;
      done = done;
      trace = t;
    }
    spec_undo_step name e c done t next (some s) =
        spec_undone s.name c done t next (s.compensation t c e)

    unfoldable pub spec_undo : List String → String → C → List String → Trace → End C
    spec_undo [] e c done t = record {
      status = failed;
      thrown = none;
      context = c;
      done = done;
      trace = t;
    }
    spec_undo (n ∷ ns) e c done t =
        spec_undo_step n e c done t (λ c' t'. spec_undo ns e c' (without n done) t')
          (find_step n steps)

    abbrev pub spec_done :
        String → C → List String → Trace → (C → Trace → End C) → Settled C → End C
    spec_done name c done t next (resolved c') = next c' (t ++ did name ∷ [])
    spec_done name c done t next (rejected e) =
        spec_undo (reverse done) e c done (t ++ action_failed name e ∷ [])

    abbrev pub spec_do_step :
        String → C → List String → Trace → (C → Trace → End C) → Option (SagaStep C) → End C
    spec_do_step name c done t next none = record {
      status = running;
      thrown = some (unknown_step name);
      context = c;
      done = done;
      trace = t;
    }
    spec_do_step name c done t next (some s) = spec_done s.name c done t next (s.action t c)

    unfoldable pub spec_do : List String → C → List String → Trace → End C
    unfolding spec_undo
    spec_do [] c done t = record {
      status = completed;
      thrown = none;
      context = c;
      done = done;
      trace = t;
    }
    spec_do (n ∷ ns) c done t =
        spec_do_step n c done t (λ c' t'. spec_do ns c' (done ++ n ∷ []) t') (find_step n steps)

  -- The stored record and the trace are those of the end, and the call returned that record or
  -- threw what the end says.
  pub record Shows (id : String) (end : End C) (out : Outcome (SagaRecord C)) (w : World C)
      : Type 0 where
    pub final : SagaRecord C
    pub held : lookup id w.store ≡ some final
    pub status : final.status ≡ end.status
    pub context : final.context ≡ end.context
    pub done : final.completed_steps ≡ end.done
    pub trace : w.trace ≡ end.trace
    pub answer : out ≡ elim end.thrown [ none ↦ ok final | some e ↦ threw e ]
