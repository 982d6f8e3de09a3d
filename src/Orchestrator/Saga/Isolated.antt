-- ===== src/Orchestrator/Saga/Isolated.antt =====
-- apps/backend/orchestrator/src/saga/coordinator.ts: what a runner of one saga does to the records of
-- the others.
use delego.Base.{
  ℕ, ◌+◌, ◌≡◌, refl, sym, subst, String, none, some, Option, List, [], ◌∷◌, ◌++◌, Bool-cases, inl,
  inr, reverse, ◌&&◌, ◌==◌,
}
use delego.Base.Maps.{lookup, insert}
use delego.Orchestrator.Saga.Store.{
  SagaRecord, SagaStatus, Store, save, save_over, get, compensating, completed, failed,
  is_incomplete,
}
use delego.Orchestrator.Saga.Coordinator.{
  SagaStep, Settled, resolved, rejected, Coordinator, World, Outcome, ok, threw, SagaError,
  step_error, concurrency, not_found, M, bind_outcome, throw, unknown_step, unknown_compensation,
  save_record, stored, caught, after_compensation, after_action, run_action, run_compensation,
  claim_step, claimed_record, is_live, is_current, finish, after_undo, undo_claimed, undo_step,
  undo_all, compensate, after_do, do_claimed, do_step, do_all, advance, unless_finished, resume,
  found, find_step, remaining, message_or, is_compensating, missing_message, without,
}

-- A property of the store that a stored record of the saga `id` keeps.
module _ {C : Type 0} (id : String) (P : Store C → Type 0)
    (put : (r : SagaRecord C) (s : Store C) → r.saga_id ≡ id → P s → P (insert r.saga_id r s)) where
  -- A record is of the saga, when there is one.
  abbrev pub Own : Outcome (SagaRecord C) → Type 0
  Own (ok r) = r.saga_id ≡ id
  Own (threw e) = Unit

  abbrev pub OwnClaim : Outcome (Option (SagaRecord C)) → Type 0
  OwnClaim (ok none) = Unit
  OwnClaim (ok (some r)) = r.saga_id ≡ id
  OwnClaim (threw e) = Unit

  -- How a run ends from a store with the property.
  abbrev pub Kept : Outcome (SagaRecord C) × World C → Type 0
  Kept (out, w) = Own out × (P w.store)

  abbrev pub KeptClaim : Outcome (Option (SagaRecord C)) × World C → Type 0
  KeptClaim (out, w) = OwnClaim out × (P w.store)

  -- A part of a run that goes on with a record of the saga.
  abbrev pub Keeps : (SagaRecord C → M C (SagaRecord C)) → Type 0
  Keeps next = (r : SagaRecord C) (w : World C) → r.saga_id ≡ id → P w.store → Kept (next r w)

  bind-Kept :
      (end : Outcome (SagaRecord C) × World C) (next : SagaRecord C → M C (SagaRecord C))
      → Kept end
      → Keeps next
      → Kept (bind_outcome next end)
  bind-Kept (ok r, w) next (own, same) keeps = keeps r w own same
  bind-Kept (threw e, w) next (own, same) keeps = (tt, same)

  saved-Kept :
      (r : SagaRecord C) (w : World C) (found : Option (SagaRecord C))
      → r.saga_id ≡ id
      → P w.store
      → Kept (stored r.saga_id w (save_over r w.store found))
  saved-Kept r w none own same = (tt, same)
  saved-Kept r w (some existing) own same = elim (Bool-cases (existing.version == r.version)) [
    | inl current ↦ rw current (own, put (record r { version = r.version + 1 }) w.store own same)
    | inr stale ↦ rw stale (tt, same)
  ]

  save_record-Keeps : Keeps save_record
  unfolding save_record save
  save_record-Keeps r w own same = saved-Kept r w (lookup r.saga_id w.store) own same

  throw-Keeps : (e : SagaError) → Keeps (λ r. throw e)
  throw-Keeps e r w own same = (tt, same)

  caught-Kept : (end : Outcome (SagaRecord C) × World C) → Kept end → KeptClaim (caught end)
  caught-Kept (ok r, w) h = h
  caught-Kept (threw (concurrency k), w) h = h
  caught-Kept (threw (step_error k), w) h = h
  caught-Kept (threw (unknown_step k), w) h = h
  caught-Kept (threw (unknown_compensation k), w) h = h
  caught-Kept (threw (not_found k), w) h = h

  module _ (co : Coordinator C) (clock : ℕ → ℕ) where
    claim_step-Kept :
        (r : SagaRecord C) (name : String) (w : World C)
        → r.saga_id ≡ id
        → P w.store
        → KeptClaim (claim_step co clock r name w)
    unfolding claim_step
    claim_step-Kept r name w own same =
        elim (Bool-cases (is_current r name && is_live r (clock w.ticks))) [
          | inl leased ↦ rw leased (tt, same)
          | inr free ↦ rw free (
              caught-Kept _
                (save_record-Keeps (claimed_record co clock r name (clock w.ticks)) w own same))
        ]

    finish-Keeps : (status : SagaStatus) → Keeps (finish co clock status)
    finish-Keeps status r w own same =
        save_record-Keeps
          (record r {
            status = status;
            current_step = none;
            claim_expires_at = none;
            updated_at = clock w.ticks;
          })
          w own same

    after_undo-Kept :
        (name : String) (r : SagaRecord C) (next : SagaRecord C → M C (SagaRecord C))
        (end : Settled C × World C)
        → r.saga_id ≡ id
        → Keeps next
        → P end.1.store
        → Kept (after_undo co clock name r next end)
    after_undo-Kept name r next (resolved c, w) own keeps same =
        bind-Kept _ next
          (save_record-Keeps
            (record r {
              context = c;
              completed_steps = without name r.completed_steps;
              claim_expires_at = none;
              updated_at = clock w.ticks;
            })
            w own same)
          keeps
    after_undo-Kept name r next (rejected e, w) own keeps same =
        bind-Kept _ _
          (save_record-Keeps (record r { claim_expires_at = none; updated_at = clock w.ticks }) w
            own same)
          (throw-Keeps (step_error e))

    run_compensation-store :
        (step : SagaStep C) (c : C) (e : String) (w : World C)
        → (run_compensation step c e w).1.store ≡ w.store
    unfolding run_compensation
    run_compensation-store step c e w =
        elim (step.compensation w.trace c e)
          as (λ end. (after_compensation step.name w end).1.store ≡ w.store) [
            | resolved c' ↦ refl
            | rejected m ↦ refl
          ]

    run_action-store :
        (step : SagaStep C) (c : C) (w : World C) → (run_action step c w).1.store ≡ w.store
    unfolding run_action
    run_action-store step c w =
        elim (step.action w.trace c) as (λ end. (after_action step.name w end).1.store ≡ w.store) [
          | resolved c' ↦ refl
          | rejected m ↦ refl
        ]

    undo_claimed-Kept :
        (name : String) (step : SagaStep C) (e : String) (next : SagaRecord C → M C (SagaRecord C))
        (r : SagaRecord C) (end : Outcome (Option (SagaRecord C)) × World C)
        → r.saga_id ≡ id
        → Keeps next
        → KeptClaim end
        → Kept (bind_outcome (undo_claimed co clock name step e next r) end)
    undo_claimed-Kept name step e next r (ok none, w) own keeps (claim, same) = (own, same)
    undo_claimed-Kept name step e next r (ok (some r'), w) own keeps (claim, same) =
        after_undo-Kept name r' next (run_compensation step r'.context e w) claim keeps
          (subst P (sym (run_compensation-store step r'.context e w)) same)
    undo_claimed-Kept name step e next r (threw m, w) own keeps (claim, same) = (tt, same)

    undo_step-Kept :
        (name e : String) (next : SagaRecord C → M C (SagaRecord C)) (r : SagaRecord C)
        (found : Option (SagaStep C)) (w : World C)
        → r.saga_id ≡ id
        → Keeps next
        → P w.store
        → Kept (undo_step co clock name e next r found w)
    undo_step-Kept name e next r none w own keeps same =
        bind-Kept _ _
          (save_record-Keeps
            (record r { error = some (missing_message name); updated_at = clock w.ticks }) w own
            same)
          (throw-Keeps (unknown_compensation name))
    undo_step-Kept name e next r (some step) w own keeps same =
        undo_claimed-Kept name step e next r _ own keeps (claim_step-Kept r name w own same)

    undo_all-Keeps : (names : List String) (e : String) → Keeps (undo_all co clock names e)
    unfolding undo_all
    undo_all-Keeps [] e r w own same = finish-Keeps failed r w own same
    undo_all-Keeps (name ∷ names) e r w own same =
        undo_step-Kept name e _ r (find_step name co.steps) w own (undo_all-Keeps names e) same

    compensate-Keeps :
        (r : SagaRecord C) (e : String) (w : World C)
        → r.saga_id ≡ id
        → P w.store
        → Kept (compensate co clock r e w)
    unfolding compensate
    compensate-Keeps r e w own same = undo_all-Keeps (reverse r.completed_steps) e r w own same

    after_do-Kept :
        (name : String) (r : SagaRecord C) (next : SagaRecord C → M C (SagaRecord C))
        (end : Settled C × World C)
        → r.saga_id ≡ id
        → Keeps next
        → P end.1.store
        → Kept (after_do co clock name r next end)
    after_do-Kept name r next (resolved c, w) own keeps same =
        bind-Kept _ next
          (save_record-Keeps
            (record r {
              context = c;
              completed_steps = r.completed_steps ++ (name ∷ []);
              claim_expires_at = none;
              updated_at = clock w.ticks;
            })
            w own same)
          keeps
    after_do-Kept name r next (rejected e, w) own keeps same =
        bind-Kept _ _
          (save_record-Keeps
            (record r {
              status = compensating;
              error = some e;
              claim_expires_at = none;
              updated_at = clock w.ticks;
            })
            w own same)
          (λ r w own same. compensate-Keeps r e w own same)

    do_claimed-Kept :
        (name : String) (step : SagaStep C) (next : SagaRecord C → M C (SagaRecord C))
        (r : SagaRecord C) (end : Outcome (Option (SagaRecord C)) × World C)
        → r.saga_id ≡ id
        → Keeps next
        → KeptClaim end
        → Kept (bind_outcome (do_claimed co clock name step next r) end)
    do_claimed-Kept name step next r (ok none, w) own keeps (claim, same) = (own, same)
    do_claimed-Kept name step next r (ok (some r'), w) own keeps (claim, same) =
        after_do-Kept name r' next (run_action step r'.context w) claim keeps
          (subst P (sym (run_action-store step r'.context w)) same)
    do_claimed-Kept name step next r (threw m, w) own keeps (claim, same) = (tt, same)

    do_step-Kept :
        (name : String) (next : SagaRecord C → M C (SagaRecord C)) (r : SagaRecord C)
        (found : Option (SagaStep C)) (w : World C)
        → r.saga_id ≡ id
        → Keeps next
        → P w.store
        → Kept (do_step co clock name next r found w)
    do_step-Kept name next r none w own keeps same = (tt, same)
    do_step-Kept name next r (some step) w own keeps same =
        do_claimed-Kept name step next r _ own keeps (claim_step-Kept r name w own same)

    do_all-Keeps : (names : List String) → Keeps (do_all co clock names)
    unfolding do_all
    do_all-Keeps [] r w own same = finish-Keeps completed r w own same
    do_all-Keeps (name ∷ names) r w own same =
        do_step-Kept name _ r (find_step name co.steps) w own (do_all-Keeps names) same

    advance-Keeps : Keeps (advance co clock)
    unfolding advance
    advance-Keeps r w own same = elim (Bool-cases (is_compensating r.status)) [
      | inl undoing ↦ rw undoing (compensate-Keeps r (message_or r.error) w own same)
      | inr doing ↦ rw doing (do_all-Keeps (remaining co clock r) r w own same)
    ]

    unless_finished-Keeps : Keeps (unless_finished co clock)
    unless_finished-Keeps r w own same = elim (Bool-cases (is_incomplete r.status)) [
      | inl unfinished ↦ rw unfinished (advance-Keeps r w own same)
      | inr over ↦ rw over (own, same)
    ]

    pub resume-Kept :
        (w : World C)
        → ((r : SagaRecord C) → lookup id w.store ≡ some r → r.saga_id ≡ id)
        → P w.store
        → Kept (resume co clock id w)
    unfolding resume get
    resume-Kept w names same = go (lookup id w.store) refl
      where
        go :
            (held : Option (SagaRecord C))
            → lookup id w.store ≡ held
            → Kept (bind_outcome (unless_finished co clock) (found co clock id w held))
        go none e = (tt, same)
        go (some r) e = unless_finished-Keeps r (record w { ticks = w.ticks + 1 }) (names r e) same
