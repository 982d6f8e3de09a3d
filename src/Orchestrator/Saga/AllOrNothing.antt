-- ===== src/Orchestrator/Saga/AllOrNothing.antt =====
-- All or nothing: with compensations that succeed, a saga of
-- apps/backend/orchestrator/src/saga/coordinator.ts does all of its steps or none.
use delego.Base.{
  ℕ, ◌≡◌, refl, ap, sym, ◌∙◌, String, true, none, some, arith, List, [], ◌∷◌, ◌++◌, map, reverse,
  Bool-cases, inl, inr, ◌⊎◌, str_eq, eq_iff, All, All-append,
}
use mathlib.Core.List.{append-nil, append_assoc, reverse-cons}
use delego.Base.Maps.{lookup}
use delego.Orchestrator.Saga.Store.{SagaRecord, completed, failed}
use delego.Orchestrator.Saga.Coordinator.{
  Coordinator, SagaStep, World, Outcome, ok, Settled, resolved, rejected, Trace, did, undid,
  action_failed, find_step, step_order, includes, without, run,
}
use delego.Orchestrator.Saga.Spec.{
  End, Shows, spec_undo, spec_do, spec_undo_step, spec_done, spec_do_step,
}
use delego.Orchestrator.Saga.Refines.{run-Shows}

includes-without :
    (n : String) (ns done : List String)
    → All (λ k. includes (n ∷ ns) k ≡ true) done
    → All (λ k. includes ns k ≡ true) (without n done)
includes-without n ns [] h = tt
includes-without n ns (d ∷ done) (p, h) = elim (Bool-cases (str_eq d n)) [
  | inl same ↦ rw same (includes-without n ns done h)
  | inr other ↦ rw other (ground (arith, eq_iff d n, eq_iff n d), includes-without n ns done h)
]

includes-append :
    (xs ys : List String) (k : String)
    → (includes xs k ≡ true) ⊎ (includes ys k ≡ true)
    → includes (xs ++ ys) k ≡ true
includes-append [] ys k (inl h) = absurd (cc)
includes-append [] ys k (inr h) = h
includes-append (x ∷ xs) ys k h = elim (Bool-cases (str_eq x k)) [
  | inl same ↦ rw same
  | inr other ↦ rw other (includes-append xs ys k (rw other at h))
]

includes-reverse :
    (xs : List String) (k : String) → includes xs k ≡ true → includes (reverse xs) k ≡ true
includes-reverse [] k h = absurd (cc)
includes-reverse (x ∷ xs) k h = rw reverse-cons (elim (Bool-cases (str_eq x k)) [
  | inl same ↦ includes-append (reverse xs) (x ∷ []) k (inr (rw same))
  | inr other ↦
      includes-append (reverse xs) (x ∷ []) k (inl (includes-reverse xs k (rw other at h)))
])

All-includes :
    (ys xs : List String)
    → ((k : String) → includes xs k ≡ true → includes ys k ≡ true)
    → All (λ k. includes ys k ≡ true) xs
All-includes ys [] h = tt
All-includes ys (x ∷ xs) h =
    (h x (ground (arith, eq_iff x x)), All-includes ys xs (λ k i. h k (ground arith)))

All-reverse {ℓ κ} : {A : Type ℓ} (P : A → Type κ) (xs : List A) → All P xs → All P (reverse xs)
All-reverse P [] h = tt
All-reverse P (x ∷ xs) (p, h) =
    rw reverse-cons (All-append P (reverse xs) (x ∷ []) (All-reverse P xs h) (p, tt))

Settled-cases :
    {C : Type 0} (s : Settled C) → ((c : C) × (s ≡ resolved c)) ⊎ ((e : String) × (s ≡ rejected e))
Settled-cases (resolved c) = inl (c, refl)
Settled-cases (rejected e) = inr (e, refl)

-- A failed action, and the undoing of the steps before it, the last one first.
abbrev pub backed_out : String → String → List String → Trace
backed_out name why ks = action_failed name why ∷ map undid (reverse ks)

module _ {C : Type 0} where
  -- Where the specification may end: all is done, or a step failed and all before it is undone.
  pub data AllOrNothing (done : List String) (t : Trace) (names : List String) (end : End C)
      : Type 0 where
    all :
        end.status ≡ completed
        → end.thrown ≡ none
        → end.done ≡ done ++ names
        → end.trace ≡ t ++ map did names
        → AllOrNothing done t names end
    nothing :
        (before : List String) (name : String) (after : List String) (why : String)
        → names ≡ before ++ name ∷ after
        → end.status ≡ failed
        → end.thrown ≡ none
        → end.done ≡ []
        → end.trace ≡ t ++ (map did before ++ backed_out name why (done ++ before))
        → AllOrNothing done t names end

  -- No compensation ever fails.
  abbrev pub AlwaysUndoes : List (SagaStep C) → Type 0
  AlwaysUndoes steps =
      All (λ s. (t : Trace) (c : C) (e : String) → (c' : C) × (s.compensation t c e ≡ resolved c'))
        steps

  -- A name in the order of the steps is found, as a step of that name.
  abbrev Found : List (SagaStep C) → String → Type 0
  Found steps n =
      (s : SagaStep C) × (find_step n steps ≡ some s)
      × (s.name ≡ n)
      × ((t : Trace) (c : C) (e : String) → (c' : C) × (s.compensation t c e ≡ resolved c'))

  find_step-Found :
      (steps : List (SagaStep C)) (n : String)
      → AlwaysUndoes steps
      → includes (step_order steps) n ≡ true
      → Found steps n
  unfolding find_step
  find_step-Found [] n u h = absurd (cc)
  find_step-Found (s ∷ ss) n u h = elim (Bool-cases (str_eq s.name n)) [
    | inl same ↦ (s, rw same, (eq_iff _ _).0 same, u.0)
    | inr other ↦
        let (s', f, e, un) = find_step-Found ss n u.1 (rw other at h) in (s', rw other f, e, un)
  ]

  module _ (steps : List (SagaStep C)) (undoes : AlwaysUndoes steps) where
    abbrev Known : List String → Type 0
    Known = All (λ n. includes (step_order steps) n ≡ true)

    -- Undoing ends in `failed`, with every given step undone in order.
    record Undone (end : End C) (t : Trace) (ns : List String) : Type 0 where
      status : end.status ≡ failed
      thrown : end.thrown ≡ none
      done : end.done ≡ []
      trace : end.trace ≡ t ++ map undid ns

    spec_undo_lem :
        (ns : List String) (e : String) (c : C) (done : List String) (t : Trace)
        → Known ns
        → All (λ n. includes ns n ≡ true) done
        → Undone (spec_undo steps ns e c done t) t ns
    unfolding spec_undo
    spec_undo_lem [] e c [] t k h = record {
      status = refl;
      thrown = refl;
      done = refl;
      trace = sym (append-nil t);
    }
    spec_undo_lem [] e c (d ∷ done) t k h = absurd (cc (h.0))
    spec_undo_lem (n ∷ ns) e c done t k h =
        let (s, f, name, un) = find_step-Found steps n undoes k.0 in
        let (c', r) = un t c e in
        let rest =
          spec_undo_lem ns e c' (without n done) (t ++ undid n ∷ []) k.1
            (includes-without n ns done h) in
        rw (f, spec_undo_step)
          (rw r (
            rw name (record {
              status = rest.status;
              thrown = rest.thrown;
              done = rest.done;
              trace = rest.trace ∙ append_assoc t (undid n ∷ []) (map undid ns);
            })))

    nothing_of :
        (done : List String) (t : Trace) (n : String) (ns : List String) (why : String)
        {end : End C}
        → Undone end (t ++ action_failed n why ∷ []) (reverse done)
        → AllOrNothing done t (n ∷ ns) end
    nothing_of done t n ns why u = nothing [] n ns why refl u.status u.thrown u.done (
        u.trace
        ∙ append_assoc t (action_failed n why ∷ []) (map undid (reverse done))
        ∙ ap (λ ks. t ++ backed_out n why ks) (sym (append-nil done)))

    AllOrNothing-step :
        (done : List String) (t : Trace) (n : String) (ns : List String) (end : End C)
        → AllOrNothing (done ++ n ∷ []) (t ++ did n ∷ []) ns end
        → AllOrNothing done t (n ∷ ns) end
    AllOrNothing-step done t n ns end (all s th d run) =
        all s th (d ∙ append_assoc done (n ∷ []) ns)
          (run ∙ append_assoc t (did n ∷ []) (map did ns))
    AllOrNothing-step done t n ns end (nothing before name after why e s th d run) =
        nothing (n ∷ before) name after why (ap (◌∷◌ n) e) s th d (
          run
          ∙ append_assoc t (did n ∷ [])
              (map did before ++ backed_out name why ((done ++ n ∷ []) ++ before))
          ∙ ap (λ ks. t ++ (did n ∷ (map did before ++ backed_out name why ks)))
              (append_assoc done (n ∷ []) before))

    spec_do_lem :
        (ns : List String) (c : C) (done : List String) (t : Trace)
        → Known ns
        → Known done
        → AllOrNothing done t ns (spec_do steps ns c done t)
    unfolding spec_do
    spec_do_lem [] c done t k kd = all refl refl (sym (append-nil done)) (sym (append-nil t))
    spec_do_lem (n ∷ ns) c done t k kd =
        let (s, f, name, un) = find_step-Found steps n undoes k.0 in
        rw (f, spec_do_step)
          (elim (Settled-cases (s.action t c)) [
            | inl (c', r) ↦
                rw (r, spec_done)
                  (rw name (
                    AllOrNothing-step done t n ns _ (
                      spec_do_lem ns c' (done ++ n ∷ []) (t ++ did n ∷ []) k.1
                        (All-append _ done (n ∷ []) kd (k.0, tt)))))
            | inr (why, r) ↦
                rw (r, spec_done)
                  (rw name (
                    nothing_of done t n ns why (
                      spec_undo_lem (reverse done) why c done (t ++ action_failed n why ∷ [])
                        (All-reverse _ done kd)
                        (All-includes (reverse done) done (includes-reverse done)))))
          ])

  -- Where a call of `run` has left the saga: it answers with the stored record, which is either
  -- completed, with every step done in order, or failed, with no step standing: the steps before
  -- the one that failed were done in order and undone in reverse, and none after it was touched.
  pub data Concludes (t : Trace) (names : List String) (id : String)
      : Outcome (SagaRecord C) × World C → Type 0 where
    all_done :
        (r : SagaRecord C) (w : World C)
        → lookup id w.store ≡ some r
        → r.status ≡ completed
        → r.completed_steps ≡ names
        → w.trace ≡ t ++ map did names
        → Concludes t names id (ok r, w)
    none_left :
        (r : SagaRecord C) (w : World C) (before : List String) (name : String)
        (after : List String) (why : String)
        → lookup id w.store ≡ some r
        → r.status ≡ failed
        → r.completed_steps ≡ []
        → names ≡ before ++ name ∷ after
        → w.trace ≡ t ++ (map did before ++ backed_out name why before)
        → Concludes t names id (ok r, w)

  AllOrNothing-Concludes :
      (t : Trace) (names : List String) (id : String) (end : End C) (out : Outcome (SagaRecord C))
      (w : World C)
      → AllOrNothing [] t names end
      → Shows id end out w
      → Concludes t names id (out, w)
  AllOrNothing-Concludes t names id end out w (all s th d ran) sh =
      rw (sh.answer, th)
        (all_done sh.final w sh.held (sh.status ∙ s) (sh.done ∙ d) (sh.trace ∙ ran))
  AllOrNothing-Concludes t names id end out w (nothing before name after why e s th d ran) sh =
      rw (sh.answer, th)
        (none_left sh.final w before name after why sh.held (sh.status ∙ s) (sh.done ∙ d) e
          (sh.trace ∙ ran))

  -- A saga that is started under a new id, with compensations that never fail and no other runner,
  -- never throws: it is completed with all its steps done, or failed with none standing.
  pub run-all_or_nothing :
      (co : Coordinator C) (clock : ℕ → ℕ) (id order : String) (c : C) (w : World C)
      → AlwaysUndoes co.steps
      → lookup id w.store ≡ none
      → Concludes w.trace (step_order co.steps) id (run co clock id order c w)
  run-all_or_nothing co clock id order c w undoes new =
      let names = step_order co.steps in
      AllOrNothing-Concludes w.trace names id _ _ _
        (spec_do_lem co.steps undoes names c [] w.trace (All-includes names names (λ k h. h)) tt)
        (run-Shows co clock id order c w new)
