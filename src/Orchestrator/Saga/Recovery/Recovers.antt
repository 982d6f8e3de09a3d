-- ===== src/Orchestrator/Saga/Recovery/Recovers.antt =====
-- apps/backend/orchestrator/src/saga/coordinator.ts: what `recoverAll` does for each saga.
use delego.Base.{
  ℕ, ◌+◌, ◌≡◌, refl, sym, ap, ◌∙◌, subst, String, true, false, some, List, [], ◌∷◌, Bool-cases, inl,
  inr, arith, eq_iff, not, ◌&&◌, Bool, str_eq,
}
use delego.Base.Maps.{lookup, insert, lookup-insert}
use delego.Orchestrator.Saga.Store.{SagaRecord, Store, is_incomplete, list_incomplete}
use delego.Orchestrator.Saga.Coordinator.{
  Coordinator, World, Outcome, ok, threw, Trace, resume, includes, is_live,
}
use delego.Orchestrator.Saga.Refines.{resume-Shows, spec_resume}
use delego.Orchestrator.Saga.Isolated.{resume-Kept}
use delego.Orchestrator.Saga.Recovery.{
  recovered, recover_one, recover_records, recover_all, is_unclaimed,
}

-- No text stands twice in the list.
unfoldable pub distinct : List String → Bool
distinct [] = true
distinct (k ∷ ks) = not (includes ks k) && distinct ks

module _ {C : Type 0} where
  -- Each record is stored under its own id.
  abbrev pub Named : Store C → Type 0
  Named s = (k : String) (r : SagaRecord C) → lookup k s ≡ some r → r.saga_id ≡ k

  abbrev pub ids_of : List (SagaRecord C) → List String
  ids_of [] = []
  ids_of (r ∷ rs) = r.saga_id ∷ ids_of rs

  pub Named-insert : (r : SagaRecord C) (s : Store C) → Named s → Named (insert r.saga_id r s)
  Named-insert r s names k held h = elim (Bool-cases (str_eq r.saga_id k)) [
    | inl same ↦
        let at : (lookup k (insert r.saga_id r s) ≡ some r) =
          lookup-insert s r.saga_id k r ∙ rw same refl in
        let both : (held ≡ r) = cc in ap (λ held. held.saga_id) both ∙ (eq_iff r.saga_id k).0 same
    | inr other ↦ names k held (sym (lookup-insert s r.saga_id k r ∙ rw other refl) ∙ h)
  ]

  lookup-insert_apart :
      (id other : String) (r : SagaRecord C) (s : Store C)
      → str_eq id other ≡ false
      → r.saga_id ≡ id
      → lookup other (insert r.saga_id r s) ≡ lookup other s
  lookup-insert_apart id other r s apart own =
      lookup-insert s r.saga_id other r ∙ rw own (rw apart refl)

  includes-list_incomplete :
      (s : Store C) (id : String) (r : SagaRecord C)
      → lookup id s ≡ some r
      → r.saga_id ≡ id
      → is_incomplete r.status ≡ true
      → includes (ids_of (list_incomplete s)) id ≡ true
  unfolding lookup list_incomplete
  includes-list_incomplete [] id r h own open_saga = absurd (cc)
  includes-list_incomplete ((k, held) ∷ s) id r h own unfinished = elim (Bool-cases (str_eq k id)) [
    | inl same ↦
        let both : (held ≡ r) = (let found = rw same at h in cc) in
        rw both (rw unfinished (ground (arith, eq_iff r.saga_id id, own)))
    | inr other ↦
        let rest = includes-list_incomplete s id r (rw other at h) own unfinished in
        elim (Bool-cases (is_incomplete held.status)) [
          | inl kept ↦ rw kept (ground (arith, rest))
          | inr dropped ↦ rw dropped rest
        ]
  ]

  module _ (co : Coordinator C) (clock : ℕ → ℕ) where
    recovered-store :
        (id : String) (end : Outcome (SagaRecord C) × World C)
        → (recovered co clock id end).1.store ≡ end.1.store
    recovered-store id (threw e, w) = refl
    recovered-store id (ok r, w) =
        elim (Bool-cases (is_incomplete r.status && is_unclaimed r.claim_expires_at)) [
          | inl again ↦ rw again refl
          | inr once ↦ rw once refl
        ]

    recover_one-store :
        (id : String) (w : World C)
        → (recover_one co clock id w).1.store ≡ (resume co clock id w).1.store
    unfolding recover_one
    recover_one-store id w = recovered-store id (resume co clock id w)

    -- Recovering one saga leaves the record of another as it was.
    recover_one-other :
        (id other : String) (w : World C)
        → str_eq id other ≡ false
        → Named w.store
        → lookup other (recover_one co clock id w).1.store ≡ lookup other w.store
    recover_one-other id other w apart names =
        ap (lookup other) (recover_one-store id w)
        ∙ (resume-Kept id (λ s. lookup other s ≡ lookup other w.store)
            (λ r s own same. lookup-insert_apart id other r s apart own ∙ same) co clock w
            (names id) refl).1

    recover_one-Named :
        (id : String) (w : World C) → Named w.store → Named (recover_one co clock id w).1.store
    recover_one-Named id w names =
        subst Named (sym (recover_one-store id w))
          (resume-Kept id Named (λ r s own. Named-insert r s) co clock w (names id) names).1

    recover_records-other :
        (rs : List (SagaRecord C)) (other : String) (w : World C)
        → includes (ids_of rs) other ≡ false
        → Named w.store
        → lookup other (recover_records co clock rs w).1.store ≡ lookup other w.store
    unfolding recover_records
    recover_records-other [] other w apart names = refl
    recover_records-other (r ∷ rs) other w apart names =
        recover_records-other rs other (recover_one co clock r.saga_id w).1 (ground (arith, apart))
          (recover_one-Named r.saga_id w names)
        ∙ recover_one-other r.saga_id other w (ground (arith, apart)) names

    -- The saga has the status, the context and the completed steps of the specification's end, from
    -- what was stored of it.
    pub record Recovered (r : SagaRecord C) (w : World C) : Type 0 where
      pub trace : Trace
      pub final : SagaRecord C
      pub held : lookup r.saga_id w.store ≡ some final
      pub status : final.status ≡ (spec_resume co clock r trace).status
      pub context : final.context ≡ (spec_resume co clock r trace).context
      pub done : final.completed_steps ≡ (spec_resume co clock r trace).done

    recover_one-Recovers :
        (r : SagaRecord C) (w : World C)
        → lookup r.saga_id w.store ≡ some r
        → is_live r (clock (w.ticks + 1)) ≡ false
        → Recovered r (recover_one co clock r.saga_id w).1
    recover_one-Recovers r w h free =
        let shows = resume-Shows co clock r w h free in
        record {
          trace = w.trace;
          final = shows.final;
          held = ap (lookup r.saga_id) (recover_one-store r.saga_id w) ∙ shows.held;
          status = shows.status;
          context = shows.context;
          done = shows.done;
        }

    Recovered-kept :
        (r : SagaRecord C) (w w' : World C)
        → lookup r.saga_id w'.store ≡ lookup r.saga_id w.store
        → Recovered r w
        → Recovered r w'
    Recovered-kept r w w' same h = record {
      trace = h.trace;
      final = h.final;
      held = same ∙ h.held;
      status = h.status;
      context = h.context;
      done = h.done;
    }

    recover_records-Recovers :
        (rs : List (SagaRecord C)) (r : SagaRecord C) (w : World C)
        → distinct (ids_of rs) ≡ true
        → includes (ids_of rs) r.saga_id ≡ true
        → Named w.store
        → lookup r.saga_id w.store ≡ some r
        → ((t : ℕ) → is_live r (clock t) ≡ false)
        → Recovered r (recover_records co clock rs w).1
    unfolding recover_records distinct
    recover_records-Recovers [] r w once within names h free = absurd (cc)
    recover_records-Recovers (first ∷ rs) r w once within names h free =
        elim (Bool-cases (str_eq first.saga_id r.saga_id)) [
          | inl same ↦
              let id : (first.saga_id ≡ r.saga_id) = (eq_iff first.saga_id r.saga_id).0 same in
              let w' = (recover_one co clock first.saga_id w).1 in
              let done : Recovered r w' =
                subst (λ id. Recovered r (recover_one co clock id w).1) (sym id)
                  (recover_one-Recovers r w h (free (w.ticks + 1))) in
              let gone : (includes (ids_of rs) r.saga_id ≡ false) =
                subst (λ id. includes (ids_of rs) id ≡ false) id (ground (arith, once)) in
              Recovered-kept r w' (recover_records co clock rs w').1
                (recover_records-other rs r.saga_id w' gone
                  (recover_one-Named first.saga_id w names))
                done
          | inr other ↦
              recover_records-Recovers rs r (recover_one co clock first.saga_id w).1
                (ground (arith, once)) (ground (arith, within, other))
                (recover_one-Named first.saga_id w names)
                (recover_one-other first.saga_id r.saga_id w other names ∙ h) free
        ]

    -- Let `recoverAll` run at the start with no other runner, on a store that keeps each record under
    -- its own id and lists no incomplete saga twice. Then every incomplete saga whose step no lease
    -- holds, or only one that has run out, ends as the specification says from what was stored of it:
    -- whatever the sagas before and after it do, and also when one of them throws.
    pub recover_all-Recovers :
        (r : SagaRecord C) (w : World C)
        → Named w.store
        → distinct (ids_of (list_incomplete w.store)) ≡ true
        → lookup r.saga_id w.store ≡ some r
        → is_incomplete r.status ≡ true
        → ((t : ℕ) → is_live r (clock t) ≡ false)
        → Recovered r (recover_all co clock w).1
    unfolding recover_all
    recover_all-Recovers r w names once h unfinished free =
        recover_records-Recovers (list_incomplete w.store) r (record w { ticks = w.ticks + 1 }) once
          (includes-list_incomplete w.store r.saga_id r h refl unfinished) names h free
