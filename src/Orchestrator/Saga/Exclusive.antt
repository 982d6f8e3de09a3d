-- ===== src/Orchestrator/Saga/Exclusive.antt =====
-- A step claim keeps other runners off (claimStep of
-- apps/backend/orchestrator/src/saga/coordinator.ts, save of memory-store.ts).
use delego.Base.{
  ℕ, ◌+◌, ◌≡◌, ◌⊎◌, inl, inr, ◌<◌, refl, String, true, false, Option, none, some, arith, ◌&&◌,
  subst, sym, ap, ◌∙◌, ◌==◌, eq_iff, Bool-cases,
}
use delego.Base.Maps.{lookup}
use delego.Orchestrator.Saga.Store.{SagaRecord, save_stale}
use delego.Orchestrator.Saga.Coordinator.{
  Coordinator, World, Outcome, ok, save_record, claim_step, claimed_record, is_live, is_current,
}
use delego.Orchestrator.Saga.Alone.{bump, put, Holds, save_record_alone, Holds-put}

module _ {C : Type 0} (co : Coordinator C) (clock : ℕ → ℕ) where
  -- A record that another runner may work on: one of the same saga that it read from the store
  -- now, or at an earlier version.
  abbrev pub MayHold : SagaRecord C → SagaRecord C → Type 0
  MayHold held r = (r.saga_id ≡ held.saga_id) × ((r ≡ held) ⊎ (r.version < held.version))

  -- The claim is `null`, and neither the store nor the trace has changed.
  pub record Refused (w : World C) (end : Outcome (Option (SagaRecord C)) × World C) : Type 0 where
    pub answer : end.0 ≡ ok none
    pub store : end.1.store ≡ w.store
    pub trace : end.1.trace ≡ w.trace

  stale-Refused :
      (held r : SagaRecord C) (name : String) (w : World C)
      → Holds held w
      → r.saga_id ≡ held.saga_id
      → r.version < held.version
      → Refused w (claim_step co clock r name w)
  unfolding claim_step save_record
  stale-Refused held r name w h id old =
      let stale : (held.version == r.version) ≡ false = ground arith in
      let held' : lookup r.saga_id w.store ≡ some held =
        subst (λ k. lookup k w.store ≡ some held) (sym id) h in
      let missed =
        save_stale (claimed_record co clock r name (clock w.ticks)) w.store held held' stale in
      elim (Bool-cases (is_current r name && is_live r (clock w.ticks))) [
        | inl busy ↦ rw busy (record { answer = refl; store = refl; trace = refl })
        | inr free ↦ rw free (rw missed (record { answer = refl; store = refl; trace = refl }))
      ]

  leased-Refused :
      (r : SagaRecord C) (name : String) (w : World C)
      → (is_current r name && is_live r (clock w.ticks)) ≡ true
      → Refused w (claim_step co clock r name w)
  unfolding claim_step
  leased-Refused r name w busy = rw busy (record { answer = refl; store = refl; trace = refl })

  -- What a claim that was granted has stored.
  abbrev granted : SagaRecord C → String → World C → SagaRecord C
  granted r name w = bump (claimed_record co clock r name (clock w.ticks))

  claim_step-granted :
      (r r' : SagaRecord C) (name : String) (w w' : World C)
      → Holds r w
      → claim_step co clock r name w ≡ (ok (some r'), w')
      → (granted r name w ≡ r') × (put w (granted r name w) ≡ w')
  unfolding claim_step
  claim_step-granted r r' name w w' h e =
      elim (Bool-cases (is_current r name && is_live r (clock w.ticks))) [
        | inl busy ↦ absurd (cc (ap (λ p. p.0) (rw busy at e)))
        | inr free ↦
            let saved =
              save_record_alone r (claimed_record co clock r name (clock w.ticks)) w h refl refl in
            let e' = rw saved at (rw free at e) in (cc (ap (λ p. p.0) e'), ap (λ p. p.1) e')
      ]

  excluded :
      (r other : SagaRecord C) (name : String) (w w2 : World C)
      → w2.store ≡ (put w (granted r name w)).store
      → clock w2.ticks < clock w.ticks + co.claim_lease_ms
      → MayHold (granted r name w) other
      → Refused w2 (claim_step co clock other name w2)
  excluded r other name w w2 same early (id, inl current) =
      leased-Refused other name w2 (rw current (ground (arith, eq_iff name name)))
  excluded r other name w w2 same early (id, inr old) =
      stale-Refused (granted r name w) other name w2 (rw same (Holds-put w (granted r name w))) id
        old

  -- Once a runner has been granted the claim of a step, then as long as the store is as that claim
  -- left it and the lease has not run out, every claim of that step by any runner is refused and
  -- changes nothing: with the record that is in the store now as with any earlier version of it.
  pub claim_step-excludes :
      (r r' other : SagaRecord C) (name : String) (w w1 w2 : World C)
      → Holds r w
      → claim_step co clock r name w ≡ (ok (some r'), w1)
      → w2.store ≡ w1.store
      → clock w2.ticks < clock w.ticks + co.claim_lease_ms
      → MayHold r' other
      → Refused w2 (claim_step co clock other name w2)
  claim_step-excludes r r' other name w w1 w2 h e same early may =
      let (er, ew) = claim_step-granted r r' name w w1 h e in
      excluded r other name w w2 (same ∙ ap (λ v. v.store) (sym ew)) early
        (subst (λ k. MayHold k other) (sym er) may)
