-- ===== src/Orchestrator/Saga/Alone.antt =====
-- The store operations of a runner that no other runner interferes with
-- (apps/backend/orchestrator/src/saga/coordinator.ts).
use delego.Base.{ℕ, ◌+◌, ◌≡◌, refl, String, false, some, arith, subst, ◌&&◌}
use delego.Base.Maps.{lookup, insert}
use delego.Orchestrator.Saga.Store.{SagaRecord, save_held, lookup-insert_self}
use delego.Orchestrator.Saga.Coordinator.{
  Coordinator, World, ok, save_record, claim_step, claimed_record, is_live, is_current,
}

module _ {C : Type 0} where
  abbrev pub bump : SagaRecord C → SagaRecord C
  bump r = record r { version = r.version + 1 }

  abbrev pub put : World C → SagaRecord C → World C
  put w r = record w { store = insert r.saga_id r w.store; ticks = w.ticks + 1 }

  -- The store holds exactly the record that the runner works on.
  abbrev pub Holds : SagaRecord C → World C → Type 0
  Holds r w = lookup r.saga_id w.store ≡ some r

  pub Holds-put : (w : World C) (r : SagaRecord C) → Holds r (put w r)
  Holds-put w r = lookup-insert_self r.saga_id r w.store

  pub save_record_alone :
      (held r : SagaRecord C) (w : World C)
      → Holds held w
      → held.saga_id ≡ r.saga_id
      → held.version ≡ r.version
      → save_record r w ≡ (ok (bump r), put w (bump r))
  unfolding save_record
  save_record_alone held r w h id v =
      rw (save_held r w.store held (subst (λ k. lookup k w.store ≡ some held) id h) v)

  pub claim_step_free :
      (co : Coordinator C) (clock : ℕ → ℕ) (r : SagaRecord C) (name : String) (w : World C)
      → Holds r w
      → is_live r (clock w.ticks) ≡ false
      → let r' = bump (claimed_record co clock r name (clock w.ticks)) in
        claim_step co clock r name w ≡ (ok (some r'), put w r')
  unfolding claim_step
  claim_step_free co clock r name w h free =
      let no : (is_current r name && is_live r (clock w.ticks)) ≡ false = ground arith in
      rw no
        (rw (save_record_alone r (claimed_record co clock r name (clock w.ticks)) w h refl refl))
