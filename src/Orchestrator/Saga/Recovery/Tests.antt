-- ===== src/Orchestrator/Saga/Recovery/Tests.antt =====
-- A restart of the saga coordinator with two sagas that a crash has left.
use delego.Base.{ℕ, ◌+◌, ◌≡◌, refl, none, some, [], ◌∷◌, arith}
use delego.Base.Maps.{lookup, insert}
use delego.Orchestrator.Saga.Store.{SagaRecord, running, compensating, save, list_incomplete}
use delego.Orchestrator.Saga.Coordinator.{
  Coordinator, SagaStep, World, resolved, rejected, did, compensation_failed, claim_step, advance,
  save_record, run_action, run_compensation, find_step,
}
use delego.Orchestrator.Saga.Recovery.{recover_all}
use delego.Orchestrator.Saga.Recovery.Recovers.{
  Named, Named-insert, Recovered, distinct, recover_all-Recovers,
}

-- Its compensation fails when nothing has run before it.
abbrev pay : SagaStep ℕ
pay = record {
  name = "pay";
  action = λ t c. resolved (c + 10);
  compensation = λ t c e. elim t [ [] ↦ rejected "bank closed" | _ ∷ _ ↦ resolved c ];
}

abbrev shop : Coordinator ℕ
shop = record { steps = pay ∷ []; claim_lease_ms = 30 }

abbrev clock : ℕ → ℕ
clock n = 1000 + n

abbrev paid : SagaRecord ℕ
paid = record {
  saga_id = "a";
  order_id = "o";
  status = compensating;
  completed_steps = "pay" ∷ [];
  context = 1;
  current_step = none;
  error = some "no stock";
  version = 4;
  claim_expires_at = none;
  created_at = 800;
  updated_at = 870;
}

abbrev started : SagaRecord ℕ
started = record paid {
  saga_id = "b";
  status = running;
  completed_steps = [];
  current_step = some "pay";
  claim_expires_at = some 900;
}

abbrev restarted : World ℕ
restarted = record { store = ("a", paid) ∷ ("b", started) ∷ []; trace = []; ticks = 0 }

-- The first saga throws, and the second is finished all the same.
recovered_trace :
    (recover_all shop clock restarted).1.trace
    ≡ compensation_failed "pay" "bank closed" ∷ did "pay" ∷ []
unfolding recover_all claim_step advance save_record run_action run_compensation find_step save
    lookup insert
recovered_trace = refl

nothing_stored : Named {C = ℕ} []
unfolding lookup
nothing_stored k r h = absurd (cc)

found : lookup "b" restarted.store ≡ some started
unfolding lookup
found = refl

named : Named restarted.store
unfolding insert
named = Named-insert started (("a", paid) ∷ []) (Named-insert paid [] nothing_stored)

recover_all-Recovers_example : Recovered shop clock started (recover_all shop clock restarted).1
unfolding distinct list_incomplete
recover_all-Recovers_example =
    recover_all-Recovers shop clock started restarted named refl found refl (λ t. ground arith)
