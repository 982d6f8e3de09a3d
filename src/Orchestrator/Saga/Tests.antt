-- ===== src/Orchestrator/Saga/Tests.antt =====
-- Runs of a saga of three steps, and the coordinator's theorems at them.
use delego.Base.{ℕ, ◌+◌, ◌*◌, ◌≡◌, refl, none, some, [], ◌∷◌, String, inr, arith}
use delego.Base.Maps.{lookup, insert}
use delego.Orchestrator.Saga.Store.{SagaRecord, running, save, create_if_not_exists, get}
use delego.Orchestrator.Saga.Coordinator.{
  Coordinator, SagaStep, World, ok, resolved, rejected, did, undid, action_failed, run, resume,
  claim_step, advance, save_record, run_action, run_compensation, find_step, constructed,
  new_coordinator,
}
use delego.Orchestrator.Saga.Spec.{Shows}
use delego.Orchestrator.Saga.Refines.{resume-Shows, spec_resume}
use delego.Orchestrator.Saga.AllOrNothing.{Concludes, run-all_or_nothing}
use delego.Orchestrator.Saga.Exclusive.{Refused, claim_step-excludes}

abbrev step : String → ℕ → SagaStep ℕ
step name n = record {
  name = name;
  action = λ t c. resolved (c + n);
  compensation = λ t c e. resolved (c * 2);
}

-- The action of the last step fails.
abbrev broken : SagaStep ℕ
broken = record {
  name = "ship";
  action = λ t c. rejected "no stock";
  compensation = λ t c e. resolved c;
}

abbrev good : Coordinator ℕ
good = record { steps = step "reserve" 1 ∷ step "pay" 10 ∷ []; claim_lease_ms = 30 }

abbrev bad : Coordinator ℕ
bad = record { steps = step "reserve" 1 ∷ step "pay" 10 ∷ broken ∷ []; claim_lease_ms = 30 }

abbrev clock : ℕ → ℕ
clock n = 1000 + n

abbrev empty : World ℕ
empty = record { store = []; trace = []; ticks = 0 }

saga : Unit {0}
unfolding run resume claim_step advance save_record run_action run_compensation find_step save get
    create_if_not_exists lookup insert
saga = tt

good_trace : (run good clock "s" "o" 0 empty).1.trace ≡ did "reserve" ∷ did "pay" ∷ []
unfolding saga
good_trace = refl

bad_trace :
    (run bad clock "s" "o" 0 empty).1.trace
    ≡ did "reserve"
      ∷ did "pay"
      ∷ action_failed "ship" "no stock"
      ∷ undid "pay"
      ∷ undid "reserve"
      ∷ []
unfolding saga
bad_trace = refl

constructor_test : new_coordinator good.steps (some 30) ≡ constructed good
unfolding new_coordinator
constructor_test = refl

missing : lookup {V = SagaRecord ℕ} "s" [] ≡ none
unfolding lookup
missing = refl

run-all_or_nothing_example :
    Concludes [] ("reserve" ∷ "pay" ∷ "ship" ∷ []) "s" (run bad clock "s" "o" 0 empty)
run-all_or_nothing_example =
    run-all_or_nothing bad clock "s" "o" 0 empty
      ((λ t c e. (c * 2, refl)), ((λ t c e. (c * 2, refl)), ((λ t c e. (c, refl)), tt))) missing

-- A saga left by a crash after its first step, with the lease of the second run out.
abbrev crashed : SagaRecord ℕ
crashed = record {
  saga_id = "s";
  order_id = "o";
  status = running;
  completed_steps = "reserve" ∷ [];
  context = 1;
  current_step = some "pay";
  error = none;
  version = 4;
  claim_expires_at = some 900;
  created_at = 800;
  updated_at = 870;
}

abbrev restarted : World ℕ
restarted = record { store = ("s", crashed) ∷ []; trace = []; ticks = 0 }

held : lookup "s" restarted.store ≡ some crashed
unfolding lookup
held = refl

resume_trace : (resume good clock "s" restarted).1.trace ≡ did "pay" ∷ []
unfolding saga
resume_trace = refl

resume-Shows_example :
    Shows "s"
      (spec_resume good clock crashed [])
      (resume good clock "s" restarted).0
      (resume good clock "s" restarted).1
resume-Shows_example = resume-Shows good clock crashed restarted held refl

abbrev reclaimed : SagaRecord ℕ
reclaimed = record crashed { version = 5; claim_expires_at = some 1030; updated_at = 1000 }

abbrev claimed : World ℕ
claimed = record { store = ("s", reclaimed) ∷ []; trace = []; ticks = 1 }

claim_granted : claim_step good clock crashed "pay" restarted ≡ (ok (some reclaimed), claimed)
unfolding saga
claim_granted = refl

claim_step-excludes_example :
    Refused good clock claimed (claim_step good clock crashed "pay" claimed)
claim_step-excludes_example =
    claim_step-excludes good clock crashed reclaimed crashed "pay" restarted claimed claimed held
      claim_granted refl (omega arith) (refl, inr (omega arith))
