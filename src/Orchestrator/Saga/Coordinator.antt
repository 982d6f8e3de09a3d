-- ===== src/Orchestrator/Saga/Coordinator.antt =====
-- apps/backend/orchestrator/src/saga/coordinator.ts.
use delego.Base.{
  ℕ, ◌+◌, String, Bool, true, false, not, ◌&&◌, ◌||◌, Option, none, some, List, [], ◌∷◌, ◌++◌,
  if◌then◌else◌, filter, reverse, str_eq, ltb, leb, ◌==◌,
}
use Prim.Native.String
use delego.Orchestrator.Saga.Store.{
  SagaStatus, running, compensating, completed, failed, SagaRecord, Store, is_incomplete,
  create_if_not_exists, get, save,
}

-- The error of a throw: `SagaConcurrencyError`, the error of an action or a compensation with its
-- message, or one of the coordinator's own errors.
pub data SagaError : Type 0 where
  concurrency : String → SagaError
  step_error : String → SagaError
  unknown_step : String → SagaError
  unknown_compensation : String → SagaError
  not_found : String → SagaError

pub data Effect : Type 0 where
  did : String → Effect
  action_failed : String → String → Effect
  undid : String → Effect
  compensation_failed : String → String → Effect

abbrev pub Trace : Type 0
Trace = List Effect

-- How the promise of a step function ends.
pub data Settled (C : Type 0) : Type 0 where
  resolved : C → Settled C
  rejected : String → Settled C

pub record SagaStep (C : Type 0) : Type 0 where
  pub name : String
  pub action : Trace → C → Settled C
  pub compensation : Trace → C → String → Settled C

pub record Coordinator (C : Type 0) : Type 0 where
  pub steps : List (SagaStep C)
  pub claim_lease_ms : ℕ

abbrev pub default_claim_lease_ms : ℕ
default_claim_lease_ms = 30000

abbrev pub max_safe_integer : ℕ
max_safe_integer = 9007199254740991

pub data BadOptions : Type 0 where
  no_steps : BadOptions
  duplicate_step : String → BadOptions
  bad_lease : BadOptions

pub data Constructed (C : Type 0) : Type 0 where
  constructed : Coordinator C → Constructed C
  refused : BadOptions → Constructed C

abbrev pub includes : List String → String → Bool
includes [] k = false
includes (x ∷ xs) k = str_eq x k || includes xs k

abbrev pub lease_or_default : Option ℕ → ℕ
lease_or_default none = default_claim_lease_ms
lease_or_default (some ms) = ms

abbrev pub missing_message : String → String
missing_message name = String.◌++◌ "Unknown saga step during compensation: " name

-- `record.error ?? "Saga failed"`
abbrev pub message_or : Option String → String
message_or none = "Saga failed"
message_or (some e) = e

abbrev pub is_compensating : SagaStatus → Bool
is_compensating compensating = true
is_compensating _ = false

-- `completedSteps.filter((name) => name !== stepName)`
abbrev pub without : String → List String → List String
without name = filter (λ k. not (str_eq k name))

module _ {C : Type 0} where
  -- The loop over `options.steps` with the set `seen`.
  unfoldable pub first_duplicate : List String → List (SagaStep C) → Option String
  first_duplicate seen [] = none
  first_duplicate seen (s ∷ ss) =
      if includes seen s.name then some s.name else first_duplicate (s.name ∷ seen) ss

  abbrev with_lease : List (SagaStep C) → ℕ → Constructed C
  with_lease steps ms =
      if not (leb ms max_safe_integer) || ms == 0
      then refused bad_lease
      else constructed (record { steps = steps; claim_lease_ms = ms })

  -- The constructor; a lease is a non-negative integer here.
  unfoldable pub new_coordinator : List (SagaStep C) → Option ℕ → Constructed C
  unfolding first_duplicate
  new_coordinator [] lease = refused no_steps
  new_coordinator (s ∷ ss) lease = elim (first_duplicate [] (s ∷ ss)) [
    | some name ↦ refused (duplicate_step name)
    | none ↦ with_lease (s ∷ ss) (lease_or_default lease)
  ]

  -- `this.steps.get`; the names are distinct, so the first is the only one.
  unfoldable pub find_step : String → List (SagaStep C) → Option (SagaStep C)
  find_step k [] = none
  find_step k (s ∷ ss) = if str_eq s.name k then some s else find_step k ss

  abbrev pub step_order : List (SagaStep C) → List String
  step_order [] = []
  step_order (s ∷ ss) = s.name ∷ step_order ss

pub record World (C : Type 0) : Type 0 where
  pub store : Store C
  pub trace : Trace
  pub ticks : ℕ

pub data Outcome {ℓ} (A : Type ℓ) : Type ℓ where
  ok : A → Outcome A
  threw : SagaError → Outcome A

abbrev pub M : Type 0 → Type 0 → Type 0
M C A = World C → Outcome A × World C

module _ {C : Type 0} where
  abbrev pub bind_outcome : {A B : Type 0} → (A → M C B) → Outcome A × World C → Outcome B × World C
  bind_outcome k (ok a, w) = k a w
  bind_outcome k (threw e, w) = (threw e, w)

infixl 5 ◌>>=◌
abbrev pub ◌>>=◌ : {C A B : Type 0} → M C A → (A → M C B) → M C B
◌>>=◌ m k w = bind_outcome k (m w)

abbrev pub pure : {C A : Type 0} → A → M C A
pure a w = (ok a, w)

abbrev pub throw : {C A : Type 0} → SagaError → M C A
throw e w = (threw e, w)

module _ {C : Type 0} where
  abbrev pub stored :
      String → World C → Option (Store C × SagaRecord C) → Outcome (SagaRecord C) × World C
  stored id w none = (threw (concurrency id), record w { ticks = w.ticks + 1 })
  stored id w (some (s, r)) = (ok r, record w { store = s; ticks = w.ticks + 1 })

  -- `await this.store.save(record)`
  unfoldable pub save_record : SagaRecord C → M C (SagaRecord C)
  save_record r w = stored r.saga_id w (save r w.store)

  abbrev pub after_action : String → World C → Settled C → Settled C × World C
  after_action name w (resolved c) =
      (resolved c, record w { trace = w.trace ++ did name ∷ []; ticks = w.ticks + 1 })
  after_action name w (rejected e) =
      (rejected e, record w { trace = w.trace ++ action_failed name e ∷ []; ticks = w.ticks + 1 })

  -- `await step.action(context)`
  unfoldable pub run_action : SagaStep C → C → World C → Settled C × World C
  run_action step c w = after_action step.name w (step.action w.trace c)

  abbrev pub after_compensation : String → World C → Settled C → Settled C × World C
  after_compensation name w (resolved c) =
      (resolved c, record w { trace = w.trace ++ undid name ∷ []; ticks = w.ticks + 1 })
  after_compensation name w (rejected e) = (
    rejected e,
    record w { trace = w.trace ++ compensation_failed name e ∷ []; ticks = w.ticks + 1 },
  )

  -- `await step.compensation(context, error)`
  unfoldable pub run_compensation : SagaStep C → C → String → World C → Settled C × World C
  run_compensation step c e w = after_compensation step.name w (step.compensation w.trace c e)

  -- `currentStep === stepName`
  abbrev pub is_current : SagaRecord C → String → Bool
  is_current r name = elim r.current_step [ none ↦ false | some k ↦ str_eq k name ]

  -- `claimExpiresAt && claimExpiresAt.getTime() > Date.now()`
  abbrev pub is_live : SagaRecord C → ℕ → Bool
  is_live r now = elim r.claim_expires_at [ none ↦ false | some t ↦ ltb now t ]

  -- The `catch` of `claimStep`: a concurrency error becomes `null`.
  abbrev pub caught : Outcome (SagaRecord C) × World C → Outcome (Option (SagaRecord C)) × World C
  caught (ok r, w) = (ok (some r), w)
  caught (threw (concurrency _), w) = (ok none, w)
  caught (threw e, w) = (threw e, w)

  module _ (co : Coordinator C) (clock : ℕ → ℕ) where
    abbrev pub claimed_record : SagaRecord C → String → ℕ → SagaRecord C
    claimed_record r name now = record r {
      current_step = some name;
      claim_expires_at = some (now + co.claim_lease_ms);
      updated_at = now;
    }

    unfoldable pub claim_step : SagaRecord C → String → M C (Option (SagaRecord C))
    unfolding save_record
    claim_step r name w =
        if is_current r name && is_live r (clock w.ticks)
        then (ok none, w)
        else caught (save_record (claimed_record r name (clock w.ticks)) w)

    abbrev pub finish : SagaStatus → SagaRecord C → M C (SagaRecord C)
    finish status r w =
        save_record
          (record r {
            status = status;
            current_step = none;
            claim_expires_at = none;
            updated_at = clock w.ticks;
          })
          w

    -- One round of the loop of `compensate` and, by `next`, the rounds after it.
    abbrev pub after_undo :
        String
        → SagaRecord C
        → (SagaRecord C → M C (SagaRecord C))
        → Settled C × World C
        → Outcome (SagaRecord C) × World C
    after_undo name r next (resolved c, w) =
        (save_record (record r {
          context = c;
          completed_steps = without name r.completed_steps;
          claim_expires_at = none;
          updated_at = clock w.ticks;
        })
            >>= next)
          w
    after_undo name r next (rejected e, w) =
        (save_record (record r { claim_expires_at = none; updated_at = clock w.ticks }) >>= λ _.
        throw (step_error e))
          w

    abbrev pub undo_claimed :
        String
        → SagaStep C
        → String
        → (SagaRecord C → M C (SagaRecord C))
        → SagaRecord C
        → Option (SagaRecord C)
        → M C (SagaRecord C)
    undo_claimed name step e next r none w = (ok r, w)
    undo_claimed name step e next r (some r') w =
        after_undo name r' next (run_compensation step r'.context e w)

    abbrev pub undo_step :
        String
        → String
        → (SagaRecord C → M C (SagaRecord C))
        → SagaRecord C
        → Option (SagaStep C)
        → M C (SagaRecord C)
    undo_step name e next r none w =
        (save_record (record r { error = some (missing_message name); updated_at = clock w.ticks })
            >>= λ _. throw (unknown_compensation name))
          w
    undo_step name e next r (some step) w =
        (claim_step r name >>= undo_claimed name step e next r) w

    -- The loop of `compensate`, over the completed steps in reverse.
    unfoldable pub undo_all : List String → String → SagaRecord C → M C (SagaRecord C)
    undo_all [] e r = finish failed r
    undo_all (name ∷ names) e r =
        undo_step name e (λ r'. undo_all names e r') r (find_step name co.steps)

    unfoldable pub compensate : SagaRecord C → String → M C (SagaRecord C)
    unfolding undo_all
    compensate r e = undo_all (reverse r.completed_steps) e r

    abbrev pub after_do :
        String
        → SagaRecord C
        → (SagaRecord C → M C (SagaRecord C))
        → Settled C × World C
        → Outcome (SagaRecord C) × World C
    after_do name r next (resolved c, w) =
        (save_record (record r {
          context = c;
          completed_steps = r.completed_steps ++ name ∷ [];
          claim_expires_at = none;
          updated_at = clock w.ticks;
        })
            >>= next)
          w
    after_do name r next (rejected e, w) =
        (save_record (record r {
          status = compensating;
          error = some e;
          claim_expires_at = none;
          updated_at = clock w.ticks;
        })
            >>= λ r'. compensate r' e)
          w

    abbrev pub do_claimed :
        String
        → SagaStep C
        → (SagaRecord C → M C (SagaRecord C))
        → SagaRecord C
        → Option (SagaRecord C)
        → M C (SagaRecord C)
    do_claimed name step next r none w = (ok r, w)
    do_claimed name step next r (some r') w = after_do name r' next (run_action step r'.context w)

    abbrev pub do_step :
        String
        → (SagaRecord C → M C (SagaRecord C))
        → SagaRecord C
        → Option (SagaStep C)
        → M C (SagaRecord C)
    do_step name next r none = throw (unknown_step name)
    do_step name next r (some step) = claim_step r name >>= do_claimed name step next r

    -- The loop of `advance`, over the steps that remain.
    unfoldable pub do_all : List String → SagaRecord C → M C (SagaRecord C)
    do_all [] r = finish completed r
    do_all (name ∷ names) r = do_step name (λ r'. do_all names r') r (find_step name co.steps)

    abbrev pub remaining : SagaRecord C → List String
    remaining r = filter (λ k. not (includes r.completed_steps k)) (step_order co.steps)

    unfoldable pub advance : SagaRecord C → M C (SagaRecord C)
    unfolding do_all compensate
    advance r =
        if is_compensating r.status
        then compensate r (message_or r.error)
        else do_all (remaining r) r

    abbrev pub unless_finished : SagaRecord C → M C (SagaRecord C)
    unless_finished r = if is_incomplete r.status then advance r else pure r

    abbrev first_name : List (SagaStep C) → Option String
    first_name [] = none
    first_name (s ∷ ss) = some s.name

    abbrev pub initial_record : String → String → C → ℕ → SagaRecord C
    initial_record id order c now = record {
      saga_id = id;
      order_id = order;
      status = running;
      completed_steps = [];
      context = c;
      current_step = first_name co.steps;
      error = none;
      version = 0;
      claim_expires_at = none;
      created_at = now;
      updated_at = now;
    }

    abbrev created : World C → Store C × SagaRecord C → Outcome (SagaRecord C) × World C
    created w (s, r) = (ok r, record w { store = s; ticks = w.ticks + 1 })

    unfoldable pub run : String → String → C → M C (SagaRecord C)
    run id order c w =
        ((λ w. created w (create_if_not_exists (initial_record id order c (clock w.ticks)) w.store))
            >>= unless_finished)
          w

    abbrev pub found : String → World C → Option (SagaRecord C) → Outcome (SagaRecord C) × World C
    found id w none = (threw (not_found id), record w { ticks = w.ticks + 1 })
    found id w (some r) = (ok r, record w { ticks = w.ticks + 1 })

    unfoldable pub resume : String → M C (SagaRecord C)
    resume id w = ((λ w. found id w (get id w.store)) >>= unless_finished) w
