-- ===== src/Orchestrator/Saga/Recovery.antt =====
-- apps/backend/orchestrator/src/saga/coordinator.ts: `recoverAll`, `recoverOne` and
-- `scheduleRetryIfLeased`. A timer that is set is a value here; when it fires, `recoverOne` runs.
pub mod Recovers
mod Tests
use delego.Base.{
  ℕ, ◌+◌, ◌-◌, String, Bool, true, false, ◌&&◌, Option, none, some, List, [], ◌∷◌, ◌++◌, leb,
  if◌then◌else◌,
}
use delego.Orchestrator.Saga.Store.{SagaRecord, is_incomplete, get, list_incomplete}
use delego.Orchestrator.Saga.Coordinator.{Coordinator, World, Outcome, ok, threw, resume}

-- A timer, and the saga that it recovers.
pub record Retry : Type 0 where
  pub saga_id : String
  pub delay_ms : ℕ

abbrev pub is_unclaimed : Option ℕ → Bool
is_unclaimed none = true
is_unclaimed (some end) = false

-- The timer for a lease that has not run out.
abbrev retry_after : String → (now : ℕ) → Option ℕ → List Retry
retry_after id now none = []
retry_after id now (some end) =
    if leb end now then [] else record { saga_id = id; delay_ms = (end - now) + 50 } ∷ []

module _ {C : Type 0} where
  abbrev pub schedule_retry_if_leased : SagaRecord C → (now : ℕ) → List Retry
  schedule_retry_if_leased r now =
      if is_incomplete r.status then retry_after r.saga_id now r.claim_expires_at else []

  abbrev pub schedule_latest : Option (SagaRecord C) → (now : ℕ) → List Retry
  schedule_latest none now = []
  schedule_latest (some latest) now = schedule_retry_if_leased latest now

  module _ (co : Coordinator C) (clock : ℕ → ℕ) where
    -- The rest of `recoverOne`; an error is logged.
    abbrev pub recovered : (id : String) → Outcome (SagaRecord C) × World C → List Retry × World C
    recovered id (threw e, w) = ([], w)
    recovered id (ok result, w) =
        if is_incomplete result.status && is_unclaimed result.claim_expires_at
        then (
          schedule_retry_if_leased result (clock w.ticks)
              ++ schedule_latest (get id w.store) (clock (w.ticks + 1)),
          record w { ticks = w.ticks + 1 },
        )
        else (schedule_retry_if_leased result (clock w.ticks), w)

    unfoldable pub recover_one : (id : String) → World C → List Retry × World C
    unfolding resume get
    recover_one id w = recovered id (resume co clock id w)

    -- The loop over the records that are incomplete.
    unfoldable pub recover_records : List (SagaRecord C) → World C → List Retry × World C
    unfolding recover_one
    recover_records [] w = ([], w)
    recover_records (r ∷ rs) w =
        let (retries, w1) = recover_one r.saga_id w in
        let (more, w2) = recover_records rs w1 in (retries ++ more, w2)

    unfoldable pub recover_all : World C → List Retry × World C
    unfolding recover_records list_incomplete
    recover_all w = recover_records (list_incomplete w.store) (record w { ticks = w.ticks + 1 })
