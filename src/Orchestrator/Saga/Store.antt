-- ===== src/Orchestrator/Saga/Store.antt =====
-- apps/backend/orchestrator/src/saga/types.ts and memory-store.ts: the records of sagas and their
-- store. A stored record is a value here, so the copies that `clone` makes are the record itself.
use delego.Base.{
  ℕ, ◌+◌, ◌≡◌, String, Bool, true, false, Option, none, some, List, [], ◌∷◌, ◌==◌, if◌then◌else◌,
  filter, arith, eq_iff,
}
use delego.Base.Maps.{lookup, insert, lookup-insert}

pub data SagaStatus : Type 0 where
  running compensating completed failed : SagaStatus

pub record SagaRecord (C : Type 0) : Type 0 where
  pub saga_id : String
  pub order_id : String
  pub status : SagaStatus
  pub completed_steps : List String
  pub context : C
  pub current_step : Option String
  pub error : Option String
  pub version : ℕ
  pub claim_expires_at : Option ℕ
  pub created_at : ℕ
  pub updated_at : ℕ

abbrev pub is_incomplete : SagaStatus → Bool
is_incomplete running = true
is_incomplete compensating = true
is_incomplete _ = false

-- The field `records` of `InMemorySagaStore`.
abbrev pub Store : Type 0 → Type 0
Store C = List (String × SagaRecord C)

abbrev pub values : {C : Type 0} → Store C → List (SagaRecord C)
values [] = []
values ((k, r) ∷ s) = r ∷ values s

module _ {C : Type 0} where
  abbrev pub keep_existing : SagaRecord C → Store C → Option (SagaRecord C) → Store C × SagaRecord C
  keep_existing r s (some existing) = (s, existing)
  keep_existing r s none =
      let stored = record r { version = 0 } in (insert r.saga_id stored s, stored)

  unfoldable pub create_if_not_exists : SagaRecord C → Store C → Store C × SagaRecord C
  create_if_not_exists r s = keep_existing r s (lookup r.saga_id s)

  unfoldable pub get : String → Store C → Option (SagaRecord C)
  get id s = lookup id s

  abbrev pub save_over :
      SagaRecord C → Store C → Option (SagaRecord C) → Option (Store C × SagaRecord C)
  save_over r s none = none
  save_over r s (some existing) =
      let updated = record r { version = r.version + 1 } in
      if existing.version == r.version then some (insert r.saga_id updated s, updated) else none

  -- `none` is a thrown `SagaConcurrencyError`.
  unfoldable pub save : SagaRecord C → Store C → Option (Store C × SagaRecord C)
  save r s = save_over r s (lookup r.saga_id s)

  unfoldable pub list_incomplete : Store C → List (SagaRecord C)
  list_incomplete s = filter (λ r. is_incomplete r.status) (values s)

  -- A store that holds `r` accepts a change of it.
  pub save_held :
      (r : SagaRecord C) (s : Store C) (held : SagaRecord C)
      → lookup r.saga_id s ≡ some held
      → held.version ≡ r.version
      → save r s
        ≡ some (
          insert r.saga_id (record r { version = r.version + 1 }) s,
          record r { version = r.version + 1 },
        )
  unfolding save
  save_held r s held h e = ground arith

  -- A save at another version than the stored one is refused.
  pub save_stale :
      (r : SagaRecord C) (s : Store C) (held : SagaRecord C)
      → lookup r.saga_id s ≡ some held
      → (held.version == r.version) ≡ false
      → save r s ≡ none
  unfolding save
  save_stale r s held h e = ground arith

  pub lookup-insert_self :
      (k : String) (r : SagaRecord C) (s : Store C) → lookup k (insert k r s) ≡ some r
  lookup-insert_self k r s = ground (arith, lookup-insert s k k r, eq_iff k k)
