-- ===== src/Orchestrator/Purchase/Listing.antt =====
-- listWorkflows of apps/backend/orchestrator/workflows/purchase/index.ts: the query's WHERE and
-- ORDER BY, on the rows of the table. The order of rows with the same time is left open by SQL; the
-- model keeps theirs.
use delego.Base.{
  ℕ, suc, ◌≤◌, ◌≡◌, refl, ◌∙◌, String, Bool, true, ◌&&◌, Option, none, some, List, [], ◌∷◌, filter,
  All, arith, if◌then◌else◌, str_eq, leb, ◌==◌, Bool-cases, inl, inr,
}
use delego.Base.Maps.{Map}
use delego.Orchestrator.Purchase.{
  PurchaseState, initiated, searching, found, approved, escrow_funded, purchased, delivering,
  delivered, completed, cancelled, failed, WorkflowSnapshot,
}
use delego.Orchestrator.Purchase.Store.{
  Row, Services, Calls, Reply, reply, database_error, snapshot_of,
}

abbrev state_code : PurchaseState → ℕ
state_code initiated = 0
state_code searching = 1
state_code found = 2
state_code approved = 3
state_code escrow_funded = 4
state_code purchased = 5
state_code delivering = 6
state_code delivered = 7
state_code completed = 8
state_code cancelled = 9
state_code failed = 10

abbrev has_status : Option PurchaseState → WorkflowSnapshot → Bool
has_status none s = true
has_status (some status) s = state_code s.state == state_code status

-- `WHERE context->>'userId' = $1 AND state = $2`, the latter when a status is asked for.
abbrev pub matches : String → Option PurchaseState → WorkflowSnapshot → Bool
matches user status s = str_eq s.context.user_id user && has_status status s

-- `ORDER BY updated_at DESC`
abbrev insert_by_time : WorkflowSnapshot → List WorkflowSnapshot → List WorkflowSnapshot
insert_by_time s [] = s ∷ []
insert_by_time s (t ∷ ts) =
    if leb t.updated_at s.updated_at then s ∷ t ∷ ts else t ∷ insert_by_time s ts

abbrev pub latest_first : List WorkflowSnapshot → List WorkflowSnapshot
latest_first [] = []
latest_first (s ∷ ss) = insert_by_time s (latest_first ss)

abbrev pub snapshots : Map Row → List WorkflowSnapshot
snapshots [] = []
snapshots (entry ∷ rest) = snapshot_of entry.0 entry.1 ∷ snapshots rest

abbrev pub listed : String → Option PurchaseState → Services → List WorkflowSnapshot
listed user status w = latest_first (filter (matches user status) (snapshots w.rows))

unfoldable pub list_workflows :
    String → Option PurchaseState → Calls → Services → Reply (List WorkflowSnapshot)
list_workflows user status calls w =
    if calls.load_works then reply (listed user status w) else database_error

abbrev pub IsSorted : List WorkflowSnapshot → Type 0
IsSorted [] = Unit
IsSorted (s ∷ ss) = All (λ t. t.updated_at ≤ s.updated_at) ss × IsSorted ss

abbrev pub count : (WorkflowSnapshot → Bool) → List WorkflowSnapshot → ℕ
count p [] = 0
count p (s ∷ ss) = if p s then suc (count p ss) else count p ss

All-insert :
    (bound : ℕ) (s : WorkflowSnapshot) (ts : List WorkflowSnapshot)
    → s.updated_at ≤ bound
    → All (λ t. t.updated_at ≤ bound) ts
    → All (λ t. t.updated_at ≤ bound) (insert_by_time s ts)
All-insert bound s [] le h = (le, tt)
All-insert bound s (t ∷ ts) le (here, h) = elim (Bool-cases (leb t.updated_at s.updated_at)) [
  | inl later ↦ rw later (le, (here, h))
  | inr earlier ↦ rw earlier (here, All-insert bound s ts le h)
]

All-weaken :
    (low high : ℕ) (ts : List WorkflowSnapshot)
    → low ≤ high
    → All (λ t. t.updated_at ≤ low) ts
    → All (λ t. t.updated_at ≤ high) ts
All-weaken low high [] le h = tt
All-weaken low high (t ∷ ts) le (here, h) = (omega (arith, here, le), All-weaken low high ts le h)

insert-IsSorted :
    (s : WorkflowSnapshot) (ts : List WorkflowSnapshot)
    → IsSorted ts
    → IsSorted (insert_by_time s ts)
insert-IsSorted s [] h = (tt, tt)
insert-IsSorted s (t ∷ ts) (bound, h) = elim (Bool-cases (leb t.updated_at s.updated_at)) [
  | inl later ↦
      let le : t.updated_at ≤ s.updated_at = ground (arith, later) in
      rw later ((le, All-weaken t.updated_at s.updated_at ts le bound), (bound, h))
  | inr earlier ↦
      rw earlier
        (All-insert t.updated_at s ts (ground (arith, earlier)) bound, insert-IsSorted s ts h)
]

count-insert :
    (p : WorkflowSnapshot → Bool) (s : WorkflowSnapshot) (ts : List WorkflowSnapshot)
    → count p (insert_by_time s ts) ≡ count p (s ∷ ts)
count-insert p s [] = refl
count-insert p s (t ∷ ts) = ground (arith, count-insert p s ts)

latest_first-IsSorted : (ss : List WorkflowSnapshot) → IsSorted (latest_first ss)
latest_first-IsSorted [] = tt
latest_first-IsSorted (s ∷ ss) = insert-IsSorted s (latest_first ss) (latest_first-IsSorted ss)

count-latest_first :
    (p : WorkflowSnapshot → Bool) (ss : List WorkflowSnapshot)
    → count p (latest_first ss) ≡ count p ss
count-latest_first p [] = refl
count-latest_first p (s ∷ ss) =
    ground (arith, count-insert p s (latest_first ss), count-latest_first p ss)

count-filter :
    (p q : WorkflowSnapshot → Bool) (ss : List WorkflowSnapshot)
    → count p (filter q ss) ≡ count (λ s. q s && p s) ss
count-filter p q [] = refl
count-filter p q (s ∷ ss) = ground (arith, count-filter p q ss)

-- When the database answers, the list is sorted, the latest first, and for any test of workflows
-- it has as many that pass as there are stored ones of the user, with the status if one is asked
-- for, that pass.
pub list_workflows-Sorted :
    (user : String) (status : Option PurchaseState) (calls : Calls) (w : Services)
    (test : WorkflowSnapshot → Bool)
    → calls.load_works ≡ true
    → (found : List WorkflowSnapshot) × (list_workflows user status calls w ≡ reply found)
      × IsSorted found
      × (count test found ≡ count (λ s. matches user status s && test s) (snapshots w.rows))
unfolding list_workflows
list_workflows-Sorted user status calls w test loads =
    let asked = filter (matches user status) (snapshots w.rows) in
    (
      listed user status w,
      rw loads refl,
      latest_first-IsSorted asked,
      count-latest_first test asked ∙ count-filter test (matches user status) (snapshots w.rows),
    )
