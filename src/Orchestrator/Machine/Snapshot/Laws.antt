-- ===== src/Orchestrator/Machine/Snapshot/Laws.antt =====
-- Validation and restoring of snapshots (apps/backend/orchestrator/state/snapshot-validator.ts).
use delego.Base.{
  String, ◌≡◌, refl, ap, sym, map, inl, inr, ◌∙◌, ◌≢◌, ◌↔◌, Bool, true, false, not, List, [], ◌∷◌,
  ◌++◌, str_eq, eq_iff, arith, Bool-cases,
}
use delego.Base.Int.{pos, negsuc}
use delego.Orchestrator.Machine.{
  PurchaseState, discovery, spending_check, user_approval_pending, escrow_locking,
  merchant_fulfillment, delivery_verification, completed, refunded, snapshot_version,
}
use delego.Base.Value.{Value, undefined, num, str, arr, obj, Elements, get, not_object}
use delego.Orchestrator.Machine.Snapshot.{
  not_text, not_state, is_array, not_version, state_name, validate_snapshot, SnapshotError, report,
  has, check_context, context_errors,
}
use mathlib.Core.List.{append-nil}

-- What the validator looks at: three ids, the state, that the history is an array, and the version.
abbrev pub IsText : Value → Type 0
IsText v = (s : String) × (v ≡ str s) × (s ≢ "")

abbrev pub IsState : Value → Type 0
IsState v = (s : PurchaseState) × (v ≡ str (state_name s))

pub record IsContext (v : Value) : Type 0 where
  pub workflow_id : IsText (get "workflowId" v)
  pub delegation_id : IsText (get "delegationId" v)
  pub user_id : IsText (get "userId" v)

pub record IsSnapshot (v : Value) : Type 0 where
  pub workflow_id : IsText (get "workflowId" v)
  pub current_state : IsState (get "currentState" v)
  pub context : IsContext (get "context" v)
  pub history : (xs : Elements) × (get "history" v ≡ arr xs)
  pub version : get "version" v ≡ num (pos snapshot_version)

not_text-IsText : (v : Value) → not_text v ≡ false → IsText v
not_text-IsText (str s) h = (s, refl, ground (arith, eq_iff s ""))
not_text-IsText undefined h = absurd (cc)
not_text-IsText _ h = absurd (cc)

not_text_of : (v : Value) → IsText v → not_text v ≡ false
not_text_of v (s, e, n) = rw e (ground (arith, eq_iff s ""))

-- A text found among the names of some states is the name of one of them.
has_name :
    (t : String) (xs : List PurchaseState)
    → has (map state_name xs) t ≡ true
    → (s : PurchaseState) × (state_name s ≡ t)
has_name t [] h = absurd (cc)
has_name t (x ∷ xs) h = elim (Bool-cases (str_eq (state_name x) t)) [
  | inl same ↦ (x, (eq_iff _ _).0 same)
  | inr other ↦ has_name t xs (rw other at h)
]

abbrev all_states : List PurchaseState
all_states =
    discovery ∷ spending_check ∷ user_approval_pending ∷ escrow_locking ∷ merchant_fulfillment
    ∷ delivery_verification ∷ completed ∷ refunded ∷ []

has_name-IsState : (t : String) → ((s : PurchaseState) × (state_name s ≡ t)) → IsState (str t)
has_name-IsState t (s, e) = (s, ap str (sym e))

not_state-IsState : (v : Value) → not_state v ≡ false → IsState v
not_state-IsState (str t) h = has_name-IsState t (has_name t all_states (ground arith))
not_state-IsState undefined h = absurd (cc)
not_state-IsState _ h = absurd (cc)

not_state_of : (v : Value) → IsState v → not_state v ≡ false
not_state_of v (discovery, e) = rw e
not_state_of v (s, e) = rw e

not_version_of : (v : Value) → not_version v ≡ false → v ≡ num (pos snapshot_version)
not_version_of (num (pos n)) h = ground arith
not_version_of undefined h = absurd (cc)
not_version_of (num (negsuc n)) h = absurd (cc)
not_version_of _ h = absurd (cc)

is_array_of : (v : Value) → is_array v ≡ true → (xs : Elements) × (v ≡ arr xs)
is_array_of (arr xs) h = (xs, refl)
is_array_of undefined h = absurd (cc)
is_array_of _ h = absurd (cc)

report_eq_nil :
    (b : Bool) (e : SnapshotError) (rest : List SnapshotError)
    → report b e ++ rest ≡ []
    → (b ≡ false) × (rest ≡ [])
report_eq_nil true e rest h = absurd (cc)
report_eq_nil false e rest h = (refl, h)

true_of_not : (b : Bool) → not b ≡ false → b ≡ true
true_of_not b h = ground arith

append_eq_nil : (xs ys : List SnapshotError) → xs ++ ys ≡ [] → (xs ≡ []) × (ys ≡ [])
append_eq_nil [] ys h = (refl, h)
append_eq_nil (x ∷ xs) ys h = absurd (cc)

-- A value with a field is an object, so the early exits of the validator agree with the fields.
IsText-object : (k : String) (v : Value) → IsText (get k v) → not_object v ≡ false
unfolding get
IsText-object k (obj fs) t = refl
IsText-object k undefined (s, e, n) = absurd (cc)
IsText-object k _ (s, e, n) = absurd (cc)

check_context_sound : (v : Value) → check_context v ≡ [] → IsContext v
check_context_sound v h = elim (Bool-cases (not_object v)) [
  | inl bad ↦ absurd (ground arith)
  | inr good ↦
      let h' : context_errors ("workflowId" ∷ "delegationId" ∷ "userId" ∷ []) v ≡ [] =
        ground arith in
      let (a, h1) = report_eq_nil _ _ _ h' in
      let (b, h2) = report_eq_nil _ _ _ h1 in
      let (c, h3) = report_eq_nil _ _ _ h2 in
      record {
        workflow_id = not_text-IsText _ a;
        delegation_id = not_text-IsText _ b;
        user_id = not_text-IsText _ c;
      }
]

check_context_complete : (v : Value) → IsContext v → check_context v ≡ []
check_context_complete v c = rw (
  IsText-object _ v c.workflow_id,
  not_text_of _ c.workflow_id,
  not_text_of _ c.delegation_id,
  not_text_of _ c.user_id,
)

object_sound : (v : Value) → not_object v ≡ false → validate_snapshot v ≡ [] → IsSnapshot v
unfolding validate_snapshot
object_sound v good h =
    let (a, h1) = report_eq_nil _ _ _ (rw good at h) in
    let (b, h2) = report_eq_nil _ _ _ h1 in
    let (c, h3) = append_eq_nil (check_context (get "context" v)) _ h2 in
    let (d, h4) = report_eq_nil _ _ _ h3 in
    let (e, _) = report_eq_nil _ _ [] (append-nil _ ∙ h4) in
    record {
      workflow_id = not_text-IsText _ a;
      current_state = not_state-IsState _ b;
      context = check_context_sound _ c;
      history = is_array_of _ (true_of_not _ d);
      version = not_version_of _ e;
    }

validate_snapshot_sound : (v : Value) → validate_snapshot v ≡ [] → IsSnapshot v
validate_snapshot_sound v h = elim (Bool-cases (not_object v)) [
  | inl bad ↦ absurd (unfold validate_snapshot in ground arith)
  | inr good ↦ object_sound v good h
]

validate_snapshot_complete : (v : Value) → IsSnapshot v → validate_snapshot v ≡ []
unfolding validate_snapshot
validate_snapshot_complete v c =
    let good : not_object v ≡ false = IsText-object _ v c.workflow_id in
    rw (
      good,
      not_text_of _ c.workflow_id,
      not_state_of _ c.current_state,
      check_context_complete _ c.context,
      c.history.1,
      c.version,
    )

-- `validateSnapshot` reports no error exactly when the fields that it looks at are of their kinds.
pub validate_snapshot_iff : (v : Value) → (validate_snapshot v ≡ []) ↔ IsSnapshot v
validate_snapshot_iff v = (validate_snapshot_sound v, validate_snapshot_complete v)
