-- ===== src/Orchestrator/Machine/Snapshot.antt =====
-- apps/backend/orchestrator/state/snapshot-validator.ts, and `fromSnapshot` of machine.ts.
pub mod Laws
pub mod Recovery
use delego.Base.Value.{
  Value, undefined, null, bool, num, bigint, date, str, arr, obj, Elements, no_elements, element,
  Members, no_members, member, get, not_object,
}
use delego.Base.{
  ℕ, String, Bool, true, false, not, ◌||◌, Option, none, some, List, [], ◌∷◌, ◌++◌, str_eq,
  if◌then◌else◌, ◌==◌,
}
use delego.Base.Int.{ℤ, pos}
use delego.Orchestrator.Machine.{
  PurchaseState, discovery, spending_check, user_approval_pending, escrow_locking,
  merchant_fulfillment, delivery_verification, completed, refunded, EventType, type_product_found,
  type_spend_approved, type_spend_denied, type_user_approved, type_user_rejected,
  type_escrow_locked, type_escrow_failed, type_fulfillment_confirmed, type_delivery_verified,
  type_refund_initiated, PurchaseContext, StateTransitionRecord, WorkflowSnapshot, snapshot_version,
  Machine,
}

-- `!v || typeof v !== "string"`
abbrev pub not_text : Value → Bool
not_text (str s) = str_eq s ""
not_text _ = true

abbrev pub is_array : Value → Bool
is_array (arr _) = true
is_array _ = false

-- `VALID_STATES.has`
abbrev pub valid_states : List String
valid_states =
    "Discovery" ∷ "SpendingCheck" ∷ "UserApprovalPending" ∷ "EscrowLocking" ∷ "MerchantFulfillment"
    ∷ "DeliveryVerification" ∷ "Completed" ∷ "Refunded" ∷ []

abbrev pub has : List String → String → Bool
has [] s = false
has (x ∷ xs) s = str_eq x s || has xs s

-- `!v || !VALID_STATES.has(v)`; the set holds no empty text.
abbrev pub not_state : Value → Bool
not_state (str s) = not (has valid_states s)
not_state _ = true

-- `v !== SNAPSHOT_VERSION`
abbrev pub not_version : Value → Bool
not_version (num (pos n)) = not (n == snapshot_version)
not_version _ = true

pub data SnapshotError : Type 0 where
  not_an_object : SnapshotError
  missing_workflow_id : SnapshotError
  bad_current_state : Value → SnapshotError
  missing_context : SnapshotError
  missing_context_field : String → SnapshotError
  missing_history : SnapshotError
  unsupported_version : Value → SnapshotError

abbrev pub report : Bool → SnapshotError → List SnapshotError
report true e = e ∷ []
report false e = []

-- The loop over "workflowId", "delegationId" and "userId".
abbrev pub context_errors : List String → Value → List SnapshotError
context_errors [] ctx = []
context_errors (k ∷ ks) ctx =
    report (not_text (get k ctx)) (missing_context_field k) ++ context_errors ks ctx

abbrev pub check_context : Value → List SnapshotError
check_context ctx =
    if not_object ctx
    then missing_context ∷ []
    else context_errors ("workflowId" ∷ "delegationId" ∷ "userId" ∷ []) ctx

-- The errors of `validateSnapshot`; the snapshot is valid when there are none.
unfoldable pub validate_snapshot : Value → List SnapshotError
unfolding get
validate_snapshot v =
    if not_object v
    then not_an_object ∷ []
    else report (not_text (get "workflowId" v)) missing_workflow_id
      ++ (report (not_state (get "currentState" v)) (bad_current_state (get "currentState" v))
          ++ (check_context (get "context" v)
              ++ (report (not (is_array (get "history" v))) missing_history
                  ++ report (not_version (get "version" v))
                      (unsupported_version (get "version" v)))))

-- The JavaScript value that a typed snapshot is.
abbrev pub state_name : PurchaseState → String
state_name discovery = "Discovery"
state_name spending_check = "SpendingCheck"
state_name user_approval_pending = "UserApprovalPending"
state_name escrow_locking = "EscrowLocking"
state_name merchant_fulfillment = "MerchantFulfillment"
state_name delivery_verification = "DeliveryVerification"
state_name completed = "Completed"
state_name refunded = "Refunded"

abbrev pub event_name : EventType → String
event_name type_product_found = "PRODUCT_FOUND"
event_name type_spend_approved = "SPEND_APPROVED"
event_name type_spend_denied = "SPEND_DENIED"
event_name type_user_approved = "USER_APPROVED"
event_name type_user_rejected = "USER_REJECTED"
event_name type_escrow_locked = "ESCROW_LOCKED"
event_name type_escrow_failed = "ESCROW_FAILED"
event_name type_fulfillment_confirmed = "FULFILLMENT_CONFIRMED"
event_name type_delivery_verified = "DELIVERY_VERIFIED"
event_name type_refund_initiated = "REFUND_INITIATED"

abbrev nullable : Option String → Value
nullable none = null
nullable (some s) = str s

abbrev nullable_bigint : Option ℤ → Value
nullable_bigint none = null
nullable_bigint (some n) = bigint n

abbrev pub context_value : PurchaseContext → Value
context_value c = obj (
    member "workflowId" (str c.workflow_id) (
      member "delegationId" (str c.delegation_id) (
        member "userId" (str c.user_id) (
          member "productId" (nullable c.product_id) (
            member "merchantId" (nullable c.merchant_id) (
              member "totalStroops" (nullable_bigint c.total_stroops) (
                member "escrowContractId" (nullable c.escrow_contract_id) (
                  member "rejectionReason" (nullable c.rejection_reason) (
                    member "createdAt" (date c.created_at)
                      (member "updatedAt" (date c.updated_at) no_members))))))))))

abbrev record_value : StateTransitionRecord → Value
record_value r = obj (
    member "workflowId" (str r.workflow_id) (
      member "fromState" (str (state_name r.from_state)) (
        member "toState" (str (state_name r.to_state)) (
          member "event" (str (event_name r.event)) (
            member "context" (context_value r.context)
              (member "timestamp" (date r.timestamp) no_members))))))

abbrev history_items : List StateTransitionRecord → Elements
history_items [] = no_elements
history_items (r ∷ rs) = element (record_value r) (history_items rs)

abbrev pub snapshot_value : WorkflowSnapshot → Value
snapshot_value s = obj (
    member "workflowId" (str s.workflow_id) (
      member "currentState" (str (state_name s.current_state)) (
        member "context" (context_value s.context) (
          member "history" (arr (history_items s.history))
            (member "version" (num (pos s.version)) no_members)))))

pub data Restored : Type 0 where
  restored : Machine → Restored
  quarantined : List SnapshotError → Restored

abbrev adopt : WorkflowSnapshot → List SnapshotError → Restored
adopt s [] = restored (record { snapshot = s })
adopt s (e ∷ es) = quarantined (e ∷ es)

-- `fromSnapshot`, at a value that is a typed snapshot: the constructor's own snapshot is replaced
-- by the given one.
unfoldable pub from_snapshot : WorkflowSnapshot → Restored
unfolding validate_snapshot
from_snapshot s = adopt s (validate_snapshot (snapshot_value s))
