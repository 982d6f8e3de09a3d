-- ===== src/Orchestrator/Purchase/Restore.antt =====
-- restorePurchaseWorkflow of apps/backend/orchestrator/workflows/purchase/index.ts. It hands its
-- snapshot, which has no field of the purchase machine's, to PurchaseWorkflowMachine.fromSnapshot.
use delego.Base.{◌≡◌, refl, String, Option, none, some, List, [], ◌∷◌}
use delego.Base.Value.{
  Value, undefined, null, date, str, arr, obj, Elements, no_elements, element, no_members, member,
  get,
}
use delego.Orchestrator.Machine.Snapshot.{
  validate_snapshot, SnapshotError, missing_workflow_id, bad_current_state,
}
use delego.Orchestrator.Purchase.{
  ProductMatch, PurchaseState, initiated, searching, found, approved, escrow_funded, purchased,
  delivering, delivered, completed, cancelled, failed, PurchaseContext, WorkflowSnapshot,
}

-- The JavaScript value that a snapshot of this file is.
abbrev state_text : PurchaseState → String
state_text initiated = "INITIATED"
state_text searching = "SEARCHING"
state_text found = "FOUND"
state_text approved = "APPROVED"
state_text escrow_funded = "ESCROW_FUNDED"
state_text purchased = "PURCHASED"
state_text delivering = "DELIVERING"
state_text delivered = "DELIVERED"
state_text completed = "COMPLETED"
state_text cancelled = "CANCELLED"
state_text failed = "FAILED"

abbrev nullable : Option String → Value
nullable none = null
nullable (some s) = str s

abbrev product_value : ProductMatch → Value
product_value p = obj (
    member "id" (str p.id) (
      member "name" (str p.name) (
        member "merchant" (str p.merchant)
          (member "priceStroops" (str p.price_stroops) (member "url" (str p.url) no_members)))))

abbrev product_items : List ProductMatch → Elements
product_items [] = no_elements
product_items (p ∷ ps) = element (product_value p) (product_items ps)

abbrev context_value : PurchaseContext → Value
context_value c = obj (
    member "orderId" (str c.order_id) (
      member "userId" (str c.user_id) (
        member "delegationId" (str c.delegation_id) (
          member "query" (str c.query) (
            member "products" (arr (product_items c.products)) (
              member "selectedProductId" (nullable c.selected_product_id) (
                member "escrowId" (nullable c.escrow_id) (
                  member "escrowTxHash" (nullable c.escrow_tx_hash) (
                    member "merchantOrderId" (nullable c.merchant_order_id) (
                      member "settlementTxHash" (nullable c.settlement_tx_hash) (
                        member "error" (nullable c.error)
                          (member "createdAt" (date c.created_at) no_members))))))))))))

abbrev purchase_value : WorkflowSnapshot → Value
purchase_value s = obj (
    member "orderId" (str s.order_id) (
      member "state" (str (state_text s.state)) (
        member "context" (context_value s.context)
          (member "updatedAt" (date s.updated_at) no_members))))

-- The machine adopts a value that the validator accepts, and throws with its errors otherwise.
pub data Adopted : Type 0 where
  adopted : Value → Adopted
  quarantined : List SnapshotError → Adopted

abbrev adopt_valid : Value → List SnapshotError → Adopted
adopt_valid v [] = adopted v
adopt_valid v (e ∷ es) = quarantined (e ∷ es)

unfoldable pub restore_purchase_workflow : WorkflowSnapshot → Adopted
unfolding validate_snapshot
restore_purchase_workflow s = adopt_valid (purchase_value s) (validate_snapshot (purchase_value s))

-- No workflow of this file is ever restored: whatever its state and context, the validator of the
-- purchase machine misses the workflow id and the current state.
pub restore_purchase_workflow-quarantined :
    (s : WorkflowSnapshot)
    → (errors : List SnapshotError) × (restore_purchase_workflow s
        ≡ quarantined (missing_workflow_id ∷ bad_current_state undefined ∷ errors))
unfolding restore_purchase_workflow get
restore_purchase_workflow-quarantined s = (_, refl)
