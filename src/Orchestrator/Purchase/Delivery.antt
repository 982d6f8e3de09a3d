-- ===== src/Orchestrator/Purchase/Delivery.antt =====
-- The delivery proof and the payment timeout of
-- apps/backend/orchestrator/workflows/purchase/index.ts. The adapter's answer is an argument.
use delego.Base.{ℕ, ◌≡◌, refl, String, Bool, true, false, Option, some}

pub record DeliveryProofValidation : Type 0 where
  pub order_id : String
  pub proof_id : String
  pub valid : Bool
  pub reason : Option String

pub data Validated : Type 0 where
  validated : DeliveryProofValidation → Validated
  delivery_proof_invalid : DeliveryProofValidation → Validated

-- `defaultDeliveryProofAdapter.validate`
unfoldable pub default_delivery_proof_adapter :
    (order_id proof_id : String) → DeliveryProofValidation
default_delivery_proof_adapter order_id proof_id = record {
  order_id = order_id;
  proof_id = proof_id;
  valid = false;
  reason = some "adapter_not_configured";
}

abbrev checked : DeliveryProofValidation → Bool → Validated
checked result true = validated result
checked result false = delivery_proof_invalid result

unfoldable pub validate_delivery_proof :
    (order_id proof_id : String) → (String → String → DeliveryProofValidation) → Validated
validate_delivery_proof order_id proof_id adapter =
    let result = adapter order_id proof_id in checked result result.valid

-- Without a configured adapter every proof is refused.
default-refused :
    (order_id proof_id : String)
    → validate_delivery_proof order_id proof_id default_delivery_proof_adapter
      ≡ delivery_proof_invalid (default_delivery_proof_adapter order_id proof_id)
unfolding validate_delivery_proof default_delivery_proof_adapter
default-refused order_id proof_id = refl

pub record CancellationEvent : Type 0 where
  pub order_id : String
  pub occurred_at : ℕ

-- The reason of the event is always "payment_timeout".
unfoldable pub handle_payment_timeout : (order_id : String) → (now : ℕ) → CancellationEvent
handle_payment_timeout order_id now = record { order_id = order_id; occurred_at = now }
