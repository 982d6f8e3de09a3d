-- ===== src/Payments/Validation/Requests.antt =====
-- apps/backend/payments/src/validation.ts: the bodies of the escrow requests.
use delego.Base.{String, str_eq, not, Option, none, some, List, [], ◌∷◌, any, if◌then◌else◌}
use delego.Base.Int.{ℤ}
use delego.Base.Text.{Text, text}
use delego.Base.Trim.{trim}
use delego.Base.Value.{Value, undefined, null, str, get}
use delego.Payments.Validation.{
  validation_error, must_be_non_empty_when_provided, unsupported_reason, received, of_field,
  ValidationResult, ok, rejected, and_then, invalid_field, require_string, require_stellar_address,
  require_escrow_id,
}
use delego.Base.Text.{same_text}
use delego.Payments.Validation.Idempotency.{Header, absent, single, validate_idempotency_key}

pub record InitializeEscrowParams : Type 0 where
  pub source_address : Text
  pub admin_address : Text

pub record DepositEscrowParams : Type 0 where
  pub source_address : Text
  pub buyer_address : Text
  pub seller_address : Text
  pub order_id : Option Text

-- `ReleaseEscrowParams` and `RefundEscrowParams`, which have the same fields.
pub record SettleEscrowParams : Type 0 where
  pub source_address : Text
  pub escrow_id : Text

pub record ReleaseEscrowRequest : Type 0 where
  pub order_id : Text
  pub escrow_id : Text
  pub delivery_proof_id : Text
  pub idempotency_key : Text

pub record RefundEscrowRequest : Type 0 where
  pub order_id : Text
  pub escrow_id : Text
  pub reason_code : Text
  pub idempotency_key : Text

abbrev pub supported_refund_reasons : List Text
supported_refund_reasons =
    text "item_not_received"
    ∷ text "item_not_as_described"
    ∷ text "duplicate_charge"
    ∷ text "fraudulent"
    ∷ text "order_cancelled"
    ∷ text "seller_agreement"
    ∷ []

unfoldable pub validate_initialize_request : Value → ValidationResult InitializeEscrowParams
unfolding require_stellar_address
validate_initialize_request body =
    and_then (require_stellar_address body "sourceAddress") (λ source.
      and_then (require_stellar_address body "adminAddress")
        (λ admin. ok (record { source_address = source; admin_address = admin })))

abbrev provided_order_id : Text → ValidationResult (Option Text)
provided_order_id [] =
    rejected (invalid_field "orderId" (must_be_non_empty_when_provided "orderId"))
provided_order_id (c ∷ cs) = ok (some (c ∷ cs))

-- The order id of a deposit may be left out.
abbrev optional_order_id : Value → ValidationResult (Option Text)
optional_order_id undefined = ok none
optional_order_id null = ok none
optional_order_id (str s) = provided_order_id (trim (text s))
optional_order_id _ = rejected (invalid_field "orderId" (must_be_non_empty_when_provided "orderId"))

unfoldable pub validate_deposit_request : Value → ValidationResult DepositEscrowParams
unfolding require_stellar_address
validate_deposit_request body = and_then (require_stellar_address body "sourceAddress") (λ source.
    and_then (require_stellar_address body "buyerAddress") (λ buyer.
      and_then (require_stellar_address body "sellerAddress") (λ seller.
        and_then (optional_order_id (get "orderId" body)) (λ order_id. ok (record {
          source_address = source;
          buyer_address = buyer;
          seller_address = seller;
          order_id = order_id;
        })))))

module _ (number : Text → Option ℤ) where
  unfoldable pub validate_release_request :
      Value → (escrow_id_param : Option Text) → ValidationResult SettleEscrowParams
  unfolding require_stellar_address require_escrow_id
  validate_release_request body escrow_id_param =
      and_then (require_stellar_address body "sourceAddress") (λ source.
        and_then (require_escrow_id number escrow_id_param)
          (λ escrow_id. ok (record { source_address = source; escrow_id = escrow_id })))

  unfoldable pub validate_refund_request :
      Value → (escrow_id_param : Option Text) → ValidationResult SettleEscrowParams
  unfolding require_stellar_address require_escrow_id
  validate_refund_request body escrow_id_param =
      and_then (require_stellar_address body "sourceAddress") (λ source.
        and_then (require_escrow_id number escrow_id_param)
          (λ escrow_id. ok (record { source_address = source; escrow_id = escrow_id })))

-- `{ "idempotency-key": key }`
abbrev pub key_header : Text → String → Header
key_header key name = if str_eq name "idempotency-key" then single key else absent

-- The error of the key, as one of the field of the body.
abbrev pub of_body : {A : Type 0} → ValidationResult A → ValidationResult A
of_body (ok value) = ok value
of_body (rejected error) =
    rejected
      (record { code = error.code; message = error.message; details = of_field "idempotencyKey" })

-- The key of a body, checked with the rules of the header.
unfoldable pub require_key : Value → (route : String) → ValidationResult Text
unfolding require_string validate_idempotency_key
require_key body route =
    and_then (require_string body "idempotencyKey") (λ key.
      and_then (of_body (validate_idempotency_key (key_header key) route none)) (λ _. ok key))

unfoldable pub validate_release_escrow_request : Value → ValidationResult ReleaseEscrowRequest
unfolding require_string require_key
validate_release_escrow_request body = and_then (require_string body "orderId") (λ order_id.
    and_then (require_string body "escrowId") (λ escrow_id.
      and_then (require_string body "deliveryProofId") (λ delivery_proof_id.
        and_then (require_key body "release-escrow-request") (λ key. ok (record {
          order_id = order_id;
          escrow_id = escrow_id;
          delivery_proof_id = delivery_proof_id;
          idempotency_key = key;
        })))))

abbrev pub supported_reason : Text → ValidationResult Text
supported_reason reason =
    if not (any (same_text reason) supported_refund_reasons)
    then rejected (record {
      code = validation_error;
      message = unsupported_reason;
      details = received "reasonCode" reason;
    })
    else ok reason

unfoldable pub validate_refund_escrow_request : Value → ValidationResult RefundEscrowRequest
unfolding require_string require_key same_text
validate_refund_escrow_request body = and_then (require_string body "orderId") (λ order_id.
    and_then (require_string body "escrowId") (λ escrow_id.
      and_then (and_then (require_string body "reasonCode") supported_reason) (λ reason.
        and_then (require_key body "refund-escrow-request") (λ key. ok (record {
          order_id = order_id;
          escrow_id = escrow_id;
          reason_code = reason;
          idempotency_key = key;
        })))))
