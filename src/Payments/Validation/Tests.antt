-- ===== src/Payments/Validation/Tests.antt =====
-- Runs of the request validation, and concrete instances of its theorems.
use delego.Base.{String, Option, none, some, [], ◌∷◌, ◌≡◌, ◌↔◌, refl, true, str_eq, if◌then◌else◌}
use delego.Base.Int.{ℤ, pos}
use delego.Base.Text.{Text, text}
use delego.Base.Trim.{trim}
use delego.Base.Value.{Value, num, str, obj, member, no_members, get}
use delego.Utils.Amounts.{default_options, parse_text}
use delego.Payments.Validation.{
  key_too_short, ok, rejected, missing_field, invalid_field, must_be_address, must_be_non_empty,
  must_be_non_negative_integer, unsupported_reason, validation_error, received, base32,
  is_valid_stellar_address, validate_escrow_contract_config, not_a_contract_address, config_error,
  no_details,
}
use delego.Payments.Validation.Consistency.{
  validate_amount_consistency, validate_merchant_consistency,
}
use delego.Payments.Validation.Integers.{by_integers, validate_amount_consistency-integers}
use delego.Payments.Validation.Idempotency.{
  IdempotencyContext, Header, single, multiple, absent, either_header, first_value, IsKey,
  validate_idempotency_key, validate_idempotency_key_iff, bad_key, key_missing,
}
use delego.Payments.Validation.Requests.{
  RefundEscrowRequest, supported_refund_reasons, validate_initialize_request,
  validate_deposit_request, validate_release_request, validate_release_escrow_request,
  validate_refund_escrow_request,
}
use delego.Payments.Validation.Accepts.{Given}
use delego.Payments.Validation.Escrow.{In, validate_refund_escrow_request_iff}

abbrev alice : String
alice = "GAAAAAAAAAAAAAAAAAAAAAAAAAAAAAAAAAAAAAAAAAAAAAAAAAAAAAAA"

abbrev refund_body : String → Value
refund_body reason = obj (
    member "orderId" (str " o1 ") (
      member "escrowId" (str "7")
        (member "reasonCode" (str reason) (member "idempotencyKey" (str "key-0001") no_members))))

abbrev refund : RefundEscrowRequest
refund = record {
  order_id = text "o1";
  escrow_id = text "7";
  reason_code = text "fraudulent";
  idempotency_key = text "key-0001";
}

run_refund : validate_refund_escrow_request (refund_body "fraudulent") ≡ ok refund
unfolding validate_refund_escrow_request get trim
run_refund = refl

run_reason :
    validate_refund_escrow_request (refund_body "bored")
    ≡ rejected (record {
      code = validation_error;
      message = unsupported_reason;
      details = received "reasonCode" (text "bored");
    })
unfolding validate_refund_escrow_request get trim
run_reason = refl

run_release :
    validate_release_escrow_request (refund_body "fraudulent")
    ≡ rejected (missing_field "deliveryProofId")
unfolding validate_release_escrow_request get trim
run_release = refl

run_initialize :
    validate_initialize_request
      (obj (member "sourceAddress" (str alice) (member "adminAddress" (str "G123") no_members)))
    ≡ rejected (invalid_field "adminAddress" (must_be_address "adminAddress"))
unfolding validate_initialize_request get trim is_valid_stellar_address base32
run_initialize = refl

run_deposit :
    validate_deposit_request (obj (member "sourceAddress" (num (pos 1)) no_members))
    ≡ rejected (invalid_field "sourceAddress" (must_be_non_empty "sourceAddress"))
unfolding validate_deposit_request get trim
run_deposit = refl

abbrev no_number : Text → Option ℤ
no_number t = none

run_escrow_id :
    validate_release_request no_number
      (obj (member "sourceAddress" (str alice) no_members))
      (some (text "seven"))
    ≡ rejected (invalid_field "escrowId" (must_be_non_negative_integer "escrowId"))
unfolding validate_release_request get trim is_valid_stellar_address base32
run_escrow_id = refl

run_config :
    validate_escrow_contract_config (some (text alice))
    ≡ rejected
        (record { code = config_error; message = not_a_contract_address; details = no_details })
unfolding validate_escrow_contract_config
run_config = refl

run_merchant :
    validate_merchant_consistency (text "o1") (text " m ") (text "m")
    ≡ ok (record {
      order_id = text "o1";
      expected_merchant = text "m";
      requested_merchant = text "m";
      matches = true;
    })
unfolding validate_merchant_consistency trim
run_merchant = refl

run_amount :
    validate_amount_consistency (text "o1") (text "0100") (text " 100")
    ≡ ok (record {
      order_id = text "o1";
      expected_stroops = text "100";
      requested_stroops = text "100";
      matches = true;
    })
unfolding validate_amount_consistency
run_amount = refl

abbrev headers : String → Header
headers name = if str_eq name "idempotency-key" then multiple (text "key-0001" ∷ []) else absent

abbrev context : IdempotencyContext
context = record { key = text "key-0001"; route = "fund"; user_id = none }

run_short :
    validate_idempotency_key (λ _. single (text "key")) "fund" none
    ≡ rejected (bad_key key_too_short)
unfolding validate_idempotency_key
run_short = refl

run_missing : validate_idempotency_key (λ _. absent) "fund" none ≡ rejected key_missing
unfolding validate_idempotency_key
run_missing = refl

validate_idempotency_key_iff_example :
    (validate_idempotency_key headers "fund" none ≡ ok context) ↔ (
      (first_value (either_header (headers "idempotency-key") (headers "Idempotency-Key"))
        ≡ some context.key)
      × (context.route ≡ "fund")
      × (context.user_id ≡ none)
      × IsKey context.key)
validate_idempotency_key_iff_example = validate_idempotency_key_iff headers "fund" none context

validate_amount_consistency-integers_example :
    validate_amount_consistency (text "o1") (text "0100") (text "99")
    ≡ by_integers
        (text "o1")
        (parse_text default_options (text "0100"))
        (parse_text default_options (text "99"))
validate_amount_consistency-integers_example =
    validate_amount_consistency-integers (text "o1") (text "0100") (text "99")

validate_refund_escrow_request_iff_example :
    (validate_refund_escrow_request (refund_body "fraudulent") ≡ ok refund) ↔ (
      Given (refund_body "fraudulent") "orderId" refund.order_id
      × Given (refund_body "fraudulent") "escrowId" refund.escrow_id
      × Given (refund_body "fraudulent") "reasonCode" refund.reason_code
      × In refund.reason_code supported_refund_reasons
      × Given (refund_body "fraudulent") "idempotencyKey" refund.idempotency_key
      × IsKey refund.idempotency_key)
validate_refund_escrow_request_iff_example =
    validate_refund_escrow_request_iff (refund_body "fraudulent") refund
