-- ===== src/Payments/Validation/Escrow.antt =====
-- The refund request and the deposit: which bodies pass, and what comes out.
use delego.Base.{
  String, true, none, List, [], ◌∷◌, any, ◌≡◌, refl, sym, ◌∙◌, ap, subst, ◌↔◌, ◌⊎◌, arith,
}
use delego.Base.Text.{Text}
use delego.Base.Value.{Value}
use delego.Payments.Validation.{ValidationResult, ok, rejected, and_then, require_string}
use delego.Base.Text.{same_text, same_text_iff}
use delego.Payments.Validation.Idempotency.{
  IdempotencyContext, IsKey, validate_idempotency_key, validate_idempotency_key_iff,
}
use delego.Payments.Validation.Requests.{
  RefundEscrowRequest, supported_refund_reasons, supported_reason, key_header, of_body, require_key,
  validate_refund_escrow_request,
}
use delego.Payments.Validation.Accepts.{
  guarded_iff, checked_field_iff, map_ok, and_then-ok, ok-and_then, Given, require_string_iff,
}

unfoldable pub In : Text → List Text → Type 0
In t [] = ⊥
In t (u ∷ us) = (t ≡ u) ⊎ In t us

any-same_text_iff : (t : Text) (us : List Text) → (any (same_text t) us ≡ true) ↔ In t us
unfolding In
any-same_text_iff t [] = ((λ h. absurd (cc)), (λ h. absurd h))
any-same_text_iff t (u ∷ us) = ground (arith, same_text_iff t u, any-same_text_iff t us)

supported_reason_iff :
    (t u : Text) → (supported_reason t ≡ ok u) ↔ ((t ≡ u) × In u supported_refund_reasons)
supported_reason_iff t u =
    guarded_iff (λ r. any (same_text r) supported_refund_reasons)
      (λ r. In r supported_refund_reasons) _ (λ r. any-same_text_iff r supported_refund_reasons) t u

of_body-ok : {A : Type 0} (r : ValidationResult A) (a : A) → (of_body r ≡ ok a) ↔ (r ≡ ok a)
of_body-ok (ok b) a = ((λ h. h), (λ h. h))
of_body-ok (rejected e) a = ((λ h. absurd (cc)), (λ h. absurd (cc)))

IsKey-check_iff :
    (route : String) (t u : Text)
    → (and_then (of_body (validate_idempotency_key (key_header t) route none)) (λ _. ok t) ≡ ok u)
      ↔ ((t ≡ u) × IsKey u)
IsKey-check_iff route t u =
    let r = validate_idempotency_key (key_header t) route none in
    let iff = validate_idempotency_key_iff (key_header t) route none in
    (
      (λ h.
          let (context, passed, same) = and_then-ok (of_body r) (λ _. ok t) u h in
          let (from, _, _, k) = (iff context).0 ((of_body-ok r context).0 passed) in
          let eq : (t ≡ u) = cc same in
          let of_context : (context.key ≡ t) = cc from in (eq, subst IsKey (of_context ∙ eq) k)),
      (λ (same, k).
          let context : IdempotencyContext = record { key = t; route = route; user_id = none } in
          let passed = (iff context).1 (refl, refl, refl, subst IsKey (sym same) k) in
          ok-and_then (of_body r) (λ _. ok t) context ((of_body-ok r context).1 passed)
          ∙ ap ok same),
    )

require_key_iff :
    (body : Value) (route : String) (key : Text)
    → (require_key body route ≡ ok key) ↔ (Given body "idempotencyKey" key × IsKey key)
unfolding require_key
require_key_iff body route = checked_field_iff body "idempotencyKey" _ IsKey (IsKey-check_iff route)

-- The refund request that is returned for a body: each of its four fields is the trimmed text of
-- the body's field of that name, the reason is one of the supported ones, and the key is one.
pub validate_refund_escrow_request_iff :
    (body : Value) (request : RefundEscrowRequest)
    → (validate_refund_escrow_request body ≡ ok request) ↔ (
        Given body "orderId" request.order_id
        × Given body "escrowId" request.escrow_id
        × Given body "reasonCode" request.reason_code
        × In request.reason_code supported_refund_reasons
        × Given body "idempotencyKey" request.idempotency_key
        × IsKey request.idempotency_key)
unfolding validate_refund_escrow_request
validate_refund_escrow_request_iff body request = (
  (λ h.
      let (a, ha, ka) = and_then-ok (require_string body "orderId") _ request h in
      let (b, hb, kb) = and_then-ok (require_string body "escrowId") _ request ka in
      let (r, hr, kr) =
        and_then-ok (and_then (require_string body "reasonCode") supported_reason) _ request kb in
      let (k, hk, same) = and_then-ok (require_key body "refund-escrow-request") _ request kr in
      let (reason, supported) =
        (checked_field_iff body "reasonCode" supported_reason _ supported_reason_iff _).0
          (hr ∙ ap (map_ok (λ x. RefundEscrowRequest.reason_code x)) same) in
      let (given, key) =
        (require_key_iff body "refund-escrow-request" _).0
          (hk ∙ ap (map_ok (λ x. RefundEscrowRequest.idempotency_key x)) same) in
      (
        (require_string_iff body "orderId" _).0
            (ha ∙ ap (map_ok (λ x. RefundEscrowRequest.order_id x)) same),
        (require_string_iff body "escrowId" _).0
            (hb ∙ ap (map_ok (λ x. RefundEscrowRequest.escrow_id x)) same),
        reason,
        supported,
        given,
        key,
      )),
  (λ (order, escrow, reason, supported, given, key).
      ok-and_then _ _ request.order_id ((require_string_iff body "orderId" _).1 order)
      ∙ ok-and_then _ _ request.escrow_id ((require_string_iff body "escrowId" _).1 escrow)
      ∙ ok-and_then _ _ request.reason_code (
          (checked_field_iff body "reasonCode" supported_reason _ supported_reason_iff _).1
            (reason, supported))
      ∙ ok-and_then _ _ request.idempotency_key ((require_key_iff body _ _).1 (given, key))),
)
