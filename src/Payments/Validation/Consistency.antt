-- ===== src/Payments/Validation/Consistency.antt =====
-- apps/backend/payments/src/validation.ts: the merchant and the amount of a funding request against
-- those of the order.
use delego.Base.{not, if◌then◌else◌}
use delego.Base.Text.{Text, same_text}
use delego.Base.Trim.{trim}
use delego.Utils.Amounts.{
  BigIntStringParseResult, valid, invalid, default_options, parse_text, to_string,
}
use delego.Payments.Validation.{
  MerchantConsistencyCheck, AmountConsistencyCheck, ValidationResult, ok, rejected,
  merchant_address_mismatch, order_amount_mismatch, merchants_differ, amounts_differ, not_an_amount,
  of_merchants, of_amounts, invalid_field,
}

-- `normalizeMerchantAddress`
abbrev pub normalize_merchant_address : Text → Text
normalize_merchant_address address = trim address

unfoldable pub check_merchant_consistency :
    (order_id expected requested : Text) → MerchantConsistencyCheck
unfolding same_text trim
check_merchant_consistency order_id expected requested = record {
  order_id = trim order_id;
  expected_merchant = normalize_merchant_address expected;
  requested_merchant = normalize_merchant_address requested;
  matches = same_text (normalize_merchant_address expected) (normalize_merchant_address requested);
}

abbrev merchant_verdict : MerchantConsistencyCheck → ValidationResult MerchantConsistencyCheck
merchant_verdict check =
    if not check.matches
    then rejected (record {
      code = merchant_address_mismatch;
      message = merchants_differ;
      details = of_merchants check;
    })
    else ok check

unfoldable pub validate_merchant_consistency :
    (order_id expected requested : Text) → ValidationResult MerchantConsistencyCheck
unfolding check_merchant_consistency
validate_merchant_consistency order_id expected requested =
    merchant_verdict (check_merchant_consistency order_id expected requested)

abbrev canonical : Text → BigIntStringParseResult → Text
canonical stroops (valid value) = to_string value
canonical stroops (invalid _) = trim stroops

unfoldable pub normalize_stroops_amount : Text → Text
unfolding parse_text to_string trim
normalize_stroops_amount stroops = canonical stroops (parse_text default_options stroops)

unfoldable pub check_amount_consistency :
    (order_id expected requested : Text) → AmountConsistencyCheck
unfolding normalize_stroops_amount same_text
check_amount_consistency order_id expected requested =
    let normalized_expected = normalize_stroops_amount expected in
    let normalized_requested = normalize_stroops_amount requested in
    record {
      order_id = trim order_id;
      expected_stroops = normalized_expected;
      requested_stroops = normalized_requested;
      matches = same_text normalized_expected normalized_requested;
    }

abbrev pub amount_verdict : AmountConsistencyCheck → ValidationResult AmountConsistencyCheck
amount_verdict check =
    if not check.matches
    then rejected (record {
      code = order_amount_mismatch;
      message = amounts_differ;
      details = of_amounts check;
    })
    else ok check

abbrev compare_parsed :
    Text
    → BigIntStringParseResult
    → BigIntStringParseResult
    → ValidationResult AmountConsistencyCheck
compare_parsed order_id (invalid _) _ = rejected (invalid_field "amountStroops" not_an_amount)
compare_parsed order_id (valid _) (invalid _) =
    rejected (invalid_field "amountStroops" not_an_amount)
compare_parsed order_id (valid expected) (valid requested) =
    amount_verdict (check_amount_consistency order_id (to_string expected) (to_string requested))

unfoldable pub validate_amount_consistency :
    (order_id expected requested : Text) → ValidationResult AmountConsistencyCheck
unfolding check_amount_consistency parse_text to_string
validate_amount_consistency order_id expected requested =
    compare_parsed order_id (parse_text default_options expected)
      (parse_text default_options requested)
