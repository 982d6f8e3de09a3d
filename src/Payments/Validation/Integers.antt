-- ===== src/Payments/Validation/Integers.antt =====
-- Amounts are compared as texts; that is a comparison of integers.
use delego.Base.{Bool, true, not, ◌&&◌, ◌≡◌, refl, sym, ◌∙◌, ap, inl, inr, arith, Bool-cases}
use mathlib.Core.Path.{ap₂}
use delego.Base.Int.{ℤ, ltb_ℤ}
use delego.Base.Text.{Text, same_text, same_text_iff}
use delego.Base.Trim.{trim}
use delego.Utils.Amounts.{
  BigIntStringParseResult, valid, invalid, default_options, parse_text, to_string,
}
use delego.Utils.Amounts.Numeral.{Within}
use delego.Utils.Amounts.Parse.{parse_text_iff, parse_text-to_string}
use delego.Payments.Validation.{
  AmountConsistencyCheck, ValidationResult, rejected, not_an_amount, invalid_field,
}
use delego.Payments.Validation.Consistency.{
  normalize_stroops_amount, check_amount_consistency, amount_verdict, validate_amount_consistency,
}

abbrev pub equal_ℤ : ℤ → ℤ → Bool
equal_ℤ a b = not (ltb_ℤ a b) && not (ltb_ℤ b a)

equal_ℤ-refl : (a : ℤ) → equal_ℤ a a ≡ true
equal_ℤ-refl a = ground arith

equal_ℤ-sound : (a b : ℤ) → equal_ℤ a b ≡ true → a ≡ b
equal_ℤ-sound a b h = ground arith

-- The check of two integers, with no text compared.
abbrev pub by_integers :
    Text
    → BigIntStringParseResult
    → BigIntStringParseResult
    → ValidationResult AmountConsistencyCheck
by_integers order_id (invalid _) _ = rejected (invalid_field "amountStroops" not_an_amount)
by_integers order_id (valid _) (invalid _) = rejected (invalid_field "amountStroops" not_an_amount)
by_integers order_id (valid a) (valid b) = amount_verdict (record {
  order_id = trim order_id;
  expected_stroops = to_string a;
  requested_stroops = to_string b;
  matches = equal_ℤ a b;
})

number_of : BigIntStringParseResult → ℤ → ℤ
number_of (valid a) other = a
number_of (invalid _) other = other

to_string-injective :
    (a b : ℤ)
    → Within default_options a
    → Within default_options b
    → to_string a ≡ to_string b
    → a ≡ b
unfolding number_of
to_string-injective a b wa wb h =
    ap (λ r. number_of r a)
      (sym (parse_text-to_string default_options a wa)
        ∙ ap (parse_text default_options) h
        ∙ parse_text-to_string default_options b wb)

same_text-to_string :
    (a b : ℤ)
    → Within default_options a
    → Within default_options b
    → same_text (to_string a) (to_string b) ≡ equal_ℤ a b
same_text-to_string a b wa wb = elim (Bool-cases (same_text (to_string a) (to_string b))) [
  | inl same ↦
      let eq = to_string-injective a b wa wb ((same_text_iff _ _).0 same) in
      same ∙ sym (equal_ℤ-refl a) ∙ ap (equal_ℤ a) eq
  | inr different ↦ elim (Bool-cases (equal_ℤ a b)) [
    | inl eq ↦
        let same =
          (same_text_iff (to_string a) (to_string b)).1 (ap to_string (equal_ℤ-sound a b eq)) in
        absurd (cc)
    | inr ne ↦ different ∙ sym ne
  ]
]

-- A printed amount is already normal.
normalize-to_string :
    (a : ℤ) → Within default_options a → normalize_stroops_amount (to_string a) ≡ to_string a
unfolding normalize_stroops_amount
normalize-to_string a w = rw (parse_text-to_string default_options a w) refl

compared :
    (order_id : Text) (a b : ℤ)
    → Within default_options a
    → Within default_options b
    → amount_verdict (check_amount_consistency order_id (to_string a) (to_string b))
      ≡ by_integers order_id (valid a) (valid b)
unfolding check_amount_consistency
compared order_id a b wa wb =
    let left = normalize-to_string a wa in
    let right = normalize-to_string b wb in
    let same = ap₂ same_text left right ∙ same_text-to_string a b wa wb in
    λ i. amount_verdict (record {
      order_id = trim order_id;
      expected_stroops = left i;
      requested_stroops = right i;
      matches = same i;
    })

by_parsed :
    (order_id expected requested : Text) (p q : BigIntStringParseResult)
    → parse_text default_options expected ≡ p
    → parse_text default_options requested ≡ q
    → validate_amount_consistency order_id expected requested ≡ by_integers order_id p q
unfolding validate_amount_consistency
by_parsed order_id expected requested (invalid _) q hp hq = rw hp refl
by_parsed order_id expected requested (valid a) (invalid _) hp hq = rw hp (rw hq refl)
by_parsed order_id expected requested (valid a) (valid b) hp hq =
    let wa = ((parse_text_iff default_options expected a).0 hp).0 in
    let wb = ((parse_text_iff default_options requested b).0 hq).0 in
    rw hp (rw hq (compared order_id a b wa wb))

-- The check of a funding amount, which prints both amounts and compares the texts, gives for all
-- texts what the comparison of the parsed integers gives: a text that is no amount is rejected, two
-- different integers are a mismatch, and equal ones are accepted, however they are written.
pub validate_amount_consistency-integers :
    (order_id expected requested : Text)
    → validate_amount_consistency order_id expected requested
      ≡ by_integers order_id
          (parse_text default_options expected)
          (parse_text default_options requested)
validate_amount_consistency-integers order_id expected requested =
    by_parsed order_id expected requested _ _ refl refl
