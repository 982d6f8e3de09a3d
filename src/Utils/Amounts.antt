-- ===== src/Utils/Amounts.antt =====
-- packages/utils/src/parseBigIntString.ts: the parser of amounts. A text is a list of code points;
-- `BigInt` of a text and `toString` of a bigint are written out.
pub mod Decimal
pub mod Numeral
pub mod Parse
mod Tests
use delego.Base.{
  ℕ, zero, suc, ◌+◌, ◌-◌, ◌*◌, ◌/◌, ◌%◌, Bool, true, false, not, ◌&&◌, Option, none, some, [], ◌∷◌,
  ◌++◌, ltb, leb, ◌==◌, if◌then◌else◌,
}
use delego.Base.Int.{ℤ, pos, negsuc, ltb_ℤ}
use delego.Base.Text.{Text, text}
use delego.Base.Trim.{trim}
use delego.Base.Value.{Value, undefined, null, str}

-- The `error` of a refusal.
pub data AmountError : Type 0 where
  missing invalid_type invalid_format negative_not_allowed must_be_positive exceeds_max :
      AmountError

pub data BigIntStringParseResult : Type 0 where
  valid : ℤ → BigIntStringParseResult
  invalid : AmountError → BigIntStringParseResult

pub record ParseBigIntStringOptions : Type 0 where
  pub allow_negative : Bool
  pub require_positive : Bool
  pub max : Option ℤ

abbrev pub default_options : ParseBigIntStringOptions
default_options = record { allow_negative = false; require_positive = false; max = none }

abbrev pub is_digit : ℕ → Bool
is_digit c = leb b'0' c && leb c b'9'

unfoldable pub all_digits : Text → Bool
all_digits [] = true
all_digits (c ∷ cs) = is_digit c && all_digits cs

-- `NON_NEGATIVE_INTEGER_PATTERN`
unfoldable pub non_negative_integer : Text → Bool
unfolding all_digits
non_negative_integer [] = false
non_negative_integer (c ∷ cs) = is_digit c && all_digits cs

-- `INTEGER_STRING_PATTERN`
unfoldable pub integer_string : Text → Bool
unfolding non_negative_integer
integer_string [] = false
integer_string (c ∷ cs) =
    if c == b'-' then non_negative_integer cs else non_negative_integer (c ∷ cs)

abbrev pub starts_with_minus : Text → Bool
starts_with_minus [] = false
starts_with_minus (c ∷ _) = c == b'-'

-- The number that digits spell behind `n`.
unfoldable pub read_digits : (n : ℕ) → Text → ℕ
read_digits n [] = n
read_digits n (c ∷ cs) = read_digits (n * 10 + (c - b'0')) cs

abbrev pub negative : ℕ → ℤ
negative zero = pos 0
negative (suc n) = negsuc n

-- `BigInt` of a text of digits, behind a minus or not.
unfoldable pub big_int : Text → ℤ
unfolding read_digits
big_int [] = pos 0
big_int (c ∷ cs) = if c == b'-' then negative (read_digits 0 cs) else pos (read_digits 0 (c ∷ cs))

-- The decimal digits of a number that is at most the fuel.
unfoldable pub decimal : (fuel n : ℕ) → Text
decimal zero n = (b'0' + n) ∷ []
decimal (suc fuel) n =
    let front = decimal fuel (n / 10) in
    if ltb n 10 then (b'0' + n) ∷ [] else front ++ ((b'0' + n % 10) ∷ [])

-- `toString` of a bigint
unfoldable pub to_string : ℤ → Text
unfolding decimal
to_string (pos n) = decimal n n
to_string (negsuc n) = b'-' ∷ decimal (suc n) (suc n)

abbrev pub above : Option ℤ → ℤ → Bool
above none value = false
above (some max) value = ltb_ℤ max value

-- The tests on the number itself.
abbrev pub check_value : ParseBigIntStringOptions → ℤ → BigIntStringParseResult
check_value options value =
    if options.require_positive && not (ltb_ℤ (pos 0) value)
    then invalid must_be_positive
    else if not options.allow_negative && ltb_ℤ value (pos 0)
    then invalid negative_not_allowed
    else if above options.max value
    then invalid exceeds_max
    else valid value

abbrev pub matches_pattern : ParseBigIntStringOptions → Text → Bool
matches_pattern options trimmed =
    if options.allow_negative then integer_string trimmed else non_negative_integer trimmed

abbrev pub parse_trimmed : ParseBigIntStringOptions → Text → BigIntStringParseResult
parse_trimmed options [] = invalid missing
parse_trimmed options (c ∷ cs) =
    if not (matches_pattern options (c ∷ cs))
    then invalid invalid_format
    else if not options.allow_negative && starts_with_minus (c ∷ cs)
    then invalid negative_not_allowed
    else check_value options (big_int (c ∷ cs))

-- The part of the parser behind the test that the input is a string.
unfoldable pub parse_text : ParseBigIntStringOptions → Text → BigIntStringParseResult
unfolding integer_string non_negative_integer big_int
parse_text options input = parse_trimmed options (trim input)

unfoldable pub parse_big_int_string : Value → ParseBigIntStringOptions → BigIntStringParseResult
unfolding parse_text
parse_big_int_string undefined options = invalid missing
parse_big_int_string null options = invalid missing
parse_big_int_string (str input) options = parse_text options (text input)
parse_big_int_string _ options = invalid invalid_type
