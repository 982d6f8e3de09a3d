-- ===== src/Utils/Amounts/Tests.antt =====
-- Runs of the amount parser, and concrete instances of its theorems.
use delego.Base.{refl, true, false, some, ◌≡◌, ◌↔◌, inl, arith}
use delego.Base.Int.{pos, negsuc}
use delego.Base.Text.{text}
use delego.Base.Trim.{trim}
use delego.Base.Value.{num, str}
use delego.Utils.Amounts.{
  ParseBigIntStringOptions, default_options, valid, invalid, missing, invalid_type, invalid_format,
  must_be_positive, exceeds_max, parse_text, parse_big_int_string,
}
use delego.Utils.Amounts.Numeral.{Within, Below, Spells}
use delego.Utils.Amounts.Parse.{parse_text_iff}

abbrev signed : ParseBigIntStringOptions
signed = record { allow_negative = true; require_positive = false; max = some (pos 100) }

abbrev paid : ParseBigIntStringOptions
paid = record { allow_negative = false; require_positive = true; max = some (pos 100) }

run_padded : parse_big_int_string (str " 0100 ") default_options ≡ valid (pos 100)
unfolding parse_big_int_string trim
run_padded = refl

run_decimals : parse_big_int_string (str "1.5") default_options ≡ invalid invalid_format
unfolding parse_big_int_string trim
run_decimals = refl

run_minus : parse_big_int_string (str "-12") signed ≡ valid (negsuc 11)
unfolding parse_big_int_string trim
run_minus = refl

run_minus_refused : parse_big_int_string (str "-12") default_options ≡ invalid invalid_format
unfolding parse_big_int_string trim
run_minus_refused = refl

run_zero : parse_big_int_string (str "0") paid ≡ invalid must_be_positive
unfolding parse_big_int_string trim
run_zero = refl

run_large : parse_big_int_string (str "101") paid ≡ invalid exceeds_max
unfolding parse_big_int_string trim
run_large = refl

run_blank : parse_big_int_string (str "  ") paid ≡ invalid missing
unfolding parse_big_int_string trim
run_blank = refl

run_number : parse_big_int_string (num (pos 5)) paid ≡ invalid invalid_type
unfolding parse_big_int_string trim
run_number = refl

parse_text_iff_example :
    (parse_text signed (text " -12") ≡ valid (negsuc 11))
    ↔ (Within signed (negsuc 11) × Spells signed (trim (text " -12")) (negsuc 11))
parse_text_iff_example = parse_text_iff signed (text " -12") (negsuc 11)

signed-Within : Within signed (negsuc 11)
unfolding Within Below
signed-Within = (inl refl, inl refl, omega arith)
