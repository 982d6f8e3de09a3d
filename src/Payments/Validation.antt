-- ===== src/Payments/Validation.antt =====
-- apps/backend/payments/src/validation.ts: results, errors and the checks of one field, with the
-- address patterns of escrow/config.ts. A body is a value whose fields are read; texts are lists of
-- code points.
pub mod Consistency
pub mod Integers
pub mod Idempotency
pub mod Requests
pub mod Accepts
pub mod Escrow
mod Tests
use delego.Base.{
  ℕ, zero, suc, ◌+◌, String, Bool, true, false, not, ◌&&◌, ◌||◌, Option, none, some, [], ◌∷◌, leb,
  ◌==◌, if◌then◌else◌,
}
use delego.Base.Int.{ℤ, pos, ltb_ℤ}
use delego.Base.Text.{Text, text}
use delego.Base.Trim.{trim}
use delego.Base.Value.{Value, undefined, null, str, get}

pub record MerchantConsistencyCheck : Type 0 where
  pub order_id : Text
  pub expected_merchant : Text
  pub requested_merchant : Text
  pub matches : Bool

pub record AmountConsistencyCheck : Type 0 where
  pub order_id : Text
  pub expected_stroops : Text
  pub requested_stroops : Text
  pub matches : Bool

pub data Code : Type 0 where
  merchant_address_mismatch order_amount_mismatch validation_error missing_idempotency_key : Code
  config_error : Code

-- The messages, by what they say of which field.
pub data Message : Type 0 where
  merchants_differ amounts_differ not_an_amount key_required : Message
  key_too_short key_too_long key_has_invalid_characters : Message
  missing_required must_be_non_empty must_be_address : String → Message
  must_be_non_negative_integer must_be_non_empty_when_provided : String → Message
  not_a_contract_address invalid_escrow_configuration unsupported_reason : Message

pub data Details : Type 0 where
  no_details : Details
  of_field : String → Details
  of_merchants : MerchantConsistencyCheck → Details
  of_amounts : AmountConsistencyCheck → Details
  received : String → Text → Details

pub record ValidationError : Type 0 where
  pub code : Code
  pub message : Message
  pub details : Details

pub data ValidationResult (A : Type 0) : Type 0 where
  ok : A → ValidationResult A
  rejected : ValidationError → ValidationResult A

-- `if (!result.ok) return result;` and what follows with the value
abbrev pub and_then :
    {A B : Type 0} → ValidationResult A → (A → ValidationResult B) → ValidationResult B
and_then (ok value) next = next value
and_then (rejected error) next = rejected error

abbrev pub missing_field : String → ValidationError
missing_field field = record {
  code = validation_error;
  message = missing_required field;
  details = of_field field;
}

abbrev pub invalid_field : String → Message → ValidationError
invalid_field field message = record {
  code = validation_error;
  message = message;
  details = of_field field;
}

-- What `requireString` does with a text that has been trimmed.
abbrev pub non_empty : String → Text → ValidationResult Text
non_empty field [] = rejected (invalid_field field (must_be_non_empty field))
non_empty field (c ∷ cs) = ok (c ∷ cs)

abbrev pub string_value : String → Value → ValidationResult Text
string_value field undefined = rejected (missing_field field)
string_value field null = rejected (missing_field field)
string_value field (str value) = non_empty field (trim (text value))
string_value field _ = rejected (invalid_field field (must_be_non_empty field))

unfoldable pub require_string : Value → String → ValidationResult Text
require_string body field = string_value field (get field body)

-- `[A-Z2-7]`
abbrev pub is_base32 : ℕ → Bool
is_base32 c = (leb b'A' c && leb c b'Z') || (leb b'2' c && leb c b'7')

-- `[A-Z2-7]{count}$`
unfoldable pub base32 : (count : ℕ) → Text → Bool
base32 zero [] = true
base32 zero (_ ∷ _) = false
base32 (suc count) [] = false
base32 (suc count) (c ∷ cs) = is_base32 c && base32 count cs

abbrev strkey : ℕ → Text → Bool
strkey first [] = false
strkey first (c ∷ cs) = c == first && base32 55 cs

-- `STELLAR_ADDRESS_RE`
unfoldable pub is_valid_stellar_address : Text → Bool
is_valid_stellar_address address = strkey b'G' address

-- `CONTRACT_ADDRESS_RE`
unfoldable pub is_valid_contract_id : Text → Bool
is_valid_contract_id contract_id = strkey b'C' contract_id

abbrev pub stellar_address : String → Text → ValidationResult Text
stellar_address field value =
    if not (is_valid_stellar_address value)
    then rejected (invalid_field field (must_be_address field))
    else ok value

unfoldable pub require_stellar_address : Value → String → ValidationResult Text
unfolding require_string
require_stellar_address body field = and_then (require_string body field) (stellar_address field)

-- `Number.isInteger(id) && id >= 0`, of the integer that `Number` reads, if it reads one.
abbrev pub is_count : Option ℤ → Bool
is_count none = false
is_count (some id) = not (ltb_ℤ id (pos 0))

-- `getEscrowContractId` with the variable ESCROW_CONTRACT_ID; its throw is caught by the caller.
abbrev pub get_escrow_contract_id : Option Text → Option Text
get_escrow_contract_id none = none
get_escrow_contract_id (some []) = none
get_escrow_contract_id (some (c ∷ cs)) = some (c ∷ cs)

abbrev config_failure : Message → ValidationError
config_failure message = record { code = config_error; message = message; details = no_details }

abbrev contract_config : Option Text → ValidationResult Text
contract_config none = rejected (config_failure invalid_escrow_configuration)
contract_config (some contract_id) =
    if not (is_valid_contract_id contract_id)
    then rejected (config_failure not_a_contract_address)
    else ok contract_id

unfoldable pub validate_escrow_contract_config : (variable : Option Text) → ValidationResult Text
unfolding is_valid_contract_id
validate_escrow_contract_config variable = contract_config (get_escrow_contract_id variable)

-- The conversion of texts to doubles, `Number`, is an argument: it gives the integer that a text
-- is converted to, and none for NaN, an infinity or a fraction.
module _ (number : Text → Option ℤ) where
  abbrev escrow_id : Text → ValidationResult Text
  escrow_id [] = rejected (missing_field "escrowId")
  escrow_id (c ∷ cs) =
      if not (is_count (number (c ∷ cs)))
      then rejected (invalid_field "escrowId" (must_be_non_negative_integer "escrowId"))
      else ok (c ∷ cs)

  unfoldable pub require_escrow_id : Option Text → ValidationResult Text
  require_escrow_id none = rejected (missing_field "escrowId")
  require_escrow_id (some id) = escrow_id (trim id)
