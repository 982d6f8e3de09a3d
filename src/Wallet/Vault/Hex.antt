-- ===== src/Wallet/Vault/Hex.antt =====
-- Hexadecimal texts of bytes: `toString("hex")` of a buffer, and `Buffer.from` of a text, which stops
-- at the first pair that is not two digits.
use delego.Base.{
  ℕ, ◌+◌, ◌-◌, ◌*◌, ◌/◌, ◌%◌, ◌<◌, Option, none, some, ◌&&◌, List, [], ◌∷◌, leb, ltb, if◌then◌else◌,
  ◌≡◌, refl, ap, ◌∙◌, All, arith,
}
use delego.Base.Text.{Text}

abbrev pub Bytes : Type 0
Bytes = List ℕ

abbrev pub AreBytes : Bytes → Type 0
AreBytes = All (λ b. b < 256)

abbrev hex_digit : ℕ → ℕ
hex_digit n = if ltb n 10 then b'0' + n else b'a' + (n - 10)

unfoldable pub to_hex : Bytes → Text
to_hex [] = []
to_hex (b ∷ bs) = hex_digit (b / 16) ∷ hex_digit (b % 16) ∷ to_hex bs

abbrev digit_value : ℕ → Option ℕ
digit_value c =
    if leb b'0' c && leb c b'9'
    then some (c - b'0')
    else if leb b'a' c && leb c b'f'
    then some (c - b'a' + 10)
    else if leb b'A' c && leb c b'F'
    then some (c - b'A' + 10)
    else none

abbrev pair : Option ℕ → Option ℕ → Bytes → Bytes
pair (some high) (some low) rest = (high * 16 + low) ∷ rest
pair (some high) none rest = []
pair none low rest = []

unfoldable pub from_hex : Text → Bytes
from_hex [] = []
from_hex (c ∷ []) = []
from_hex (c ∷ d ∷ rest) = pair (digit_value c) (digit_value d) (from_hex rest)

digit_value-hex_digit : (n : ℕ) → n < 16 → digit_value (hex_digit n) ≡ some n
digit_value-hex_digit n h = ground arith

pub from_hex-to_hex : (bs : Bytes) → AreBytes bs → from_hex (to_hex bs) ≡ bs
unfolding from_hex to_hex
from_hex-to_hex [] h = refl
from_hex-to_hex (b ∷ bs) (small, rest) =
    let high = digit_value-hex_digit (b / 16) (omega arith) in
    let low = digit_value-hex_digit (b % 16) (omega arith) in
    let value : (b / 16 * 16 + b % 16 ≡ b) = omega arith in
    (λ i. pair (high i) (low i) (from_hex-to_hex bs rest i)) ∙ ap (λ v. v ∷ bs) value
