-- ===== src/Utils/Amounts/Numeral.antt =====
-- Decimal numerals, the integers they spell, and the bounds of the options of `parseBigIntString`.
use delego.Base.{
  ℕ, ◌+◌, ◌-◌, ◌*◌, ◌<◌, ◌≡◌, refl, sym, ◌∙◌, subst, ◌⊎◌, Bool, true, false, Option, none, some, [],
  ◌∷◌, ◌++◌, arith,
}
use mathlib.Core.List.{append_assoc, append-nil}
use delego.Base.Int.{ℤ, pos, ◌≤ℤ◌}
use delego.Base.Text.{Text}
use delego.Utils.Amounts.{
  ParseBigIntStringOptions, valid, all_digits, non_negative_integer, read_digits, negative, big_int,
  check_value,
}
use delego.Utils.Amounts.Decimal.{read_digits-append, non_negative_integer-append}

-- A text of one or more digits, and its number, from the last digit on.
pub data Digits : Text → ℕ → Type 0 where
  one : (d : ℕ) → d < 10 → Digits ((b'0' + d) ∷ []) d
  more :
      {t : Text} {n : ℕ}
      → Digits t n
      → (d : ℕ) → d < 10
      → Digits (t ++ ((b'0' + d) ∷ [])) (n * 10 + d)

-- A text, and the integer that it spells under the options.
pub data Spells (o : ParseBigIntStringOptions) : Text → ℤ → Type 0 where
  plain : {t : Text} {n : ℕ} → Digits t n → Spells o t (pos n)
  minus :
      {t : Text} {n : ℕ} → o.allow_negative ≡ true → Digits t n → Spells o (b'-' ∷ t) (negative n)

unfoldable pub Below : Option ℤ → ℤ → Type 0
Below none z = Unit
Below (some max) z = z ≤ℤ max

-- The bounds that the options ask for.
unfoldable pub Within : ParseBigIntStringOptions → ℤ → Type 0
Within o z =
    ((o.allow_negative ≡ true) ⊎ (pos 0 ≤ℤ z))
    × ((o.require_positive ≡ false) ⊎ (pos 1 ≤ℤ z))
    × Below o.max z

pub check_value_sound :
    (a r : Bool) (max : Option ℤ) (z y : ℤ)
    → let o : ParseBigIntStringOptions = record {
      allow_negative = a;
      require_positive = r;
      max = max;
    } in
      check_value o z ≡ valid y → (z ≡ y) × Within o y
unfolding Within Below
check_value_sound a r none z y h = ground arith
check_value_sound a r (some max) z y h = ground arith

pub check_value_complete :
    (a r : Bool) (max : Option ℤ) (z : ℤ)
    → let o : ParseBigIntStringOptions = record {
      allow_negative = a;
      require_positive = r;
      max = max;
    } in
      Within o z → check_value o z ≡ valid z
unfolding Within Below
check_value_complete a r none z h = ground arith
check_value_complete a r (some max) z h = ground arith

Digits-snoc :
    (s : Text) {t : Text} {n : ℕ}
    → Digits t n
    → all_digits s ≡ true
    → Digits (t ++ s) (read_digits n s)
unfolding all_digits read_digits
Digits-snoc [] {t} {n} d h = subst (λ u. Digits u n) (sym (append-nil t)) d
Digits-snoc (c ∷ s) {t} {n} d h =
    let digit = more d (c - b'0') (ground arith) in
    let same : (b'0' + (c - b'0') ≡ c) = ground arith in
    subst (λ u. Digits u (read_digits (n * 10 + (c - b'0')) s)) (append_assoc t (c ∷ []) s)
      (Digits-snoc s (subst (λ e. Digits (t ++ (e ∷ [])) (n * 10 + (c - b'0'))) same digit)
        (ground arith))

-- The reader gives the number that digits spell.
pub Digits-read : (t : Text) → non_negative_integer t ≡ true → Digits t (read_digits 0 t)
unfolding non_negative_integer read_digits
Digits-read [] h = absurd (cc)
Digits-read (c ∷ cs) h =
    let same : (b'0' + (c - b'0') ≡ c) = ground arith in
    let digit = subst (λ e. Digits (e ∷ []) (c - b'0')) same (one (c - b'0') (ground arith)) in
    Digits-snoc cs (subst (Digits (c ∷ [])) (omega arith) digit) (ground arith)

pub Digits-read_back :
    {t : Text} {n : ℕ} → Digits t n → (non_negative_integer t ≡ true) × (read_digits 0 t ≡ n)
unfolding non_negative_integer all_digits read_digits
Digits-read_back (one d h) = (ground arith, omega arith)
Digits-read_back (more {t} {n} d c h) =
    let (shape, number) = Digits-read_back d in
    (
      non_negative_integer-append t ((b'0' + c) ∷ []) shape (ground arith),
      read_digits-append 0 t ((b'0' + c) ∷ []) ∙ omega (arith, number),
    )

pub big_int-digits : (t : Text) → non_negative_integer t ≡ true → big_int t ≡ pos (read_digits 0 t)
unfolding non_negative_integer big_int
big_int-digits [] h = absurd (cc)
big_int-digits (c ∷ cs) h = let n = read_digits 0 (c ∷ cs) in ground arith

pub big_int-minus : (t : Text) → big_int (b'-' ∷ t) ≡ negative (read_digits 0 t)
unfolding big_int
big_int-minus t = refl
