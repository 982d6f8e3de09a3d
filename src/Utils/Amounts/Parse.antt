-- ===== src/Utils/Amounts/Parse.antt =====
-- What `parseBigIntString` accepts, and the number it returns.
use delego.Base.{
  ℕ, suc, ◌≡◌, refl, sym, ◌∙◌, subst, ap, if◌then◌else◌, ◌↔◌, ◌⊎◌, inl, inr, Bool, true, false, not,
  ◌&&◌, [], ◌∷◌, arith, ==_iff, ◌==◌, Bool-cases,
}
use delego.Base.Int.{ℤ, pos, negsuc}
use delego.Base.Text.{Text}
use delego.Base.Trim.{trim, trim-Solid}
use delego.Utils.Amounts.{
  ParseBigIntStringOptions, BigIntStringParseResult, valid, invalid, invalid_format,
  negative_not_allowed, matches_pattern, non_negative_integer, integer_string, read_digits,
  negative, big_int, decimal, to_string, check_value, parse_trimmed, parse_text,
}
use delego.Utils.Amounts.Decimal.{decimal-digits, read_digits-decimal, digits-Solid}
use delego.Utils.Amounts.Numeral.{
  Digits, Spells, plain, minus, Within, check_value_sound, check_value_complete, Digits-read,
  Digits-read_back, big_int-digits, big_int-minus,
}

-- A text of the pattern spells what `BigInt` makes of it.
integer_string-Spells :
    (o : ParseBigIntStringOptions) (t : Text)
    → o.allow_negative ≡ true
    → integer_string t ≡ true
    → Spells o t (big_int t)
unfolding integer_string big_int
integer_string-Spells o [] a h = absurd (cc)
integer_string-Spells o (c ∷ cs) a h = elim (Bool-cases (c == b'-')) [
  | inl sign ↦
      let same : (b'-' ≡ c) = sym ((==_iff c b'-').0 sign) in
      rw sign (
        subst (λ e. Spells o (e ∷ cs) (negative (read_digits 0 cs))) same
          (minus a (Digits-read cs (rw sign at h))))
  | inr digit ↦ rw digit (plain (Digits-read (c ∷ cs) (rw digit at h)))
]

matches_pattern-Spells :
    (o : ParseBigIntStringOptions) (t : Text) → matches_pattern o t ≡ true → Spells o t (big_int t)
matches_pattern-Spells o t h = elim (Bool-cases o.allow_negative) [
  | inl a ↦ integer_string-Spells o t a (rw a at h)
  | inr a ↦
      let shape : (non_negative_integer t ≡ true) = rw a at h in
      rw (big_int-digits t shape) (plain (Digits-read t shape))
]

guards_sound :
    (pattern sign : Bool) (r : BigIntStringParseResult) (z : ℤ)
    → (if not pattern
        then invalid invalid_format
        else if sign
        then invalid negative_not_allowed
        else r)
      ≡ valid z
    → (pattern ≡ true) × (r ≡ valid z)
guards_sound true false r z h = (refl, h)
guards_sound true true r z h = absurd (cc)
guards_sound false sign r z h = absurd (cc)

parse_trimmed_sound :
    (o : ParseBigIntStringOptions) (t : Text) (z : ℤ)
    → parse_trimmed o t ≡ valid z
    → Within o z × Spells o t z
parse_trimmed_sound o [] z h = absurd (cc)
parse_trimmed_sound o (c ∷ cs) z h =
    let (shape, checked) = guards_sound _ _ (check_value o (big_int (c ∷ cs))) z h in
    let (same, within) = check_value_sound o.allow_negative o.require_positive o.max _ z checked in
    (within, subst (Spells o (c ∷ cs)) same (matches_pattern-Spells o (c ∷ cs) shape))

guards_complete :
    (pattern allow sign : Bool) (r : BigIntStringParseResult)
    → pattern ≡ true
    → (allow ≡ true) ⊎ (sign ≡ false)
    → (if not pattern
        then invalid invalid_format
        else if not allow && sign
        then invalid negative_not_allowed
        else r)
      ≡ r
guards_complete pattern allow sign r shape either = ground arith

digits_match :
    (o : ParseBigIntStringOptions) (t : Text)
    → non_negative_integer t ≡ true
    → matches_pattern o t ≡ true
unfolding non_negative_integer integer_string
digits_match o [] h = absurd (cc)
digits_match o (c ∷ cs) h = ground arith

digit-sign : (c : ℕ) (cs : Text) → non_negative_integer (c ∷ cs) ≡ true → (c == b'-') ≡ false
unfolding non_negative_integer
digit-sign c cs h = ground arith

digits_value :
    (o : ParseBigIntStringOptions) (t : Text)
    → non_negative_integer t ≡ true
    → parse_trimmed o t ≡ check_value o (pos (read_digits 0 t))
unfolding non_negative_integer
digits_value o [] h = absurd (cc)
digits_value o (c ∷ cs) h =
    guards_complete _ _ _ _ (digits_match o (c ∷ cs) h) (inr (digit-sign c cs h))
    ∙ ap (check_value o) (big_int-digits (c ∷ cs) h)

minus_match :
    (o : ParseBigIntStringOptions) (t : Text)
    → o.allow_negative ≡ true
    → non_negative_integer t ≡ true
    → matches_pattern o (b'-' ∷ t) ≡ true
unfolding integer_string
minus_match o t a h = rw a h

minus_value :
    (o : ParseBigIntStringOptions) (t : Text)
    → o.allow_negative ≡ true
    → non_negative_integer t ≡ true
    → parse_trimmed o (b'-' ∷ t) ≡ check_value o (negative (read_digits 0 t))
minus_value o t a h =
    guards_complete _ _ _ _ (minus_match o t a h) (inl a) ∙ ap (check_value o) (big_int-minus t)

Spells-parse_trimmed :
    (o : ParseBigIntStringOptions) (t : Text) (z : ℤ)
    → Within o z
    → Spells o t z
    → parse_trimmed o t ≡ valid z
Spells-parse_trimmed o t z w (plain {n = n} d) =
    let (shape, number) = Digits-read_back d in
    digits_value o t shape
    ∙ ap (λ k. check_value o (pos k)) number
    ∙ check_value_complete o.allow_negative o.require_positive o.max (pos n) w
Spells-parse_trimmed o t z w (minus {t = u} {n = n} a d) =
    let (shape, number) = Digits-read_back d in
    minus_value o u a shape
    ∙ ap (λ k. check_value o (negative k)) number
    ∙ check_value_complete o.allow_negative o.require_positive o.max (negative n) w

-- `parseBigIntString` of a text returns an integer exactly when the trimmed text is a decimal numeral
-- of that integer, with a minus sign only if `allowNegative` is true, and the integer is within the
-- bounds of the options.
pub parse_text_iff :
    (o : ParseBigIntStringOptions) (t : Text) (z : ℤ)
    → (parse_text o t ≡ valid z) ↔ (Within o z × Spells o (trim t) z)
unfolding parse_text
parse_text_iff o t z =
    (parse_trimmed_sound o (trim t) z, λ h. Spells-parse_trimmed o (trim t) z h.0 h.1)

printed-Digits : (n : ℕ) → Digits (decimal n n) n
printed-Digits n =
    subst (Digits (decimal n n)) (read_digits-decimal n n (omega arith))
      (Digits-read (decimal n n) (decimal-digits n n (omega arith)))

allowed_negative :
    (o : ParseBigIntStringOptions) (n : ℕ) → Within o (negsuc n) → o.allow_negative ≡ true
unfolding Within
allowed_negative o n (inl a, _, _) = a
allowed_negative o n (inr large, _, _) = absurd (omega (arith, large))

-- An integer within the bounds of the options is read back from what `toString` prints of it.
pub parse_text-to_string :
    (o : ParseBigIntStringOptions) (z : ℤ) → Within o z → parse_text o (to_string z) ≡ valid z
unfolding parse_text to_string Within
parse_text-to_string o (pos n) w =
    let shape = decimal-digits n n (omega arith) in
    ap (parse_trimmed o) (trim-Solid (decimal n n) (digits-Solid _ shape))
    ∙ Spells-parse_trimmed o (decimal n n) (pos n) w (plain (printed-Digits n))
parse_text-to_string o (negsuc n) w =
    let digits = decimal (suc n) (suc n) in
    let shape = decimal-digits (suc n) (suc n) (omega arith) in
    ap (parse_trimmed o) (trim-Solid (b'-' ∷ digits) (refl, digits-Solid digits shape))
    ∙ Spells-parse_trimmed o (b'-' ∷ digits) (negsuc n) w
        (minus (allowed_negative o n w) (printed-Digits (suc n)))
