-- ===== src/Utils/Amounts/Decimal.antt =====
-- The decimal digits that `toString` prints.
use delego.Base.{
  ℕ, zero, suc, ◌+◌, ◌-◌, ◌*◌, ◌/◌, ◌%◌, ◌≤◌, ◌≡◌, refl, ◌∙◌, true, inl, inr, [], ◌∷◌, ◌++◌, arith,
  ltb, Bool-cases,
}
use delego.Base.Text.{Text}
use delego.Base.Trim.{Solid}
use delego.Utils.Amounts.{all_digits, non_negative_integer, read_digits, decimal}

all_digits-append :
    (s t : Text) → all_digits s ≡ true → all_digits t ≡ true → all_digits (s ++ t) ≡ true
unfolding all_digits
all_digits-append [] t hs ht = ht
all_digits-append (c ∷ s) t hs ht = ground (arith, all_digits-append s t)

pub read_digits-append :
    (n : ℕ) (s t : Text) → read_digits n (s ++ t) ≡ read_digits (read_digits n s) t
unfolding read_digits
read_digits-append n [] t = refl
read_digits-append n (c ∷ s) t = read_digits-append (n * 10 + (c - b'0')) s t

one_digit : (n : ℕ) → ltb n 10 ≡ true → non_negative_integer ((b'0' + n) ∷ []) ≡ true
unfolding non_negative_integer all_digits
one_digit n h = ground arith

pub non_negative_integer-append :
    (s t : Text)
    → non_negative_integer s ≡ true
    → all_digits t ≡ true
    → non_negative_integer (s ++ t) ≡ true
unfolding non_negative_integer
non_negative_integer-append [] t hs ht = absurd (cc)
non_negative_integer-append (c ∷ s) t hs ht = ground (arith, all_digits-append s t)

last_digit : (n : ℕ) → all_digits ((b'0' + n % 10) ∷ []) ≡ true
unfolding all_digits
last_digit n = ground arith

-- What is printed is one or more digits.
pub decimal-digits : (fuel n : ℕ) → n ≤ fuel → non_negative_integer (decimal fuel n) ≡ true
unfolding decimal
decimal-digits zero n h = one_digit n (ground arith)
decimal-digits (suc fuel) n h = elim (Bool-cases (ltb n 10)) [
  | inl small ↦ rw small (one_digit n small)
  | inr large ↦ rw large (
      non_negative_integer-append (decimal fuel (n / 10)) _
        (decimal-digits fuel (n / 10) (omega arith)) (last_digit n))
]

-- Reading the print of a number gives the number.
pub read_digits-decimal : (fuel n : ℕ) → n ≤ fuel → read_digits 0 (decimal fuel n) ≡ n
unfolding decimal read_digits
read_digits-decimal zero n h = omega arith
read_digits-decimal (suc fuel) n h = elim (Bool-cases (ltb n 10)) [
  | inl small ↦ rw small (omega arith)
  | inr large ↦ rw large (
      read_digits-append 0 (decimal fuel (n / 10)) _
      ∙ omega (arith, read_digits-decimal fuel (n / 10) (omega arith)))
]

all_digits-Solid : (t : Text) → all_digits t ≡ true → Solid t
unfolding all_digits
all_digits-Solid [] h = tt
all_digits-Solid (c ∷ cs) h = (ground arith, all_digits-Solid cs (ground arith))

-- Digits have no white space among them.
pub digits-Solid : (t : Text) → non_negative_integer t ≡ true → Solid t
unfolding non_negative_integer
digits-Solid [] h = tt
digits-Solid (c ∷ cs) h = (ground arith, all_digits-Solid cs (ground arith))
