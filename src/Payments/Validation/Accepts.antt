-- ===== src/Payments/Validation/Accepts.antt =====
-- Which bodies the escrow requests accept.
use delego.Base.{
  ℕ, String, Bool, true, false, not, [], ◌∷◌, length, All, ◌==◌, ◌≡◌, ◌≢◌, refl, sym, ◌∙◌, ap,
  subst, if◌then◌else◌, ◌↔◌, ◌⊎◌, inl, inr, arith, Bool-cases, ◌≤◌, ◌&&◌, zero, suc,
}
use mathlib.Core.List.{cons-ne-nil}
use delego.Base.Text.{Text, text}
use delego.Base.Trim.{trim}
use delego.Base.Value.{Value, undefined, null, bool, num, bigint, date, str, arr, obj, get}
use delego.Payments.Validation.{
  ValidationError, ValidationResult, ok, rejected, and_then, string_value, non_empty,
  require_string, is_valid_stellar_address, base32, stellar_address, require_stellar_address,
}

module _ {A B : Type 0} where
  pub and_then-ok :
      (r : ValidationResult A) (next : A → ValidationResult B) (b : B)
      → and_then r next ≡ ok b
      → (a : A) × (r ≡ ok a) × (next a ≡ ok b)
  and_then-ok (ok a) next b h = (a, refl, h)
  and_then-ok (rejected e) next b h = absurd (cc)

  pub ok-and_then :
      (r : ValidationResult A) (next : A → ValidationResult B) (a : A)
      → r ≡ ok a
      → and_then r next ≡ next a
  ok-and_then r next a h = rw h refl

  abbrev pub map_ok : (A → B) → ValidationResult A → ValidationResult B
  map_ok f (ok a) = ok (f a)
  map_ok f (rejected e) = rejected e

-- A field that is a text, with what is left of it when white space is trimmed, which is something.
unfoldable pub Given : Value → String → Text → Type 0
Given body field t = (s : String) × (get field body ≡ str s) × (trim (text s) ≡ t) × (t ≢ [])

non_empty_iff : (field : String) (t u : Text) → (non_empty field t ≡ ok u) ↔ ((t ≡ u) × (u ≢ []))
non_empty_iff field [] u = ((λ h. absurd (cc)), (λ h. absurd (h.1 (sym h.0))))
non_empty_iff field (c ∷ cs) u = (
  (λ h. let same : (c ∷ cs ≡ u) = cc in (same, subst (λ x. x ≢ []) same (cons-ne-nil c cs))),
  (λ h. ap ok h.0),
)

string_value_iff :
    (field : String) (v : Value) (t : Text)
    → (string_value field v ≡ ok t) ↔ ((s : String) × (v ≡ str s) × (trim (text s) ≡ t) × (t ≢ []))
string_value_iff field (str s) t = (
  (λ h.
      let (trimmed, some_text) = (non_empty_iff field (trim (text s)) t).0 h in
      (s, refl, trimmed, some_text)),
  (λ (x, same, trimmed, some_text).
      let eq : (s ≡ x) = cc in
      (non_empty_iff field (trim (text s)) t).1 (ap (λ y. trim (text y)) eq ∙ trimmed, some_text)),
)
string_value_iff field undefined t = ((λ h. absurd (cc)), (λ h. absurd (cc)))
string_value_iff field null t = ((λ h. absurd (cc)), (λ h. absurd (cc)))
string_value_iff field (bool _) t = ((λ h. absurd (cc)), (λ h. absurd (cc)))
string_value_iff field (num _) t = ((λ h. absurd (cc)), (λ h. absurd (cc)))
string_value_iff field (bigint _) t = ((λ h. absurd (cc)), (λ h. absurd (cc)))
string_value_iff field (date _) t = ((λ h. absurd (cc)), (λ h. absurd (cc)))
string_value_iff field (arr _) t = ((λ h. absurd (cc)), (λ h. absurd (cc)))
string_value_iff field (obj _) t = ((λ h. absurd (cc)), (λ h. absurd (cc)))

pub require_string_iff :
    (body : Value) (field : String) (t : Text)
    → (require_string body field ≡ ok t) ↔ Given body field t
unfolding require_string Given
require_string_iff body field t = string_value_iff field (get field body) t

abbrev pub IsBase32 : ℕ → Type 0
IsBase32 d = ((b'A' ≤ d) × (d ≤ b'Z')) ⊎ ((b'2' ≤ d) × (d ≤ b'7'))

-- A Stellar account address: `G` and 55 characters from A to Z and from 2 to 7.
unfoldable pub IsAddress : Text → Type 0
IsAddress [] = ⊥
IsAddress (c ∷ cs) = (c ≡ b'G') × ((length cs ≡ 55) × All IsBase32 cs)

base32_iff : (n : ℕ) (t : Text) → (base32 n t ≡ true) ↔ ((length t ≡ n) × All IsBase32 t)
unfolding base32
base32_iff zero [] = ((λ _. (refl, tt)), (λ _. refl))
base32_iff zero (c ∷ cs) = ((λ h. absurd (cc)), (λ h. absurd (omega (arith, h.0))))
base32_iff (suc n) [] = ((λ h. absurd (cc)), (λ h. absurd (omega (arith, h.0))))
base32_iff (suc n) (c ∷ cs) = ground (arith, base32_iff n cs)

begins_iff :
    (c d : ℕ) (b : Bool) (P : Type 0) → (b ≡ true) ↔ P → ((c == d && b) ≡ true) ↔ ((c ≡ d) × P)
begins_iff c d true P h = (λ e. (ground arith, h.0 refl), λ (e, p). ground arith)
begins_iff c d false P h = (λ e. absurd (ground arith), λ (e, p). absurd (cc (h.1 p)))

pub is_valid_stellar_address_iff : (t : Text) → (is_valid_stellar_address t ≡ true) ↔ IsAddress t
unfolding is_valid_stellar_address IsAddress
is_valid_stellar_address_iff [] = ((λ h. absurd (cc)), (λ h. absurd h))
is_valid_stellar_address_iff (c ∷ cs) = begins_iff c b'G' (base32 55 cs) _ (base32_iff 55 cs)

-- A check that lets a text pass unchanged, by its test.
pub guarded_iff :
    (test : Text → Bool) (P : Text → Type 0) (e : ValidationError)
    → ((t : Text) → (test t ≡ true) ↔ P t)
    → (t u : Text) → ((if not (test t) then rejected e else ok t) ≡ ok u) ↔ ((t ≡ u) × P u)
guarded_iff test P e iff t u = elim (Bool-cases (test t)) [
  | inl passes ↦
      rw passes (
        (λ h. let same : (t ≡ u) = cc in (same, subst P same ((iff t).0 passes))),
        (λ h. ap ok h.0),
      )
  | inr fails ↦
      rw fails
        ((λ h. absurd (cc)), (λ h. let passes = (iff t).1 (subst P (sym h.0) h.1) in absurd (cc)))
]

-- A field with a check behind it.
pub checked_field_iff :
    (body : Value) (field : String) (check : Text → ValidationResult Text) (P : Text → Type 0)
    → ((t u : Text) → (check t ≡ ok u) ↔ ((t ≡ u) × P u))
    → (t : Text) → (and_then (require_string body field) check ≡ ok t) ↔ (Given body field t × P t)
checked_field_iff body field check P iff t = (
  (λ h.
      let (u, given, checked) = and_then-ok (require_string body field) check t h in
      let (same, p) = (iff u t).0 checked in
      ((require_string_iff body field t).0 (given ∙ ap ok same), p)),
  (λ (given, p).
      ok-and_then _ check t ((require_string_iff body field t).1 given) ∙ (iff t t).1 (refl, p)),
)

pub require_stellar_address_iff :
    (body : Value) (field : String) (t : Text)
    → (require_stellar_address body field ≡ ok t) ↔ (Given body field t × IsAddress t)
unfolding require_stellar_address
require_stellar_address_iff body field =
    checked_field_iff body field (stellar_address field) IsAddress
      (guarded_iff is_valid_stellar_address IsAddress _ is_valid_stellar_address_iff)
