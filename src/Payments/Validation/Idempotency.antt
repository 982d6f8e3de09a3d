-- ===== src/Payments/Validation/Idempotency.antt =====
-- apps/backend/payments/src/validation.ts: the idempotency key of a request.
use delego.Base.{
  ℕ, ◌+◌, ◌≤◌, String, Bool, true, false, not, ◌&&◌, Option, none, some, List, [], ◌∷◌, ltb, leb,
  if◌then◌else◌, ◌≡◌, refl, sym, ◌∙◌, ap, subst, ◌↔◌, All, arith,
}
use delego.Base.Text.{Text}
use delego.Payments.Validation.{
  Message, validation_error, missing_idempotency_key, key_required, key_too_short, key_too_long,
  key_has_invalid_characters, ValidationError, no_details, of_field, ValidationResult, ok, rejected,
}

pub record IdempotencyContext : Type 0 where
  pub key : Text
  pub route : String
  pub user_id : Option String

-- The value of a header: `undefined`, a text, or an array of texts.
pub data Header : Type 0 where
  absent : Header
  single : Text → Header
  multiple : List Text → Header

-- `headers["idempotency-key"] ?? headers["Idempotency-Key"]`
abbrev pub either_header : Header → Header → Header
either_header absent other = other
either_header header other = header

-- `Array.isArray(raw) ? raw[0] : raw`
abbrev pub first_value : Header → Option Text
first_value absent = none
first_value (single key) = some key
first_value (multiple []) = none
first_value (multiple (key ∷ _)) = some key

-- `length`, which counts UTF-16 code units: a code point from 0x10000 on takes two.
unfoldable pub units : Text → ℕ
units [] = 0
units (c ∷ cs) = (if ltb c 0x10000 then 1 else 2) + units cs

abbrev pub idempotency_key_min : ℕ
idempotency_key_min = 8

abbrev pub idempotency_key_max : ℕ
idempotency_key_max = 128

abbrev pub is_visible : ℕ → Bool
is_visible c = leb 0x21 c && leb c 0x7e

unfoldable pub all_visible : Text → Bool
all_visible [] = true
all_visible (c ∷ cs) = is_visible c && all_visible cs

-- `IDEMPOTENCY_KEY_RE`
abbrev pub idempotency_key_re : Text → Bool
idempotency_key_re [] = false
idempotency_key_re (c ∷ cs) = is_visible c && all_visible cs

abbrev pub bad_key : Message → ValidationError
bad_key message = record {
  code = validation_error;
  message = message;
  details = of_field "Idempotency-Key";
}

-- The checks on a key that is not empty.
abbrev pub check_key : Text → IdempotencyContext → ValidationResult IdempotencyContext
check_key key context =
    if ltb (units key) idempotency_key_min
    then rejected (bad_key key_too_short)
    else if ltb idempotency_key_max (units key)
    then rejected (bad_key key_too_long)
    else if not (idempotency_key_re key)
    then rejected (bad_key key_has_invalid_characters)
    else ok context

abbrev pub key_missing : ValidationError
key_missing = record {
  code = missing_idempotency_key;
  message = key_required;
  details = no_details;
}

abbrev pub check_raw : Option Text → String → Option String → ValidationResult IdempotencyContext
check_raw none route user_id = rejected key_missing
check_raw (some []) route user_id = rejected key_missing
check_raw (some (c ∷ cs)) route user_id =
    check_key (c ∷ cs) (record { key = c ∷ cs; route = route; user_id = user_id })

unfoldable pub validate_idempotency_key :
    (headers : String → Header) (route : String) (user_id : Option String)
    → ValidationResult IdempotencyContext
unfolding units all_visible
validate_idempotency_key headers route user_id =
    let raw = either_header (headers "idempotency-key") (headers "Idempotency-Key") in
    check_raw (first_value raw) route user_id

-- A key of the documented form.
unfoldable pub IsKey : Text → Type 0
IsKey key = (8 ≤ units key) × (units key ≤ 128) × All (λ c. (0x21 ≤ c) × (c ≤ 0x7e)) key

all_visible_iff : (t : Text) → (all_visible t ≡ true) ↔ All (λ c. (0x21 ≤ c) × (c ≤ 0x7e)) t
unfolding all_visible
all_visible_iff [] = ((λ _. tt), (λ _. refl))
all_visible_iff (c ∷ cs) = ground (arith, all_visible_iff cs)

check_key_sound :
    (c : ℕ) (cs : Text) (context other : IdempotencyContext)
    → check_key (c ∷ cs) context ≡ ok other
    → (context ≡ other) × IsKey (c ∷ cs)
unfolding IsKey
check_key_sound c cs context other h = ground (arith, all_visible_iff cs)

check_key_complete :
    (c : ℕ) (cs : Text) (context : IdempotencyContext)
    → IsKey (c ∷ cs)
    → check_key (c ∷ cs) context ≡ ok context
unfolding IsKey
check_key_complete c cs context h = ground (arith, all_visible_iff cs)

empty-IsKey : (key : Text) → [] ≡ key → IsKey key → ⊥
unfolding IsKey units
empty-IsKey [] same h = omega (arith, h)
empty-IsKey (c ∷ cs) same h = cc

check_raw_iff :
    (raw : Option Text) (route : String) (user_id : Option String) (context : IdempotencyContext)
    → (check_raw raw route user_id ≡ ok context) ↔ (
        (raw ≡ some context.key)
        × (context.route ≡ route)
        × (context.user_id ≡ user_id)
        × IsKey context.key)
check_raw_iff none route user_id context = ((λ h. absurd (cc)), (λ h. absurd (cc)))
check_raw_iff (some []) route user_id context =
    ((λ h. absurd (cc)), (λ (raw, _, _, k). absurd (empty-IsKey context.key (cc raw) k)))
check_raw_iff (some (c ∷ cs)) route user_id context = (
  (λ h.
      let (same, k) = check_key_sound c cs _ context h in
      let eq = ap (λ x. IdempotencyContext.key x) same in
      (
        ap some eq,
        sym (ap (λ x. IdempotencyContext.route x) same),
        sym (ap (λ x. IdempotencyContext.user_id x) same),
        subst IsKey eq k,
      )),
  (λ (raw, of_route, of_user, k).
      let eq : (c ∷ cs ≡ context.key) = cc raw in
      check_key_complete c cs _ (subst IsKey (sym eq) k)
      ∙ (λ i. ok (record { key = eq i; route = sym of_route i; user_id = sym of_user i }))),
)

-- The key is taken from the lower-case header, or from the other one if that is not there, and from
-- an array its first element. The request passes exactly when this is a key of 8 to 128 visible
-- ASCII characters, and the context then has this key and the route and the user of the call.
pub validate_idempotency_key_iff :
    (headers : String → Header) (route : String) (user_id : Option String)
    (context : IdempotencyContext)
    → (validate_idempotency_key headers route user_id ≡ ok context) ↔ (
        (first_value (either_header (headers "idempotency-key") (headers "Idempotency-Key"))
          ≡ some context.key)
        × (context.route ≡ route)
        × (context.user_id ≡ user_id)
        × IsKey context.key)
unfolding validate_idempotency_key
validate_idempotency_key_iff headers route user_id context = check_raw_iff _ route user_id context
