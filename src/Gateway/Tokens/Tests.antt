-- ===== src/Gateway/Tokens/Tests.antt =====
-- Tests of the refresh tokens with a transparent cryptography, and the theorems at concrete
-- requests.
use delego.Base.{
  ℕ, ◌+◌, ◌<◌, ◌≡◌, refl, String, true, false, Option, none, some, [], ◌∷◌, arith, ltb, lt→ltb,
  str_eq, eq_iff, if◌then◌else◌,
}
use delego.Gateway.Tokens.{
  RefreshTokenPayload, Crypto, Table, find_by_pk, revoke_used, generate_refresh_token, new_token,
  generate_tokens, Fresh, revoke_family, write_all, refreshed, is_refreshed, token_reuse_detected,
  Request, refresh_access_token, refresh_lifetime_ms,
}
use delego.Gateway.Tokens.Once.{refresh_access_token-once}
use delego.Gateway.Tokens.Family.{
  IsRevoked, row, pair, refresh_access_token-IsRevoked, refresh_access_token-issued,
  refresh_access_token-survives,
}

-- A token shows when and for what it was signed, and a hash is the secret.
abbrev verify_open : ℕ → ℕ × Option RefreshTokenPayload → Option RefreshTokenPayload
verify_open now (at, p) = if ltb now (at + refresh_lifetime_ms) then p else none

verify_open-signed :
    (at now : ℕ) (p : RefreshTokenPayload)
    → now < at + refresh_lifetime_ms
    → verify_open now (at, some p) ≡ some p
verify_open-signed at now p h = rw (lt→ltb now (at + refresh_lifetime_ms) h) refl

str_eq_self : (s : String) → str_eq s s ≡ true
str_eq_self s = ground (arith, eq_iff s s)

abbrev open_crypto : Crypto
open_crypto = record {
  Token = ℕ × Option RefreshTokenPayload;
  Hash = String;
  sign = λ at p. (at, some p);
  sign_access = λ at user email. (at, none);
  verify = verify_open;
  hash = λ s. s;
  compare = str_eq;
  verify-sign = verify_open-signed;
  compare-hash = str_eq_self;
}

abbrev ids : String → String → Fresh open_crypto
ids id secret = record { token_id = id; secret = secret }

abbrev request : ℕ → Fresh open_crypto → Request open_crypto
request now fresh = record {
  now = now;
  fresh = fresh;
  email_of = λ user. some "u@example.org";
  before_revocation = [];
  before_last = [];
}

abbrev payload : RefreshTokenPayload
payload = record { token_id = "t1"; family_id = "f"; user_id = "u"; secret = "s1" }

abbrev issued : Table open_crypto
issued = new_token open_crypto 0 "u" "f" (ids "t1" "s1") ∷ []

abbrev first : Request open_crypto
first = request 1000 (ids "t2" "s2")

abbrev second : Request open_crypto
second = request 2000 (ids "t3" "s3")

abbrev after_first : Table open_crypto
after_first = (refresh_access_token open_crypto first (0, some payload) issued).1

first_works :
    is_refreshed open_crypto (refresh_access_token open_crypto first (0, some payload) issued).0
    ≡ true
unfolding refresh_access_token find_by_pk revoke_used write_all generate_tokens
first_works = refl

second_reused :
    (refresh_access_token open_crypto second (0, some payload) after_first).0 ≡ token_reuse_detected
unfolding refresh_access_token find_by_pk revoke_used write_all generate_tokens
    generate_refresh_token
second_reused = refl

refresh_access_token-once_example :
    is_refreshed open_crypto
      (refresh_access_token open_crypto second (0, some payload) after_first).0
    ≡ false
unfolding write_all
refresh_access_token-once_example =
    refresh_access_token-once open_crypto "t1" first second (0, some payload) (0, some payload)
      payload payload issued after_first [] refl refl refl refl refl tt tt first_works refl

found_used :
    find_by_pk open_crypto "t1" after_first
    ≡ some (record (new_token open_crypto 0 "u" "f" (ids "t1" "s1")) { revoked_at = some 1000 })
unfolding refresh_access_token find_by_pk revoke_used write_all generate_tokens
    generate_refresh_token
found_used = refl

refresh_access_token-IsRevoked_example :
    IsRevoked open_crypto "f"
      (refresh_access_token open_crypto second (0, some payload) after_first).1
refresh_access_token-IsRevoked_example =
    refresh_access_token-IsRevoked open_crypto second (0, some payload) payload after_first
      (record (new_token open_crypto 0 "u" "f" (ids "t1" "s1")) { revoked_at = some 1000 }) refl
      found_used second_reused

nothing_stored : find_by_pk open_crypto "t1" [] ≡ none
unfolding find_by_pk
nothing_stored = refl

refresh_access_token-issued_example :
    refresh_access_token open_crypto first
      (generate_tokens open_crypto 0 "u" "u@example.org" "f" (ids "t1" "s1") []).0.refresh_token
      (generate_tokens open_crypto 0 "u" "u@example.org" "f" (ids "t1" "s1") []).1
    ≡ (
      refreshed (pair open_crypto 1000 "u" "u@example.org" "f" (ids "t2" "s2")),
      row open_crypto 1000 "u" "f" (ids "t2" "s2") none
          ∷ row open_crypto 0 "u" "f" (ids "t1" "s1") (some 1000)
          ∷ [],
    )
refresh_access_token-issued_example =
    refresh_access_token-issued open_crypto first 0 "u" "u@example.org" "f" (ids "t1" "s1") []
      nothing_stored refl refl refl (omega arith)

-- The second request revokes the family while the first one waits.
abbrev overtaken : Request open_crypto
overtaken = record first { before_last = revoke_family 2000 "f" ∷ [] }

refresh_access_token-survives_example :
    let (tokens, issued) =
      generate_tokens open_crypto 0 "u" "u@example.org" "f" (ids "t1" "s1") [] in
    let waiting = row open_crypto 0 "u" "f" (ids "t1" "s1") (some 1000) ∷ [] in
    let (answer, after_second) =
      refresh_access_token open_crypto second tokens.refresh_token waiting in
    (revoke_used open_crypto 1000 "t1" issued ≡ (1, waiting))
    × (answer ≡ token_reuse_detected)
    × IsRevoked open_crypto "f" after_second
    × (refresh_access_token open_crypto overtaken tokens.refresh_token issued ≡ (
      refreshed (pair open_crypto 1000 "u" "u@example.org" "f" (ids "t2" "s2")),
      row open_crypto 1000 "u" "f" (ids "t2" "s2") none ∷ after_second,
    ))
refresh_access_token-survives_example =
    refresh_access_token-survives open_crypto overtaken second 0 "u" "u@example.org" "f"
      (ids "t1" "s1") [] nothing_stored refl refl refl refl (omega arith) (omega arith)
