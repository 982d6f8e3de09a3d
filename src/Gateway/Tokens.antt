-- ===== src/Gateway/Tokens.antt =====
-- apps/backend/gateway/src/auth/authService.ts: refresh tokens and their rotation. The table of
-- tokens is a list, the latest first. bcrypt and jsonwebtoken are an interface; the random ids,
-- the clock and the user's e-mail address are arguments. A request waits at each query, so what
-- other requests write to the table meanwhile is an argument too.
pub mod Once
pub mod Family
mod Tests
use delego.Base.{
  ℕ, zero, suc, ◌+◌, ◌<◌, ◌≡◌, String, Bool, true, false, ◌&&◌, Option, none, some, List, [], ◌∷◌,
  map, ltb, if◌then◌else◌, str_eq,
}

pub record RefreshTokenPayload : Type 0 where
  pub token_id : String
  pub family_id : String
  pub user_id : String
  pub secret : String

abbrev pub refresh_lifetime_ms : ℕ
refresh_lifetime_ms = 604800000

-- Signing and verifying at a time in milliseconds, and hashing of secrets.
pub record Crypto : Type 1 where
  pub Token : Type 0
  pub Hash : Type 0
  pub sign : ℕ → RefreshTokenPayload → Token
  pub sign_access : ℕ → (user email : String) → Token
  pub verify : ℕ → Token → Option RefreshTokenPayload
  pub hash : String → Hash
  pub compare : String → Hash → Bool
  pub verify-sign :
      (at now : ℕ) (p : RefreshTokenPayload)
      → now < at + refresh_lifetime_ms
      → verify now (sign at p) ≡ some p
  pub compare-hash : (s : String) → compare s (hash s) ≡ true

module _ (crypto : Crypto) where
  open crypto use {Token, Hash, sign, sign_access, verify, hash, compare}

  pub record RefreshToken : Type 0 where
    pub id : String
    pub user_id : String
    pub token_hash : Hash
    pub family_id : String
    pub expires_at : ℕ
    pub revoked_at : Option ℕ

  abbrev pub Table : Type 0
  Table = List RefreshToken

  pub record TokenPair : Type 0 where
    pub access_token : Token
    pub refresh_token : Token
    pub expires_in : ℕ

  -- `RefreshToken.findByPk`
  unfoldable pub find_by_pk : String → Table → Option RefreshToken
  find_by_pk id [] = none
  find_by_pk id (t ∷ ts) = if str_eq t.id id then some t else find_by_pk id ts

  abbrev pub revoke : ℕ → RefreshToken → RefreshToken
  revoke now t = record t { revoked_at = some now }

  unfoldable pub revoke_token_family : ℕ → String → Table → Table
  revoke_token_family now family table =
      map (λ t. if str_eq t.family_id family then revoke now t else t) table

  abbrev pub is_live : RefreshToken → Bool
  is_live t = elim t.revoked_at [ none ↦ true | some _ ↦ false ]

  -- `RefreshToken.update` of the token that is used, where `revokedAt` is null: the number of rows
  -- that it affects, and the table.
  unfoldable pub revoke_used : ℕ → String → Table → ℕ × Table
  revoke_used now id [] = (0, [])
  revoke_used now id (t ∷ ts) =
      let (count, rest) = revoke_used now id ts in
      if str_eq t.id id && is_live t then (suc count, revoke now t ∷ rest) else (count, t ∷ rest)

  -- The random ids of a new token.
  pub record Fresh : Type 0 where
    pub token_id : String
    pub secret : String

  abbrev pub new_token : ℕ → (user family : String) → Fresh → RefreshToken
  new_token now user family fresh = record {
    id = fresh.token_id;
    user_id = user;
    token_hash = hash fresh.secret;
    family_id = family;
    expires_at = now + refresh_lifetime_ms;
    revoked_at = none;
  }

  unfoldable pub generate_refresh_token : ℕ → (user family : String) → Fresh → Table → Token × Table
  generate_refresh_token now user family fresh table = (
    sign now (record {
      token_id = fresh.token_id;
      family_id = family;
      user_id = user;
      secret = fresh.secret;
    }),
    new_token now user family fresh ∷ table,
  )

  unfoldable pub generate_tokens :
      ℕ → (user email family : String) → Fresh → Table → TokenPair × Table
  unfolding generate_refresh_token
  generate_tokens now user email family fresh table =
      let (refresh_token, table') = generate_refresh_token now user family fresh table in
      (
        record {
          access_token = sign_access now user email;
          refresh_token = refresh_token;
          expires_in = 900;
        },
        table',
      )

  -- What other requests write to the table.
  pub data Write : Type 0 where
    create : RefreshToken → Write
    revoke_family : ℕ → String → Write
    use_token : ℕ → String → Write

  abbrev pub write : Write → Table → Table
  write (create t) table = t ∷ table
  write (revoke_family now family) table = revoke_token_family now family table
  write (use_token now id) table = (revoke_used now id table).1

  unfoldable pub write_all : List Write → Table → Table
  unfolding revoke_token_family revoke_used
  write_all [] table = table
  write_all (w ∷ ws) table = write_all ws (write w table)

  pub data Refreshed : Type 0 where
    refreshed : TokenPair → Refreshed
    invalid_token token_expired token_reuse_detected : Refreshed

  abbrev pub is_refreshed : Refreshed → Bool
  is_refreshed (refreshed _) = true
  is_refreshed _ = false

  -- The clock, the new ids, `User.findByPk`, and what is written between the reading of the
  -- token's row and its revocation, and between that and the last query, which creates the new token
  -- or revokes the family.
  pub record Request : Type 0 where
    pub now : ℕ
    pub fresh : Fresh
    pub email_of : String → Option String
    pub before_revocation : List Write
    pub before_last : List Write

  abbrev or_empty : Option String → String
  or_empty none = ""
  or_empty (some email) = email

  abbrev pub reuse_detected : ℕ → String → Table → Refreshed × Table
  reuse_detected now family table = (token_reuse_detected, revoke_token_family now family table)

  abbrev pub paired : TokenPair × Table → Refreshed × Table
  paired (pair, table) = (refreshed pair, table)

  -- After the revocation of the used token, by the number of rows that it affected.
  abbrev pub after_revocation : Request → RefreshToken → ℕ × Table → Refreshed × Table
  after_revocation r t (zero, table) =
      reuse_detected r.now t.family_id (write_all r.before_last table)
  after_revocation r t (suc n, table) = paired (
      generate_tokens r.now t.user_id (or_empty (r.email_of t.user_id)) t.family_id r.fresh
        (write_all r.before_last table))

  abbrev pub with_record :
      Request → RefreshTokenPayload → Table → Option RefreshToken → Refreshed × Table
  with_record r p table none = (invalid_token, table)
  with_record r p table (some t) =
      if compare p.secret t.token_hash
      then (if ltb t.expires_at r.now
          then (token_expired, table)
          else if is_live t
          then after_revocation r t
              (revoke_used r.now p.token_id (write_all r.before_revocation table))
          else reuse_detected r.now t.family_id (write_all r.before_revocation table))
      else (invalid_token, table)

  abbrev pub with_payload : Request → Table → Option RefreshTokenPayload → Refreshed × Table
  with_payload r table none = (invalid_token, table)
  with_payload r table (some p) = with_record r p table (find_by_pk p.token_id table)

  unfoldable pub refresh_access_token : Request → Token → Table → Refreshed × Table
  unfolding find_by_pk revoke_used write_all generate_tokens revoke_token_family
  refresh_access_token r raw table = with_payload r table (verify r.now raw)

  abbrev pub logged_out : ℕ → Option RefreshTokenPayload → Table → Table
  logged_out now none table = table
  logged_out now (some p) table = revoke_token_family now p.family_id table

  unfoldable pub logout_user : ℕ → Option Token → Table → Table
  unfolding revoke_token_family
  logout_user now none table = table
  logout_user now (some raw) table = logged_out now (verify now raw) table
