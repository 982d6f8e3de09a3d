-- ===== src/Gateway/Tokens/Family.antt =====
-- What happens to a family of refresh tokens (apps/backend/gateway/src/auth/authService.ts).
use delego.Base.{
  ℕ, zero, suc, ◌+◌, ◌<◌, ◌≡◌, refl, sym, ap, subst, ◌∙◌, String, Bool, true, false, Option, none,
  some, Bool-cases, inl, inr, [], ◌∷◌, All, arith, str_eq, eq_iff, ltb, if◌then◌else◌,
}
use delego.Gateway.Tokens.{
  RefreshTokenPayload, Crypto, RefreshToken, Table, find_by_pk, revoke, revoke_token_family,
  is_live, revoke_used, generate_refresh_token, generate_tokens, Fresh, TokenPair, revoke_family,
  write_all, Refreshed, refreshed, token_reuse_detected, Request, after_revocation, with_record,
  with_payload, refresh_access_token, refresh_lifetime_ms,
}

module _ (crypto : Crypto) where
  abbrev pub IsRevoked : String → Table crypto → Type 0
  IsRevoked family table =
      All (λ t. str_eq t.family_id family ≡ true → is_live crypto t ≡ false) table

  revoke_if-dead :
      (test : Bool) (now : ℕ) (t : RefreshToken crypto) (family : String)
      → str_eq t.family_id family ≡ test
      → str_eq (if test then revoke crypto now t else t).family_id family ≡ true
      → is_live crypto (if test then revoke crypto now t else t) ≡ false
  revoke_if-dead true now t family e h = refl
  revoke_if-dead false now t family e h = absurd (cc)

  pub revoke_token_family-IsRevoked :
      (now : ℕ) (family : String) (table : Table crypto)
      → IsRevoked family (revoke_token_family crypto now family table)
  unfolding revoke_token_family
  revoke_token_family-IsRevoked now family [] = tt
  revoke_token_family-IsRevoked now family (t ∷ ts) = (
    revoke_if-dead (str_eq t.family_id family) now t family refl,
    revoke_token_family-IsRevoked now family ts,
  )

  abbrev is_reuse : Refreshed crypto → Bool
  is_reuse token_reuse_detected = true
  is_reuse _ = false

  abbrev Revokes : String → Refreshed crypto × Table crypto → Type 0
  Revokes family e = is_reuse e.0 ≡ true → IsRevoked family e.1

  either-branch :
      (P : Refreshed crypto × Table crypto → Type 0) (test : Bool)
      (x y : Refreshed crypto × Table crypto)
      → P x
      → P y
      → P (if test then x else y)
  either-branch P true x y h k = h
  either-branch P false x y h k = k

  after_revocation-Revokes :
      (r : Request crypto) (t : RefreshToken crypto) (answer : ℕ × Table crypto)
      → Revokes t.family_id (after_revocation crypto r t answer)
  after_revocation-Revokes r t (zero, table) = λ reuse.
      revoke_token_family-IsRevoked r.now t.family_id (write_all crypto r.before_last table)
  after_revocation-Revokes r t (suc n, table) = λ reuse. absurd (cc)

  with_record-Revokes :
      (r : Request crypto) (p : RefreshTokenPayload) (table : Table crypto)
      (t : RefreshToken crypto)
      → Revokes t.family_id (with_record crypto r p table (some t))
  with_record-Revokes r p table t =
      let there = write_all crypto r.before_revocation table in
      let P = Revokes t.family_id in
      either-branch P (crypto.compare p.secret t.token_hash) _ _
        (either-branch P (ltb t.expires_at r.now) _ _ (λ reuse. absurd (cc))
          (either-branch P (is_live crypto t) _ _
            (after_revocation-Revokes r t (revoke_used crypto r.now p.token_id there))
            (λ reuse. revoke_token_family-IsRevoked r.now t.family_id there)))
        (λ reuse. absurd (cc))

  -- When a token is refused as used before, by the row that was read or by the revocation that
  -- affects no row, every token of its family is revoked afterwards.
  pub refresh_access_token-IsRevoked :
      (r : Request crypto) (raw : crypto.Token) (p : RefreshTokenPayload) (table : Table crypto)
      (t : RefreshToken crypto)
      → crypto.verify r.now raw ≡ some p
      → find_by_pk crypto p.token_id table ≡ some t
      → (refresh_access_token crypto r raw table).0 ≡ token_reuse_detected
      → IsRevoked t.family_id (refresh_access_token crypto r raw table).1
  unfolding refresh_access_token
  refresh_access_token-IsRevoked r raw p table t v found reuse =
      let revokes : Revokes t.family_id (with_payload crypto r table (crypto.verify r.now raw)) =
        subst (λ o. Revokes t.family_id (with_payload crypto r table o)) (sym v)
          (subst (λ o. Revokes t.family_id (with_record crypto r p table o)) (sym found)
            (with_record-Revokes r p table t)) in
      revokes (ap is_reuse reuse)

  str_eq_self : (s : String) → str_eq s s ≡ true
  str_eq_self s = ground (arith, eq_iff s s)

  not_expired :
      (at now : ℕ) → now < at + refresh_lifetime_ms → ltb (at + refresh_lifetime_ms) now ≡ false
  not_expired at now h = ground arith

  -- The row of a token with its ids and its time, live or revoked.
  abbrev pub row : (at : ℕ) → (user family : String) → Fresh crypto → Option ℕ → RefreshToken crypto
  row at user family f revoked_at = record {
    id = f.token_id;
    user_id = user;
    token_hash = crypto.hash f.secret;
    family_id = family;
    expires_at = at + refresh_lifetime_ms;
    revoked_at = revoked_at;
  }

  -- The tokens of an answer.
  abbrev pub pair : (at : ℕ) → (user email family : String) → Fresh crypto → TokenPair crypto
  pair at user email family f = record {
    access_token = crypto.sign_access at user email;
    refresh_token =
        crypto.sign at
          (record { token_id = f.token_id; family_id = family; user_id = user; secret = f.secret });
    expires_in = 900;
  }

  -- An id that no row has is revoked nowhere.
  revoke_used-absent :
      (now : ℕ) (id : String) (table : Table crypto)
      → find_by_pk crypto id table ≡ none
      → revoke_used crypto now id table ≡ (0, table)
  unfolding find_by_pk revoke_used
  revoke_used-absent now id [] absent = refl
  revoke_used-absent now id (t ∷ ts) absent = elim (Bool-cases (str_eq t.id id)) [
    | inl here ↦ absurd (cc)
    | inr other ↦ rw (other, revoke_used-absent now id ts (rw other at absent)) refl
  ]

  -- A token that was issued under an id that no row had is exchanged, for seven days, when no other
  -- request writes meanwhile and the user has the e-mail address: the answer is an access token and
  -- a refresh token of the family with the new id and secret; the row of the new token, live, is
  -- added, the row of the used one is revoked at that time, and every other row stays as it was.
  pub refresh_access_token-issued :
      (r : Request crypto) (at : ℕ) (user email family : String) (f : Fresh crypto)
      (table : Table crypto)
      → find_by_pk crypto f.token_id table ≡ none
      → r.email_of user ≡ some email
      → r.before_revocation ≡ []
      → r.before_last ≡ []
      → r.now < at + refresh_lifetime_ms
      → refresh_access_token crypto r
          (generate_tokens crypto at user email family f table).0.refresh_token
          (generate_tokens crypto at user email family f table).1
        ≡ (
          refreshed (pair r.now user email family r.fresh),
          row r.now user family r.fresh none ∷ row at user family f (some r.now) ∷ table,
        )
  unfolding refresh_access_token generate_tokens generate_refresh_token find_by_pk revoke_used
      write_all
  refresh_access_token-issued r at user email family f table absent mail e0 e1 lt =
      let p : RefreshTokenPayload = record {
        token_id = f.token_id;
        family_id = family;
        user_id = user;
        secret = f.secret;
      } in
      simp
        (
          crypto.verify-sign at r.now p lt,
          str_eq_self f.token_id,
          crypto.compare-hash f.secret,
          not_expired at r.now lt,
          revoke_used-absent r.now f.token_id table absent,
          mail,
          e0,
          e1,
        )
        refl

  abbrev payload : (user family : String) → Fresh crypto → RefreshTokenPayload
  payload user family f = record {
    token_id = f.token_id;
    family_id = family;
    user_id = user;
    secret = f.secret;
  }

  -- A request that finds its token used revokes the family.
  finds_used :
      (r : Request crypto) (at used_at : ℕ) (user family : String) (f : Fresh crypto)
      (table : Table crypto)
      → r.before_revocation ≡ []
      → r.now < at + refresh_lifetime_ms
      → let used = row at user family f (some used_at) ∷ table in
        refresh_access_token crypto r (crypto.sign at (payload user family f)) used
        ≡ (token_reuse_detected, revoke_token_family crypto r.now family used)
  unfolding refresh_access_token find_by_pk write_all
  finds_used r at used_at user family f table e0 lt =
      simp
        (
          crypto.verify-sign at r.now (payload user family f) lt,
          str_eq_self f.token_id,
          crypto.compare-hash f.secret,
          not_expired at r.now lt,
          e0,
        )
        refl

  -- A request that has revoked its token is answered with new ones, though the family is revoked
  -- before it creates them.
  is_overtaken :
      (r : Request crypto) (at revoked_at : ℕ) (user email family : String) (f : Fresh crypto)
      (table : Table crypto)
      → find_by_pk crypto f.token_id table ≡ none
      → r.email_of user ≡ some email
      → r.before_revocation ≡ []
      → r.before_last ≡ revoke_family revoked_at family ∷ []
      → r.now < at + refresh_lifetime_ms
      → refresh_access_token crypto r
          (crypto.sign at (payload user family f))
          (row at user family f none ∷ table)
        ≡ (
          refreshed (pair r.now user email family r.fresh),
          row r.now user family r.fresh none
              ∷ revoke_token_family crypto revoked_at family
                  (row at user family f (some r.now) ∷ table),
        )
  unfolding refresh_access_token generate_tokens generate_refresh_token find_by_pk revoke_used
      write_all
  is_overtaken r at revoked_at user email family f table absent mail e0 e1 lt =
      simp
        (
          crypto.verify-sign at r.now (payload user family f) lt,
          str_eq_self f.token_id,
          crypto.compare-hash f.secret,
          not_expired at r.now lt,
          revoke_used-absent r.now f.token_id table absent,
          mail,
          e0,
          e1,
        )
        refl

  -- Two requests with one token overlap, within the seven days after it was issued under an id that
  -- no row had, for a user with the e-mail address, and nobody else writes. The first has read its
  -- row and revoked it, and waits; the second runs then: it finds the token used and revokes the
  -- family, which is what the first meets. The second is answered that the token was used before,
  -- and every row that it leaves of the family is revoked. The first is answered with new tokens all
  -- the same, and the table ends with what the second left and the row of the new token, live.
  pub refresh_access_token-survives :
      (first second : Request crypto) (at : ℕ) (user email family : String) (f : Fresh crypto)
      (table : Table crypto)
      → find_by_pk crypto f.token_id table ≡ none
      → first.email_of user ≡ some email
      → first.before_revocation ≡ []
      → first.before_last ≡ revoke_family second.now family ∷ []
      → second.before_revocation ≡ []
      → first.now < at + refresh_lifetime_ms
      → second.now < at + refresh_lifetime_ms
      → let (tokens, issued) = generate_tokens crypto at user email family f table in
        let waiting = row at user family f (some first.now) ∷ table in
        let (answer, after_second) =
          refresh_access_token crypto second tokens.refresh_token waiting in
        (revoke_used crypto first.now f.token_id issued ≡ (1, waiting))
        × (answer ≡ token_reuse_detected)
        × IsRevoked family after_second
        × (refresh_access_token crypto first tokens.refresh_token issued ≡ (
          refreshed (pair first.now user email family first.fresh),
          row first.now user family first.fresh none ∷ after_second,
        ))
  unfolding generate_tokens generate_refresh_token revoke_used
  refresh_access_token-survives first second at user email family f table absent mail e0 e1 e2 lt
        lt' =
      let waiting = row at user family f (some first.now) ∷ table in
      let used = finds_used second at first.now user family f table e2 lt' in
      (
        simp (str_eq_self f.token_id, revoke_used-absent first.now f.token_id table absent) refl,
        ap (λ r. r.0) used,
        subst (IsRevoked family) (sym (ap (λ r. r.1) used))
            (revoke_token_family-IsRevoked second.now family waiting),
        is_overtaken first at second.now user email family f table absent mail e0 e1 lt
            ∙ ap
                (λ (r : Refreshed crypto × Table crypto). (
                  refreshed (pair first.now user email family first.fresh),
                  row first.now user family first.fresh none ∷ r.1,
                ))
                (sym used),
      )
