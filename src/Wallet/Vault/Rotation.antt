-- ===== src/Wallet/Vault/Rotation.antt =====
-- A seed phrase is read back after the active key version has changed, if its own secret is kept.
use delego.Base.{
  false, Option, none, some, [], ◌∷◌, length, ◌≡◌, ◌≢◌, refl, ◌∙◌, ap, subst, inl, inr, Bool-cases,
}
use mathlib.Core.List.{cons-ne-nil}
use delego.Base.Text.{Text, text, same_text, same_text_iff}
use delego.Base.Trim.{trim, trim-trim}
use delego.Wallet.Vault.{
  Env, Cipher, Seals, done, thrown, master_key_empty, and_then, unknown_signing_key_version,
  or_default, or_else,
}
use delego.Wallet.Vault.Hex.{Bytes, AreBytes}
use delego.Wallet.Vault.Versions.{
  get_active_key_version, get_master_key_for_version, secret_variable, blank, master_key_for,
}
use delego.Wallet.Vault.RoundTrip.{opened, decrypt_guards, encrypt_inverse, decrypt-encrypt}
use delego.Wallet.Vault.Seeds.{
  EncryptedSeedPhrase, of_encrypted, filled, resolved_version, encrypt_seed_phrase,
  decrypt_seed_phrase,
}

different : (s t : Text) → s ≢ t → same_text s t ≡ false
different s t h = elim (Bool-cases (same_text s t)) [
  | inl same ↦ absurd (h ((same_text_iff s t).0 same))
  | inr ne ↦ ne
]

module _ (cipher : Cipher) (upper : Text → Text) where
  trim-or_else : (s t : Text) → trim t ≡ t → trim (or_else (trim s) t) ≡ or_else (trim s) t
  trim-or_else s t trimmed = cases (trim s) (trim-trim s)
    where
      cases : (u : Text) → trim u ≡ u → trim (or_else u t) ≡ or_else u t
      cases [] h = trimmed
      cases (c ∷ cs) h = h

  or_else-filled : (s t : Text) → t ≢ [] → or_else s t ≢ []
  or_else-filled [] t h = h
  or_else-filled (c ∷ cs) t h = cons-ne-nil c cs

  resolved-filled :
      (env : Env) (key_version : Option Text) → resolved_version cipher upper env key_version ≢ []
  unfolding get_active_key_version
  resolved-filled env key_version =
      or_else-filled _ _ (or_else-filled _ (text "v1") (cons-ne-nil _ _))

  v1-trim : trim (text "v1") ≡ text "v1"
  unfolding trim
  v1-trim = refl

  resolved-trim :
      (env : Env) (key_version : Option Text)
      → trim (resolved_version cipher upper env key_version)
        ≡ resolved_version cipher upper env key_version
  unfolding get_active_key_version
  resolved-trim env key_version =
      trim-or_else (or_default key_version []) (get_active_key_version env)
        (trim-or_else (or_default (env (text "WALLET_ACTIVE_KEY_VERSION")) []) (text "v1") v1-trim)

  kept_secret :
      (env later : Env) (v secret : Text)
      → trim v ≡ v
      → blank secret ≡ false
      → env (secret_variable upper v) ≡ some secret
      → later (secret_variable upper v) ≡ some secret
      → get_master_key_for_version upper later v ≡ get_master_key_for_version upper env v
  unfolding get_master_key_for_version
  kept_secret env later v secret trimmed solid before after = rw trimmed (by_version v before after)
    where
      by_version :
          (u : Text)
          → env (secret_variable upper u) ≡ some secret
          → later (secret_variable upper u) ≡ some secret
          → master_key_for upper later u ≡ master_key_for upper env u
      by_version [] before after = refl
      by_version (c ∷ cs) before after = rw before (rw after (rw solid refl))

  -- Seed phrases survive a rotation of the active version: one that was encrypted under a version
  -- with a secret of its own is decrypted, with no key given, in each later environment that still
  -- has this secret, whatever version is active then.
  pub decrypt_after_rotation :
      (env later : Env) (iv : Bytes) (plain secret : Text) (key_version : Option Text)
      (e : EncryptedSeedPhrase)
      → ((key : Bytes) → Seals cipher plain key iv (cipher.seal key iv plain))
      → AreBytes iv
      → length iv ≡ 12
      → encrypt_seed_phrase cipher upper env iv plain none key_version ≡ done e
      → blank secret ≡ false
      → env (secret_variable upper e.key_version) ≡ some secret
      → later (secret_variable upper e.key_version) ≡ some secret
      → decrypt_seed_phrase cipher upper later (of_encrypted e none) ≡ done plain
  decrypt_after_rotation env later iv plain secret key_version e seals bytes twelve encrypted solid
        before after =
      let (_, _, same) = encrypt_inverse cipher upper env iv plain none key_version e encrypted in
      let trimmed =
        subst (λ x. trim (EncryptedSeedPhrase.key_version x) ≡ EncryptedSeedPhrase.key_version x)
          same (resolved-trim env key_version) in
      let kept = kept_secret env later e.key_version secret trimmed solid before after in
      decrypt-encrypt cipher upper env later iv plain none key_version e seals bytes twelve
        encrypted (ap (λ r. and_then r (λ key. filled key master_key_empty (done key))) kept)

  unknown_version :
      (env : Env) (v : Text)
      → trim v ≡ v
      → v ≢ []
      → env (secret_variable upper v) ≡ none
      → v ≢ text "v1"
      → v ≢ get_active_key_version env
      → get_master_key_for_version upper env v ≡ thrown (unknown_signing_key_version v)
  unfolding get_master_key_for_version
  unknown_version env v trimmed some_text gone other inactive =
      ap (master_key_for upper env) trimmed ∙ by_version v some_text gone other inactive
    where
      by_version :
          (u : Text)
          → u ≢ []
          → env (secret_variable upper u) ≡ none
          → u ≢ text "v1"
          → u ≢ get_active_key_version env
          → master_key_for upper env u ≡ thrown (unknown_signing_key_version u)
      by_version [] h gone other inactive = absurd (h refl)
      by_version (c ∷ cs) h gone other inactive =
          let not_active = different (c ∷ cs) (get_active_key_version env) inactive in
          let not_v1 = different (c ∷ cs) (text "v1") other in
          rw gone (rw not_active (rw not_v1 refl))

  -- A seed phrase that was encrypted under a version, not "v1", whose secret was the general one
  -- can no longer be decrypted once another version is active: the version is unknown then.
  pub decrypt_after_rotation-unknown :
      (env later : Env) (iv : Bytes) (plain : Text) (key_version : Option Text)
      (e : EncryptedSeedPhrase)
      → ((key : Bytes) → Seals cipher plain key iv (cipher.seal key iv plain))
      → length iv ≡ 12
      → encrypt_seed_phrase cipher upper env iv plain none key_version ≡ done e
      → later (secret_variable upper e.key_version) ≡ none
      → e.key_version ≢ text "v1"
      → e.key_version ≢ get_active_key_version later
      → decrypt_seed_phrase cipher upper later (of_encrypted e none)
        ≡ thrown (unknown_signing_key_version e.key_version)
  decrypt_after_rotation-unknown env later iv plain key_version e seals twelve encrypted gone other
        inactive =
      let (master, _, same) =
        encrypt_inverse cipher upper env iv plain none key_version e encrypted in
      let phrase = cipher.seal (cipher.hash master) iv plain in
      let P : EncryptedSeedPhrase → Type 0 = λ x.
        later (secret_variable upper x.key_version) ≡ none
        → x.key_version ≢ text "v1"
        → x.key_version ≢ get_active_key_version later
        → decrypt_seed_phrase cipher upper later (of_encrypted x none)
          ≡ thrown (unknown_signing_key_version x.key_version) in
      subst P same
        (λ gone other inactive.
          decrypt_guards cipher upper later iv plain _ _ none _ twelve (seals _)
          ∙ ap
              (λ r.
                and_then (and_then r (λ key. filled key master_key_empty (done key)))
                  (opened cipher upper phrase iv))
              (unknown_version later _ (resolved-trim env key_version)
                (resolved-filled env key_version) gone other inactive))
        gone other inactive
