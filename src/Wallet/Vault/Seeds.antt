-- ===== src/Wallet/Vault/Seeds.antt =====
-- apps/backend/wallet/src/vault.ts: the encryption of a wallet's seed phrase.
use delego.Base.{not, Option, none, some, List, [], ◌∷◌, length, ◌==◌, if◌then◌else◌}
use delego.Base.Text.{Text}
use delego.Base.Trim.{trim}
use delego.Wallet.Vault.{
  Env, Cipher, Sealed, Outcome, done, thrown, VaultError, and_then, plaintext_empty,
  master_key_empty, ciphertext_empty, iv_empty, tag_empty, decryption_failed, invalid_iv_length,
  invalid_tag_length, cipher_fault, Tried, returned, failed, or_default, or_else,
}
use delego.Wallet.Vault.Hex.{Bytes, to_hex, from_hex}
use delego.Wallet.Vault.Versions.{
  get_active_key_version, get_master_key_for_version, SigningKeyVersion, record_signing_key_version,
}

-- Its `algorithm` is always "aes-256-gcm".
pub record EncryptedSeedPhrase : Type 0 where
  pub ciphertext : Text
  pub iv : Text
  pub auth_tag : Text
  pub key_version : Text

-- The two ways to call `decryptSeedPhrase`.
pub data DecryptInput : Type 0 where
  of_encrypted : EncryptedSeedPhrase → (master_key : Option Text) → DecryptInput
  of_parts : (ciphertext : Text) → (iv auth_tag master_key key_version : Option Text) → DecryptInput

-- The guard that a text is not empty.
abbrev pub filled : {A : Type 0} → Text → VaultError → Outcome A → Outcome A
filled [] error next = thrown error
filled (c ∷ cs) error next = next

-- An error of the decryption, wrapped by the `catch`.
abbrev pub wrapped : Tried Text → Outcome Text
wrapped (returned plain) = done plain
wrapped (failed error) = thrown (decryption_failed (cipher_fault error))

abbrev pub sealed_phrase : Sealed → (iv : Bytes) → (key_version : Text) → EncryptedSeedPhrase
sealed_phrase s iv key_version = record {
  ciphertext = to_hex s.data_bytes;
  iv = to_hex iv;
  auth_tag = to_hex s.tag;
  key_version = key_version;
}

module _ (cipher : Cipher) (upper : Text → Text) where
  -- `masterKey ?? getMasterKeyForVersion(version)`, which must not be empty.
  abbrev pub effective_key : Env → Option Text → (key_version : Text) → Outcome Text
  effective_key env none key_version =
      and_then (get_master_key_for_version upper env key_version)
        (λ key. filled key master_key_empty (done key))
  effective_key env (some key) key_version = filled key master_key_empty (done key)

  abbrev pub resolved_version : Env → Option Text → Text
  resolved_version env key_version =
      or_else (trim (or_default key_version [])) (get_active_key_version env)

  -- `iv` is what `randomBytes` gives.
  unfoldable pub encrypt_seed_phrase :
      Env
      → (iv : Bytes) → (plain_text : Text) → (master_key key_version : Option Text)
      → Outcome EncryptedSeedPhrase
  unfolding trim get_active_key_version get_master_key_for_version to_hex
  encrypt_seed_phrase env iv plain_text master_key key_version = filled plain_text plaintext_empty (
      let version = resolved_version env key_version in
      and_then (effective_key env master_key version) (λ master.
        done (sealed_phrase (cipher.seal (cipher.hash master) iv plain_text) iv version)))

  abbrev pub unsealed : (key iv tag data_bytes : Bytes) → Outcome Text
  unsealed key iv tag data_bytes =
      if not (length iv == 12)
      then thrown (decryption_failed invalid_iv_length)
      else if not (length tag == 16)
      then thrown (decryption_failed invalid_tag_length)
      else wrapped (cipher.unseal key iv tag data_bytes)

  abbrev pub decrypt_parts :
      Env
      → (ciphertext iv tag : Text) → (master_key : Option Text) → (key_version : Text)
      → Outcome Text
  decrypt_parts env ciphertext iv tag master_key key_version = filled ciphertext ciphertext_empty (
      filled iv iv_empty (
        filled tag tag_empty (
          and_then (effective_key env master_key key_version) (λ master.
            unsealed (cipher.hash master) (from_hex iv) (from_hex tag) (from_hex ciphertext)))))

  unfoldable pub decrypt_seed_phrase : Env → DecryptInput → Outcome Text
  unfolding get_active_key_version get_master_key_for_version from_hex
  decrypt_seed_phrase env (of_encrypted e master_key) =
      decrypt_parts env e.ciphertext e.iv e.auth_tag master_key e.key_version
  decrypt_seed_phrase env (of_parts ciphertext iv auth_tag master_key key_version) =
      decrypt_parts env ciphertext (or_default iv []) (or_default auth_tag []) master_key
        (or_default key_version (get_active_key_version env))

  abbrev recorded :
      EncryptedSeedPhrase
      → Outcome SigningKeyVersion × List SigningKeyVersion
      → Outcome EncryptedSeedPhrase × List SigningKeyVersion
  recorded encrypted (done row, rows) = (done encrypted, rows)
  recorded encrypted (thrown error, rows) = (thrown error, rows)

  abbrev record_version :
      (wallet_id now : Text)
      → Outcome EncryptedSeedPhrase
      → List SigningKeyVersion
      → Outcome EncryptedSeedPhrase × List SigningKeyVersion
  record_version wallet_id now (thrown error) rows = (thrown error, rows)
  record_version wallet_id now (done encrypted) rows = recorded encrypted (
      record_signing_key_version
        (record {
          wallet_id = wallet_id;
          key_version = encrypted.key_version;
          active_from = none;
          rotated_at = none;
        })
        now rows)

  unfoldable pub encrypt_and_record_seed_phrase :
      Env
      → (iv : Bytes) → (wallet_id plain_text : Text) → (key_version : Option Text) → (now : Text)
      → List SigningKeyVersion
      → Outcome EncryptedSeedPhrase × List SigningKeyVersion
  unfolding encrypt_seed_phrase record_signing_key_version
  encrypt_and_record_seed_phrase env iv wallet_id plain_text key_version now rows =
      record_version wallet_id now (encrypt_seed_phrase env iv plain_text none key_version) rows
