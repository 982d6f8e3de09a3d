-- ===== src/Wallet/Vault/Tests.antt =====
-- Runs of the vault and its signers with a cipher that keeps the text, and concrete instances of the
-- theorems.
use delego.Base.{
  ℕ, String, true, false, Option, none, some, [], ◌∷◌, map, ◌≡◌, ◌≢◌, ◌↔◌, refl, eq_iff, ◌∙◌, ◌++◌,
  ◌%◌, if◌then◌else◌, arith,
}
use delego.Base.Maps.{Map, lookup}
use delego.Base.Text.{Text, text, same_text}
use delego.Base.Trim.{trim}
use delego.Base.Value.{obj, no_members}
use delego.Wallet.Vault.{
  Cipher, Seals, Env, returned, done, thrown, key_not_found, wallet_id_required, plaintext_empty,
  iv_empty,
}
use delego.Wallet.Vault.Hex.{Bytes, to_hex}
use delego.Wallet.Vault.Versions.{
  get_active_key_version, secret_variable, blank, list_signing_key_versions,
}
use delego.Wallet.Vault.Seeds.{
  EncryptedSeedPhrase, of_encrypted, of_parts, encrypt_seed_phrase, decrypt_seed_phrase,
  encrypt_and_record_seed_phrase,
}
use delego.Wallet.Vault.RoundTrip.{decrypt-encrypt}
use delego.Wallet.Vault.Rotation.{decrypt_after_rotation}
use delego.Wallet.Vault.Store.{VaultRecord, absent, Service, store_key, get_key, list_public_keys}
use delego.Wallet.Vault.Kept.{contents, get_key-store_key}
use delego.Wallet.Vault.Race.{overlap, store_key-race}
use delego.Wallet.Vault.Signer.{
  KeySignerError, vault_unavailable, ok, refused, aws_kms, resolve_key_signer_provider,
  resolve_effective_key_id, extract_ed25519_public_key_from_spki, parse_vault_transit_signature,
}
use delego.Wallet.Vault.Signer.Drivers.{Response, response, vault_sign}
use delego.Wallet.Vault.Signer.Retryable.{ToRetry, vault_sign-retryable}

abbrev zeros : Bytes
zeros = 0 ∷ 0 ∷ 0 ∷ 0 ∷ 0 ∷ 0 ∷ 0 ∷ 0 ∷ 0 ∷ 0 ∷ 0 ∷ 0 ∷ []

abbrev tag_zeros : Bytes
tag_zeros = 0 ∷ 0 ∷ 0 ∷ 0 ∷ zeros

abbrev clear : Cipher
clear = record {
  hash = λ secret. secret;
  derive = λ secret salt. returned secret;
  seal = λ key iv plain. record { data_bytes = map (λ c. c % 256) plain; tag = tag_zeros };
  unseal = λ key iv tag data_bytes. returned data_bytes;
}

abbrev seed : Text
seed = text "seed"

clear-Seals : (key iv : Bytes) → Seals clear seed key iv (clear.seal key iv seed)
clear-Seals key iv = record {
  data_ok = ground arith;
  some_data = cc;
  tag_ok = ground arith;
  sixteen = refl;
  opens = refl;
}

abbrev same : Text → Text
same t = t

-- An environment with an active version, and with a secret for version V2.
abbrev env_of : (active : String) → (secret : Option Text) → Env
env_of active secret name =
    if same_text name (text "WALLET_ACTIVE_KEY_VERSION")
    then some (text active)
    else if same_text name (text "WALLET_MASTER_SECRET_v2")
    then secret
    else none

abbrev before : Env
before = env_of "v2" (some (text "old secret"))

abbrev phrase : EncryptedSeedPhrase
phrase = record {
  ciphertext = text "73656564";
  iv = to_hex zeros;
  auth_tag = to_hex tag_zeros;
  key_version = text "v2";
}

run_encrypt : encrypt_seed_phrase clear same before zeros seed none none ≡ done phrase
unfolding encrypt_seed_phrase to_hex same_text trim
run_encrypt = refl

run_fallback : encrypt_seed_phrase clear same (env_of "v2" none) zeros seed none none ≡ done phrase
unfolding encrypt_seed_phrase to_hex same_text trim
run_fallback = refl

run_empty : encrypt_seed_phrase clear same before zeros [] none none ≡ thrown plaintext_empty
unfolding encrypt_seed_phrase
run_empty = refl

run_no_iv :
    decrypt_seed_phrase clear same before (of_parts (text "73") none none none none)
    ≡ thrown iv_empty
unfolding decrypt_seed_phrase
run_no_iv = refl

run_recorded :
    list_signing_key_versions
      (text "w1")
      (encrypt_and_record_seed_phrase clear same before zeros
        (text "w1")
        seed
        none
        (text "now")
        []).1
    ≡ record {
      wallet_id = text "w1";
      key_version = text "v2";
      active_from = text "now";
      rotated_at = none;
    }
      ∷ []
unfolding encrypt_and_record_seed_phrase list_signing_key_versions same_text trim
run_recorded = refl

run_blank_wallet :
    encrypt_and_record_seed_phrase clear same before zeros (text " ") seed none (text "now") []
    ≡ (thrown wallet_id_required, [])
unfolding encrypt_and_record_seed_phrase same_text trim
run_blank_wallet = refl

decrypt-encrypt_example :
    decrypt_seed_phrase clear same before (of_encrypted phrase none) ≡ done seed
decrypt-encrypt_example =
    decrypt-encrypt clear same before before zeros seed none none phrase
      (λ key. clear-Seals key zeros) (ground arith) refl run_encrypt refl

secret_before : before (secret_variable same phrase.key_version) ≡ some (text "old secret")
unfolding same_text
secret_before = refl

secret_later :
    env_of "v3" (some (text "old secret")) (secret_variable same phrase.key_version)
    ≡ some (text "old secret")
unfolding same_text
secret_later = refl

not_blank : blank (text "old secret") ≡ false
unfolding trim same_text
not_blank = refl

decrypt_after_rotation_example :
    decrypt_seed_phrase clear same
      (env_of "v3" (some (text "old secret")))
      (of_encrypted phrase none)
    ≡ done seed
decrypt_after_rotation_example =
    decrypt_after_rotation clear same before (env_of "v3" (some (text "old secret"))) zeros seed
      (text "old secret") none phrase (λ key. clear-Seals key zeros) (ground arith) refl run_encrypt
      not_blank secret_before secret_later

secret_gone : env_of "v3" none (secret_variable same phrase.key_version) ≡ none
unfolding same_text
secret_gone = refl

version_later : get_active_key_version (env_of "v3" none) ≡ text "v3"
unfolding get_active_key_version same_text trim
version_later = refl

not_v3 : phrase.key_version ≢ text "v3"
not_v3 = ground arith

not_v1 : phrase.key_version ≢ text "v1"
not_v1 = ground arith

not_active : phrase.key_version ≢ get_active_key_version (env_of "v3" none)
not_active h = not_v3 (h ∙ version_later)

abbrev service : Service
service = record {
  master_secret = text "secret";
  vault_data = [];
  file = absent;
  mkdir_fault = none;
  write_fault = none;
}

run_list :
    (list_public_keys (store_key clear before zeros zeros "GA" seed service).1).0 ≡ done ("GA" ∷ [])
unfolding list_public_keys store_key
run_list = refl

get_key-store_key_example :
    let stored = store_key clear before zeros zeros "GA" seed service in
    (stored.0 ≡ done tt)
    × ((get_key clear "GA" stored.1).0 ≡ done seed)
    × ((later : Map VaultRecord) × (contents stored.1.file ≡ some later)
        × ((other : String) → other ≢ "GA" → lookup other later ≡ lookup other []))
get_key-store_key_example =
    get_key-store_key clear before zeros zeros (text "secret") "GA" seed [] service refl refl refl
      refl (clear-Seals (text "secret") zeros) (ground arith) (ground arith)

keys_differ : ◌≢◌ {A = String} "GA" "GB"
keys_differ = ground (arith, eq_iff "GA" "GB")

nothing_stored : lookup {V = VaultRecord} "GA" [] ≡ none
unfolding lookup
nothing_stored = refl

store_key-race_example :
    let (of_first, of_second, ended) =
      overlap clear before zeros zeros zeros zeros "GA" "GB" seed seed service in
    (of_first ≡ done tt)
    × (of_second ≡ done tt)
    × ((get_key clear "GA" ended).0 ≡ thrown (key_not_found "GA"))
store_key-race_example =
    store_key-race clear before zeros zeros zeros zeros (text "secret") (text "secret") "GA" "GB"
      seed seed [] service refl refl refl refl refl keys_differ nothing_stored

abbrev ten : Bytes
ten = 0x2a ∷ 0x30 ∷ 5 ∷ 6 ∷ 3 ∷ 0x2b ∷ 0x65 ∷ 0x70 ∷ 3 ∷ 0x21 ∷ []

abbrev raw_key : Bytes
raw_key = tag_zeros ++ tag_zeros

run_spki : extract_ed25519_public_key_from_spki (0x30 ∷ (ten ++ (0 ∷ raw_key))) ≡ ok raw_key
unfolding extract_ed25519_public_key_from_spki
run_spki = refl

run_signature : parse_vault_transit_signature same (text "vault:v1:abc") ≡ ok (text "abc")
unfolding parse_vault_transit_signature
run_signature = refl

run_provider :
    resolve_key_signer_provider (env_of "v2" none) (some (text " AWS-KMS ")) (some (text "k1"))
    ≡ ok (record { provider = aws_kms; key_id = text "k1" })
unfolding resolve_key_signer_provider
run_provider = refl

abbrev busy : Text → Response
busy key_id = response 503 (obj no_members)

abbrev one_digit : ℕ → Text
one_digit n = text "503"

abbrev busy_error : KeySignerError
busy_error = record {
  code = vault_unavailable;
  message = text "Vault request failed with status 503";
  retryable = true;
}

run_key_id : resolve_effective_key_id (text "k1") [] ≡ ok (text "k1")
unfolding resolve_effective_key_id
run_key_id = refl

run_busy : vault_sign one_digit same busy [] (text "k1") ≡ refused busy_error
unfolding vault_sign
run_busy = refl

vault_sign-retryable_example : (busy_error.retryable ≡ true) ↔ ToRetry (busy (text "k1"))
vault_sign-retryable_example =
    vault_sign-retryable one_digit same busy [] (text "k1") (text "k1") busy_error run_key_id
      run_busy
