-- ===== src/Wallet/Vault/Signer/Drivers.antt =====
-- apps/backend/wallet/src/vault.ts: the three signers, and which one is created.
use delego.Base.{
  ℕ, Bool, true, not, ◌&&◌, ◌||◌, String, Option, none, some, List, [], ◌∷◌, ◌++◌, any, leb, ◌==◌,
  if◌then◌else◌, str_eq,
}
use delego.Base.Text.{Text, text, includes, same_text}
use delego.Base.Trim.{trim}
use delego.Base.Value.{Value, Elements, no_elements, element, undefined, str, arr, get}
use delego.Wallet.Vault.{
  Env, Fault, VaultError, Tried, returned, failed, Outcome, done, thrown, or_default,
}
use delego.Wallet.Vault.Hex.{Bytes}
use delego.Wallet.Vault.Signer.{
  key_not_found, sign_failed, empty_signature, empty_public_key, kms_unavailable, vault_unavailable,
  vault_config, Signed, ok, refused, and_then, fail, local_provider, aws_kms, hashicorp_vault,
  Provider, KeySignerProvider, resolve_effective_key_id, extract_ed25519_public_key_from_spki,
  parse_vault_transit_signature,
}

-- `LocalFileKeySigner.sign` of the outcome of `getKey`, whose errors have the messages that
-- `message_of` gives. `sign_with` is the Stellar SDK's, of a secret and the data.
abbrev sign_error : Text → Signed Bytes
sign_error message =
    if includes (text "Key not found") message
    then fail key_not_found message
    else fail sign_failed message

abbrev local_signed : Tried Bytes → (message : Fault → Text) → Signed Bytes
local_signed (returned signature) message = ok signature
local_signed (failed e) message = sign_error (message e)

unfoldable pub local_sign :
    (message_of : VaultError → Text) (fault_message : Fault → Text) (sign_with : Text → Tried Bytes)
    → (secret : Outcome Text) → Signed Bytes
unfolding includes
local_sign message_of fault_message sign_with (done secret) =
    local_signed (sign_with secret) fault_message
local_sign message_of fault_message sign_with (thrown e) = sign_error (message_of e)

-- `LocalFileKeySigner.getPublicKey` of the keys that `listPublicKeys` gives.
unfoldable pub local_public_key : (keys : List String) → (key_id : String) → Signed String
local_public_key keys key_id =
    if any (λ k. str_eq k key_id) keys
    then ok key_id
    else fail key_not_found (text "Key not found in vault: " ++ text key_id)

-- What the client of AWS does with a command: the bytes of its answer, if any, or a message that is
-- thrown.
pub data Answer : Type 0 where
  answered : Option Bytes → Answer
  rejected : (message : Text) → Answer

abbrev kms_error : {A : Type 0} → (message : Text) → Signed A
kms_error message = refused (record {
  code = kms_unavailable;
  message = message;
  retryable =
      includes (text "timeout") message
      || includes (text "ECONNRESET") message
      || includes (text "ServiceUnavailable") message;
})

abbrev kms_signature : Answer → Signed Bytes
kms_signature (answered none) = fail empty_signature (text "AWS KMS returned an empty signature")
kms_signature (answered (some [])) =
    fail empty_signature (text "AWS KMS returned an empty signature")
kms_signature (answered (some (b ∷ bs))) = ok (b ∷ bs)
kms_signature (rejected message) = kms_error message

-- `AwsKmsKeySigner.sign`; `send` is the client, of the key id.
unfoldable pub aws_sign : (send : Text → Answer) → (default_key_id key_id : Text) → Signed Bytes
unfolding resolve_effective_key_id includes
aws_sign send default_key_id key_id =
    and_then (resolve_effective_key_id key_id default_key_id) (λ id. kms_signature (send id))

abbrev kms_public_key : (encode : Bytes → Text) → Answer → Signed Text
kms_public_key encode (answered none) =
    fail empty_public_key (text "AWS KMS returned an empty public key")
kms_public_key encode (answered (some [])) =
    fail empty_public_key (text "AWS KMS returned an empty public key")
kms_public_key encode (answered (some (b ∷ bs))) =
    and_then (extract_ed25519_public_key_from_spki (b ∷ bs)) (λ raw. ok (encode raw))
kms_public_key encode (rejected message) = kms_error message

-- `AwsKmsKeySigner.getPublicKey`; `encode` is `StrKey.encodeEd25519PublicKey`.
unfoldable pub aws_public_key :
    (send : Text → Answer) (encode : Bytes → Text) → (default_key_id key_id : Text) → Signed Text
unfolding resolve_effective_key_id extract_ed25519_public_key_from_spki includes
aws_public_key send encode default_key_id key_id =
    and_then (resolve_effective_key_id key_id default_key_id)
      (λ id. kms_public_key encode (send id))

-- What `fetch` does: a status and the parsed body, `{}` where it is no JSON, or a message that is
-- thrown.
pub data Response : Type 0 where
  response : (status : ℕ) → (payload : Value) → Response
  no_response : (message : Text) → Response

first_element : Elements → Value
first_element no_elements = undefined
first_element (element v _) = v

first_character : String → Value
first_character String.[] = undefined
first_character (String.◌∷◌ c _) = str (String.◌∷◌ c String.[])

-- `value[0]`
first : Value → Value
unfolding first_element first_character
first (arr vs) = first_element vs
first (str s) = first_character s
first value = get "0" value

abbrev error_text : (status_text : Text) → Value → Text
error_text status_text (str s) = text s
error_text status_text _ = text "Vault request failed with status " ++ status_text

-- The tests of `response.ok` and of a status to try again.
abbrev pub is_ok : ℕ → Bool
is_ok status = leb 200 status && leb status 299

abbrev pub to_retry : ℕ → Bool
to_retry status = leb 500 status || status == 429

module _ (print : ℕ → Text) where
  -- `vaultRequest`; a message that `fetch` throws is caught by both callers.
  unfoldable pub vault_request : Response → Signed Value
  unfolding first get
  vault_request (response status payload) =
      if not (is_ok status)
      then refused (record {
        code = vault_unavailable;
        message = error_text (print status) (first (get "errors" payload));
        retryable = to_retry status;
      })
      else ok payload
  vault_request (no_response message) =
      refused (record { code = vault_unavailable; message = message; retryable = true })

  module _ (base64 : Text → Bytes) (fetch : (key_id : Text) → Response) where
    abbrev pub transit_signature : Value → Signed Bytes
    transit_signature (str s) =
        if same_text (trim (text s)) []
        then fail empty_signature (text "HashiCorp Vault returned an empty signature")
        else parse_vault_transit_signature base64 (text s)
    transit_signature _ = fail empty_signature (text "HashiCorp Vault returned an empty signature")

    -- `HashicorpVaultKeySigner.sign`
    unfoldable pub vault_sign : (default_key_id key_id : Text) → Signed Bytes
    unfolding resolve_effective_key_id vault_request parse_vault_transit_signature
    vault_sign default_key_id key_id =
        and_then (resolve_effective_key_id key_id default_key_id) (λ id.
          and_then (vault_request (fetch id))
            (λ payload. transit_signature (get "signature" (get "data" payload))))

    abbrev transit_public_key : (encode : Bytes → Text) → Value → Signed Text
    transit_public_key encode (str s) =
        if same_text (trim (text s)) []
        then fail empty_public_key (text "HashiCorp Vault returned an empty public key")
        else ok (encode (base64 (text s)))
    transit_public_key encode _ =
        fail empty_public_key (text "HashiCorp Vault returned an empty public key")

    -- `HashicorpVaultKeySigner.getPublicKey`
    unfoldable pub vault_public_key :
        (encode : Bytes → Text) → (default_key_id key_id : Text) → Signed Text
    unfolding resolve_effective_key_id vault_request
    vault_public_key encode default_key_id key_id =
        and_then (resolve_effective_key_id key_id default_key_id) (λ id.
          and_then (vault_request (fetch id)) (λ payload.
            transit_public_key encode
              (get "public_key" (get "1" (get "keys" (get "data" payload))))))

-- A signer that has been constructed: its settings. The vault and the clients are arguments above.
pub data KeySigner : Type 0 where
  local_file_key_signer : KeySigner
  aws_kms_key_signer : (default_key_id : Text) → KeySigner
  hashicorp_vault_key_signer : (addr token mount default_key_id : Text) → KeySigner

abbrev first_given : Option Text → Option Text → Text → Text
first_given none other fallback = or_default other fallback
first_given (some t) other fallback = t

-- `replace(/\/$/, "")`
unfoldable pub without_last_slash : Text → Text
without_last_slash [] = []
without_last_slash (c ∷ []) = if c == b'/' then [] else c ∷ []
without_last_slash (c ∷ d ∷ rest) = c ∷ without_last_slash (d ∷ rest)

abbrev vault_signer : (addr token mount default_key_id : Text) → Signed KeySigner
vault_signer [] token mount id =
    fail vault_config (text "VAULT_ADDR is required for hashicorp-vault key signer")
vault_signer (c ∷ cs) [] mount id =
    fail vault_config (text "VAULT_TOKEN is required for hashicorp-vault key signer")
vault_signer (c ∷ cs) (d ∷ ds) mount id = ok (hashicorp_vault_key_signer (c ∷ cs) (d ∷ ds) mount id)

pub record SignerOptions : Type 0 where
  pub addr : Option Text
  pub token : Option Text
  pub mount : Option Text
  pub default_key_id : Option Text

-- `createKeySigner`; an option that is given stands for those of AWS or of the vault.
abbrev create_for : Env → Provider → (key_id : Text) → SignerOptions → Signed KeySigner
create_for env local_provider key_id options = ok local_file_key_signer
create_for env aws_kms key_id options =
    ok (aws_kms_key_signer (or_default options.default_key_id key_id))
create_for env hashicorp_vault key_id options =
    vault_signer (without_last_slash (first_given options.addr (env (text "VAULT_ADDR")) []))
      (first_given options.token (env (text "VAULT_TOKEN")) [])
      (first_given options.mount (env (text "VAULT_TRANSIT_MOUNT")) (text "transit"))
      (or_default options.default_key_id key_id)

unfoldable pub create_key_signer : Env → KeySignerProvider → SignerOptions → Signed KeySigner
unfolding without_last_slash
create_key_signer env config options = create_for env config.provider config.key_id options
