-- ===== src/Wallet/Vault/Signer.antt =====
-- apps/backend/wallet/src/vault.ts: the signers. The client of AWS, `fetch`, the Stellar SDK and
-- base64 are arguments. A message is a text, and the texts in it are written out.
pub mod Drivers
pub mod Retryable
pub mod Spki
use delego.Base.{
  ℕ, zero, suc, Bool, true, false, ◌&&◌, ◌||◌, not, Option, none, some, List, [], ◌∷◌, ◌++◌, length,
  ◌==◌, if◌then◌else◌, any,
}
use delego.Base.Text.{Text, text, same_text, to_lower}
use delego.Base.Trim.{trim}
use delego.Wallet.Vault.{Env, or_default, or_else}
use delego.Wallet.Vault.Hex.{Bytes}

pub data Code : Type 0 where
  invalid_provider missing_key_id invalid_public_key invalid_signature key_not_found : Code
  sign_failed empty_signature empty_public_key kms_unavailable vault_unavailable vault_config : Code

-- `KeySignerError`
pub record KeySignerError : Type 0 where
  pub code : Code
  pub message : Text
  pub retryable : Bool

pub data Signed (A : Type 0) : Type 0 where
  ok : A → Signed A
  refused : KeySignerError → Signed A

abbrev pub and_then : {A B : Type 0} → Signed A → (A → Signed B) → Signed B
and_then (ok value) next = next value
and_then (refused error) next = refused error

-- An error that is not to be tried again.
abbrev pub fail : {A : Type 0} → Code → Text → Signed A
fail code message = refused (record { code = code; message = message; retryable = false })

pub data Provider : Type 0 where
  local_provider aws_kms hashicorp_vault : Provider

pub record KeySignerProvider : Type 0 where
  pub provider : Provider
  pub key_id : Text

abbrev unsupported : Text → Text
unsupported value = text "Unsupported key signer provider: " ++ value

-- A provider that has been trimmed and put in lower case.
abbrev provider_named : (value normalized : Text) → Signed Provider
provider_named value normalized =
    if same_text normalized [] || same_text normalized (text "local")
    then ok local_provider
    else if same_text normalized (text "aws-kms")
    then ok aws_kms
    else if same_text normalized (text "hashicorp-vault")
    then ok hashicorp_vault
    else fail invalid_provider (unsupported value)

unfoldable pub parse_key_signer_provider : Option Text → Signed Provider
unfolding trim to_lower same_text
parse_key_signer_provider none = ok local_provider
parse_key_signer_provider (some value) = provider_named value (to_lower (trim value))

abbrev trimmed : Option Text → Text
trimmed none = []
trimmed (some t) = trim t

abbrev first_of : Option Text → Option Text → Option Text
first_of none other = other
first_of (some t) other = some t

unfoldable pub resolve_key_signer_provider :
    Env → (provider key_id : Option Text) → Signed KeySignerProvider
unfolding parse_key_signer_provider
resolve_key_signer_provider env provider key_id =
    and_then
      (parse_key_signer_provider (first_of provider (env (text "WALLET_KEY_SIGNER_PROVIDER"))))
      (λ parsed. ok (record {
        provider = parsed;
        key_id = or_else (trimmed key_id) (trimmed (env (text "WALLET_KEY_SIGNER_KEY_ID")));
      }))

abbrev required_key_id : Text → Signed Text
required_key_id [] = fail missing_key_id (text "keyId is required")
required_key_id (c ∷ cs) = ok (c ∷ cs)

unfoldable pub resolve_effective_key_id : (requested_key_id default_key_id : Text) → Signed Text
unfolding trim
resolve_effective_key_id requested_key_id default_key_id =
    required_key_id (or_else (trim requested_key_id) (trim default_key_id))

-- `slice` from an index on
unfoldable pub drop : ℕ → Bytes → Bytes
drop zero bs = bs
drop (suc n) [] = []
drop (suc n) (b ∷ bs) = drop n bs

abbrev pub has_head : ℕ → Bytes → Bool
has_head b [] = false
has_head b (c ∷ _) = c == b

-- A key in the form SubjectPublicKeyInfo has 44 bytes, so that the byte at `length - 33` is the one
-- at 11 and the last 32 are those from 12 on.
unfoldable pub extract_ed25519_public_key_from_spki : Bytes → Signed Bytes
unfolding drop
extract_ed25519_public_key_from_spki spki =
    if length spki == 44 && has_head 0x30 spki && has_head 0x00 (drop 11 spki)
    then ok (drop 12 spki)
    else fail invalid_public_key (text "Unsupported ED25519 public key format from provider")

-- `split(":")` and its last part: what stands behind the last colon, after `part`.
unfoldable pub last_part : (part : Text) → Text → Text
last_part part [] = part
last_part part (c ∷ cs) = last_part (if c == b':' then [] else part ++ (c ∷ [])) cs

module _ (base64 : Text → Bytes) where
  abbrev pub decoded : Text → Signed Bytes
  decoded [] = fail invalid_signature (text "HashiCorp Vault returned an invalid signature payload")
  decoded (c ∷ cs) = ok (base64 (c ∷ cs))

  unfoldable pub parse_vault_transit_signature : Text → Signed Bytes
  unfolding last_part
  parse_vault_transit_signature signature = decoded (last_part [] signature)
