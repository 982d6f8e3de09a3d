-- ===== src/Wallet/Vault/Versions.antt =====
-- apps/backend/wallet/src/vault.ts: the versions of the signing key, their master secrets and their
-- in-memory store. `toUpperCase` is an argument, and a timestamp is a text.
use delego.Base.{Bool, not, Option, none, some, List, [], ◌∷◌, ◌++◌, ◌||◌, filter, if◌then◌else◌}
use delego.Base.Text.{Text, text, same_text}
use delego.Base.Trim.{trim}
use delego.Wallet.Vault.{
  Env, Outcome, done, thrown, key_version_required, wallet_id_required, unknown_signing_key_version,
  or_default, or_else,
}

unfoldable pub get_active_key_version : Env → Text
unfolding trim
get_active_key_version env =
    or_else (trim (or_default (env (text "WALLET_ACTIVE_KEY_VERSION")) [])) (text "v1")

abbrev pub default_secret : Text
default_secret = text "default-dev-wallet-master-secret-key-32-chars"

-- The secret of the service, and of the versions that have none of their own.
abbrev pub master_secret : Env → Text
master_secret env = or_default (env (text "WALLET_MASTER_SECRET")) default_secret

abbrev pub blank : Text → Bool
blank t = same_text (trim t) []

-- A version with no secret of its own.
abbrev pub fallback_secret : Env → (normalized : Text) → Outcome Text
fallback_secret env normalized =
    if same_text normalized (get_active_key_version env) || same_text normalized (text "v1")
    then done (master_secret env)
    else thrown (unknown_signing_key_version normalized)

abbrev pub secret_of_version : Env → (normalized : Text) → Option Text → Outcome Text
secret_of_version env normalized none = fallback_secret env normalized
secret_of_version env normalized (some secret) =
    if not (blank secret) then done secret else fallback_secret env normalized

module _ (upper : Text → Text) where
  abbrev pub secret_variable : Text → Text
  secret_variable normalized = text "WALLET_MASTER_SECRET_" ++ upper normalized

  abbrev pub master_key_for : Env → (normalized : Text) → Outcome Text
  master_key_for env [] = thrown key_version_required
  master_key_for env (c ∷ cs) = secret_of_version env (c ∷ cs) (env (secret_variable (c ∷ cs)))

  unfoldable pub get_master_key_for_version : Env → (key_version : Text) → Outcome Text
  unfolding trim get_active_key_version same_text
  get_master_key_for_version env key_version = master_key_for env (trim key_version)

pub record SigningKeyVersion : Type 0 where
  pub wallet_id : Text
  pub key_version : Text
  pub active_from : Text
  pub rotated_at : Option Text

pub record InsertSigningKeyVersionInput : Type 0 where
  pub wallet_id : Text
  pub key_version : Text
  pub active_from : Option Text
  pub rotated_at : Option Text

abbrev truthy : Option Text → Option Text
truthy none = none
truthy (some []) = none
truthy (some (c ∷ cs)) = some (c ∷ cs)

-- `insert` of the in-memory store.
abbrev pub new_row : InsertSigningKeyVersionInput → (now : Text) → SigningKeyVersion
new_row input now = record {
  wallet_id = input.wallet_id;
  key_version = input.key_version;
  active_from = or_default input.active_from now;
  rotated_at = truthy input.rotated_at;
}

abbrev pub insert :
    InsertSigningKeyVersionInput
    → (now : Text) → List SigningKeyVersion
    → SigningKeyVersion × List SigningKeyVersion
insert input now rows = (new_row input now, rows ++ (new_row input now ∷ []))

-- `listByWallet`
unfoldable pub list_signing_key_versions :
    (wallet_id : Text) → List SigningKeyVersion → List SigningKeyVersion
unfolding same_text
list_signing_key_versions wallet_id rows = filter (λ row. same_text row.wallet_id wallet_id) rows

abbrev inserted :
    SigningKeyVersion × List SigningKeyVersion → Outcome SigningKeyVersion × List SigningKeyVersion
inserted (row, rows) = (done row, rows)

unfoldable pub record_signing_key_version :
    InsertSigningKeyVersionInput
    → (now : Text) → List SigningKeyVersion
    → Outcome SigningKeyVersion × List SigningKeyVersion
unfolding trim same_text
record_signing_key_version input now rows =
    if blank input.wallet_id
    then (thrown wallet_id_required, rows)
    else if blank input.key_version
    then (thrown key_version_required, rows)
    else inserted (insert input now rows)
