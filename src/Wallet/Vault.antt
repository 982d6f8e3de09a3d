-- ===== src/Wallet/Vault.antt =====
-- apps/backend/wallet/src/vault.ts: the errors, the environment and the ciphers that its parts
-- share. node:crypto is a record of functions; random bytes are arguments.
pub mod Hex
pub mod Store
pub mod Kept
pub mod Race
pub mod Versions
pub mod Seeds
pub mod RoundTrip
pub mod Rotation
pub mod Signer
mod Tests
use delego.Base.{String, Option, none, some, [], ◌∷◌, ◌≡◌, ◌≢◌, length}
use delego.Base.Text.{Text}
use delego.Wallet.Vault.Hex.{Bytes, AreBytes}

-- An error of the file system or of a library: whether its `code` is ENOENT, and its message.
pub data Fault : Type 0 where
  enoent : Fault
  fault : (message : Text) → Fault

pub data FailedDecryption : Type 0 where
  invalid_iv_length invalid_tag_length : FailedDecryption
  cipher_fault : Fault → FailedDecryption

-- The errors that this file throws, and the faults that it passes on.
pub data VaultError : Type 0 where
  key_not_found : (public_key : String) → VaultError
  wallet_id_required key_version_required plaintext_empty master_key_empty : VaultError
  ciphertext_empty iv_empty tag_empty : VaultError
  unknown_signing_key_version : (version : Text) → VaultError
  decryption_failed : FailedDecryption → VaultError
  passed_on : Fault → VaultError

pub data Outcome (A : Type 0) : Type 0 where
  done : A → Outcome A
  thrown : VaultError → Outcome A

-- What a library call does: it returns, or it fails.
pub data Tried (A : Type 0) : Type 0 where
  returned : A → Tried A
  failed : Fault → Tried A

-- What comes after an `await` or a call that may throw.
abbrev pub and_then : {A B : Type 0} → Outcome A → (A → Outcome B) → Outcome B
and_then (done value) next = next value
and_then (thrown error) next = thrown error

pub record Sealed : Type 0 where
  pub data_bytes : Bytes
  pub tag : Bytes

-- AES-256-GCM, SHA-256 and PBKDF2 of node:crypto. A plain text is given and returned as a text;
-- its UTF-8 encoding is a part of `seal` and of `unseal`.
pub record Cipher : Type 0 where
  pub hash : Text → Bytes
  pub derive : (secret : Text) (salt : Bytes) → Tried Bytes
  pub seal : (key iv : Bytes) (plain : Text) → Sealed
  pub unseal : (key iv tag data_bytes : Bytes) → Tried Text

-- What GCM is documented to do with a plain text: it gives bytes, some for a text that is not empty,
-- with a tag of 16 bytes, and the text comes back under the same key, IV and tag.
pub record Seals (cipher : Cipher) (plain : Text) (key iv : Bytes) (s : Sealed) : Type 0 where
  pub data_ok : AreBytes s.data_bytes
  pub some_data : s.data_bytes ≢ []
  pub tag_ok : AreBytes s.tag
  pub sixteen : length s.tag ≡ 16
  pub opens : cipher.unseal key iv s.tag s.data_bytes ≡ returned plain

-- `process.env`
abbrev pub Env : Type 0
Env = Text → Option Text

-- `value ?? fallback`
abbrev pub or_default : Option Text → Text → Text
or_default none fallback = fallback
or_default (some value) fallback = value

-- `value || fallback` on texts
abbrev pub or_else : Text → Text → Text
or_else [] fallback = fallback
or_else (c ∷ cs) fallback = c ∷ cs
