-- ===== src/Wallet/Vault/Store.antt =====
-- apps/backend/wallet/src/vault.ts: `VaultService`. Its fields and the file are a state that is passed
-- along, and each method is made of the steps between its awaits. A public key is no integer
-- and not "__proto__", so that an object keeps its keys in the order in which they came.
use delego.Base.{String, Option, none, some, List, [], map}
use delego.Base.Maps.{Map, lookup, insert}
use delego.Base.Text.{Text}
use delego.Wallet.Vault.{
  Cipher, Sealed, Fault, enoent, fault, Tried, returned, failed, Outcome, done, thrown,
  key_not_found, passed_on, Env,
}
use delego.Wallet.Vault.Hex.{Bytes, to_hex, from_hex}
use delego.Wallet.Vault.Versions.{get_active_key_version}

pub record VaultRecord : Type 0 where
  pub iv : Text
  pub tag : Text
  pub encrypted_data : Text
  pub salt : Text
  pub key_version : Text

-- The file of the vault: what reading and parsing it gives.
pub data File : Type 0 where
  absent : File
  unreadable : Fault → File
  holds : Map VaultRecord → File

-- The fields of the service and the disk: its file, and the faults of `mkdir` and `writeFile`.
pub record Service : Type 0 where
  pub master_secret : Text
  pub vault_data : Map VaultRecord
  pub file : File
  pub mkdir_fault : Option Fault
  pub write_fault : Option Fault

abbrev pub load_failed : Fault → Service → Outcome Unit × Service
load_failed enoent s = (done tt, record s { vault_data = [] })
load_failed (fault message) s = (thrown (passed_on (fault message)), s)

abbrev pub load_file : Option Fault → File → Service → Outcome Unit × Service
load_file (some e) file s = load_failed e s
load_file none absent s = load_failed enoent s
load_file none (unreadable e) s = load_failed e s
load_file none (holds vault) s = (done tt, record s { vault_data = vault })

unfoldable pub load_vault : Service → Outcome Unit × Service
load_vault s = load_file s.mkdir_fault s.file s

abbrev pub write_file : Option Fault → Option Fault → Service → Outcome Unit × Service
write_file (some e) write s = (thrown (passed_on e), s)
write_file none (some e) s = (thrown (passed_on e), s)
write_file none none s = (done tt, record s { file = holds s.vault_data })

-- The text that is written is that of `vaultData` when `mkdir` has returned.
unfoldable pub save_vault : Service → Outcome Unit × Service
save_vault s = write_file s.mkdir_fault s.write_fault s

-- `vaultData[publicKey]`, as it is stored.
abbrev pub new_record : Sealed → (salt iv : Bytes) → (key_version : Text) → VaultRecord
new_record s salt iv key_version = record {
  iv = to_hex iv;
  tag = to_hex s.tag;
  encrypted_data = to_hex s.data_bytes;
  salt = to_hex salt;
  key_version = key_version;
}

abbrev pub after :
    {A B : Type 0} → Outcome A × Service → (A → Service → Outcome B × Service) → Outcome B × Service
after (done a, s) next = next a s
after (thrown e, s) next = (thrown e, s)

abbrev pub lift : {A : Type 0} → Tried A → Service → Outcome A × Service
lift (returned a) s = (done a, s)
lift (failed e) s = (thrown (passed_on e), s)

unfoldable pub list_public_keys : Service → Outcome (List String) × Service
unfolding load_vault
list_public_keys s = after (load_vault s) (λ _ s. (done (map (λ entry. entry.0) s.vault_data), s))

module _ (cipher : Cipher) where
  -- What `storeKey` does between the two awaits of the disk; `salt` and `iv` are random.
  unfoldable pub put_key :
      Env
      → (salt iv : Bytes) → (public_key : String) → (secret_key : Text) → Service
      → Outcome Unit × Service
  unfolding insert to_hex get_active_key_version
  put_key env salt iv public_key secret_key s =
      after (lift (cipher.derive s.master_secret salt) s) (λ key s. (
        done tt,
        record s {
          vault_data =
              insert public_key
                (new_record (cipher.seal key iv secret_key) salt iv (get_active_key_version env))
                s.vault_data;
        },
      ))

  unfoldable pub store_key :
      Env
      → (salt iv : Bytes) → (public_key : String) → (secret_key : Text) → Service
      → Outcome Unit × Service
  unfolding load_vault put_key save_vault
  store_key env salt iv public_key secret_key s =
      after (load_vault s)
        (λ _ s. after (put_key env salt iv public_key secret_key s) (λ _ s. save_vault s))

  abbrev pub open_record : String → Option VaultRecord → Service → Outcome Text × Service
  open_record public_key none s = (thrown (key_not_found public_key), s)
  open_record public_key (some r) s =
      after (lift (cipher.derive s.master_secret (from_hex r.salt)) s) (λ key s.
        lift (cipher.unseal key (from_hex r.iv) (from_hex r.tag) (from_hex r.encrypted_data)) s)

  unfoldable pub get_key : (public_key : String) → Service → Outcome Text × Service
  unfolding load_vault lookup from_hex
  get_key public_key s =
      after (load_vault s) (λ _ s. open_record public_key (lookup public_key s.vault_data) s)
