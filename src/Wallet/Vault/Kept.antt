-- ===== src/Wallet/Vault/Kept.antt =====
-- A stored key is read back, and the others stay.
use delego.Base.{
  String, Option, none, some, [], ◌≡◌, ◌≢◌, refl, ◌∙◌, ap, sym, subst, if◌then◌else◌, str_eq, inl,
  inr, Bool-cases, eq_iff,
}
use delego.Base.Maps.{Map, lookup, insert, lookup-insert}
use delego.Base.Text.{Text}
use delego.Wallet.Vault.{Cipher, Seals, Fault, enoent, fault, returned, Outcome, done, Env}
use delego.Wallet.Vault.Hex.{Bytes, AreBytes, to_hex, from_hex, from_hex-to_hex}
use delego.Wallet.Vault.Versions.{get_active_key_version}
use delego.Wallet.Vault.Store.{
  VaultRecord, File, absent, unreadable, holds, Service, load_file, load_vault, write_file,
  save_vault, new_record, after, lift, put_key, store_key, open_record, get_key,
}

-- What a load makes of the file: a missing one is an empty vault, any other fault is thrown.
abbrev pub contents : File → Option (Map VaultRecord)
contents absent = some []
contents (unreadable enoent) = some []
contents (unreadable (fault _)) = none
contents (holds vault) = some vault

load_file-contents :
    (m : Option Fault) (file : File) (vault : Map VaultRecord) (s : Service)
    → m ≡ none
    → contents file ≡ some vault
    → load_file m file s ≡ (done tt, record s { vault_data = vault })
load_file-contents none absent vault s hm h =
    let eq : ([] ≡ vault) = cc h in ap (λ v. (done tt, record s { vault_data = v })) eq
load_file-contents none (unreadable enoent) vault s hm h =
    let eq : ([] ≡ vault) = cc h in ap (λ v. (done tt, record s { vault_data = v })) eq
load_file-contents none (unreadable (fault _)) vault s hm h = absurd (cc)
load_file-contents none (holds u) vault s hm h =
    let eq : (u ≡ vault) = cc h in ap (λ v. (done tt, record s { vault_data = v })) eq
load_file-contents (some e) file vault s hm h = absurd (cc)

write_file-works :
    (m w : Option Fault) (s : Service)
    → m ≡ none
    → w ≡ none
    → write_file m w s ≡ (done tt, record s { file = holds s.vault_data })
write_file-works none none s hm hw = refl
write_file-works none (some e) s hm hw = absurd (cc)
write_file-works (some e) w s hm hw = absurd (cc)

pub load_vault-contents :
    (vault : Map VaultRecord) (s : Service)
    → s.mkdir_fault ≡ none
    → contents s.file ≡ some vault
    → load_vault s ≡ (done tt, record s { vault_data = vault })
unfolding load_vault
load_vault-contents vault s hm h = load_file-contents s.mkdir_fault s.file vault s hm h

pub save_vault-works :
    (s : Service)
    → s.mkdir_fault ≡ none
    → s.write_fault ≡ none
    → save_vault s ≡ (done tt, record s { file = holds s.vault_data })
unfolding save_vault
save_vault-works s hm hw = write_file-works s.mkdir_fault s.write_fault s hm hw

pub lookup_same : {A : Type 0} (k : String) (x y : A) → (if str_eq k k then x else y) ≡ x
lookup_same k x y = let same = (eq_iff k k).1 refl in rw same refl

pub lookup_other :
    {A : Type 0} (other k : String) → other ≢ k → (x y : A) → (if str_eq k other then x else y) ≡ y
lookup_other other k ne x y = elim (Bool-cases (str_eq k other)) [
  | inl same ↦ absurd (ne (sym ((eq_iff k other).0 same)))
  | inr different ↦ rw different refl
]

module _ (cipher : Cipher) (env : Env) (salt iv : Bytes) where
  -- The vault with the new record of a key.
  abbrev pub vault_with : Bytes → String → Text → Map VaultRecord → Map VaultRecord
  vault_with key public_key secret_key vault =
      insert public_key
        (new_record (cipher.seal key iv secret_key) salt iv (get_active_key_version env)) vault

  pub put_key-works :
      (key : Bytes) (public_key : String) (secret_key : Text) (s : Service)
      → cipher.derive s.master_secret salt ≡ returned key
      → put_key cipher env salt iv public_key secret_key s
        ≡ (done tt, record s { vault_data = vault_with key public_key secret_key s.vault_data })
  unfolding put_key
  put_key-works key public_key secret_key s h = rw h refl

  store_key-written :
      (key : Bytes) (public_key : String) (secret_key : Text) (vault : Map VaultRecord)
      (s : Service)
      → s.mkdir_fault ≡ none
      → s.write_fault ≡ none
      → contents s.file ≡ some vault
      → cipher.derive s.master_secret salt ≡ returned key
      → store_key cipher env salt iv public_key secret_key s ≡ (
        done tt,
        record s {
          vault_data = vault_with key public_key secret_key vault;
          file = holds (vault_with key public_key secret_key vault);
        },
      )
  unfolding store_key
  store_key-written key public_key secret_key vault s hm hw h hk =
      ap
        (λ r.
          after r (λ _ s.
            after (put_key cipher env salt iv public_key secret_key s) (λ _ s. save_vault s)))
        (load_vault-contents vault s hm h)
      ∙ ap (λ r. after r (λ _ s. save_vault s))
          (put_key-works key public_key secret_key (record s { vault_data = vault }) hk)
      ∙ save_vault-works (record s { vault_data = vault_with key public_key secret_key vault }) hm
          hw

  open_record-new :
      (key : Bytes) (public_key : String) (secret_key : Text) (s : Service)
      → Seals cipher secret_key key iv (cipher.seal key iv secret_key)
      → AreBytes salt
      → AreBytes iv
      → cipher.derive s.master_secret salt ≡ returned key
      → open_record cipher public_key
          (some (new_record (cipher.seal key iv secret_key) salt iv (get_active_key_version env)))
          s
        ≡ (done secret_key, s)
  open_record-new key public_key secret_key s seals salt_ok iv_ok hk =
      let parts = cipher.seal key iv secret_key in
      let unseal : Bytes → Service → Outcome Text × Service = λ key s.
        lift
          (cipher.unseal key (from_hex (to_hex iv)) (from_hex (to_hex parts.tag))
            (from_hex (to_hex parts.data_bytes)))
          s in
      let read : (unseal key s ≡ lift (cipher.unseal key iv parts.tag parts.data_bytes) s) = λ i.
        lift
          (cipher.unseal key (from_hex-to_hex iv iv_ok i) (from_hex-to_hex parts.tag seals.tag_ok i)
            (from_hex-to_hex parts.data_bytes seals.data_ok i))
          s in
      ap (λ b. after (lift (cipher.derive s.master_secret b) s) unseal)
        (from_hex-to_hex salt salt_ok)
      ∙ ap (λ r. after (lift r s) unseal) hk
      ∙ read
      ∙ ap (λ r. lift r s) seals.opens

  get_key-record :
      (key : Bytes) (public_key : String) (secret_key : Text) (vault : Map VaultRecord)
      (t : Service) (v : Map VaultRecord)
      → t.mkdir_fault ≡ none
      → contents t.file ≡ some v
      → cipher.derive t.master_secret salt ≡ returned key
      → Seals cipher secret_key key iv (cipher.seal key iv secret_key)
      → AreBytes salt
      → AreBytes iv
      → vault_with key public_key secret_key vault ≡ v
      → get_key cipher public_key t ≡ (done secret_key, record t { vault_data = v })
  unfolding get_key
  get_key-record key public_key secret_key vault t v hm h hk seals salt_ok iv_ok same =
      let s : Service = record t { vault_data = v } in
      ap (λ r. after r (λ _ s. open_record cipher public_key (lookup public_key s.vault_data) s))
        (load_vault-contents v t hm h)
      ∙ ap (λ m. open_record cipher public_key (lookup public_key m) s) (sym same)
      ∙ ap (λ o. open_record cipher public_key o s)
          (lookup-insert vault public_key public_key _ ∙ lookup_same public_key _ _)
      ∙ open_record-new key public_key secret_key s seals salt_ok iv_ok hk

  -- On a disk without faults, with a file that can be read or is missing, `storeKey` succeeds. From
  -- then on `getKey` gives the secret of this key, and the file holds the record that it held for
  -- each other key. This takes a cipher that opens what it seals, and random bytes.
  pub get_key-store_key :
      (key : Bytes) (public_key : String) (secret_key : Text) (vault : Map VaultRecord)
      (s : Service)
      → s.mkdir_fault ≡ none
      → s.write_fault ≡ none
      → contents s.file ≡ some vault
      → cipher.derive s.master_secret salt ≡ returned key
      → Seals cipher secret_key key iv (cipher.seal key iv secret_key)
      → AreBytes salt
      → AreBytes iv
      → let stored = store_key cipher env salt iv public_key secret_key s in
        (stored.0 ≡ done tt)
        × ((get_key cipher public_key stored.1).0 ≡ done secret_key)
        × ((later : Map VaultRecord) × (contents stored.1.file ≡ some later)
            × ((other : String) → other ≢ public_key → lookup other later ≡ lookup other vault))
  get_key-store_key key public_key secret_key vault s hm hw h hk seals salt_ok iv_ok =
      let v = vault_with key public_key secret_key vault in
      let t : Service = record s { vault_data = v; file = holds v } in
      let P : Outcome Unit × Service → Type 0 = λ stored.
        (stored.0 ≡ done tt)
        × ((get_key cipher public_key stored.1).0 ≡ done secret_key)
        × ((later : Map VaultRecord) × (contents stored.1.file ≡ some later)
            × ((other : String) → other ≢ public_key → lookup other later ≡ lookup other vault)) in
      subst P (sym (store_key-written key public_key secret_key vault s hm hw h hk)) (
        refl,
        ap (λ p. p.0)
            (get_key-record key public_key secret_key vault t v hm refl hk seals salt_ok iv_ok
              refl),
        (
          v,
          refl,
          λ other ne. lookup-insert vault public_key other _ ∙ lookup_other other public_key ne _ _,
        ),
      )
