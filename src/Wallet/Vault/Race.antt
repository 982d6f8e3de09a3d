-- ===== src/Wallet/Vault/Race.antt =====
-- Two calls of `storeKey` that overlap share the `vaultData` of the service.
use delego.Base.{String, none, some, ◌≡◌, ◌≢◌, refl, ◌∙◌, ap, sym, subst}
use delego.Base.Maps.{Map, lookup, lookup-insert}
use delego.Base.Text.{Text}
use delego.Wallet.Vault.{Cipher, returned, Outcome, done, thrown, key_not_found, Env}
use delego.Wallet.Vault.Hex.{Bytes}
use delego.Wallet.Vault.Store.{
  VaultRecord, holds, Service, load_vault, save_vault, after, put_key, open_record, get_key,
}
use delego.Wallet.Vault.Kept.{
  contents, load_vault-contents, save_vault-works, put_key-works, vault_with, lookup_other,
}

module _ (cipher : Cipher) (env : Env) (salt iv salt' iv' : Bytes) where
  -- The first call loads the vault and puts its key; the second loads the vault while the first
  -- waits for `mkdir`; the first saves; the second puts its key and saves. What the two calls end
  -- with, and the service.
  pub overlap :
      (first second : String) (secret secret' : Text)
      → Service
      → Outcome Unit × Outcome Unit × Service
  overlap first second secret secret' s =
      let (_, loaded) = load_vault s in
      let (_, with_first) = put_key cipher env salt iv first secret loaded in
      let (_, reloaded) = load_vault with_first in
      let (of_first, saved) = save_vault reloaded in
      let (_, with_second) = put_key cipher env salt' iv' second secret' saved in
      let (of_second, ended) = save_vault with_second in (of_first, of_second, ended)

  abbrev ended_with : Map VaultRecord → Service → Service
  ended_with vault s = record s { vault_data = vault; file = holds vault }

  overlap-runs :
      (key key' : Bytes) (first second : String) (secret secret' : Text) (vault : Map VaultRecord)
      (s : Service)
      → s.mkdir_fault ≡ none
      → s.write_fault ≡ none
      → contents s.file ≡ some vault
      → cipher.derive s.master_secret salt ≡ returned key
      → cipher.derive s.master_secret salt' ≡ returned key'
      → overlap first second secret secret' s ≡ (
        done tt,
        done tt,
        ended_with (vault_with cipher env salt' iv' key' second secret' vault) s,
      )
  unfolding overlap
  overlap-runs key key' first second secret secret' vault s hm hw h hk hk' =
      let one : Service = record s { vault_data = vault } in
      let two : Service = record s {
        vault_data = vault_with cipher env salt iv key first secret vault;
      } in
      let four : Service = record s { vault_data = vault; file = holds vault } in
      let five : Service = record four {
        vault_data = vault_with cipher env salt' iv' key' second secret' vault;
      } in
      rw (load_vault-contents vault s hm h) (
        rw (put_key-works cipher env salt iv key first secret one hk) (
          rw (load_vault-contents vault two hm h) (
            rw (save_vault-works one hm hw) (
              rw (put_key-works cipher env salt' iv' key' second secret' four hk')
                (rw (save_vault-works five hm hw) refl)))))

  get_key-missing :
      (public_key : String) (vault : Map VaultRecord) (s : Service)
      → s.mkdir_fault ≡ none
      → contents s.file ≡ some vault
      → lookup public_key vault ≡ none
      → (get_key cipher public_key s).0 ≡ thrown (key_not_found public_key)
  unfolding get_key
  get_key-missing public_key vault s hm h missing =
      ap
        (λ r. (after r (λ _ s. open_record cipher public_key (lookup public_key s.vault_data) s)).0)
        (load_vault-contents vault s hm h)
      ∙ ap (λ o. (open_record cipher public_key o (record s { vault_data = vault })).0) missing

  -- When two calls of `storeKey` for different keys overlap so that the second loads the vault while
  -- the first waits to write it, on a disk without faults, both calls succeed and the first key,
  -- which was not in the vault before, is lost: `getKey` does not find it.
  pub store_key-race :
      (key key' : Bytes) (first second : String) (secret secret' : Text) (vault : Map VaultRecord)
      (s : Service)
      → s.mkdir_fault ≡ none
      → s.write_fault ≡ none
      → contents s.file ≡ some vault
      → cipher.derive s.master_secret salt ≡ returned key
      → cipher.derive s.master_secret salt' ≡ returned key'
      → first ≢ second
      → lookup first vault ≡ none
      → let (of_first, of_second, ended) = overlap first second secret secret' s in
        (of_first ≡ done tt)
        × (of_second ≡ done tt)
        × ((get_key cipher first ended).0 ≡ thrown (key_not_found first))
  store_key-race key key' first second secret secret' vault s hm hw h hk hk' ne missing =
      let v = vault_with cipher env salt' iv' key' second secret' vault in
      let P : Outcome Unit × Outcome Unit × Service → Type 0 = λ r.
        (r.0 ≡ done tt)
        × (r.1 ≡ done tt)
        × ((get_key cipher first r.2).0 ≡ thrown (key_not_found first)) in
      subst P (sym (overlap-runs key key' first second secret secret' vault s hm hw h hk hk')) (
        refl,
        refl,
        get_key-missing first v (ended_with v s) hm refl
            (lookup-insert vault second first _ ∙ lookup_other first second ne _ _ ∙ missing),
      )
