-- ===== src/Wallet/Vault/RoundTrip.antt =====
-- An encrypted seed phrase is decrypted to what it was.
use delego.Base.{
  ℕ, suc, Option, List, [], ◌∷◌, length, ◌≡◌, ◌≢◌, refl, sym, ◌∙◌, ap, subst, arith, ==_iff,
}
use mathlib.Core.List.{cons-ne-nil}
use delego.Base.Text.{Text}
use delego.Wallet.Vault.{Env, Cipher, Seals, Sealed, Outcome, done, thrown, VaultError, and_then}
use delego.Wallet.Vault.Hex.{Bytes, AreBytes, to_hex, from_hex, from_hex-to_hex}
use delego.Wallet.Vault.Seeds.{
  EncryptedSeedPhrase, of_encrypted, filled, sealed_phrase, effective_key, resolved_version,
  encrypt_seed_phrase, decrypt_seed_phrase, unsealed, wrapped,
}

and_then-done :
    {A B : Type 0} (r : Outcome A) (next : A → Outcome B) (b : B)
    → and_then r next ≡ done b
    → (a : A) × (r ≡ done a) × (next a ≡ done b)
and_then-done (done a) next b h = (a, refl, h)
and_then-done (thrown e) next b h = absurd (cc)

filled-done :
    {A : Type 0} (t : Text) (error : VaultError) (next : Outcome A) (a : A)
    → filled t error next ≡ done a
    → (t ≢ []) × (next ≡ done a)
filled-done [] error next a h = absurd (cc)
filled-done (c ∷ cs) error next a h = (cons-ne-nil c cs, h)

done-filled :
    {A : Type 0} (t : Text) (error : VaultError) (next : Outcome A)
    → t ≢ []
    → filled t error next ≡ next
done-filled [] error next h = absurd (h refl)
done-filled (c ∷ cs) error next h = refl

to_hex-filled : (bs : Bytes) → bs ≢ [] → to_hex bs ≢ []
unfolding to_hex
to_hex-filled [] h = absurd (h refl)
to_hex-filled (b ∷ bs) h = cons-ne-nil _ _

length-filled : {A : Type 0} (xs : List A) (n : ℕ) → length xs ≡ suc n → xs ≢ []
length-filled [] n h = absurd (omega (arith, h))
length-filled (x ∷ xs) n h = cons-ne-nil x xs

module _ (cipher : Cipher) (upper : Text → Text) where
  unsealed_right :
      (key iv tag data_bytes : Bytes)
      → length iv ≡ 12
      → length tag ≡ 16
      → unsealed cipher upper key iv tag data_bytes ≡ wrapped (cipher.unseal key iv tag data_bytes)
  unsealed_right key iv tag data_bytes twelve sixteen =
      let iv_right = (==_iff (length iv) 12).1 twelve in
      let tag_right = (==_iff (length tag) 16).1 sixteen in rw iv_right (rw tag_right refl)

  abbrev pub opened : Sealed → (iv : Bytes) → (master : Text) → Outcome Text
  opened s iv master =
      unsealed cipher upper (cipher.hash master) (from_hex (to_hex iv)) (from_hex (to_hex s.tag))
        (from_hex (to_hex s.data_bytes))

  -- What was sealed passes the guards of the decryption.
  pub decrypt_guards :
      (env : Env) (iv : Bytes) (plain version : Text) (key : Bytes) (master_key : Option Text)
      (s : Sealed)
      → length iv ≡ 12
      → Seals cipher plain key iv s
      → decrypt_seed_phrase cipher upper env (of_encrypted (sealed_phrase s iv version) master_key)
        ≡ and_then (effective_key cipher upper env master_key version) (opened s iv)
  unfolding decrypt_seed_phrase
  decrypt_guards env iv plain version key master_key s twelve seals =
      done-filled (to_hex s.data_bytes) _ _ (to_hex-filled s.data_bytes seals.some_data)
      ∙ done-filled (to_hex iv) _ _ (to_hex-filled iv (length-filled iv 11 twelve))
      ∙ done-filled (to_hex s.tag) _ _ (to_hex-filled s.tag (length-filled s.tag 15 seals.sixteen))

  decrypt_sealed :
      (env : Env) (iv : Bytes) (plain master version : Text) (master_key : Option Text) (s : Sealed)
      → AreBytes iv
      → length iv ≡ 12
      → Seals cipher plain (cipher.hash master) iv s
      → effective_key cipher upper env master_key version ≡ done master
      → decrypt_seed_phrase cipher upper env (of_encrypted (sealed_phrase s iv version) master_key)
        ≡ done plain
  decrypt_sealed env iv plain master version master_key s bytes twelve seals key =
      let read : (opened s iv master
          ≡ unsealed cipher upper (cipher.hash master) iv s.tag s.data_bytes) =
        λ i.
          unsealed cipher upper (cipher.hash master) (from_hex-to_hex iv bytes i)
            (from_hex-to_hex s.tag seals.tag_ok i) (from_hex-to_hex s.data_bytes seals.data_ok i) in
      decrypt_guards env iv plain version _ master_key s twelve seals
      ∙ ap (λ r. and_then r (opened s iv)) key
      ∙ read
      ∙ unsealed_right (cipher.hash master) iv s.tag s.data_bytes twelve seals.sixteen
      ∙ ap wrapped seals.opens

  pub encrypt_inverse :
      (env : Env) (iv : Bytes) (plain : Text) (master_key key_version : Option Text)
      (e : EncryptedSeedPhrase)
      → encrypt_seed_phrase cipher upper env iv plain master_key key_version ≡ done e
      → (master : Text) × (effective_key cipher upper env master_key
            (resolved_version cipher upper env key_version)
          ≡ done master)
        × (sealed_phrase
              (cipher.seal (cipher.hash master) iv plain)
              iv
              (resolved_version cipher upper env key_version)
            ≡ e)
  unfolding encrypt_seed_phrase
  encrypt_inverse env iv plain master_key key_version e h =
      let (_, encrypted) = filled-done plain _ _ e h in
      let (master, key, same) =
        and_then-done (effective_key cipher upper env master_key _) _ e encrypted in
      (master, key, cc)

  -- A seed phrase that was encrypted, whose version still has the same secret (or whose secret is
  -- given both times), is decrypted to the text it was, in whatever environment. This takes an IV of
  -- 12 bytes, as `randomBytes(12)` gives it, and a cipher that opens what it seals.
  pub decrypt-encrypt :
      (env later : Env) (iv : Bytes) (plain : Text) (master_key key_version : Option Text)
      (e : EncryptedSeedPhrase)
      → ((key : Bytes) → Seals cipher plain key iv (cipher.seal key iv plain))
      → AreBytes iv
      → length iv ≡ 12
      → encrypt_seed_phrase cipher upper env iv plain master_key key_version ≡ done e
      → effective_key cipher upper later master_key e.key_version
        ≡ effective_key cipher upper env master_key e.key_version
      → decrypt_seed_phrase cipher upper later (of_encrypted e master_key) ≡ done plain
  decrypt-encrypt env later iv plain master_key key_version e seals bytes twelve encrypted kept =
      let (master, key, same) = encrypt_inverse env iv plain master_key key_version e encrypted in
      let version = resolved_version cipher upper env key_version in
      let of_version : (e.key_version ≡ version) =
        sym (ap (λ x. EncryptedSeedPhrase.key_version x) same) in
      subst (λ x. decrypt_seed_phrase cipher upper later (of_encrypted x master_key) ≡ done plain)
        same
        (decrypt_sealed later iv plain master version master_key _ bytes twelve (seals _) (
          ap (effective_key cipher upper later master_key) (sym of_version)
          ∙ kept
          ∙ ap (effective_key cipher upper env master_key) of_version
          ∙ key))
