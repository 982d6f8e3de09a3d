-- ===== src/Wallet/Vault/Signer/Retryable.antt =====
-- When the signer of HashiCorp Vault asks for another try.
use delego.Base.{
  ℕ, ◌≤◌, ◌∷◌, true, false, [], ◌≡◌, refl, sym, ◌∙◌, ap, ◌↔◌, ◌⊎◌, inl, inr, arith, Bool-cases,
}
use delego.Base.Text.{Text, text, same_text}
use delego.Base.Trim.{trim}
use delego.Base.Value.{Value, undefined, null, bool, num, bigint, date, str, arr, obj, get}
use delego.Wallet.Vault.Hex.{Bytes}
use delego.Wallet.Vault.Signer.{
  decoded, KeySignerError, Signed, ok, refused, and_then, resolve_effective_key_id,
  parse_vault_transit_signature,
}
use delego.Wallet.Vault.Signer.Drivers.{
  transit_signature, Response, response, no_response, is_ok, to_retry, vault_request, vault_sign,
}

-- A response after which another try may help: none at all, or a status from 500 on or 429.
unfoldable pub ToRetry : Response → Type 0
ToRetry (response status _) = (500 ≤ status) ⊎ (status ≡ 429)
ToRetry (no_response _) = Unit

-- That an error is not to be tried again, whatever comes out.
Final : {A : Type 0} → Signed A → Type 0
Final (ok _) = Unit
Final (refused e) = e.retryable ≡ false

decoded-Final : (base64 : Text → Bytes) (t : Text) → Final (decoded base64 t)
unfolding Final
decoded-Final base64 [] = refl
decoded-Final base64 (c ∷ cs) = tt

transit_signature-Final :
    (print : ℕ → Text) (base64 : Text → Bytes) (fetch : Text → Response) (v : Value)
    → Final (transit_signature print base64 fetch v)
unfolding Final parse_vault_transit_signature
transit_signature-Final print base64 fetch (str s) =
    elim (Bool-cases (same_text (trim (text s)) [])) [
      | inl blank ↦ rw blank refl
      | inr some_text ↦ rw some_text (decoded-Final base64 _)
    ]
transit_signature-Final print base64 fetch undefined = refl
transit_signature-Final print base64 fetch null = refl
transit_signature-Final print base64 fetch (bool _) = refl
transit_signature-Final print base64 fetch (num _) = refl
transit_signature-Final print base64 fetch (bigint _) = refl
transit_signature-Final print base64 fetch (date _) = refl
transit_signature-Final print base64 fetch (arr _) = refl
transit_signature-Final print base64 fetch (obj _) = refl

refused-retryable :
    {A : Type 0} (d e : KeySignerError)
    → ◌≡◌ {A = Signed A} (refused d) (refused e)
    → d.retryable ≡ e.retryable
refused-retryable d e h = let same : (d ≡ e) = cc in ap (λ x. KeySignerError.retryable x) same

Final-refused :
    {A : Type 0} (r : Signed A) (e : KeySignerError) → Final r → r ≡ refused e → e.retryable ≡ false
unfolding Final
Final-refused (ok a) e f h = absurd (cc)
Final-refused (refused d) e f h = sym (refused-retryable d e h) ∙ f

not-ToRetry :
    (status : ℕ) (payload : Value) → is_ok status ≡ true → ToRetry (response status payload) → ⊥
unfolding ToRetry
not-ToRetry status payload h t = ground arith

to_retry_iff :
    (status : ℕ) (payload : Value) → (to_retry status ≡ true) ↔ ToRetry (response status payload)
unfolding ToRetry
to_retry_iff status payload = ground arith

module _ (print : ℕ → Text) (base64 : Text → Bytes) (fetch : Text → Response) where
  by_response :
      (r : Response) (next : Value → Signed Bytes) (e : KeySignerError)
      → ((v : Value) → Final (next v))
      → and_then (vault_request print r) next ≡ refused e
      → (e.retryable ≡ true) ↔ ToRetry r
  unfolding vault_request ToRetry
  by_response (no_response message) next e f h =
      let same = refused-retryable _ e h in ((λ _. tt), (λ _. sym same))
  by_response (response status payload) next e f h = elim (Bool-cases (is_ok status)) [
    | inl fine ↦
        let final = Final-refused (next payload) e (f payload) (rw fine at h) in
        ((λ again. absurd (cc)), (λ t. absurd (not-ToRetry status payload fine t)))
    | inr bad ↦
        let same : (e.retryable ≡ to_retry status) = sym (refused-retryable _ e (rw bad at h)) in
        (
          (λ again. (to_retry_iff status payload).0 (sym same ∙ again)),
          (λ t. same ∙ (to_retry_iff status payload).1 t),
        )
  ]

  -- Signing with HashiCorp Vault, for a key id that is not blank: when it fails, its error asks for
  -- another try exactly if there was no response, or one with a status from 500 on or of 429.
  pub vault_sign-retryable :
      (default_key_id key_id effective : Text) (e : KeySignerError)
      → resolve_effective_key_id key_id default_key_id ≡ ok effective
      → vault_sign print base64 fetch default_key_id key_id ≡ refused e
      → (e.retryable ≡ true) ↔ ToRetry (fetch effective)
  unfolding vault_sign
  vault_sign-retryable default_key_id key_id effective e h refusal =
      by_response (fetch effective) _ e
        (λ v. transit_signature-Final print base64 fetch (get "signature" (get "data" v)))
        (rw h at refusal)
