-- ===== src/Wallet/Vault/Signer/Spki.antt =====
-- Which SubjectPublicKeyInfo is accepted, and the key that comes out.
use delego.Base.{
  ℕ, zero, suc, ◌≤◌, length-append, Bool, true, false, ◌&&◌, [], ◌∷◌, ◌++◌, length, ◌==◌, ◌≡◌, refl,
  sym, ◌∙◌, ap, ◌↔◌, arith, ==_iff, if◌then◌else◌,
}
use mathlib.Core.Path.{ap₂}
use delego.Base.Text.{Text, text}
use delego.Wallet.Vault.Hex.{Bytes}
use delego.Wallet.Vault.Signer.{
  invalid_public_key, ok, fail, drop, has_head, extract_ed25519_public_key_from_spki,
}

-- A list is the bytes before an index and those from there on.
split :
    (n : ℕ) (bs : Bytes)
    → n ≤ length bs
    → (front : Bytes) × (length front ≡ n) × (front ++ drop n bs ≡ bs)
unfolding drop
split zero bs h = ([], refl, refl)
split (suc n) [] h = absurd (omega (arith, h))
split (suc n) (b ∷ bs) h =
    let (front, size, same) = split n bs (omega (arith, h)) in
    (b ∷ front, omega (arith, size), ap (λ r. b ∷ r) same)

drop-append : (n : ℕ) (front bs : Bytes) → length front ≡ n → drop n (front ++ bs) ≡ bs
unfolding drop
drop-append zero [] bs h = refl
drop-append zero (b ∷ front) bs h = absurd (omega (arith, h))
drop-append (suc n) [] bs h = absurd (omega (arith, h))
drop-append (suc n) (b ∷ front) bs h = drop-append n front bs (omega (arith, h))

head_drop : (n b : ℕ) (bs : Bytes) → has_head b (drop n bs) ≡ true → drop n bs ≡ b ∷ drop (suc n) bs
unfolding drop
head_drop zero b [] h = absurd (cc)
head_drop zero b (c ∷ bs) h = ap (λ x. x ∷ bs) ((==_iff c b).0 h)
head_drop (suc n) b [] h = absurd (cc)
head_drop (suc n) b (c ∷ bs) h = head_drop n b bs h

guard-ok :
    (g : Bool) (k key : Bytes) (message : Text)
    → (if g then ok k else fail invalid_public_key message) ≡ ok key
    → (g ≡ true) × (k ≡ key)
guard-ok true k key message h = (refl, cc)
guard-ok false k key message h = absurd (cc)

and-true : (a b c : Bool) → (a && b && c) ≡ true → (a ≡ true) × (b ≡ true) × (c ≡ true)
and-true true true true h = (refl, refl, refl)
and-true true true false h = absurd (cc)
and-true true false c h = absurd (cc)
and-true false b c h = absurd (cc)

spki_parts :
    (b : ℕ) (rest key : Bytes)
    → length (b ∷ rest) ≡ 44
    → b ≡ 0x30
    → has_head 0x00 (drop 10 rest) ≡ true
    → drop 11 rest ≡ key
    → (middle : Bytes) × (length middle ≡ 10)
      × (length key ≡ 32)
      × (b ∷ rest ≡ 0x30 ∷ (middle ++ (0x00 ∷ key)))
spki_parts b rest key size first zero_byte same =
    let (middle, ten, parts) = split 10 rest (omega (arith, size)) in
    let tail = head_drop 10 0x00 rest zero_byte ∙ ap (λ k. 0x00 ∷ k) same in
    let whole = sym parts ∙ ap (λ t. middle ++ t) tail in
    let total = ap length whole ∙ length-append middle (0x00 ∷ key) in
    (middle, ten, omega (arith, ten, total, size), ap₂ (λ c r. c ∷ r) first whole)

extract_sound :
    (spki key : Bytes)
    → extract_ed25519_public_key_from_spki spki ≡ ok key
    → (middle : Bytes) × (length middle ≡ 10)
      × (length key ≡ 32)
      × (spki ≡ 0x30 ∷ (middle ++ (0x00 ∷ key)))
unfolding extract_ed25519_public_key_from_spki drop
extract_sound [] key h = absurd (cc)
extract_sound (b ∷ rest) key h =
    let (g, same) = guard-ok _ _ key _ h in
    let (size, first, zero_byte) = and-true _ _ _ g in
    spki_parts b rest key ((==_iff (length (b ∷ rest)) 44).0 size) ((==_iff b 0x30).0 first)
      zero_byte same

drop-suc : (n b : ℕ) (bs k : Bytes) → drop n bs ≡ b ∷ k → drop (suc n) bs ≡ k
unfolding drop
drop-suc zero b [] k h = absurd (cc)
drop-suc zero b (c ∷ bs) k h = cc
drop-suc (suc n) b [] k h = absurd (cc)
drop-suc (suc n) b (c ∷ bs) k h = drop-suc n b bs k h

extract_complete :
    (key middle : Bytes)
    → length middle ≡ 10
    → length key ≡ 32
    → extract_ed25519_public_key_from_spki (0x30 ∷ (middle ++ (0x00 ∷ key))) ≡ ok key
unfolding extract_ed25519_public_key_from_spki drop
extract_complete key middle ten size =
    let rest = middle ++ (0x00 ∷ key) in
    let tail = drop-append 10 middle (0x00 ∷ key) ten in
    let long : (length (0x30 ∷ rest) ≡ 44) =
      omega (arith, length-append middle (0x00 ∷ key), ten, size) in
    let right = (==_iff (length (0x30 ∷ rest)) 44).1 long in
    let accepted : ((length (0x30 ∷ rest) == 44
          && has_head 0x30 (0x30 ∷ rest)
          && has_head 0x00 (drop 10 rest))
        ≡ true) =
      ap (λ t. length (0x30 ∷ rest) == 44 && true && has_head 0x00 t) tail
      ∙ ap (λ g. g && true && true) right in
    ap
      (λ g.
        if g
        then ok (drop 11 rest)
        else fail invalid_public_key (text "Unsupported ED25519 public key format from provider"))
      accepted
    ∙ ap ok (drop-suc 10 0x00 rest key tail)

-- A public key is extracted from exactly the 44 bytes that are 0x30, ten bytes, 0x00 and the 32
-- bytes of the key.
pub extract_iff :
    (spki key : Bytes)
    → (extract_ed25519_public_key_from_spki spki ≡ ok key) ↔ (
        (middle : Bytes) × (length middle ≡ 10)
        × (length key ≡ 32)
        × (spki ≡ 0x30 ∷ (middle ++ (0x00 ∷ key))))
unfolding extract_ed25519_public_key_from_spki
extract_iff spki key = (
  extract_sound spki key,
  λ (middle, ten, size, same).
      ap extract_ed25519_public_key_from_spki same ∙ extract_complete key middle ten size,
)
