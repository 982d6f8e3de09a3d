-- ===== src/Base/Text.antt =====
-- Texts as lists of code points, for code that searches them: `includes` and `toLowerCase`.
use Prim.Native.Char.{code}
use Prim.Native.String.{String}
use Prim.Native.Nat.{ℕ, ◌+◌}
use mathlib.Core.Path.{◌≡◌, refl, sym}
use mathlib.Core.Logic.{◌≢◌, ◌↔◌, inl, inr}
use mathlib.Core.Bool.{Bool, true, false, ◌&&◌, ◌||◌}
use mathlib.Core.List.{List, [], ◌∷◌, ◌++◌, append_assoc}
use native.Mathlib.Omega.{arith}
use delego.Base.Tests.{leb, ◌==◌, if◌then◌else◌, Bool-cases}
use delego.Base.Lists.{All, All-append}

abbrev pub Text : Type 0
Text = List ℕ

abbrev pub text : String → Text
text String.[] = []
text (String.◌∷◌ c rest) = code c ∷ text rest

-- `===` of two texts
unfoldable pub same_text : Text → Text → Bool
same_text [] [] = true
same_text [] (_ ∷ _) = false
same_text (_ ∷ _) [] = false
same_text (c ∷ cs) (d ∷ ds) = c == d && same_text cs ds

pub same_text_iff : (s t : Text) → (same_text s t ≡ true) ↔ (s ≡ t)
unfolding same_text
same_text_iff [] [] = ((λ _. refl), (λ _. refl))
same_text_iff [] (d ∷ t) = ((λ h. absurd (cc)), (λ h. absurd (cc)))
same_text_iff (c ∷ s) [] = ((λ h. absurd (cc)), (λ h. absurd (cc)))
same_text_iff (c ∷ s) (d ∷ t) = ground (arith, same_text_iff s t)

unfoldable pub begins : Text → Text → Bool
begins [] t = true
begins (p ∷ ps) [] = false
begins (p ∷ ps) (c ∷ cs) = p == c && begins ps cs

-- `t.includes(pattern)`
unfoldable pub includes : Text → Text → Bool
unfolding begins
includes pattern [] = begins pattern []
includes pattern (c ∷ cs) = begins pattern (c ∷ cs) || includes pattern cs

-- The characters whose lower case has ASCII letters: A to Z, the Kelvin sign, and the dotted
-- capital I. Any other character is left alone, which no search for an ASCII text tells apart.
unfoldable pub lower_code : ℕ → Text
lower_code c =
    if leb b'A' c && leb c b'Z'
    then (c + 32) ∷ []
    else if c == 0x212a
    then b'k' ∷ []
    else if c == 0x130
    then b'i' ∷ 0x307 ∷ []
    else c ∷ []

-- `toLowerCase`
unfoldable pub to_lower : Text → Text
unfolding lower_code
to_lower [] = []
to_lower (c ∷ cs) = lower_code c ++ to_lower cs

pub to_lower-append : (s t : Text) → to_lower (s ++ t) ≡ to_lower s ++ to_lower t
unfolding to_lower
to_lower-append [] t = refl
to_lower-append (c ∷ s) t =
    rw (to_lower-append s t) (sym (append_assoc (lower_code c) (to_lower s) (to_lower t)))

begins-append : (p s t : Text) → begins p s ≡ true → begins p (s ++ t) ≡ true
unfolding begins
begins-append [] s t h = refl
begins-append (x ∷ p) [] t h = absurd (cc)
begins-append (x ∷ p) (c ∷ s) t h = ground (arith, begins-append p s t)

-- What is found in a text is found in each of its extensions.
pub includes-append : (p s t : Text) → includes p s ≡ true → includes p (s ++ t) ≡ true
unfolding includes
includes-append p [] [] h = h
includes-append [] [] (c ∷ t) h = refl
includes-append (x ∷ p) [] (c ∷ t) h = absurd (cc)
includes-append p (c ∷ s) t h = ground (arith, begins-append p (c ∷ s) t, includes-append p s t)

abbrev pub Free : ℕ → Text → Type 0
Free c = All (λ d. d ≢ c)

begins-Free : (c : ℕ) (p t : Text) → Free c t → begins p t ≡ true → Free c p
unfolding begins
begins-Free c [] t f h = tt
begins-Free c (x ∷ p) [] f h = absurd (cc)
begins-Free c (x ∷ p) (d ∷ t) f h = (ground arith, begins-Free c p t f.1 (ground arith))

-- A pattern that is found in a text without a character does not have that character.
pub includes-Free : (c : ℕ) (p t : Text) → Free c t → includes p t ≡ true → Free c p
unfolding includes
includes-Free c p [] f h = begins-Free c p [] f h
includes-Free c p (d ∷ t) f h = elim (Bool-cases (begins p (d ∷ t))) [
  | inl here ↦ begins-Free c p (d ∷ t) f here
  | inr later ↦ includes-Free c p t f.1 (rw later at h)
]

lower_code-Free_underscore : (c : ℕ) → c ≢ b'_' → Free b'_' (lower_code c)
unfolding lower_code
lower_code-Free_underscore c h = ground arith

pub to_lower-Free_underscore : (t : Text) → Free b'_' t → Free b'_' (to_lower t)
unfolding to_lower
to_lower-Free_underscore [] f = tt
to_lower-Free_underscore (c ∷ t) (n, f) =
    All-append _ (lower_code c) (to_lower t) (lower_code-Free_underscore c n)
      (to_lower-Free_underscore t f)
