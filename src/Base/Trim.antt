-- ===== src/Base/Trim.antt =====
-- `String.prototype.trim` on texts.
use Prim.Native.Nat.{ℕ}
use mathlib.Core.Path.{◌≡◌, refl, ap}
use mathlib.Core.Bool.{Bool, true, false, ◌&&◌, ◌||◌}
use native.Mathlib.Omega.{arith}
use mathlib.Core.List.{[], ◌∷◌}
use delego.Base.Tests.{leb, ◌==◌, if◌then◌else◌, Bool-cases}
use delego.Base.Text.{Text}
use delego.Base.Lists.{All}
use mathlib.Core.Logic.{inl, inr}

-- White space and line ends of ECMAScript.
abbrev pub is_space : ℕ → Bool
is_space c =
    (leb 9 c && leb c 13)
    || c == 32
    || c == 0xa0
    || c == 0x1680
    || (leb 0x2000 c && leb c 0x200a)
    || c == 0x2028
    || c == 0x2029
    || c == 0x202f
    || c == 0x205f
    || c == 0x3000
    || c == 0xfeff

abbrev pub all_space : Text → Bool
all_space [] = true
all_space (c ∷ cs) = is_space c && all_space cs

abbrev pub Solid : Text → Type 0
Solid = All (λ c. is_space c ≡ false)

unfoldable pub trim_start : Text → Text
trim_start [] = []
trim_start (c ∷ cs) = if is_space c then trim_start cs else c ∷ cs

end_with : (blank : Bool) → ℕ → Text → Text
end_with true c [] = []
end_with blank c rest = c ∷ rest

unfoldable pub trim_end : Text → Text
unfolding end_with
trim_end [] = []
trim_end (c ∷ cs) = end_with (is_space c) c (trim_end cs)

unfoldable pub trim : Text → Text
unfolding trim_start trim_end
trim t = trim_end (trim_start t)

Starts : Text → Type 0
Starts [] = Unit
Starts (c ∷ cs) = is_space c ≡ false

trim_start-Starts : (t : Text) → Starts (trim_start t)
unfolding trim_start Starts
trim_start-Starts [] = tt
trim_start-Starts (c ∷ cs) = elim (Bool-cases (is_space c)) [
  | inl space ↦ rw space (trim_start-Starts cs)
  | inr solid ↦ rw solid solid
]

trim_start_id : (t : Text) → Starts t → trim_start t ≡ t
unfolding trim_start Starts
trim_start_id [] h = refl
trim_start_id (c ∷ cs) h = rw h refl

trim_end-Starts : (t : Text) → Starts t → Starts (trim_end t)
unfolding trim_end Starts end_with
trim_end-Starts [] h = tt
trim_end-Starts (c ∷ cs) h = rw h h

trim_end-end_with :
    (b : Bool) (c : ℕ) (t : Text)
    → is_space c ≡ b
    → trim_end t ≡ t
    → trim_end (end_with b c t) ≡ end_with b c t
unfolding trim_end end_with
trim_end-end_with true c [] hc h = refl
trim_end-end_with true c (d ∷ t) hc h = rw hc (ap (end_with true c) h)
trim_end-end_with false c t hc h = rw hc (ap (c ∷◌) h)

trim_end-trim_end : (t : Text) → trim_end (trim_end t) ≡ trim_end t
unfolding trim_end
trim_end-trim_end [] = refl
trim_end-trim_end (c ∷ cs) = trim_end-end_with _ c (trim_end cs) refl (trim_end-trim_end cs)

-- Trimming a trimmed text changes nothing.
pub trim-trim : (t : Text) → trim (trim t) ≡ trim t
unfolding trim
trim-trim t =
    rw (trim_start_id _ (trim_end-Starts _ (trim_start-Starts t)))
      (trim_end-trim_end (trim_start t))

trim_start-Solid : (t : Text) → Solid t → trim_start t ≡ t
unfolding trim_start
trim_start-Solid [] h = refl
trim_start-Solid (c ∷ cs) (hc, hs) = rw hc refl

trim_end-Solid : (t : Text) → Solid t → trim_end t ≡ t
unfolding trim_end end_with
trim_end-Solid [] h = refl
trim_end-Solid (c ∷ cs) (hc, hs) = rw hc (ap (c ∷◌) (trim_end-Solid cs hs))

-- A text without white space is left alone.
pub trim-Solid : (t : Text) → Solid t → trim t ≡ t
unfolding trim
trim-Solid t h = rw (trim_start-Solid t h) (trim_end-Solid t h)

-- A text that is trimmed to nothing is white space.
pub all_space-trim : (t : Text) → all_space t ≡ true → trim t ≡ []
unfolding trim trim_start trim_end
all_space-trim [] h = refl
all_space-trim (c ∷ cs) h = elim (Bool-cases (is_space c)) [
  | inl space ↦ rw space (all_space-trim cs (rw space at h))
  | inr solid ↦ absurd (ground arith)
]
