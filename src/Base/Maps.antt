-- ===== src/Base/Maps.antt =====
-- A JavaScript `Map` or `Set` with text keys, as an association list in insertion order.
use Prim.Native.String.{String}
use mathlib.Core.Path.{◌≡◌, refl}
use mathlib.Core.Option.{Option, none, some}
use mathlib.Core.List.{List, [], ◌∷◌}
use native.Mathlib.Omega.{arith}
use text.Mathlib.Text.{◌==◌ as str_eq}
use text.Mathlib.TextEquality.{eq_iff}
use delego.Base.Tests.{if◌then◌else◌}

abbrev pub Map {ℓ} : Type ℓ → Type ℓ
Map V = List (String × V)

module _ {ℓ} {V : Type ℓ} where
  -- `Map.prototype.get`
  unfoldable pub lookup : String → Map V → Option V
  lookup key [] = none
  lookup key (entry ∷ rest) = if str_eq entry.0 key then some entry.1 else lookup key rest

  -- `Map.prototype.set`: a key that is there keeps its place.
  unfoldable pub insert : String → V → Map V → Map V
  insert key value [] = (key, value) ∷ []
  insert key value (entry ∷ rest) =
      if str_eq entry.0 key then (key, value) ∷ rest else entry ∷ insert key value rest

  pub lookup-insert :
      (map : Map V) (key other : String) (value : V)
      → lookup other (insert key value map)
        ≡ (if str_eq key other then some value else lookup other map)
  unfolding lookup insert
  lookup-insert [] key other value = refl
  lookup-insert (entry ∷ rest) key other value = ground (
    arith,
    eq_iff key other,
    eq_iff entry.0 other,
    eq_iff entry.0 key,
    lookup-insert rest key other value,
  )
