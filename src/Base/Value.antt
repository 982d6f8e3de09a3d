-- ===== src/Base/Value.antt =====
-- A JavaScript value of type `unknown`: a tree of what the code tells apart. An array and a date
-- are objects with no field of the names that are read; numbers are integers.
use Prim.Native.Nat.{ℕ}
use Prim.Native.String.{String}
use mathlib.Core.Bool.{Bool, true, false}
use text.Mathlib.Text.{◌==◌ as str_eq}
use delego.Base.Tests.{if◌then◌else◌}
use delego.Base.Int.{ℤ}

mutual
  pub data Value : Type 0 where
    undefined null : Value
    bool : Bool → Value
    num bigint : ℤ → Value
    date : ℕ → Value
    str : String → Value
    arr : Elements → Value
    obj : Members → Value

  pub data Elements : Type 0 where
    no_elements : Elements
    element : Value → Elements → Elements

  pub data Members : Type 0 where
    no_members : Members
    member : String → Value → Members → Members

member_of : String → Members → Value
member_of k no_members = undefined
member_of k (member j v rest) = if str_eq j k then v else member_of k rest

-- `s[k]` of an object
unfoldable pub get : String → Value → Value
unfolding member_of
get k (obj ms) = member_of k ms
get k _ = undefined

-- `typeof v !== "object" || v === null`
abbrev pub not_object : Value → Bool
not_object (date _) = false
not_object (arr _) = false
not_object (obj _) = false
not_object _ = true
