-- ===== src/Base/Units.antt =====
-- The default order of `Array.prototype.sort`: texts by their UTF-16 code units.
use Prim.Native.Nat.{ℕ, ◌+◌, ◌-◌, ◌/◌, ◌%◌, compare, Ordering}
use Prim.Native.Char.{code}
use Prim.Native.String.{String}
use mathlib.Core.List.{List, [], ◌∷◌}
use openclawapp.Base.Tests.{ltb, if◌then◌else◌}

-- A code point beyond the basic plane is a pair of surrogates.
abbrev code_units : String → List ℕ
code_units String.[] = []
code_units (String.◌∷◌ c s) =
    let rest = code_units s in
    if ltb (code c) 65536
    then code c ∷ rest
    else (55296 + (code c - 65536) / 1024) ∷ (56320 + (code c - 65536) % 1024) ∷ rest

compare_units : List ℕ → List ℕ → Ordering
compare_units [] [] = Ordering.eq
compare_units [] (b ∷ bs) = Ordering.lt
compare_units (a ∷ as_) [] = Ordering.gt
compare_units (a ∷ as_) (b ∷ bs) = elim (compare a b) [
  | Ordering.lt ↦ Ordering.lt
  | Ordering.gt ↦ Ordering.gt
  | Ordering.eq ↦ compare_units as_ bs
]

unfoldable pub text_order : String → String → Ordering
unfolding compare_units
text_order s t = compare_units (code_units s) (code_units t)
