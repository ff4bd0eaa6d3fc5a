-- ===== src/Base/Texts.antt =====
-- Texts: `String.prototype.trim`, and lists of texts used as the keys of a `Set`.
use Prim.Native.Nat.{ℕ}
use Prim.Native.Char.{code}
use Prim.Native.String.{String, [], ◌∷◌}
use mathlib.Core.Path.{◌≡◌, refl}
use mathlib.Core.Bool.{Bool, true, false, ◌&&◌, ◌||◌}
use mathlib.Core.Logic.{inl, inr}
use openclawapp.Base.Tests.{leb, eqb, if◌then◌else◌, Bool-cases}

-- The code points that ECMAScript counts as white space or line terminators.
unfoldable pub is_space : ℕ → Bool
is_space c =
    (leb 9 c && leb c 13)
    || (eqb c 32
        || (eqb c 160
            || (eqb c 5760
                || ((leb 8192 c && leb c 8202)
                    || (eqb c 8232
                        || (eqb c 8233
                            || (eqb c 8239 || (eqb c 8287 || (eqb c 12288 || eqb c 65279)))))))))

abbrev pub is_empty : String → Bool
is_empty [] = true
is_empty (c ∷ s) = false

trim_start : String → String
trim_start [] = []
trim_start (c ∷ s) = if is_space (code c) then trim_start s else c ∷ s

trim_end : String → String
trim_end [] = []
trim_end (c ∷ s) =
    let rest = trim_end s in if is_space (code c) && is_empty rest then [] else c ∷ rest

unfoldable pub trim : String → String
unfolding trim_start trim_end is_space
trim s = trim_end (trim_start s)

abbrev NoLead : String → Type 0
NoLead [] = Unit
NoLead (c ∷ s) = is_space (code c) ≡ false

trim_start-NoLead : (s : String) → NoLead (trim_start s)
unfolding trim_start
trim_start-NoLead [] = tt
trim_start-NoLead (c ∷ s) = elim (Bool-cases (is_space (code c))) [
  | inl e ↦ rw e (trim_start-NoLead s)
  | inr e ↦ rw e e
]

trim_start_of_NoLead : (s : String) → NoLead s → trim_start s ≡ s
unfolding trim_start
trim_start_of_NoLead [] h = refl
trim_start_of_NoLead (c ∷ s) h = rw h

trim_end-NoLead : (s : String) → NoLead s → NoLead (trim_end s)
unfolding trim_end
trim_end-NoLead [] h = tt
trim_end-NoLead (c ∷ s) h = rw h h

trim_end_idem : (s : String) → trim_end (trim_end s) ≡ trim_end s
unfolding trim_end
trim_end_idem [] = refl
trim_end_idem (c ∷ s) = elim (Bool-cases (is_space (code c) && is_empty (trim_end s))) [
  | inl e ↦ rw e
  | inr e ↦ rw e (simp (trim_end_idem s, e))
]

-- Trimming a second time changes nothing.
pub trim_idem : (s : String) → trim (trim s) ≡ trim s
unfolding trim
trim_idem s =
    rw
      (trim_start_of_NoLead (trim_end (trim_start s))
        (trim_end-NoLead (trim_start s) (trim_start-NoLead s)))
      (trim_end_idem (trim_start s))
