-- ===== src/Crdt/Ids.antt =====
-- `normalizeCrdtId` and `normalizeCrdtParents` of packages/protocol/src/crdt.ts.
use Prim.Native.String.{String}
use mathlib.Core.Path.{◌≡◌, refl, ap, ◌∙◌}
use mathlib.Core.Bool.{false, not}
use mathlib.Core.Logic.{inl, inr}
use mathlib.Core.List.{List, [], ◌∷◌, map}
use openclawapp.Base.{Bool-cases, All, keep, Distinct, set_of, trim, trim_idem, is_empty}
use openclawapp.Base.Sets.{set_of-Distinct, set_of_of_Distinct, All-set_of}
use openclawapp.Base.Values.{Value, str, arr, elems, of_elems}

-- `typeof value === "string" ? value.trim() : ""`
unfoldable pub normalize_id : Value → String
normalize_id (str s) = trim s
normalize_id _ = ""

unfoldable pub normalize_parents : Value → List String
normalize_parents (arr values) =
    set_of (keep (λ i. not (is_empty i)) (map normalize_id (elems values)))
normalize_parents _ = []

-- A list of texts as a JavaScript value.
abbrev pub texts : List String → Value
texts xs = arr (of_elems (map (λ x. str x) xs))

-- A normalised id: trimmed and not empty.
abbrev pub IsId : String → Type 0
IsId i = (trim i ≡ i) × (is_empty i ≡ false)

normalize_id-trim : (v : Value) → trim (normalize_id v) ≡ normalize_id v
unfolding normalize_id trim
normalize_id-trim (str s) = trim_idem s
normalize_id-trim _ = refl

pub normalize_id-IsId : (v : Value) → is_empty (normalize_id v) ≡ false → IsId (normalize_id v)
normalize_id-IsId v h = (normalize_id-trim v, h)

pub normalize_id-str : (v : Value) → normalize_id (str (normalize_id v)) ≡ normalize_id v
unfolding normalize_id trim
normalize_id-str (str s) = trim_idem s
normalize_id-str _ = refl

map-normalize_id-All :
    (vs : List Value) → All IsId (keep (λ i. not (is_empty i)) (map normalize_id vs))
map-normalize_id-All [] = tt
map-normalize_id-All (v ∷ vs) = elim (Bool-cases (is_empty (normalize_id v))) [
  | inl e ↦ rw e (map-normalize_id-All vs)
  | inr e ↦ rw e ((normalize_id-trim v, e), map-normalize_id-All vs)
]

-- The normalised parents are distinct normalised ids, whatever the value.
pub normalize_parents_lem :
    (v : Value) → Distinct (normalize_parents v) × All IsId (normalize_parents v)
unfolding normalize_parents
normalize_parents_lem (arr vs) =
    (set_of-Distinct _, All-set_of IsId _ (map-normalize_id-All (elems vs)))
normalize_parents_lem _ = (tt, tt)

texts-IsId :
    (xs : List String)
    → All IsId xs
    → keep (λ i. not (is_empty i)) (map normalize_id (elems (of_elems (map (λ x. str x) xs)))) ≡ xs
unfolding normalize_id
texts-IsId [] h = refl
texts-IsId (x ∷ xs) ((t, n), h) = rw (t, n) (ap (λ l. x ∷ l) (texts-IsId xs h))

-- Normalising parents that are normalised changes nothing.
pub normalize_parents_of_normal :
    (xs : List String) → Distinct xs → All IsId xs → normalize_parents (texts xs) ≡ xs
unfolding normalize_parents
normalize_parents_of_normal xs d h = ap set_of (texts-IsId xs h) ∙ set_of_of_Distinct xs d

pub normalize_parents_idem :
    (v : Value) → normalize_parents (texts (normalize_parents v)) ≡ normalize_parents v
normalize_parents_idem v =
    let (d, h) = normalize_parents_lem v in normalize_parents_of_normal (normalize_parents v) d h
