-- ===== src/Base/Sets.antt =====
-- A JavaScript `Set` of texts: its members in the order of their first insertion.
use Prim.Native.String.{String}
use mathlib.Core.Path.{◌≡◌, refl, sym, ◌∙◌}
use mathlib.Core.Bool.{Bool, false, ◌&&◌, ◌||◌}
use mathlib.Core.Logic.{inl, inr, ◌≢◌}
use mathlib.Core.List.{List, [], ◌∷◌, ◌++◌, append-nil, append_assoc}
use native.Mathlib.Omega.{arith}
use text.Mathlib.Text.{◌==◌}
use text.Mathlib.TextEquality.{eq_iff}
use text.Mathlib.TextPositions.{eq_refl}
use openclawapp.Base.Tests.{if◌then◌else◌, Bool-cases}
use openclawapp.Base.Lists.{All, All-append, keep}

pub text_symm : (a b : String) → (a == b) ≡ (b == a)
text_symm a b = ground (arith, eq_iff a b, eq_iff b a)

pub text_ne : (a b : String) → a ≢ b → (a == b) ≡ false
text_ne a b h = ground (arith, eq_iff a b)

unfoldable pub contains : String → List String → Bool
contains a [] = false
contains a (x ∷ xs) = x == a || contains a xs

-- No text occurs twice.
abbrev pub Distinct : List String → Type 0
Distinct [] = Unit
Distinct (x ∷ xs) = (contains x xs ≡ false) × Distinct xs

-- `set.add(a)`
unfoldable pub set_add : List String → String → List String
set_add xs a = if contains a xs then xs else xs ++ a ∷ []

set_of_from : List String → List String → List String
set_of_from acc [] = acc
set_of_from acc (x ∷ xs) = set_of_from (set_add acc x) xs

-- `Array.from(new Set(xs))`
unfoldable pub set_of : List String → List String
unfolding set_of_from set_add contains
set_of xs = set_of_from [] xs

pub contains-append :
    (a : String) (xs ys : List String) → contains a (xs ++ ys) ≡ (contains a xs || contains a ys)
unfolding contains
contains-append a [] ys = refl
contains-append a (x ∷ xs) ys = ground (arith, contains-append a xs ys)

pub contains-single : (a b : String) → contains a (b ∷ []) ≡ (b == a)
unfolding contains
contains-single a b = ground arith

pub contains-cons :
    (a x : String) (xs : List String) → contains a (x ∷ xs) ≡ (x == a || contains a xs)
unfolding contains
contains-cons a x xs = refl

pub contains-nil : (a : String) → contains a [] ≡ false
unfolding contains
contains-nil a = refl

pub contains-keep :
    (a : String) (p : String → Bool) (xs : List String)
    → contains a (keep p xs) ≡ (p a && contains a xs)
unfolding contains
contains-keep a p [] = ground arith
contains-keep a p (x ∷ xs) = elim (Bool-cases (x == a)) [
  | inl e ↦ rw ((eq_iff x a).0 e) (ground (arith, contains-keep a p xs, eq_refl a))
  | inr e ↦ ground (arith, contains-keep a p xs)
]

pub contains-set_add :
    (a b : String) (xs : List String) → contains a (set_add xs b) ≡ (contains a xs || b == a)
unfolding set_add
contains-set_add a b xs = elim (Bool-cases (b == a)) [
  | inl e ↦
      rw ((eq_iff b a).0 e)
        (ground (arith, contains-append a xs (a ∷ []), contains-single a a, eq_refl a))
  | inr e ↦ ground (arith, contains-append a xs (b ∷ []), contains-single a b)
]

pub Distinct-append_single :
    (xs : List String) (a : String) → Distinct xs → contains a xs ≡ false → Distinct (xs ++ a ∷ [])
unfolding contains
Distinct-append_single [] a d h = (refl, tt)
Distinct-append_single (x ∷ xs) a (n, d) h = (
  ground (arith, contains-append x xs (a ∷ []), contains-single x a, text_symm x a),
  Distinct-append_single xs a d (ground arith),
)

pub Distinct-set_add : (xs : List String) (a : String) → Distinct xs → Distinct (set_add xs a)
unfolding set_add
Distinct-set_add xs a d = elim (Bool-cases (contains a xs)) [
  | inl e ↦ rw e d
  | inr e ↦ rw e (Distinct-append_single xs a d e)
]

contains-set_of_from :
    (a : String) (acc xs : List String)
    → contains a (set_of_from acc xs) ≡ (contains a acc || contains a xs)
unfolding set_of_from contains
contains-set_of_from a acc [] = ground arith
contains-set_of_from a acc (x ∷ xs) =
    ground (arith, contains-set_of_from a (set_add acc x) xs, contains-set_add a x acc)

Distinct-set_of_from : (acc xs : List String) → Distinct acc → Distinct (set_of_from acc xs)
unfolding set_of_from
Distinct-set_of_from acc [] d = d
Distinct-set_of_from acc (x ∷ xs) d =
    Distinct-set_of_from (set_add acc x) xs (Distinct-set_add acc x d)

pub contains-set_of : (a : String) (xs : List String) → contains a (set_of xs) ≡ contains a xs
unfolding set_of
contains-set_of a xs = ground (arith, contains-set_of_from a [] xs, contains-nil a)

pub set_of-Distinct : (xs : List String) → Distinct (set_of xs)
unfolding set_of
set_of-Distinct xs = Distinct-set_of_from [] xs tt

Distinct-middle :
    (acc : List String) (x : String) (xs : List String)
    → Distinct (acc ++ x ∷ xs)
    → contains x acc ≡ false
unfolding contains
Distinct-middle [] x xs d = refl
Distinct-middle (a ∷ acc) x xs (n, d) = ground (
  arith,
  contains-append a acc (x ∷ xs),
  contains-cons a x xs,
  text_symm a x,
  Distinct-middle acc x xs d,
)

set_of_from-Distinct :
    (acc xs : List String) → Distinct (acc ++ xs) → set_of_from acc xs ≡ acc ++ xs
unfolding set_of_from set_add
set_of_from-Distinct acc [] d = sym (append-nil acc)
set_of_from-Distinct acc (x ∷ xs) d =
    rw (Distinct-middle acc x xs d)
      (set_of_from-Distinct (acc ++ x ∷ []) xs (rw append_assoc d) ∙ append_assoc acc (x ∷ []) xs)

-- A list without repetitions is its own set.
pub set_of_of_Distinct : (xs : List String) → Distinct xs → set_of xs ≡ xs
unfolding set_of
set_of_of_Distinct xs d = set_of_from-Distinct [] xs d

pub Distinct-keep : (p : String → Bool) (xs : List String) → Distinct xs → Distinct (keep p xs)
Distinct-keep p [] d = tt
Distinct-keep p (x ∷ xs) (n, d) = elim (Bool-cases (p x)) [
  | inl e ↦ rw e (ground (arith, contains-keep x p xs), Distinct-keep p xs d)
  | inr e ↦ rw e (Distinct-keep p xs d)
]

All-set_add :
    (P : String → Type 0) (xs : List String) (a : String) → All P xs → P a → All P (set_add xs a)
unfolding set_add
All-set_add P xs a h p = elim (Bool-cases (contains a xs)) [
  | inl e ↦ rw e h
  | inr e ↦ rw e (All-append P xs (a ∷ []) h (p, tt))
]

All-set_of_from :
    (P : String → Type 0) (acc xs : List String) → All P acc → All P xs → All P (set_of_from acc xs)
unfolding set_of_from
All-set_of_from P acc [] h k = h
All-set_of_from P acc (x ∷ xs) h (p, k) =
    All-set_of_from P (set_add acc x) xs (All-set_add P acc x h p) k

pub All-set_of : (P : String → Type 0) (xs : List String) → All P xs → All P (set_of xs)
unfolding set_of
All-set_of P xs h = All-set_of_from P [] xs tt h
