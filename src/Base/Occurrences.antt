-- ===== src/Base/Occurrences.antt =====
-- Occurrences in a list: how often a text stands in it, and where an element does.
use Prim.Native.Nat.{ℕ, suc, ◌+◌, ◌≤◌, Ordering}
use Prim.Native.String.{String}
use mathlib.Core.Path.{◌≡◌, refl, ap}
use mathlib.Core.Bool.{Bool, true}
use mathlib.Core.Logic.{inl, inr, ◌⊎◌}
use mathlib.Core.List.{List, [], ◌∷◌, ◌++◌, map}
use native.Mathlib.Omega.{arith}
use text.Mathlib.Text.{◌==◌}
use text.Mathlib.TextEquality.{eq_iff}
use text.Mathlib.TextPositions.{eq_refl}
use openclawapp.Base.Tests.{ltb, if◌then◌else◌, Bool-cases}
use openclawapp.Base.Lists.{keep}
use openclawapp.Base.Sets.{contains, Distinct}
use openclawapp.Base.Sort.{sort, insert_sorted, not_after}

unfoldable pub tally : String → List String → ℕ
tally a [] = 0
tally a (x ∷ xs) = if x == a then suc (tally a xs) else tally a xs

pub tally-append : (a : String) (xs ys : List String) → tally a (xs ++ ys) ≡ tally a xs + tally a ys
unfolding tally
tally-append a [] ys = omega arith
tally-append a (x ∷ xs) ys = ground (arith, tally-append a xs ys)

pub contains-tally : (a : String) (xs : List String) → contains a xs ≡ ltb 0 (tally a xs)
unfolding tally contains
contains-tally a [] = refl
contains-tally a (x ∷ xs) = ground (arith, contains-tally a xs)

pub tally-Distinct : (a : String) (xs : List String) → Distinct xs → tally a xs ≤ 1
unfolding tally
tally-Distinct a [] d = omega arith
tally-Distinct a (x ∷ xs) (n, d) =
    ground (arith, tally-Distinct a xs d, contains-tally x xs, eq_iff x a)

pub Distinct-of_tally : (xs : List String) → ((a : String) → tally a xs ≤ 1) → Distinct xs
unfolding tally
Distinct-of_tally [] h = tt
Distinct-of_tally (x ∷ xs) h = (
  ground (arith, h x, contains-tally x xs, eq_refl x),
  Distinct-of_tally xs (λ a. ground (arith, h a)),
)

-- `x` is an element of the list.
abbrev pub In : {A : Type 0} → A → List A → Type 0
In x [] = ⊥
In x (y ∷ ys) = (y ≡ x) ⊎ In x ys

pub contains-In :
    {A : Type 0} (id : A → String) (x : A) (xs : List A)
    → In x xs
    → contains (id x) (map id xs) ≡ true
unfolding contains
contains-In id x [] i = absurd i
contains-In id x (y ∷ xs) (inl e) = rw (e, eq_refl (id x))
contains-In id x (y ∷ xs) (inr i) = ground (arith, contains-In id x xs i)

-- A member whose id is given.
pub In-of_contains :
    {A : Type 0} (id : A → String) (a : String) (xs : List A)
    → contains a (map id xs) ≡ true
    → (x : A) × In x xs × (id x ≡ a)
unfolding contains
In-of_contains id a [] h = cc
In-of_contains id a (x ∷ xs) h = elim (Bool-cases (id x == a)) [
  | inl e ↦ (x, inl refl, (eq_iff (id x) a).0 e)
  | inr e ↦ let (y, i, f) = In-of_contains id a xs (ground arith) in (y, inr i, f)
]

-- Members with the same id are the same, where ids are distinct.
pub In-unique :
    {A : Type 0} (id : A → String) (x y : A) (xs : List A)
    → Distinct (map id xs)
    → In x xs
    → In y xs
    → id x ≡ id y
    → x ≡ y
In-unique id x y [] d i j e = absurd i
In-unique id x y (z ∷ xs) (n, d) (inl p) (inl q) e = cc
In-unique id x y (z ∷ xs) (n, d) (inl p) (inr j) e = absurd (cc (contains-In id y xs j, ap id p))
In-unique id x y (z ∷ xs) (n, d) (inr i) (inl q) e = absurd (cc (contains-In id x xs i, ap id q))
In-unique id x y (z ∷ xs) (n, d) (inr i) (inr j) e = In-unique id x y xs d i j e

pub In-append_left : {A : Type 0} (x : A) (xs ys : List A) → In x xs → In x (xs ++ ys)
In-append_left x [] ys i = absurd i
In-append_left x (y ∷ xs) ys (inl e) = inl e
In-append_left x (y ∷ xs) ys (inr i) = inr (In-append_left x xs ys i)

pub In-append_right : {A : Type 0} (x : A) (xs ys : List A) → In x ys → In x (xs ++ ys)
In-append_right x [] ys i = i
In-append_right x (y ∷ xs) ys i = inr (In-append_right x xs ys i)

pub In-keep :
    {A : Type 0} (p : A → Bool) (x : A) (xs : List A) → In x xs → p x ≡ true → In x (keep p xs)
In-keep p x [] i h = absurd i
In-keep p x (y ∷ xs) (inl e) h = rw (e, h) (inl refl)
In-keep p x (y ∷ xs) (inr i) h = elim (Bool-cases (p y)) [
  | inl e ↦ rw e (inr (In-keep p x xs i h))
  | inr e ↦ rw e (In-keep p x xs i h)
]

tally-insert_sorted_text :
    (compare : String → String → Ordering) (a x : String) (xs : List String)
    → tally a (insert_sorted compare x xs) ≡ tally a (x ∷ xs)
unfolding insert_sorted tally
tally-insert_sorted_text compare a x [] = refl
tally-insert_sorted_text compare a x (y ∷ ys) = elim (Bool-cases (not_after compare x y)) [
  | inl e ↦ rw e
  | inr e ↦ rw e (ground (arith, tally-insert_sorted_text compare a x ys))
]

tally-sort_text :
    (compare : String → String → Ordering) (a : String) (xs : List String)
    → tally a (sort compare xs) ≡ tally a xs
unfolding sort tally
tally-sort_text compare a [] = refl
tally-sort_text compare a (x ∷ xs) =
    ground
      (arith, tally-insert_sorted_text compare a x (sort compare xs), tally-sort_text compare a xs)

-- Sorting keeps the members.
pub contains-sort :
    (compare : String → String → Ordering) (a : String) (xs : List String)
    → contains a (sort compare xs) ≡ contains a xs
contains-sort compare a xs =
    ground
      (arith, contains-tally a (sort compare xs), contains-tally a xs, tally-sort_text compare a xs)

In-insert_sorted :
    {A : Type 0} (compare : A → A → Ordering) (x y : A) (xs : List A)
    → (x ≡ y) ⊎ In y xs
    → In y (insert_sorted compare x xs)
unfolding insert_sorted
In-insert_sorted compare x y [] (inl e) = inl e
In-insert_sorted compare x y [] (inr i) = absurd i
In-insert_sorted compare x y (z ∷ zs) i = elim (Bool-cases (not_after compare x z)) [
  | inl e ↦ rw e i
  | inr e ↦ rw e (later i (λ j. In-insert_sorted compare x y zs j))
]
  where
    later :
        (x ≡ y) ⊎ ((z ≡ y) ⊎ In y zs)
        → ((x ≡ y) ⊎ In y zs → In y (insert_sorted compare x zs))
        → (z ≡ y) ⊎ In y (insert_sorted compare x zs)
    later (inl p) next = inr (next (inl p))
    later (inr (inl p)) next = inl p
    later (inr (inr j)) next = inr (next (inr j))

-- Sorting loses no member.
pub In-sort :
    {A : Type 0} (compare : A → A → Ordering) (x : A) (xs : List A)
    → In x xs
    → In x (sort compare xs)
unfolding sort
In-sort compare x [] i = absurd i
In-sort compare x (y ∷ ys) (inl e) = In-insert_sorted compare y x (sort compare ys) (inl e)
In-sort compare x (y ∷ ys) (inr i) =
    In-insert_sorted compare y x (sort compare ys) (inr (In-sort compare x ys i))
