-- ===== src/Base/Sort.antt =====
-- `xs.sort(compare)`, which is stable: insertion of each element in front of the greater ones.
use Prim.Native.Nat.{Ordering}
use mathlib.Core.Path.{◌≡◌}
use mathlib.Core.Bool.{Bool, true, false}
use mathlib.Core.Logic.{inl, inr}
use mathlib.Core.List.Perm
use mathlib.Core.List.{List, [], ◌∷◌, Perm}
use openclawapp.Base.Tests.{if◌then◌else◌, Bool-cases}
use openclawapp.Base.Lists.{All}

-- `a` may stand in front of `b`: `compare(a, b) <= 0`.
abbrev pub not_after {ℓ} : {A : Type ℓ} → (A → A → Ordering) → A → A → Bool
not_after compare a b = elim (compare a b) [ Ordering.gt ↦ false | _ ↦ true ]

module _ {ℓ} {A : Type ℓ} (compare : A → A → Ordering) where
  unfoldable pub insert_sorted : A → List A → List A
  insert_sorted x [] = x ∷ []
  insert_sorted x (y ∷ ys) = if not_after compare x y then x ∷ y ∷ ys else y ∷ insert_sorted x ys

  unfoldable pub sort : List A → List A
  unfolding insert_sorted
  sort [] = []
  sort (x ∷ xs) = insert_sorted x (sort xs)

  -- Each element may stand in front of all that follow it.
  abbrev pub IsSorted : List A → Type ℓ
  IsSorted [] = Unit
  IsSorted (x ∷ xs) = All (λ y. not_after compare x y ≡ true) xs × IsSorted xs

  insert_sorted-perm : (x : A) (xs : List A) → Perm (insert_sorted x xs) (x ∷ xs)
  unfolding insert_sorted
  insert_sorted-perm x [] = Perm.rfl
  insert_sorted-perm x (y ∷ ys) = elim (Bool-cases (not_after compare x y)) [
    | inl e ↦ rw e Perm.rfl
    | inr e ↦ rw e (Perm.trans (Perm.cons y (insert_sorted-perm x ys)) (Perm.swap x y ys))
  ]

  pub sort-perm : (xs : List A) → Perm (sort xs) xs
  unfolding sort
  sort-perm [] = Perm.rfl
  sort-perm (x ∷ xs) = Perm.trans (insert_sorted-perm x (sort xs)) (Perm.cons x (sort-perm xs))

  pub All-insert_sorted {κ} :
      (P : A → Type κ) (x : A) (xs : List A) → P x → All P xs → All P (insert_sorted x xs)
  unfolding insert_sorted
  All-insert_sorted P x [] p h = (p, tt)
  All-insert_sorted P x (y ∷ ys) p (q, h) = elim (Bool-cases (not_after compare x y)) [
    | inl e ↦ rw e (p, (q, h))
    | inr e ↦ rw e (q, All-insert_sorted P x ys p h)
  ]

  pub All-sort {κ} : (P : A → Type κ) (xs : List A) → All P xs → All P (sort xs)
  unfolding sort
  All-sort P [] h = tt
  All-sort P (x ∷ xs) (p, h) = All-insert_sorted P x (sort xs) p (All-sort P xs h)

-- A consistent comparator, as far as sorting needs it.
pub record IsConsistent {ℓ} {A : Type ℓ} (compare : A → A → Ordering) : Type ℓ where
  pub total : (a b : A) → not_after compare a b ≡ false → not_after compare b a ≡ true
  pub trans :
      (a b c : A)
      → not_after compare a b ≡ true
      → not_after compare b c ≡ true
      → not_after compare a c ≡ true

module _ {ℓ} {A : Type ℓ} (compare : A → A → Ordering) (c : IsConsistent compare) where
  All-trans :
      (x y : A) (ys : List A)
      → not_after compare x y ≡ true
      → All (λ z. not_after compare y z ≡ true) ys
      → All (λ z. not_after compare x z ≡ true) ys
  All-trans x y [] e h = tt
  All-trans x y (z ∷ zs) e (p, h) = (c.trans x y z e p, All-trans x y zs e h)

  insert_sorted-IsSorted :
      (x : A) (xs : List A) → IsSorted compare xs → IsSorted compare (insert_sorted compare x xs)
  unfolding insert_sorted
  insert_sorted-IsSorted x [] s = (tt, tt)
  insert_sorted-IsSorted x (y ∷ ys) (h, s) = elim (Bool-cases (not_after compare x y)) [
    | inl e ↦ rw e ((e, All-trans x y ys e h), (h, s))
    | inr e ↦ rw e (
      All-insert_sorted compare (λ z. not_after compare y z ≡ true) x ys (c.total x y e) h,
      insert_sorted-IsSorted x ys s,
    )
  ]

  pub sort-IsSorted : (xs : List A) → IsSorted compare (sort compare xs)
  unfolding sort
  sort-IsSorted [] = tt
  sort-IsSorted (x ∷ xs) = insert_sorted-IsSorted x (sort compare xs) (sort-IsSorted xs)
