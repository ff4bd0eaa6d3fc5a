-- ===== src/Graph/Order.antt =====
-- The loop ends with an empty queue, and what the analysis returns.
use Prim.Native.Nat.{ℕ, zero, suc, ◌≤◌, ◌<◌, Ordering}
use Prim.Native.String.{String}
use mathlib.Core.Path.{◌≡◌, refl, ap}
use mathlib.Core.Bool.{Bool, true, false, not}
use mathlib.Core.Logic.{inl, inr, ◌⊎◌}
use mathlib.Core.List.{List, [], ◌∷◌, ◌++◌, map, map-append}
use native.Mathlib.Omega.{arith}
use text.Mathlib.TextEquality.{eq_iff}
use text.Mathlib.TextPositions.{eq_refl}
use openclawapp.Base.{length, keep, contains, contains-append, Distinct}
use openclawapp.Base.Sets.{contains-single}
use openclawapp.Base.Occurrences.{In}
use openclawapp.Graph.{Queue, links, advance, drain, start, drained}
use openclawapp.Graph.Release.{remaining, ordered-release_all}
use openclawapp.Graph.Invariant.{
  IsBalanced, start-IsBalanced, advance-IsBalanced, current-In, not_before,
}

List-cases : {A : Type 0} (xs : List A) → (xs ≡ []) ⊎ ((y : A) × (ys : List A) × (xs ≡ y ∷ ys))
List-cases [] = inl refl
List-cases (y ∷ ys) = inr (y, ys, refl)

length-keep-le :
    {A : Type 0} (p q : A → Bool) (xs : List A)
    → ((y : A) → q y ≡ true → p y ≡ true)
    → length (keep q xs) ≤ length (keep p xs)
length-keep-le p q [] h = omega arith
length-keep-le p q (x ∷ xs) h = ground (arith, length-keep-le p q xs h, h x)

length-keep : {A : Type 0} (p : A → Bool) (xs : List A) → length (keep p xs) ≤ length xs
length-keep p [] = omega arith
length-keep p (x ∷ xs) = ground (arith, length-keep p xs)

length-keep-lt :
    {A : Type 0} (p q : A → Bool) (x : A) (xs : List A)
    → ((y : A) → q y ≡ true → p y ≡ true)
    → In x xs
    → p x ≡ true
    → q x ≡ false
    → length (keep q xs) < length (keep p xs)
length-keep-lt p q x [] h i a b = absurd i
length-keep-lt p q x (y ∷ xs) h (inl e) a b =
    ground (arith, length-keep-le p q xs h, ap p e, ap q e)
length-keep-lt p q x (y ∷ xs) h (inr i) a b = ground (arith, length-keep-lt p q x xs h i a b, h y)

pub remaining-zero :
    (done ps : List String)
    → ((p : String) → contains p ps ≡ true → contains p done ≡ true)
    → remaining done ps ≡ 0
unfolding remaining contains
remaining-zero done [] h = refl
remaining-zero done (p ∷ ps) h =
    ground (arith, remaining-zero done ps (λ q e. h q (ground arith)), h p, eq_refl p)

pub done_of_remaining-zero :
    (done ps : List String)
    → remaining done ps ≡ 0
    → (p : String) → contains p ps ≡ true
    → contains p done ≡ true
unfolding remaining contains
done_of_remaining-zero done [] e p h = cc
done_of_remaining-zero done (q ∷ ps) e p h =
    ground (arith, done_of_remaining-zero done ps (ground arith) p, eq_iff q p)

module _ {A : Type 0} (id : A → String) (parents : A → List String) (compare : A → A → Ordering)
    (nodes : List A) (distinct : Distinct (map id nodes))
    (parents_distinct : (x : A) → Distinct (parents x)) where
  abbrev is_out : List A → A → Bool
  is_out out x = not (contains (id x) (map id out))

  -- How many nodes have not left the queue.
  unplaced : List A → ℕ
  unplaced out = length (keep (is_out out) nodes)

  unplaced-le : (out : List A) → unplaced out ≤ length nodes
  unfolding unplaced
  unplaced-le out = length-keep (is_out out) nodes

  unplaced-lt :
      (out : List A) (x : A)
      → In x nodes
      → contains (id x) (map id out) ≡ false
      → unplaced (out ++ x ∷ []) < unplaced out
  unfolding unplaced
  unplaced-lt out x i h =
      length-keep-lt (is_out out) (is_out (out ++ x ∷ [])) x nodes
        (λ y e. ground (arith, rw map-append at e, contains-append (id y) (map id out) (id x ∷ [])))
        i (rw h)
        (ground (
          arith,
          ap (contains (id x)) (map-append id out (x ∷ [])),
          contains-append (id x) (map id out) (id x ∷ []),
          contains-single (id x) (id x),
          eq_refl (id x),
        ))

  fewer_out :
      (q : Queue id parents compare)
      → IsBalanced id parents compare nodes q
      → (c : A) (rest : List A) → q.ready ≡ c ∷ rest
      → unplaced (q.ordered ++ c ∷ []) < unplaced q.ordered
  fewer_out q b c rest e =
      unplaced-lt q.ordered c
        (current-In id parents compare nodes distinct parents_distinct q b c rest e)
        (not_before id parents compare nodes distinct parents_distinct q b c rest e)

  module _ (children : List (String × List String)) where
    drain_done :
        (fuel : ℕ) (q : Queue id parents compare)
        → q.ready ≡ []
        → drain id parents compare nodes fuel children q ≡ q
    unfolding drain
    drain_done zero q e = refl
    drain_done (suc fuel) q e = simp (e, drain)

    drain_step :
        (fuel : ℕ) (q : Queue id parents compare) (c : A) (rest : List A)
        → q.ready ≡ c ∷ rest
        → drain id parents compare nodes (suc fuel) children q
          ≡ drain id parents compare nodes fuel children
              (advance id parents compare nodes children q c rest)
    unfolding drain
    drain_step fuel q c rest e = simp (e, drain)

  ordered-advance :
      (children : List (String × List String)) (q : Queue id parents compare) (c : A)
      (rest : List A)
      → (advance id parents compare nodes children q c rest).ordered ≡ q.ordered ++ c ∷ []
  unfolding advance
  ordered-advance children q c rest = ordered-release_all id parents compare nodes _ _

  -- With fuel for the nodes that are not out yet, the loop ends by its test.
  drain_ends :
      (fuel : ℕ) (q : Queue id parents compare)
      → IsBalanced id parents compare nodes q
      → unplaced q.ordered ≤ fuel
      → IsBalanced id parents compare nodes
          (drain id parents compare nodes fuel (links id parents compare nodes).children q)
        × ((drain id parents compare nodes fuel (links id parents compare nodes).children q).ready
            ≡ [])
  drain_ends zero q b le = elim (List-cases q.ready) [
    | inl e ↦ rw (drain_done _ zero q e) (b, e)
    | inr (c, rest, e) ↦ absurd (omega (arith, fewer_out q b c rest e))
  ]
  drain_ends (suc fuel) q b le = elim (List-cases q.ready) [
    | inl e ↦ rw (drain_done _ (suc fuel) q e) (b, e)
    | inr (c, rest, e) ↦ rw (drain_step _ fuel q c rest e) (
        drain_ends fuel
          (advance id parents compare nodes (links id parents compare nodes).children q c rest)
          (advance-IsBalanced id parents compare nodes distinct parents_distinct q b c rest e)
          (rw ordered-advance (omega (arith, fewer_out q b c rest e))))
  ]

  pub drained_ends :
      IsBalanced id parents compare nodes (drained id parents compare nodes)
      × ((drained id parents compare nodes).ready ≡ [])
  unfolding drained
  drained_ends =
      drain_ends (length nodes) (start id parents compare nodes)
        (start-IsBalanced id parents compare nodes distinct)
        (unplaced-le (start id parents compare nodes).ordered)
