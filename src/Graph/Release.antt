-- ===== src/Graph/Release.antt =====
-- Releasing the children of a node: the degrees fall by one, and what reaches zero becomes ready.
use Prim.Native.Nat.{ℕ, ◌+◌, ◌-◌, Ordering}
use Prim.Native.String.{String}
use mathlib.Core.Path.{◌≡◌, refl, sym, subst}
use mathlib.Core.Bool.{true, false, not, ◌&&◌}
use mathlib.Core.Logic.{inl, inr}
use mathlib.Core.Option.{some}
use mathlib.Core.List.{List, [], ◌∷◌, ◌++◌, map}
use native.Mathlib.Omega.{arith}
use text.Mathlib.Text.{◌==◌}
use text.Mathlib.TextEquality.{eq_iff}
use text.Mathlib.TextPositions.{eq_refl}
use openclawapp.Base.{
  eqb, if◌then◌else◌, Bool-cases, length, keep, find, All, All-append, contains, Distinct, sort,
  contains-append, not_after,
}
use openclawapp.Base.Sets.{contains-single}
use openclawapp.Base.Sort.{insert_sorted}
use openclawapp.Base.Occurrences.{In, tally}
use openclawapp.Graph.{degree, Queue, release, release_all}
use openclawapp.Graph.Edges.{degree-insert}

-- The parents that are not done.
unfoldable pub remaining : List String → List String → ℕ
remaining done ps = length (keep (λ p. not (contains p done)) ps)

remaining-same :
    (done : List String) (c : String) (ps : List String)
    → contains c ps ≡ false
    → remaining (done ++ c ∷ []) ps ≡ remaining done ps
unfolding remaining contains
remaining-same done c [] h = refl
remaining-same done c (p ∷ ps) h = ground (
  arith,
  remaining-same done c ps,
  contains-append p done (c ∷ []),
  contains-single p c,
  eq_iff p c,
  eq_iff c p,
)

-- A node that is done leaves the count of those that it is a parent of.
pub remaining-concat :
    (done : List String) (c : String) (ps : List String)
    → contains c done ≡ false
    → Distinct ps
    → remaining done ps ≡ remaining (done ++ c ∷ []) ps + (if contains c ps then 1 else 0)
unfolding remaining contains
remaining-concat done c [] h d = omega arith
remaining-concat done c (p ∷ ps) h (n, d) = elim (Bool-cases (p == c)) [
  | inl e ↦
      let same : p ≡ c = (eq_iff p c).0 e in
      subst
        (λ z.
          remaining done (z ∷ ps)
          ≡ remaining (done ++ c ∷ []) (z ∷ ps) + (if contains c (z ∷ ps) then 1 else 0))
        (sym same)
        (ground (
          arith,
          remaining-same done c ps (rw same at n),
          contains-append c done (c ∷ []),
          contains-single c c,
          eq_refl c,
        ))
  | inr e ↦ ground (
    arith,
    remaining-concat done c ps h d,
    contains-append p done (c ∷ []),
    contains-single p c,
    eq_iff p c,
    eq_iff c p,
  )
]

module _ {A : Type 0} (id : A → String) where
  tally-insert_sorted :
      (compare : A → A → Ordering) (a : String) (x : A) (xs : List A)
      → tally a (map id (insert_sorted compare x xs)) ≡ tally a (map id (x ∷ xs))
  unfolding insert_sorted tally
  tally-insert_sorted compare a x [] = refl
  tally-insert_sorted compare a x (y ∷ ys) = elim (Bool-cases (not_after compare x y)) [
    | inl e ↦ rw e
    | inr e ↦ rw e (ground (arith, tally-insert_sorted compare a x ys))
  ]

  pub tally-sort :
      (compare : A → A → Ordering) (a : String) (xs : List A)
      → tally a (map id (sort compare xs)) ≡ tally a (map id xs)
  unfolding sort tally
  tally-sort compare a [] = refl
  tally-sort compare a (x ∷ xs) =
      ground (arith, tally-insert_sorted compare a x (sort compare xs), tally-sort compare a xs)

  find-known :
      (c : String) (xs : List A)
      → contains c (map id xs) ≡ true
      → (x : A) × (find (λ y. id y == c) xs ≡ some x) × In x xs × (id x ≡ c)
  unfolding contains
  find-known c [] h = cc
  find-known c (x ∷ xs) h = elim (Bool-cases (id x == c)) [
    | inl e ↦ (x, rw e, inl refl, (eq_iff (id x) c).0 e)
    | inr e ↦ let (y, f, i, k) = find-known c xs (ground arith) in (y, rw e f, inr i, k)
  ]

  pub tally-concat :
      (a : String) (xs : List A) (x : A)
      → tally a (map id (xs ++ x ∷ [])) ≡ tally a (map id xs) + (if id x == a then 1 else 0)
  unfolding tally
  tally-concat a [] x = ground arith
  tally-concat a (y ∷ ys) x = ground (arith, tally-concat a ys x)

  module _ (parents : A → List String) (compare : A → A → Ordering) (nodes : List A) where
    release-known :
        (q : Queue id parents compare) (c : String)
        → contains c (map id nodes) ≡ true
        → (x : A) × In x nodes
          × (id x ≡ c)
          × ((release id parents compare nodes q c).ready
              ≡ (if eqb (degree c q.in_degree - 1) 0 then q.ready ++ x ∷ [] else q.ready))
    unfolding release
    release-known q c k = let (x, f, i, e) = find-known c nodes k in (x, i, e, rw f)

    tally-release :
        (q : Queue id parents compare) (c a : String)
        → contains c (map id nodes) ≡ true
        → tally a (map id (release id parents compare nodes q c).ready)
          ≡ tally a (map id q.ready) + (if c == a && eqb (degree a q.in_degree - 1) 0 then 1 else 0)
    tally-release q c a k =
        let (x, i, e, r) = release-known q c k in
        rw r (ground (arith, tally-concat a q.ready x, eq_iff c a))

    degree-release :
        (q : Queue id parents compare) (c a : String)
        → degree a (release id parents compare nodes q c).in_degree
          ≡ (if c == a then degree a q.in_degree - 1 else degree a q.in_degree)
    unfolding release
    degree-release q c a =
        ground (arith, degree-insert c a (degree c q.in_degree - 1) q.in_degree, eq_iff c a)

    pub degree-release_all :
        (q : Queue id parents compare) (cs : List String) (a : String)
        → Distinct cs
        → degree a (release_all id parents compare nodes q cs).in_degree
          ≡ (if contains a cs then degree a q.in_degree - 1 else degree a q.in_degree)
    unfolding release_all contains
    degree-release_all q [] a d = refl
    degree-release_all q (c ∷ cs) a (n, d) = ground (
      arith,
      degree-release_all (release id parents compare nodes q c) cs a d,
      degree-release q c a,
      eq_iff c a,
    )

    pub ordered-release_all :
        (q : Queue id parents compare) (cs : List String)
        → (release_all id parents compare nodes q cs).ordered ≡ q.ordered
    unfolding release_all release
    ordered-release_all q [] = refl
    ordered-release_all q (c ∷ cs) = ordered-release_all (release id parents compare nodes q c) cs

    pub tally-release_all :
        (q : Queue id parents compare) (cs : List String) (a : String)
        → Distinct cs
        → ((c : String) → contains c cs ≡ true → contains c (map id nodes) ≡ true)
        → tally a (map id (release_all id parents compare nodes q cs).ready)
          ≡ tally a (map id q.ready)
            + (if contains a cs && eqb (degree a q.in_degree - 1) 0 then 1 else 0)
    unfolding release_all contains
    tally-release_all q [] a d k = omega arith
    tally-release_all q (c ∷ cs) a (n, d) k = ground (
      arith,
      tally-release_all (release id parents compare nodes q c) cs a d (λ b h. k b (ground arith)),
      tally-release q c a (k c (rw (eq_refl c))),
      degree-release q c a,
      eq_iff c a,
    )

    pub In-release_all :
        (q : Queue id parents compare) (cs : List String)
        → ((c : String) → contains c cs ≡ true → contains c (map id nodes) ≡ true)
        → All (λ x. In x nodes) q.ready
        → All (λ x. In x nodes) (release_all id parents compare nodes q cs).ready
    unfolding release_all contains
    In-release_all q [] k h = h
    In-release_all q (c ∷ cs) k h =
        let (x, i, e, r) = release-known q c (k c (rw (eq_refl c))) in
        In-release_all (release id parents compare nodes q c) cs (λ b e. k b (ground arith))
          (rw r (elim (Bool-cases (eqb (degree c q.in_degree - 1) 0)) [
            | inl t ↦ rw t (All-append (λ x. In x nodes) q.ready (x ∷ []) h (i, tt))
            | inr t ↦ rw t h
          ]))
