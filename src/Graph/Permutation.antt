-- ===== src/Graph/Permutation.antt =====
-- The analysis only permutes its nodes; causality in terms of ids; the missing parents.
use Prim.Native.Nat.{◌≤◌, Ordering}
use Prim.Native.String.{String}
use mathlib.Core.Path.{◌≡◌, sym, ◌∙◌, subst}
use mathlib.Core.Bool.{Bool, true, not, ◌&&◌, ◌||◌}
use mathlib.Core.HLevel.{⊥_prop}
use mathlib.Core.Logic.{inl, inr, ∥∥₁_elim, ∥∥₁_map}
use mathlib.Core.List.{
  List, [], ◌∷◌, ◌++◌, map, Memᴰ, Nodup, Nodup-nil, Nodup-cons, Perm, perm_ext_iff_of_Nodup,
}
use native.Mathlib.Omega.{arith}
use openclawapp.Base.{Bool-cases, keep, contains, Distinct}
use openclawapp.Base.Sets.{contains-keep, contains-nil}
use openclawapp.Base.Occurrences.{
  In, tally, contains-tally, contains-In, In-of_contains, In-unique, Distinct-of_tally,
}
use openclawapp.Graph.{Links, link, link_all, links, ordered}
use openclawapp.Graph.Edges.{contains-add_all, Distinct-add_all, no_links, links_lem}
use openclawapp.Graph.Order.{done_of_remaining-zero}
use openclawapp.Graph.Results.{tally-ordered, ordered-In, contains-ordered, names}
use openclawapp.Graph.Invariant.{All-In, IsCausal}

Mem_of_In : {A : Type 0} (x : A) (xs : List A) → In x xs → Memᴰ x xs
Mem_of_In x [] i = absurd i
Mem_of_In x (y ∷ xs) (inl e) = Memᴰ.head (sym e)
Mem_of_In x (y ∷ xs) (inr i) = Memᴰ.tail (Mem_of_In x xs i)

In-of_Mem : {A : Type 0} {x : A} {xs : List A} → Memᴰ x xs → In x xs
In-of_Mem (Memᴰ.head e) = inl (sym e)
In-of_Mem (Memᴰ.tail m) = inr (In-of_Mem m)

Nodup-of_Distinct : {A : Type 0} (id : A → String) (xs : List A) → Distinct (map id xs) → Nodup xs
Nodup-of_Distinct id [] d = Nodup-nil
Nodup-of_Distinct id (x ∷ xs) (n, d) = Nodup-cons.1 (
  (λ m. ∥∥₁_elim m ⊥_prop (λ i. cc (contains-In id x xs (In-of_Mem i)))),
  Nodup-of_Distinct id xs d,
)

-- Every known parent of a node stands in front of it, or is in `seen`.
abbrev pub ParentsFirst :
    {A : Type 0} → (A → String) → (A → List String) → List A → List String → List A → Type 0
ParentsFirst id parents nodes seen [] = Unit
ParentsFirst id parents nodes seen (x ∷ xs) =
    ((p : String)
      → contains p (parents x) ≡ true
      → contains p (map id nodes) ≡ true
      → contains p seen ≡ true)
    × ParentsFirst id parents nodes (seen ++ id x ∷ []) xs

module _ {A : Type 0} (id : A → String) (parents : A → List String) (compare : A → A → Ordering)
    (nodes : List A) where
  pub ParentsFirst-of_IsCausal :
      (seen : List String) (xs : List A)
      → IsCausal id parents compare nodes seen xs
      → ParentsFirst id parents nodes seen xs
  ParentsFirst-of_IsCausal seen [] h = tt
  ParentsFirst-of_IsCausal seen (x ∷ xs) (r, h) = (
    λ p a b.
        done_of_remaining-zero seen _ r p
          (ground (arith, contains-keep p (λ q. contains q (map id nodes)) (parents x))),
    ParentsFirst-of_IsCausal (seen ++ id x ∷ []) xs h,
  )

  abbrev unknown : String → Bool
  unknown p = not (contains p (map id nodes))

  contains-missing :
      (a : String) (l : Links) (xs : List A)
      → contains a (link_all id parents compare nodes l xs).missing
        ≡ (contains a l.missing || (names parents a xs && not (contains a (map id nodes))))
  unfolding link_all link
  contains-missing a l [] = ground arith
  contains-missing a l (x ∷ xs) = ground (
    arith,
    contains-missing a (link id parents compare nodes l x) xs,
    contains-add_all a l.missing (keep unknown (parents x)),
    contains-keep a unknown (parents x),
  )

  Distinct-missing :
      (l : Links) (xs : List A)
      → Distinct l.missing
      → Distinct (link_all id parents compare nodes l xs).missing
  unfolding link_all link
  Distinct-missing l [] d = d
  Distinct-missing l (x ∷ xs) d =
      Distinct-missing (link id parents compare nodes l x) xs (Distinct-add_all l.missing _ d)

  -- The missing parents are those that some node names and no node is.
  pub contains-links_missing :
      (a : String)
      → contains a (links id parents compare nodes).missing
        ≡ (names parents a nodes && not (contains a (map id nodes)))
  contains-links_missing a =
      rw links_lem (
        ground
          (arith, contains-missing a (no_links id parents compare nodes) nodes, contains-nil a))

  pub links_missing-Distinct : Distinct (links id parents compare nodes).missing
  links_missing-Distinct = rw links_lem (Distinct-missing _ nodes tt)

  module _ (distinct : Distinct (map id nodes))
      (parents_distinct : (x : A) → Distinct (parents x)) where
    ordered_once : (a : String) → tally a (map id (ordered id parents compare nodes)) ≤ 1
    ordered_once a = elim (Bool-cases (contains a (map id nodes))) [
      | inl e ↦
          let (x, i, f) = In-of_contains id a nodes e in
          rw (← f)
            (omega (arith, tally-ordered id parents compare nodes distinct parents_distinct x i))
      | inr e ↦ ground (
        arith,
        contains-tally a (map id (ordered id parents compare nodes)),
        contains-ordered id parents compare nodes distinct parents_distinct a,
      )
    ]

    pub ordered-Distinct : Distinct (map id (ordered id parents compare nodes))
    ordered-Distinct = Distinct-of_tally _ ordered_once

    pub ordered_back : (x : A) → In x nodes → In x (ordered id parents compare nodes)
    ordered_back x i =
        let (y, j, f) = In-of_contains id (id x) (ordered id parents compare nodes) (
          contains-ordered id parents compare nodes distinct parents_distinct (id x)
          ∙ contains-In id x nodes i) in
        let k : In y nodes =
          All-In _ y _ (ordered-In id parents compare nodes distinct parents_distinct) j in
        subst (λ z. In z (ordered id parents compare nodes)) (In-unique id y x nodes distinct k i f)
          j

    -- The result holds the same nodes, each as often.
    pub ordered-perm : Perm (ordered id parents compare nodes) nodes
    ordered-perm =
        let ordered_in = ordered-In id parents compare nodes distinct parents_distinct in
        (perm_ext_iff_of_Nodup (Nodup-of_Distinct id _ ordered-Distinct)
            (Nodup-of_Distinct id nodes distinct)).1
          (λ x. (
            λ m. ∥∥₁_map m (λ i. Mem_of_In x nodes (All-In _ x _ ordered_in (In-of_Mem i))),
            λ m. ∥∥₁_map m (λ i. Mem_of_In x _ (ordered_back x (In-of_Mem i))),
          ))
