-- ===== src/Graph/Results.antt =====
-- What the analysis returns: every node once, parents first, the leaves and the missing parents.
use Prim.Native.Nat.{ℕ, zero, suc, ◌<◌, Ordering}
use Prim.Native.String.{String}
use mathlib.Core.Path.{◌≡◌, refl, ap}
use mathlib.Core.Bool.{Bool, true, false, not, ◌&&◌, ◌||◌}
use mathlib.Core.Logic.{inl, inr}
use mathlib.Core.List.{List, [], ◌∷◌, map, map-append, append-nil}
use native.Mathlib.Omega.{arith}
use openclawapp.Base.{
  eqb, if◌then◌else◌, Bool-cases, keep, All, All-append, All-keep, contains, Distinct, sort,
}
use openclawapp.Base.Sort.{All-sort}
use openclawapp.Base.Sets.{contains-keep, contains-nil}
use openclawapp.Base.Occurrences.{
  In, tally, tally-append, contains-tally, contains-In, In-of_contains,
}
use openclawapp.Graph.{drained, held_back, ordered, leaf_ids, referenced, add_referenced, add_all}
use openclawapp.Graph.Edges.{contains-add_all}
use openclawapp.Graph.Release.{remaining, tally-sort}
use openclawapp.Graph.Order.{drained_ends, remaining-zero}
use openclawapp.Graph.Invariant.{All-In, All_of_In, relatives, IsCausal, tally-keep}

-- Some node of the list names `a` as a parent.
abbrev pub names : {A : Type 0} → (A → List String) → String → List A → Bool
names parents a [] = false
names parents a (x ∷ xs) = contains a (parents x) || names parents a xs

keep-nil :
    {A : Type 0} (p : A → Bool) (xs : List A) → ((x : A) → In x xs → p x ≡ false) → keep p xs ≡ []
keep-nil p [] h = refl
keep-nil p (x ∷ xs) h = rw (h x (inl refl)) (keep-nil p xs (λ y i. h y (inr i)))

module _ {A : Type 0} (id : A → String) (parents : A → List String) (compare : A → A → Ordering)
    (nodes : List A) (distinct : Distinct (map id nodes))
    (parents_distinct : (x : A) → Distinct (parents x)) where
  abbrev done : List A
  done = (drained id parents compare nodes).ordered

  -- A node left the queue exactly if all its known parents did.
  done_iff :
      (x : A)
      → In x nodes
      → tally (id x) (map id done)
        ≡ (if eqb (remaining (map id done) (relatives id parents compare nodes x)) 0 then 1 else 0)
  unfolding tally
  done_iff x i =
      let (b, e) = drained_ends id parents compare nodes distinct parents_distinct in
      let none_ready : tally (id x) (map id (drained id parents compare nodes).ready) ≡ 0 =
        rw e refl in
      ground (arith, b.counted x i, b.placed x i)

  tally-held_back :
      (x : A)
      → In x nodes
      → tally (id x) (map id (held_back id parents compare nodes))
        ≡ (if contains (id x) (map id done) then 0 else 1)
  unfolding held_back
  tally-held_back x i = ground (
    arith,
    tally-sort id compare (id x) (keep (λ y. not (contains (id y) (map id done))) nodes),
    tally-keep id (λ y. not (contains (id y) (map id done))) x nodes distinct i,
  )

  -- Every node stands in the result once.
  pub tally-ordered :
      (x : A) → In x nodes → tally (id x) (map id (ordered id parents compare nodes)) ≡ 1
  unfolding ordered
  tally-ordered x i = rw map-append (
      ground (
        arith,
        tally-append (id x) (map id done) (map id (held_back id parents compare nodes)),
        tally-held_back x i,
        contains-tally (id x) (map id done),
        done_iff x i,
      ))

  pub ordered-In : All (λ x. In x nodes) (ordered id parents compare nodes)
  unfolding ordered held_back
  ordered-In =
      let (b, e) = drained_ends id parents compare nodes distinct parents_distinct in
      All-append _ done _ b.ordered_in
        (All-sort compare _ _ (All-keep _ _ nodes (All_of_In _ nodes (λ x i. i))))

  pub contains-ordered :
      (a : String)
      → contains a (map id (ordered id parents compare nodes)) ≡ contains a (map id nodes)
  contains-ordered a = elim (Bool-cases (contains a (map id nodes))) [
    | inl e ↦
        let (x, i, f) = In-of_contains id a nodes e in
        rw (e, ← f)
          (ground (
            arith,
            tally-ordered x i,
            contains-tally (id x) (map id (ordered id parents compare nodes)),
          ))
    | inr e ↦ rw e (elim (Bool-cases (contains a (map id (ordered id parents compare nodes)))) [
      | inl k ↦
          let (x, i, f) = In-of_contains id a (ordered id parents compare nodes) k in
          let j : contains (id x) (map id nodes) ≡ true =
            contains-In id x nodes (All-In _ x _ ordered-In i) in
          absurd (cc (ap (λ b. contains b (map id nodes)) f))
      | inr k ↦ k
    ])
  ]

  module _ (rank : A → ℕ)
      (ranked : (x y : A)
        → In x nodes
        → In y nodes
        → contains (id y) (parents x) ≡ true
        → rank y < rank x) where
    done_below : (k : ℕ) (x : A) → In x nodes → rank x < k → contains (id x) (map id done) ≡ true
    done_below zero x i h = absurd (omega arith)
    done_below (suc k) x i h =
        let all_done : remaining (map id done) (relatives id parents compare nodes x) ≡ 0 =
          remaining-zero (map id done) _ (λ p e.
            let (y, j, f) =
              In-of_contains id p nodes
                (ground (arith, e, contains-keep p (λ q. contains q (map id nodes)) (parents x))) in
            let parent : contains (id y) (parents x) ≡ true =
              rw f
                (ground (arith, e, contains-keep p (λ q. contains q (map id nodes)) (parents x))) in
            rw (← f) (done_below k y j (omega (arith, ranked x y i j parent)))) in
        ground (arith, done_iff x i, contains-tally (id x) (map id done))

    pub held_back-nil : held_back id parents compare nodes ≡ []
    unfolding held_back sort
    held_back-nil = rw (
        keep-nil (λ y. not (contains (id y) (map id done))) nodes
          (λ x i. rw (done_below (suc (rank x)) x i (omega arith))))

    -- Without cycles every known parent of a node stands in front of it.
    pub ordered-IsCausal : IsCausal id parents compare nodes [] (ordered id parents compare nodes)
    unfolding ordered
    ordered-IsCausal =
        let (b, e) = drained_ends id parents compare nodes distinct parents_distinct in
        rw (held_back-nil, append-nil) b.causal

  -- With cycles too, the nodes that left the queue stand in front, each behind its known parents.
  pub done-IsCausal : IsCausal id parents compare nodes [] done
  done-IsCausal = (drained_ends id parents compare nodes distinct parents_distinct).0.causal

  contains-add_referenced :
      (a : String) (set : List String) (xs : List A)
      → contains a (add_referenced id parents compare nodes set xs)
        ≡ (contains a set || (contains a (map id nodes) && names parents a xs))
  unfolding add_referenced
  contains-add_referenced a set [] = ground arith
  contains-add_referenced a set (x ∷ xs) = ground (
    arith,
    contains-add_referenced a (add_all set (relatives id parents compare nodes x)) xs,
    contains-add_all a set (relatives id parents compare nodes x),
    contains-keep a (λ q. contains q (map id nodes)) (parents x),
  )

  -- The leaves are the nodes that no node names as a parent.
  pub contains-leaf_ids :
      (a : String)
      → contains a (leaf_ids id parents compare nodes)
        ≡ (contains a (map id nodes) && not (names parents a nodes))
  unfolding leaf_ids referenced
  contains-leaf_ids a = ground (
    arith,
    contains-keep a (λ i. not (contains i (referenced id parents compare nodes)))
        (map id (ordered id parents compare nodes)),
    contains-add_referenced a [] nodes,
    contains-nil a,
    contains-ordered a,
  )
