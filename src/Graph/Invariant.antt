-- ===== src/Graph/Invariant.antt =====
-- The invariant of the loop: a node's degree counts its known parents that have not left the queue,
-- and a node stands in the queue or behind it, once, exactly if that count is zero.
use Prim.Native.Nat.{suc, ◌+◌, Ordering}
use Prim.Native.String.{String}
use mathlib.Core.Path.{◌≡◌, refl, sym, ◌∙◌, subst}
use mathlib.Core.Bool.{Bool, false}
use mathlib.Core.Logic.{inl, inr}
use mathlib.Core.List.{List, [], ◌∷◌, ◌++◌, map, map-append, append-nil, append_assoc}
use native.Mathlib.Omega.{arith}
use text.Mathlib.Text.{◌==◌}
use text.Mathlib.TextEquality.{eq_iff}
use text.Mathlib.TextPositions.{eq_refl}
use openclawapp.Base.{
  eqb, if◌then◌else◌, length, keep, All, All-append, All-keep, contains, Distinct,
}
use openclawapp.Base.Sets.{Distinct-keep}
use openclawapp.Base.Sort.{All-sort}
use openclawapp.Base.Occurrences.{In, tally, contains-tally, contains-In}
use openclawapp.Graph.{degree, children_of, Queue, links, release_all, advance, start}
use openclawapp.Graph.Edges.{contains-children, degree-links, children-known, children-AreDistinct}
use openclawapp.Graph.Release.{
  remaining, remaining-concat, tally-sort, tally-concat, degree-release_all, ordered-release_all,
  tally-release_all, In-release_all,
}

pub All-In : {A : Type 0} (P : A → Type 0) (x : A) (xs : List A) → All P xs → In x xs → P x
All-In P x [] h i = absurd i
All-In P x (y ∷ xs) (p, h) (inl e) = subst P e p
All-In P x (y ∷ xs) (p, h) (inr i) = All-In P x xs h i

pub All_of_In : {A : Type 0} (P : A → Type 0) (xs : List A) → ((x : A) → In x xs → P x) → All P xs
All_of_In P [] h = tt
All_of_In P (x ∷ xs) h = (h x (inl refl), All_of_In P xs (λ y i. h y (inr i)))

remaining-nil : (ps : List String) → remaining [] ps ≡ length ps
unfolding remaining contains
remaining-nil [] = refl
remaining-nil (p ∷ ps) = omega (arith, remaining-nil ps)

module _ {A : Type 0} (id : A → String) where
  tally-keep_absent :
      (p : A → Bool) (a : String) (xs : List A)
      → contains a (map id xs) ≡ false
      → tally a (map id (keep p xs)) ≡ 0
  unfolding tally contains
  tally-keep_absent p a [] h = refl
  tally-keep_absent p a (x ∷ xs) h = ground (arith, tally-keep_absent p a xs)

  -- A filter keeps a member of a list with distinct ids once, or drops it.
  pub tally-keep :
      (p : A → Bool) (x : A) (xs : List A)
      → Distinct (map id xs)
      → In x xs
      → tally (id x) (map id (keep p xs)) ≡ (if p x then 1 else 0)
  unfolding tally
  tally-keep p x [] d i = absurd i
  tally-keep p x (y ∷ xs) (n, d) (inl e) =
      subst (λ z. tally (id z) (map id (keep p (y ∷ xs))) ≡ (if p z then 1 else 0)) e
        (ground (arith, tally-keep_absent p (id y) xs n, eq_refl (id y)))
  tally-keep p x (y ∷ xs) (n, d) (inr i) =
      ground (arith, tally-keep p x xs d i, contains-In id x xs i, eq_iff (id y) (id x))

module _ {A : Type 0} (id : A → String) (parents : A → List String) (compare : A → A → Ordering)
    (nodes : List A) where
  abbrev pub relatives : A → List String
  relatives x = keep (λ p. contains p (map id nodes)) (parents x)

  -- Every known parent of a node stands in front of it.
  abbrev pub IsCausal : List String → List A → Type 0
  IsCausal seen [] = Unit
  IsCausal seen (x ∷ xs) = (remaining seen (relatives x) ≡ 0) × IsCausal (seen ++ id x ∷ []) xs

  IsCausal-concat :
      (seen : List String) (xs : List A) (x : A)
      → IsCausal seen xs
      → remaining (seen ++ map id xs) (relatives x) ≡ 0
      → IsCausal seen (xs ++ x ∷ [])
  IsCausal-concat seen [] x h e = (rw append-nil at e, tt)
  IsCausal-concat seen (y ∷ xs) x (r, h) e =
      (r, IsCausal-concat (seen ++ id y ∷ []) xs x h (rw append_assoc e))

  pub record IsBalanced (q : Queue id parents compare) : Type 0 where
    pub counted :
        (x : A)
        → In x nodes
        → degree (id x) q.in_degree ≡ remaining (map id q.ordered) (relatives x)
    pub placed :
        (x : A)
        → In x nodes
        → tally (id x) (map id q.ordered) + tally (id x) (map id q.ready)
          ≡ (if eqb (degree (id x) q.in_degree) 0 then 1 else 0)
    pub ready_in : All (λ x. In x nodes) q.ready
    pub ordered_in : All (λ x. In x nodes) q.ordered
    pub causal : IsCausal [] q.ordered

  module _ (distinct : Distinct (map id nodes)) where
    abbrev ready_at : A → Bool
    ready_at x = eqb (degree (id x) (links id parents compare nodes).in_degree) 0

    pub start-IsBalanced : IsBalanced (start id parents compare nodes)
    unfolding start tally
    start-IsBalanced = record {
      counted = λ x i.
          degree-links id parents compare nodes distinct x i ∙ sym (remaining-nil (relatives x));
      placed = λ x i. ground (
        arith,
        tally-sort id compare (id x) (keep ready_at nodes),
        tally-keep id ready_at x nodes distinct i,
      );
      ready_in = All-sort compare _ _ (All-keep _ _ nodes (All_of_In _ nodes (λ x i. i)));
      ordered_in = tt;
      causal = tt;
    }

    module _ (parents_distinct : (x : A) → Distinct (parents x)) (q : Queue id parents compare)
        (balanced : IsBalanced q) (current : A) (rest : List A)
        (ready : q.ready ≡ current ∷ rest) where
      abbrev pub taken : Queue id parents compare
      taken = record { ready = rest; in_degree = q.in_degree; ordered = q.ordered ++ current ∷ [] }

      abbrev released : List String
      released = children_of (id current) (links id parents compare nodes).children

      pub current-In : In current nodes
      current-In = (rw ready at balanced.ready_in).0

      -- The node that leaves the queue has no parent left, and has not left it before.
      current_first :
          (tally (id current) (map id q.ordered) ≡ 0)
          × (remaining (map id q.ordered) (relatives current) ≡ 0)
      unfolding tally
      current_first =
          let p = balanced.placed current current-In in
          let c = balanced.counted current current-In in
          let r : tally (id current) (map id q.ready) ≡ suc (tally (id current) (map id rest)) =
            rw (ready, eq_refl (id current)) in
          (ground arith, ground arith)

      ordered_ids : map id taken.ordered ≡ map id q.ordered ++ id current ∷ []
      ordered_ids = map-append id q.ordered (current ∷ [])

      pub not_before : contains (id current) (map id q.ordered) ≡ false
      not_before = ground (arith, contains-tally (id current) (map id q.ordered), current_first)

      released-Distinct : Distinct released
      released-Distinct = children-AreDistinct id parents compare nodes (id current)

      released_iff :
          (x : A) → In x nodes → contains (id x) released ≡ contains (id current) (relatives x)
      released_iff x i = contains-children id parents compare nodes distinct (id current) x i

      fewer :
          (x : A)
          → remaining (map id q.ordered) (relatives x)
            ≡ remaining (map id taken.ordered) (relatives x)
              + (if contains (id current) (relatives x) then 1 else 0)
      fewer x = rw ordered_ids (
          remaining-concat (map id q.ordered) (id current) (relatives x) not_before
            (Distinct-keep _ (parents x) (parents_distinct x)))

      degree_after :
          (x : A)
          → In x nodes
          → degree (id x) (release_all id parents compare nodes taken released).in_degree
            ≡ remaining (map id taken.ordered) (relatives x)
      degree_after x i = ground (
        arith,
        degree-release_all id parents compare nodes taken released (id x) released-Distinct,
        released_iff x i,
        fewer x,
        balanced.counted x i,
      )

      queued :
          (x : A)
          → tally (id x) (map id q.ready)
            ≡ tally (id x) (map id rest) + (if id current == id x then 1 else 0)
      unfolding tally
      queued x = rw ready (ground arith)

      placed_after :
          (x : A)
          → In x nodes
          → tally (id x) (map id taken.ordered)
              + tally (id x) (map id (release_all id parents compare nodes taken released).ready)
            ≡ (if eqb (remaining (map id taken.ordered) (relatives x)) 0 then 1 else 0)
      placed_after x i = ground (
        arith,
        tally-release_all id parents compare nodes taken released (id x) released-Distinct
            (children-known id parents compare nodes (id current)),
        tally-concat id (id x) q.ordered current,
        queued x,
        balanced.placed x i,
        balanced.counted x i,
        fewer x,
        released_iff x i,
      )

      pub advance-IsBalanced : IsBalanced (
          advance id parents compare nodes (links id parents compare nodes).children q current rest)
      unfolding advance
      advance-IsBalanced =
          let ordered_same = ordered-release_all id parents compare nodes taken released in
          record {
            counted = λ x i. rw ordered_same (degree_after x i);
            placed = λ x i. rw (ordered_same, degree_after x i, tally-sort) (placed_after x i);
            ready_in = All-sort compare _ _ (
                In-release_all id parents compare nodes taken released
                  (children-known id parents compare nodes (id current))
                  (rw ready at balanced.ready_in).1);
            ordered_in =
                rw ordered_same
                  (All-append _ q.ordered (current ∷ []) balanced.ordered_in (current-In, tt));
            causal =
                rw ordered_same
                  (IsCausal-concat [] q.ordered current balanced.causal current_first.1);
          }
