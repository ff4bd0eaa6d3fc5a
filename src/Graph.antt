-- ===== src/Graph.antt =====
-- The ordering of a causal graph, as `analyzeCrdtOps` (packages/protocol/src/crdt-graph.ts) and
-- `analyzeOpenClawPairChatGraph` (packages/message-sdk/src/openclaw-chat.ts) both write it: nodes
-- name their parents by id; ready nodes leave a sorted queue, and what a cycle holds back follows.
pub mod Edges
pub mod Release
pub mod Invariant
pub mod Order
pub mod Results
pub mod Permutation
use Prim.Native.Nat.{ℕ, zero, suc, ◌-◌, Ordering}
use Prim.Native.String.{String}
use mathlib.Core.Bool.{Bool, not}
use mathlib.Core.Option.{none, some}
use mathlib.Core.List.{List, [], ◌∷◌, ◌++◌, map}
use text.Mathlib.Text.{◌==◌}
use openclawapp.Base.{
  eqb, if◌then◌else◌, length, keep, find, contains, set_add, lookup, insert, sort,
}

-- `map.get(k) || 0`
unfoldable pub degree : String → List (String × ℕ) → ℕ
degree k m = elim (lookup k m) [ none ↦ 0 | some n ↦ n ]

-- `map.get(k) || new Set()`
unfoldable pub children_of : String → List (String × List String) → List String
children_of k m = elim (lookup k m) [ none ↦ [] | some cs ↦ cs ]

-- What the first loop collects.
pub record Links : Type 0 where
  pub children : List (String × List String)
  pub in_degree : List (String × ℕ)
  pub missing : List String

unfoldable pub add_children :
    String → List (String × List String) → List String → List (String × List String)
add_children child m [] = m
add_children child m (p ∷ ps) = add_children child (insert p (set_add (children_of p m) child) m) ps

unfoldable pub add_all : List String → List String → List String
add_all set [] = set
add_all set (x ∷ xs) = add_all (set_add set x) xs

module _ {A : Type 0} (id : A → String) (parents : A → List String)
    (compare : A → A → Ordering) where
  pub record Queue : Type 0 where
    pub ready : List A
    pub in_degree : List (String × ℕ)
    pub ordered : List A

  module _ (nodes : List A) where
    abbrev pub known : String → Bool
    known p = contains p (map id nodes)

    abbrev pub known_parents : A → List String
    known_parents x = keep known (parents x)

    -- One round of the first loop.
    unfoldable pub link : Links → A → Links
    link l x = record {
      children = add_children (id x) l.children (known_parents x);
      in_degree = insert (id x) (length (known_parents x)) l.in_degree;
      missing = add_all l.missing (keep (λ p. not (known p)) (parents x));
    }

    unfoldable pub link_all : Links → List A → Links
    link_all l [] = l
    link_all l (x ∷ xs) = link_all (link l x) xs

    unfoldable pub links : Links
    links = link_all (record { children = []; in_degree = []; missing = [] }) nodes

    -- The body of the loop over the children of the node that left the queue.
    unfoldable pub release : Queue → String → Queue
    release q child =
        let next_degree = degree child q.in_degree - 1 in
        let opened : List A = elim (find (λ x. id x == child) nodes) [
          | none ↦ q.ready
          | some x ↦ q.ready ++ x ∷ []
        ] in
        record {
          ready = if eqb next_degree 0 then opened else q.ready;
          in_degree = insert child next_degree q.in_degree;
          ordered = q.ordered;
        }

    unfoldable pub release_all : Queue → List String → Queue
    release_all q [] = q
    release_all q (c ∷ cs) = release_all (release q c) cs

    -- The queue after `current` has left it and its children are released and sorted in.
    unfoldable pub advance : List (String × List String) → Queue → A → List A → Queue
    advance children q current rest =
        let q' =
          release_all
            (record { ready = rest; in_degree = q.in_degree; ordered = q.ordered ++ current ∷ [] })
            (children_of (id current) children) in
        record { ready = sort compare q'.ready; in_degree = q'.in_degree; ordered = q'.ordered }

    -- `while (ready.length > 0)`, with fuel.
    unfoldable pub drain : ℕ → List (String × List String) → Queue → Queue
    drain zero children q = q
    drain (suc fuel) children q = elim q.ready [
      | [] ↦ q
      | current ∷ rest ↦ drain fuel children (advance children q current rest)
    ]

    unfoldable pub start : Queue
    start = record {
      ready = sort compare (keep (λ x. eqb (degree (id x) links.in_degree) 0) nodes);
      in_degree = links.in_degree;
      ordered = [];
    }

    unfoldable pub drained : Queue
    drained = drain (length nodes) links.children start

    -- The nodes that the queue never reached.
    unfoldable pub held_back : List A
    held_back = sort compare (keep (λ x. not (contains (id x) (map id drained.ordered))) nodes)

    unfoldable pub ordered : List A
    ordered = drained.ordered ++ held_back

    unfoldable pub add_referenced : List String → List A → List String
    add_referenced set [] = set
    add_referenced set (x ∷ xs) = add_referenced (add_all set (known_parents x)) xs

    unfoldable pub referenced : List String
    referenced = add_referenced [] nodes

    unfoldable pub leaf_ids : List String
    leaf_ids = keep (λ i. not (contains i referenced)) (map id ordered)

-- All that an evaluation of the analysis computes with.
unfoldable pub runs : Unit {0}
unfolding degree children_of add_children add_all link link_all links release release_all advance
    drain start drained held_back ordered add_referenced referenced leaf_ids
runs = tt
