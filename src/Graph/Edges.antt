-- ===== src/Graph/Edges.antt =====
-- The first loop: who is whose child, and how many known parents a node has.
use Prim.Native.Nat.{ℕ, Ordering}
use Prim.Native.String.{String}
use mathlib.Core.Path.{◌≡◌, refl, sym, ◌∙◌, subst}
use mathlib.Core.Bool.{Bool, true, false, ◌&&◌, ◌||◌}
use mathlib.Core.Logic.{inl, inr}
use mathlib.Core.List.{List, [], ◌∷◌, map}
use native.Mathlib.Omega.{arith}
use text.Mathlib.Text.{◌==◌}
use text.Mathlib.TextEquality.{eq_iff}
use text.Mathlib.TextPositions.{eq_refl}
use openclawapp.Base.{
  if◌then◌else◌, Bool-cases, length, keep, contains, Distinct, set_add, lookup, insert,
}
use openclawapp.Base.Sets.{contains-nil, contains-set_add, Distinct-set_add}
use openclawapp.Base.Maps.{lookup-insert}
use openclawapp.Base.Occurrences.{In, contains-In}
use openclawapp.Graph.{Links, degree, children_of, add_children, add_all, link, link_all, links}

-- Maps read with a default.
pub degree-insert :
    (k j : String) (n : ℕ) (m : List (String × ℕ))
    → degree j (insert k n m) ≡ (if k == j then n else degree j m)
unfolding degree
degree-insert k j n m = ground (arith, lookup-insert k j n m)

children_of-nil : (j : String) → children_of j [] ≡ []
unfolding children_of lookup
children_of-nil j = refl

children_of-insert :
    (k j : String) (cs : List String) (m : List (String × List String))
    → children_of j (insert k cs m) ≡ (if k == j then cs else children_of j m)
unfolding children_of
children_of-insert k j cs m = ground (arith, lookup-insert k j cs m)

contains-children-insert :
    (c k j child : String) (m : List (String × List String))
    → contains c (children_of j (insert k (set_add (children_of k m) child) m))
      ≡ (contains c (children_of j m) || (k == j && child == c))
contains-children-insert c k j child m = elim (Bool-cases (k == j)) [
  | inl e ↦ rw ((eq_iff k j).0 e) (
      ground (
        arith,
        children_of-insert j j (set_add (children_of j m) child) m,
        eq_refl j,
        contains-set_add c child (children_of j m),
      ))
  | inr e ↦ ground (arith, children_of-insert k j (set_add (children_of k m) child) m)
]

contains-add_children :
    (c j child : String) (m : List (String × List String)) (ps : List String)
    → contains c (children_of j (add_children child m ps))
      ≡ (contains c (children_of j m) || (contains j ps && child == c))
unfolding add_children contains
contains-add_children c j child m [] = ground arith
contains-add_children c j child m (p ∷ ps) = ground (
  arith,
  contains-add_children c j child (insert p (set_add (children_of p m) child) m) ps,
  contains-children-insert c p j child m,
)

-- Every set of children is without repetitions.
abbrev pub AreDistinct : List (String × List String) → Type 0
AreDistinct m = (j : String) → Distinct (children_of j m)

AreDistinct-insert :
    (k child : String) (m : List (String × List String))
    → AreDistinct m
    → AreDistinct (insert k (set_add (children_of k m) child) m)
AreDistinct-insert k child m d j = elim (Bool-cases (k == j)) [
  | inl e ↦
      rw (children_of-insert k j (set_add (children_of k m) child) m, e)
        (Distinct-set_add (children_of k m) child (d k))
  | inr e ↦ rw (children_of-insert k j (set_add (children_of k m) child) m, e) (d j)
]

AreDistinct-add_children :
    (child : String) (m : List (String × List String)) (ps : List String)
    → AreDistinct m
    → AreDistinct (add_children child m ps)
unfolding add_children
AreDistinct-add_children child m [] d = d
AreDistinct-add_children child m (p ∷ ps) d =
    AreDistinct-add_children child (insert p (set_add (children_of p m) child) m) ps
      (AreDistinct-insert p child m d)

pub contains-add_all :
    (a : String) (set xs : List String)
    → contains a (add_all set xs) ≡ (contains a set || contains a xs)
unfolding add_all contains
contains-add_all a set [] = ground arith
contains-add_all a set (x ∷ xs) =
    ground (arith, contains-add_all a (set_add set x) xs, contains-set_add a x set)

pub Distinct-add_all : (set xs : List String) → Distinct set → Distinct (add_all set xs)
unfolding add_all
Distinct-add_all set [] d = d
Distinct-add_all set (x ∷ xs) d = Distinct-add_all (set_add set x) xs (Distinct-set_add set x d)

module _ {A : Type 0} (id : A → String) (parents : A → List String) (compare : A → A → Ordering)
    (nodes : List A) where
  -- Some node of the list has id `c` and the known parent `p`.
  abbrev pub some_edge : String → String → List A → Bool
  some_edge p c [] = false
  some_edge p c (x ∷ xs) =
      (contains p (keep (λ q. contains q (map id nodes)) (parents x)) && id x == c)
      || some_edge p c xs

  contains-link_all :
      (c p : String) (l : Links) (xs : List A)
      → contains c (children_of p (link_all id parents compare nodes l xs).children)
        ≡ (contains c (children_of p l.children) || some_edge p c xs)
  unfolding link_all link
  contains-link_all c p l [] = ground arith
  contains-link_all c p l (x ∷ xs) = ground (
    arith,
    contains-link_all c p (link id parents compare nodes l x) xs,
    contains-add_children c p (id x) l.children (keep (λ q. contains q (map id nodes)) (parents x)),
  )

  AreDistinct-link_all :
      (l : Links) (xs : List A)
      → AreDistinct l.children
      → AreDistinct (link_all id parents compare nodes l xs).children
  unfolding link_all link
  AreDistinct-link_all l [] d = d
  AreDistinct-link_all l (x ∷ xs) d =
      AreDistinct-link_all (link id parents compare nodes l x) xs
        (AreDistinct-add_children (id x) l.children _ d)

  degree-link_all_absent :
      (y : String) (l : Links) (xs : List A)
      → contains y (map id xs) ≡ false
      → degree y (link_all id parents compare nodes l xs).in_degree ≡ degree y l.in_degree
  unfolding link_all link contains
  degree-link_all_absent y l [] h = refl
  degree-link_all_absent y l (x ∷ xs) h = ground (
    arith,
    degree-link_all_absent y (link id parents compare nodes l x) xs,
    degree-insert (id x) y (length (keep (λ q. contains q (map id nodes)) (parents x))) l.in_degree,
  )

  degree-link_all_head :
      (x : A) (l : Links) (xs : List A)
      → contains (id x) (map id xs) ≡ false
      → degree (id x) (link_all id parents compare nodes l (x ∷ xs)).in_degree
        ≡ length (keep (λ q. contains q (map id nodes)) (parents x))
  unfolding link_all link
  degree-link_all_head x l xs n =
      degree-link_all_absent (id x) (link id parents compare nodes l x) xs n
      ∙ rw (degree-insert, eq_refl (id x))

  degree-link_all :
      (x : A) (l : Links) (xs : List A)
      → Distinct (map id xs)
      → In x xs
      → degree (id x) (link_all id parents compare nodes l xs).in_degree
        ≡ length (keep (λ q. contains q (map id nodes)) (parents x))
  unfolding link_all
  degree-link_all x l [] d i = absurd i
  degree-link_all x l (y ∷ xs) (n, d) (inl e) = rw (← e) (degree-link_all_head y l xs n)
  degree-link_all x l (y ∷ xs) (n, d) (inr i) =
      degree-link_all x (link id parents compare nodes l y) xs d i

  -- The ids of a list are distinct: an edge into a member is an edge from its known parents.
  some_edge-absent :
      (p c : String) (xs : List A) → contains c (map id xs) ≡ false → some_edge p c xs ≡ false
  unfolding contains
  some_edge-absent p c [] n = refl
  some_edge-absent p c (x ∷ xs) n = ground (arith, some_edge-absent p c xs)

  some_edge-known :
      (p c : String) (xs : List A) → some_edge p c xs ≡ true → contains c (map id xs) ≡ true
  unfolding contains
  some_edge-known p c [] e = cc
  some_edge-known p c (x ∷ xs) e = ground (arith, some_edge-known p c xs)

  some_edge-In :
      (p : String) (x : A) (xs : List A)
      → Distinct (map id xs)
      → In x xs
      → some_edge p (id x) xs ≡ contains p (keep (λ q. contains q (map id nodes)) (parents x))
  some_edge-In p x [] d i = absurd i
  some_edge-In p x (y ∷ xs) (n, d) (inl e) =
      subst
        (λ z.
          some_edge p (id z) (y ∷ xs)
          ≡ contains p (keep (λ q. contains q (map id nodes)) (parents z)))
        e (ground (arith, some_edge-absent p (id y) xs n, eq_refl (id y)))
  some_edge-In p x (y ∷ xs) (n, d) (inr i) =
      ground (arith, some_edge-In p x xs d i, contains-In id x xs i, eq_iff (id y) (id x))

  abbrev pub no_links : Links
  no_links = record { children = []; in_degree = []; missing = [] }

  pub links_lem : links id parents compare nodes ≡ link_all id parents compare nodes no_links nodes
  unfolding links
  links_lem = refl

  contains-links :
      (p c : String)
      → contains c (children_of p (links id parents compare nodes).children) ≡ some_edge p c nodes
  contains-links p c =
      rw (links_lem, contains-link_all c p no_links nodes, children_of-nil p, contains-nil c)

  module _ (distinct : Distinct (map id nodes)) where
    -- The children that the first loop records are those whose known parents say so.
    pub contains-children :
        (p : String) (x : A)
        → In x nodes
        → contains (id x) (children_of p (links id parents compare nodes).children)
          ≡ contains p (keep (λ q. contains q (map id nodes)) (parents x))
    contains-children p x i = contains-links p (id x) ∙ some_edge-In p x nodes distinct i

    pub degree-links :
        (x : A)
        → In x nodes
        → degree (id x) (links id parents compare nodes).in_degree
          ≡ length (keep (λ q. contains q (map id nodes)) (parents x))
    degree-links x i = rw links_lem (degree-link_all x no_links nodes distinct i)

  pub children-known :
      (p c : String)
      → contains c (children_of p (links id parents compare nodes).children) ≡ true
      → contains c (map id nodes) ≡ true
  children-known p c h = some_edge-known p c nodes (sym (contains-links p c) ∙ h)

  pub children-AreDistinct : AreDistinct (links id parents compare nodes).children
  children-AreDistinct =
      rw links_lem (AreDistinct-link_all no_links nodes (λ j. rw (children_of-nil j) tt))
