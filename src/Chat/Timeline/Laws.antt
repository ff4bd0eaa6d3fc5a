-- ===== src/Chat/Timeline/Laws.antt =====
-- What `analyzeOpenClawPairChatGraph` keeps, and the order that it gives.
use Prim.Native.Nat.{ℕ, ◌<◌}
use Prim.Native.String.{String}
use mathlib.Core.Path.{◌≡◌, refl, ap, sym, ◌∙◌, subst}
use mathlib.Core.Bool.{true, not, ◌&&◌}
use mathlib.Core.Logic.{inl, inr}
use mathlib.Core.Option.{Option, none, some}
use mathlib.Core.List.{List, [], ◌∷◌, map, Perm}
use text.Mathlib.Text.{◌==◌}
use openclawapp.Base.{
  if◌then◌else◌, Bool-cases, All, contains, Distinct, is_empty, keys, lookup, insert, text_order,
}
use openclawapp.Base.Maps.{lookup-insert, Distinct-keys-insert, contains-keys}
use openclawapp.Base.Sets.{set_of-Distinct}
use openclawapp.Base.Values.{Runtime, trimmed_text}
use openclawapp.Base.Occurrences.{In, In-of_contains, contains-sort}
use openclawapp.Graph.Results.{names, contains-leaf_ids, contains-ordered, ordered-IsCausal}
use openclawapp.Graph.Permutation.{
  ordered-perm, ParentsFirst, ParentsFirst-of_IsCausal, contains-links_missing,
}
use openclawapp.Chat.{normalize_after_ids}
use openclawapp.Chat.Timeline.{
  MessageLike, Node, compare_messages, normal_node, index_from, nodes_of, node_parents,
  analyze_messages,
}

-- Each entry stands under the id of its node.
abbrev IsKeyed : List (String × Node) → Type 0
IsKeyed m = All (λ e. e.1.id ≡ e.0) m

IsKeyed-insert :
    (k : String) (n : Node) (m : List (String × Node))
    → n.id ≡ k
    → IsKeyed m
    → IsKeyed (insert k n m)
unfolding insert
IsKeyed-insert k n [] e h = (e, tt)
IsKeyed-insert k n ((j, w) ∷ m) e (p, h) = elim (Bool-cases (j == k)) [
  | inl t ↦ rw t (e, h)
  | inr t ↦ rw t (p, IsKeyed-insert k n m e h)
]

ids_of_keyed : (m : List (String × Node)) → IsKeyed m → map (λ n. n.id) (map (λ e. e.1) m) ≡ keys m
ids_of_keyed [] h = refl
ids_of_keyed ((k, n) ∷ m) (e, h) = rw (e, ids_of_keyed m h) refl

abbrev or_else : Option Node → Option Node → Option Node
or_else (some n) o = some n
or_else none o = o

or_else-none : (o : Option Node) → or_else o none ≡ o
or_else-none (some n) = refl
or_else-none none = refl

or_else_assoc : (o p q : Option Node) → or_else (or_else o p) q ≡ or_else o (or_else p q)
or_else_assoc (some n) p q = refl
or_else_assoc none p q = refl

module _ (rt : Runtime) where
  index-lem :
      (by_id : List (String × Node)) (ms : List MessageLike)
      → Distinct (keys by_id)
      → IsKeyed by_id
      → Distinct (keys (index_from rt by_id ms)) × IsKeyed (index_from rt by_id ms)
  unfolding index_from normal_node
  index-lem by_id [] d h = (d, h)
  index-lem by_id (m ∷ ms) d h = elim (Bool-cases (is_empty (trimmed_text rt m.id))) [
    | inl e ↦ rw e (index-lem by_id ms d h)
    | inr e ↦ rw e (
        index-lem (insert (trimmed_text rt m.id) (normal_node rt m) by_id) ms
          (Distinct-keys-insert _ _ by_id d) (IsKeyed-insert _ _ by_id refl h))
  ]

  nodes_of-Distinct : (ms : List MessageLike) → Distinct (map (λ n. n.id) (nodes_of rt ms))
  unfolding nodes_of
  nodes_of-Distinct ms =
      let (d, h) = index-lem [] ms tt tt in
      subst Distinct (sym (ids_of_keyed (index_from rt [] ms) h)) d

  node_parents-Distinct : (n : Node) → Distinct (node_parents rt n)
  unfolding node_parents normalize_after_ids
  node_parents-Distinct n = set_of-Distinct _

  -- The message itself, normalised, if this is its id.
  abbrev own_message : String → MessageLike → Option Node
  own_message a m =
      if not (is_empty (trimmed_text rt m.id)) && (trimmed_text rt m.id == a)
      then some (normal_node rt m)
      else none

  -- The last message of an id, normalised.
  abbrev pub last_message : String → List MessageLike → Option Node
  last_message a [] = none
  last_message a (m ∷ ms) = or_else (last_message a ms) (own_message a m)

  abbrev indexed : List (String × Node) → MessageLike → List (String × Node)
  indexed by_id m =
      if is_empty (trimmed_text rt m.id)
      then by_id
      else insert (trimmed_text rt m.id) (normal_node rt m) by_id

  lookup-indexed :
      (a : String) (by_id : List (String × Node)) (m : MessageLike)
      → lookup a (indexed by_id m) ≡ or_else (own_message a m) (lookup a by_id)
  lookup-indexed a by_id m = elim (Bool-cases (is_empty (trimmed_text rt m.id))) [
    | inl e ↦ rw e refl
    | inr e ↦ elim (Bool-cases (trimmed_text rt m.id == a)) [
      | inl f ↦ rw (e, lookup-insert, f) refl
      | inr f ↦ rw (e, lookup-insert, f) refl
    ]
  ]

  lookup-index_from :
      (a : String) (by_id : List (String × Node)) (ms : List MessageLike)
      → lookup a (index_from rt by_id ms) ≡ or_else (last_message a ms) (lookup a by_id)
  unfolding index_from
  lookup-index_from a by_id [] = refl
  lookup-index_from a by_id (m ∷ ms) =
      lookup-index_from a (indexed by_id m) ms
      ∙ ap (or_else (last_message a ms)) (lookup-indexed a by_id m)
      ∙ sym (or_else_assoc (last_message a ms) (own_message a m) (lookup a by_id))

  -- The kept message of an id is the last one given, normalised; there is none for an empty id.
  pub lookup-index :
      (a : String) (ms : List MessageLike) → lookup a (index_from rt [] ms) ≡ last_message a ms
  unfolding lookup
  lookup-index a ms = lookup-index_from a [] ms ∙ or_else-none (last_message a ms)

  -- A message of this id is among the ordered ones.
  pub ordered-has :
      (a : String) (ms : List MessageLike) (n : Node)
      → last_message a ms ≡ some n
      → (x : Node) × In x (analyze_messages rt ms).ordered × (x.id ≡ a)
  unfolding analyze_messages nodes_of
  ordered-has a ms n h =
      let (d, k) = index-lem [] ms tt tt in
      let there =
        ap (contains a) (ids_of_keyed (index_from rt [] ms) k)
        ∙ contains-keys a n (index_from rt [] ms) (lookup-index a ms ∙ h) in
      In-of_contains (λ x. x.id) a (analyze_messages rt ms).ordered
        (contains-ordered (λ x. x.id) (node_parents rt) (compare_messages rt) (nodes_of rt ms)
            (nodes_of-Distinct ms) node_parents-Distinct a
          ∙ there)

  module _ (ms : List MessageLike) where
    abbrev id : Node → String
    id n = n.id

    -- The ordered messages are the kept messages, each exactly once, also where ids form a cycle.
    pub ordered_messages-perm : Perm (analyze_messages rt ms).ordered (nodes_of rt ms)
    unfolding analyze_messages
    ordered_messages-perm =
        ordered-perm id (node_parents rt) (compare_messages rt) (nodes_of rt ms)
          (nodes_of-Distinct ms) node_parents-Distinct

    -- If some rank falls from every kept message to the kept messages that it names, then each of
    -- these stands in front of it.
    pub ordered_messages-ParentsFirst :
        (rank : Node → ℕ)
        → ((x y : Node)
            → In x (nodes_of rt ms)
            → In y (nodes_of rt ms)
            → contains y.id (node_parents rt x) ≡ true
            → rank y < rank x)
        → ParentsFirst id (node_parents rt) (nodes_of rt ms) [] (analyze_messages rt ms).ordered
    unfolding analyze_messages
    ordered_messages-ParentsFirst rank ranked =
        ParentsFirst-of_IsCausal id (node_parents rt) (compare_messages rt) (nodes_of rt ms) [] _ (
          ordered-IsCausal id (node_parents rt) (compare_messages rt) (nodes_of rt ms)
            (nodes_of-Distinct ms) node_parents-Distinct rank ranked)

    -- The leaves are the kept ids that no kept message names.
    pub contains-leaf_message_ids :
        (a : String)
        → contains a (analyze_messages rt ms).leaf_ids ≡ (
            contains a (map id (nodes_of rt ms))
            && not (names (node_parents rt) a (nodes_of rt ms)))
    unfolding analyze_messages
    contains-leaf_message_ids a =
        contains-leaf_ids id (node_parents rt) (compare_messages rt) (nodes_of rt ms)
          (nodes_of-Distinct ms) node_parents-Distinct a

    -- The missing ids are those that some kept message names and no kept message has.
    contains-missing_message_ids :
        (a : String)
        → contains a (analyze_messages rt ms).missing_ids ≡ (
            names (node_parents rt) a (nodes_of rt ms)
            && not (contains a (map id (nodes_of rt ms))))
    unfolding analyze_messages
    contains-missing_message_ids a =
        contains-sort text_order a _
        ∙ contains-links_missing id (node_parents rt) (compare_messages rt) (nodes_of rt ms) a
