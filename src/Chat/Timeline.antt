-- ===== src/Chat/Timeline.antt =====
-- `analyzeOpenClawPairChatGraph`: the order of the messages, the leaves, and the missing ids.
pub mod Laws
use Prim.Native.Nat.{ℕ, zero, suc, compare, Ordering}
use Prim.Native.String.{String}
use mathlib.Core.Bool.{Bool, true, false, ◌&&◌}
use mathlib.Core.Option.{none, some}
use mathlib.Core.List.{List, [], ◌∷◌, map}
use openclawapp.Base.{if◌then◌else◌, is_empty, insert, sort, text_order, eqb}
use openclawapp.Base.Values.{Num, nan, infinity, finite, Value, num, str, Runtime, trimmed_text}
use openclawapp.Crdt.Ids.{texts}
use openclawapp.Graph.{ordered, leaf_ids, links}
use openclawapp.Chat.{normalize_after_ids, number_or_zero}

-- The fields of a message that the analysis reads; `body` is all that it only copies.
pub record MessageLike : Type 0 where
  pub id : Value
  pub after : Value
  pub ts : Value
  pub body : Value

-- A message as the analysis keeps it.
pub record Node : Type 0 where
  pub id : String
  pub after : List String
  pub ts : Num
  pub body : Value

-- Two magnitudes, each a whole part and a fraction.
abbrev compare_magnitude : ℕ → ℕ → ℕ → ℕ → Ordering
compare_magnitude w f v g = elim (compare w v) [ Ordering.eq ↦ compare f g | other ↦ other ]

abbrev is_zero : ℕ → ℕ → Bool
is_zero w f = eqb w 0 && eqb f 0

-- The sign of `a - b`, for numbers that are not NaN (NaN never reaches it).
unfoldable pub compare_num : Num → Num → Ordering
compare_num nan b = Ordering.eq
compare_num a nan = Ordering.eq
compare_num (infinity true) (infinity true) = Ordering.eq
compare_num (infinity true) b = Ordering.lt
compare_num (infinity false) (infinity false) = Ordering.eq
compare_num (infinity false) b = Ordering.gt
compare_num (finite n w f) (infinity true) = Ordering.gt
compare_num (finite n w f) (infinity false) = Ordering.lt
compare_num (finite false w f) (finite false v g) = compare_magnitude w f v g
compare_num (finite true w f) (finite true v g) = compare_magnitude v g w f
compare_num (finite false w f) (finite true v g) =
    if is_zero w f && is_zero v g then Ordering.eq else Ordering.gt
compare_num (finite true w f) (finite false v g) =
    if is_zero w f && is_zero v g then Ordering.eq else Ordering.lt

module _ (rt : Runtime) where
  unfoldable pub compare_messages : Node → Node → Ordering
  unfolding compare_num
  compare_messages left right =
      elim (compare_num (number_or_zero rt (num left.ts)) (number_or_zero rt (num right.ts))) [
        | Ordering.eq ↦ rt.locale_compare left.id right.id
        | other ↦ other
      ]

  unfoldable pub normal_node : MessageLike → Node
  normal_node m = record {
    id = trimmed_text rt m.id;
    after = normalize_after_ids rt m.after;
    ts = number_or_zero rt m.ts;
    body = m.body;
  }

  -- The loop that fills `byId`: a later message replaces an earlier one of its id, in its place.
  unfoldable pub index_from : List (String × Node) → List MessageLike → List (String × Node)
  index_from by_id [] = by_id
  index_from by_id (m ∷ ms) =
      index_from
        (if is_empty (trimmed_text rt m.id)
          then by_id
          else insert (trimmed_text rt m.id) (normal_node m) by_id)
        ms

  -- `Array.from(byId.values())`
  unfoldable pub nodes_of : List MessageLike → List Node
  unfolding index_from
  nodes_of ms = map (λ e. e.1) (index_from [] ms)

  unfoldable pub node_parents : Node → List String
  node_parents n = normalize_after_ids rt (texts n.after)

  pub record Timeline : Type 0 where
    pub ordered : List Node
    pub leaf_ids : List String
    pub missing_ids : List String

  unfoldable pub analyze_messages : List MessageLike → Timeline
  analyze_messages ms =
      let nodes = nodes_of ms in
      record {
        ordered = ordered (λ n. n.id) node_parents compare_messages nodes;
        leaf_ids = leaf_ids (λ n. n.id) node_parents compare_messages nodes;
        missing_ids =
            sort text_order (links (λ n. n.id) node_parents compare_messages nodes).missing;
      }
