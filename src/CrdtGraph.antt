-- ===== src/CrdtGraph.antt =====
-- packages/protocol/src/crdt-graph.ts: the analysis of a set of ops, and what is read off it.
pub mod Seqs
pub mod Dedupe
pub mod Order
pub mod Sync
pub mod Messages
use Prim.Native.Nat.{ℕ, zero, suc, ◌-◌, max, compare, Ordering}
use Prim.Native.String.{String}
use mathlib.Core.Bool.{Bool, true, false, not, ◌&&◌, ◌||◌}
use mathlib.Core.Option.{Option, none, some}
use mathlib.Core.List.{List, [], ◌∷◌, ◌++◌, map}
use text.Mathlib.Text.{◌==◌}
use openclawapp.Base.{
  if◌then◌else◌, eqb, keep, find, take, length, contains, is_empty, sort, text_order, trim,
}
use openclawapp.Base.Values.{
  Num, nan, infinity, finite, Value, undefined, null, bool, num, str, arr, obj, elems, Count, whole,
  infinite, not_a_number, or_none, gt, positive, Runtime, Result, ok, err, member,
}
use openclawapp.Crdt.Ids.{normalize_id, normalize_parents, texts}
use openclawapp.Crdt.Vectors.{VersionVector, seq_at, vector_value, normalize_version_vector}
use openclawapp.Crdt.Envelope.{OpEnvelope, OpKind, kind_text}
use openclawapp.Crdt.Wire.{ConversationSummary, create_summary}
use openclawapp.Graph
use openclawapp.Graph.{Links, links, ordered, leaf_ids}
use openclawapp.CrdtGraph.Seqs.{observed_vector, contiguous_vector, compare_count}

-- `normalizeCrdtId(text)`
abbrev pub id_of : String → String
id_of s = normalize_id (str s)

-- The copy of an op that `dedupeCrdtOps` keeps.
unfoldable pub normal_op : OpEnvelope → OpEnvelope
normal_op op = record op {
  op_id = id_of op.op_id;
  conversation_id = id_of op.conversation_id;
  author_device_id = id_of op.author_device_id;
  author_entity_type = id_of op.author_entity_type;
  author_seq = or_none op.author_seq;
  parents = normalize_parents (texts op.parents);
  signed_at = or_none op.signed_at;
  signature = id_of op.signature;
}

abbrev pub ids : List OpEnvelope → List String
ids ops = map (λ op. op.op_id) ops

-- The loop of `dedupeCrdtOps`; the map's values are kept, whose ids are the keys.
unfoldable pub dedupe_from : List OpEnvelope → List OpEnvelope → List OpEnvelope
dedupe_from by_id [] = by_id
dedupe_from by_id (op ∷ ops) =
    dedupe_from
      (if is_empty (id_of op.op_id) || contains (id_of op.op_id) (ids by_id)
        then by_id
        else by_id ++ normal_op op ∷ [])
      ops

unfoldable pub dedupe_ops : List OpEnvelope → List OpEnvelope
unfolding dedupe_from normal_op
dedupe_ops ops = dedupe_from [] ops

-- `normalizeCrdtParents(op.parents)`
unfoldable pub op_parents : OpEnvelope → List String
op_parents op = normalize_parents (texts op.parents)

-- `Math.max(1, Math.trunc(limit))`, and the prefix that a `slice` up to it takes.
unfoldable pub slice_to : Num → List OpEnvelope → List OpEnvelope
slice_to nan ops = []
slice_to (infinity false) ops = ops
slice_to (infinity true) ops = take 1 ops
slice_to (finite false w f) ops = take (max 1 w) ops
slice_to (finite true w f) ops = take 1 ops

-- The test of `selectCrdtOpsForSync`: the op is ahead of the vector.
unfoldable pub is_wanted : VersionVector → OpEnvelope → Bool
is_wanted want op = gt (or_none op.author_seq) (seq_at (id_of op.author_device_id) want)

module _ (rt : Runtime) where
  unfoldable pub compare_ops : OpEnvelope → OpEnvelope → Ordering
  compare_ops lhs rhs =
      if not (lhs.hlc == rhs.hlc)
      then rt.locale_compare lhs.hlc rhs.hlc
      else if not (lhs.author_device_id == rhs.author_device_id)
      then rt.locale_compare lhs.author_device_id rhs.author_device_id
      else elim (compare_count (or_none lhs.author_seq) (or_none rhs.author_seq)) [
        | Ordering.eq ↦ rt.locale_compare lhs.op_id rhs.op_id
        | other ↦ other
      ]

  pub record Analysis : Type 0 where
    pub ops : List OpEnvelope
    pub ordered_ops : List OpEnvelope
    pub leaf_op_ids : List String
    pub missing_parent_op_ids : List String
    pub version_vector : VersionVector
    pub observed_version_vector : VersionVector
    pub children_by_op_id : List (String × List String)

  unfoldable pub analyze_ops : List OpEnvelope → Analysis
  analyze_ops ops =
      let deduped = dedupe_ops ops in
      record {
        ops = deduped;
        ordered_ops = ordered (λ op. op.op_id) op_parents compare_ops deduped;
        leaf_op_ids = leaf_ids (λ op. op.op_id) op_parents compare_ops deduped;
        missing_parent_op_ids =
            sort text_order (links (λ op. op.op_id) op_parents compare_ops deduped).missing;
        version_vector = contiguous_vector deduped;
        observed_version_vector = observed_vector deduped;
        children_by_op_id =
            sort (λ a b. rt.locale_compare a.0 b.0)
              (map (λ e. (e.0, sort text_order e.1))
                (links (λ op. op.op_id) op_parents compare_ops deduped).children);
      }

  unfoldable pub select_ops : List OpEnvelope → Value → Option Num → List OpEnvelope
  unfolding is_wanted
  select_ops ops want_from limit =
      let filtered =
        keep (is_wanted (normalize_version_vector rt want_from)) (analyze_ops ops).ordered_ops in
      elim limit [ none ↦ filtered | some n ↦ slice_to n filtered ]

  unfoldable pub summarize_conversation : String → List OpEnvelope → Result ConversationSummary
  unfolding create_summary
  summarize_conversation conversation_id ops =
      let analysis =
        analyze_ops
          (keep (λ op. id_of op.conversation_id == id_of conversation_id) (dedupe_ops ops)) in
      create_summary rt (str conversation_id) (vector_value analysis.version_vector)
        (texts analysis.leaf_op_ids)
