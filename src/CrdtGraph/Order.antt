-- ===== src/CrdtGraph/Order.antt =====
-- What `analyzeCrdtOps` returns: the order, the leaves and the missing parents.
use Prim.Native.Nat.{ℕ, ◌<◌}
use Prim.Native.String.{String}
use mathlib.Core.Path.{◌≡◌, ◌∙◌}
use mathlib.Core.Bool.{true, not, ◌&&◌}
use mathlib.Core.List.{List, [], Perm}
use openclawapp.Base.{contains, text_order}
use openclawapp.Base.Values.{Runtime}
use openclawapp.Base.Occurrences.{In, contains-sort}
use openclawapp.Crdt.Envelope.{OpEnvelope}
use openclawapp.Graph.{drained}
use openclawapp.Graph.Order.{drained_ends}
use openclawapp.Graph.Results.{names, contains-leaf_ids, ordered-IsCausal}
use openclawapp.Graph.Permutation.{
  ordered-perm, ParentsFirst, ParentsFirst-of_IsCausal, contains-links_missing,
}
use openclawapp.CrdtGraph.{ids, dedupe_ops, op_parents, compare_ops, analyze_ops}
use openclawapp.CrdtGraph.Dedupe.{dedupe-Distinct, op_parents-Distinct}

module _ (rt : Runtime) (ops : List OpEnvelope) where
  abbrev op_id : OpEnvelope → String
  op_id op = op.op_id

  -- The ordered ops are the kept ops, each exactly once, also where parents form a cycle.
  pub ordered_ops-perm : Perm (analyze_ops rt ops).ordered_ops (dedupe_ops ops)
  unfolding analyze_ops
  ordered_ops-perm =
      ordered-perm op_id op_parents (compare_ops rt) (dedupe_ops ops) (dedupe-Distinct ops)
        op_parents-Distinct

  -- If some rank falls from every kept op to its kept parents, so that parents form no cycle, then
  -- every kept parent of an op stands in front of it in the ordered ops.
  pub ordered_ops-ParentsFirst :
      (rank : OpEnvelope → ℕ)
      → ((x y : OpEnvelope)
          → In x (dedupe_ops ops)
          → In y (dedupe_ops ops)
          → contains y.op_id (op_parents x) ≡ true
          → rank y < rank x)
      → ParentsFirst op_id op_parents (dedupe_ops ops) [] (analyze_ops rt ops).ordered_ops
  unfolding analyze_ops
  ordered_ops-ParentsFirst rank ranked =
      ParentsFirst-of_IsCausal op_id op_parents (compare_ops rt) (dedupe_ops ops) [] _ (
        ordered-IsCausal op_id op_parents (compare_ops rt) (dedupe_ops ops) (dedupe-Distinct ops)
          op_parents-Distinct rank ranked)

  -- The leaves are the kept ids that no kept op names as a parent.
  pub contains-leaf_op_ids :
      (a : String)
      → contains a (analyze_ops rt ops).leaf_op_ids
        ≡ (contains a (ids (dedupe_ops ops)) && not (names op_parents a (dedupe_ops ops)))
  unfolding analyze_ops
  contains-leaf_op_ids a =
      contains-leaf_ids op_id op_parents (compare_ops rt) (dedupe_ops ops) (dedupe-Distinct ops)
        op_parents-Distinct a

  -- The missing parents are the ids that some kept op names as a parent and no kept op has.
  pub contains-missing_parent_op_ids :
      (a : String)
      → contains a (analyze_ops rt ops).missing_parent_op_ids
        ≡ (names op_parents a (dedupe_ops ops) && not (contains a (ids (dedupe_ops ops))))
  unfolding analyze_ops
  contains-missing_parent_op_ids a =
      contains-sort text_order a _
      ∙ contains-links_missing op_id op_parents (compare_ops rt) (dedupe_ops ops) a

  -- The loop of the analysis ends with an empty queue after at most as many rounds as there are
  -- kept ops, which is its fuel.
  pub drained-ready : (drained op_id op_parents (compare_ops rt) (dedupe_ops ops)).ready ≡ []
  drained-ready =
      (drained_ends op_id op_parents (compare_ops rt) (dedupe_ops ops) (dedupe-Distinct ops)
        op_parents-Distinct).1
