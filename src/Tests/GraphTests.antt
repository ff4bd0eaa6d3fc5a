-- ===== src/Tests/GraphTests.antt =====
-- The analysis of ops on a sample history.
use Prim.Native.Nat.{ℕ, ◌+◌, ◌≤◌, ◌<◌}
use mathlib.Core.Path.{◌≡◌, refl}
use mathlib.Core.Bool.{true, false, not, ◌&&◌}
use mathlib.Core.Logic.{◌≢◌, inl, ◌⊎◌}
use mathlib.Core.Option
use mathlib.Core.Option.{none, some}
use mathlib.Core.List.{List, [], ◌∷◌, ◌++◌, Perm}
use native.Mathlib.Omega.{arith}
use text.Mathlib.Text.{◌==◌}
use openclawapp.Base.{set_of, All, contains, length, find, is_empty, trim}
use openclawapp.Base.Values.{finite, whole}
use openclawapp.Base.Occurrences.{In}
use openclawapp.Graph.{drained}
use openclawapp.Graph.Invariant.{All-In}
use openclawapp.Graph.Permutation.{ParentsFirst}
use openclawapp.Graph.Results.{names}
use openclawapp.Crdt.Ids.{normalize_id, normalize_parents}
use openclawapp.Crdt.Vectors.{seq_at, vector_value}
use openclawapp.Crdt.Envelope.{OpEnvelope}
use openclawapp.CrdtGraph.{
  id_of, ids, normal_op, dedupe_from, dedupe_ops, op_parents, compare_ops, analyze_ops, select_ops,
}
use openclawapp.CrdtGraph.Dedupe.{find-dedupe}
use openclawapp.CrdtGraph.Order.{
  ordered_ops-perm, ordered_ops-ParentsFirst, contains-leaf_op_ids, contains-missing_parent_op_ids,
  drained-ready,
}
use openclawapp.CrdtGraph.Seqs.{device, seq, contiguous_vector}
use openclawapp.CrdtGraph.Seqs.Collect.{has_seq}
use openclawapp.CrdtGraph.Seqs.Contiguous.{contiguous_vector_lem}
use openclawapp.CrdtGraph.Sync.{select-covers, select-progress}
use openclawapp.Tests.{sample, first, second, history}

abbrev rank : OpEnvelope → ℕ
rank op = length op.parents

-- Each pair of the kept ops.
ranked_pairs :
    All
      (λ x.
        All (λ y. contains y.op_id (op_parents x) ≡ true → rank y < rank x) (dedupe_ops history))
      (dedupe_ops history)
unfolding dedupe_ops dedupe_from normal_op normalize_id normalize_parents op_parents trim contains
    set_of
ranked_pairs = (((λ h. cc), ((λ h. omega arith), tt)), (((λ h. cc), ((λ h. cc), tt)), tt))

ranked :
    (x y : OpEnvelope)
    → In x (dedupe_ops history)
    → In y (dedupe_ops history)
    → contains y.op_id (op_parents x) ≡ true
    → rank y < rank x
ranked x y i j = All-In _ y _ (All-In _ x _ ranked_pairs i) j

ordered_ops-ParentsFirst_example :
    ParentsFirst
      (λ op. op.op_id)
      op_parents
      (dedupe_ops history)
      []
      (analyze_ops sample history).ordered_ops
ordered_ops-ParentsFirst_example = ordered_ops-ParentsFirst sample history rank ranked

ordered_ops-perm_example : Perm (analyze_ops sample history).ordered_ops (dedupe_ops history)
ordered_ops-perm_example = ordered_ops-perm sample history

contains-leaf_op_ids_example :
    contains "b" (analyze_ops sample history).leaf_op_ids
    ≡ (contains "b" (ids (dedupe_ops history)) && not (names op_parents "b" (dedupe_ops history)))
contains-leaf_op_ids_example = contains-leaf_op_ids sample history "b"

contains-missing_parent_op_ids_example :
    contains "a" (analyze_ops sample (second ∷ [])).missing_parent_op_ids ≡ (
      names op_parents "a" (dedupe_ops (second ∷ []))
      && not (contains "a" (ids (dedupe_ops (second ∷ [])))))
contains-missing_parent_op_ids_example = contains-missing_parent_op_ids sample (second ∷ []) "a"

find-dedupe_example :
    find (λ op. op.op_id == "a") (dedupe_ops history)
    ≡ Option.map normal_op (find (λ op. id_of op.op_id == "a") history)
find-dedupe_example = find-dedupe "a" history refl

contiguous_vector_lem_example :
    (n : ℕ) × (seq_at "d1" (contiguous_vector history) ≡ whole n)
    × ((k : ℕ) → 1 ≤ k → k ≤ n → has_seq "d1" (whole k) history ≡ true)
    × (has_seq "d1" (whole (n + 1)) history ≡ false)
contiguous_vector_lem_example = contiguous_vector_lem "d1" history refl

second_kept :
    In second (dedupe_ops history) × (is_empty (device second) ≡ false) × (seq second ≡ whole 2)
unfolding dedupe_ops dedupe_from normal_op normalize_id normalize_parents trim contains set_of
    device seq
second_kept = (inl refl, refl, refl)

-- A peer that has the first op only is sent the second.
select-covers_example :
    In second (
      select_ops sample history
        (vector_value (analyze_ops sample (first ∷ [])).version_vector)
        none)
    ⊎ (has_seq (device second) (seq second) (dedupe_ops (first ∷ [])) ≡ true)
select-covers_example =
    select-covers sample history (first ∷ []) second 2 second_kept.0 second_kept.1 second_kept.2
      (omega arith)

-- Also under the limit 0, a peer that has the first op only is sent an op.
second_lacking : has_seq (device second) (seq second) (dedupe_ops (first ∷ [])) ≡ false
unfolding has_seq dedupe_ops dedupe_from normal_op normalize_id normalize_parents trim contains
    set_of device seq openclawapp.CrdtGraph.Seqs.count_eqb
second_lacking = refl

select-progress_example :
    (select_ops sample history
        (vector_value (analyze_ops sample (first ∷ [])).version_vector)
        (some (finite false 0 0))
      ≢ [])
    × ((rest : List OpEnvelope) × (select_ops sample history
              (vector_value (analyze_ops sample (first ∷ [])).version_vector)
              (some (finite false 0 0))
            ++ rest
          ≡ select_ops sample history
              (vector_value (analyze_ops sample (first ∷ [])).version_vector)
              none))
select-progress_example =
    select-progress sample history (first ∷ []) (finite false 0 0) second 2 (λ e. cc) second_kept.0
      second_kept.1 second_kept.2 (omega arith) second_lacking

drained-ready_example :
    (drained (λ op. op.op_id) op_parents (compare_ops sample) (dedupe_ops history)).ready ≡ []
drained-ready_example = drained-ready sample history
