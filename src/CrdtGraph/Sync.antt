-- ===== src/CrdtGraph/Sync.antt =====
-- `selectCrdtOpsForSync`: which ops a peer is sent for the version vector that it asks from.
use Prim.Native.Nat.{ℕ, zero, suc, ◌≤◌, ◌<◌, max}
use mathlib.Core.Path.{◌≡◌, refl, ap, subst, ◌∙◌}
use mathlib.Core.Bool.{true, false}
use mathlib.Core.Logic.{inl, inr, ◌⊎◌, ◌≢◌}
use mathlib.Core.Option.{none, some}
use mathlib.Core.List.{List, [], ◌∷◌, ◌++◌, append-nil}
use native.Mathlib.Decide.{dec_le}
use native.Mathlib.Omega.{arith}
use openclawapp.Base.{take, take-suffix, is_empty}
use openclawapp.Base.Values.{nan, infinity, Num, finite, Value, Runtime, whole, gt}
use openclawapp.Base.Occurrences.{In, In-keep}
use openclawapp.Crdt.Vectors.{VersionVector, seq_at, vector_value, normalize_version_vector}
use openclawapp.Crdt.Vectors.Merge.{normalize-vector_value}
use openclawapp.Crdt.Envelope.{OpEnvelope}
use openclawapp.Graph.Permutation.{ordered_back}
use openclawapp.CrdtGraph.{
  dedupe_ops, op_parents, compare_ops, analyze_ops, is_wanted, slice_to, select_ops,
}
use openclawapp.CrdtGraph.Dedupe.{dedupe-Distinct, op_parents-Distinct}
use openclawapp.CrdtGraph.Seqs.{device, seq, contiguous_vector}
use openclawapp.CrdtGraph.Seqs.Collect.{has_seq}
use openclawapp.CrdtGraph.Seqs.Contiguous.{contiguous_vector_lem, contiguous-IsNormal}

In-nil : (op : OpEnvelope) → ¬ In op []
In-nil op i = absurd i

module _ (rt : Runtime) where
  -- Every kept op that is ahead of the vector is selected.
  pub select_complete :
      (ops : List OpEnvelope) (want : Value) (op : OpEnvelope)
      → In op (dedupe_ops ops)
      → is_wanted (normalize_version_vector rt want) op ≡ true
      → In op (select_ops rt ops want none)
  unfolding select_ops analyze_ops
  select_complete ops want op i w =
      In-keep (is_wanted (normalize_version_vector rt want)) op _
        (ordered_back (λ x. x.op_id) op_parents (compare_ops rt) (dedupe_ops ops)
          (dedupe-Distinct ops) op_parents-Distinct op i)
        w

  wanted_of_lt :
      (v : VersionVector) (op : OpEnvelope) (k n : ℕ)
      → seq op ≡ whole k
      → seq_at (device op) v ≡ whole n
      → n < k
      → is_wanted v op ≡ true
  unfolding is_wanted device seq
  wanted_of_lt v op k n e f h = rw (e, f) (ground arith)

  -- A peer that asks from its own version vector is sent every kept op that it lacks: an op with
  -- an author and a number above 0 is selected, or the peer has an op with this author and number.
  pub select-covers :
      (ops remote : List OpEnvelope) (op : OpEnvelope) (k : ℕ)
      → In op (dedupe_ops ops)
      → is_empty (device op) ≡ false
      → seq op ≡ whole k
      → 1 ≤ k
      → In op (select_ops rt ops (vector_value (analyze_ops rt remote).version_vector) none)
        ⊎ (has_seq (device op) (seq op) (dedupe_ops remote) ≡ true)
  unfolding analyze_ops
  select-covers ops remote op k i h e p =
      let (n, at, present, absent) = contiguous_vector_lem (device op) (dedupe_ops remote) h in
      let (normal, numeric) = contiguous-IsNormal (dedupe_ops remote) in
      let read : normalize_version_vector rt (vector_value (contiguous_vector (dedupe_ops remote)))
          ≡ contiguous_vector (dedupe_ops remote) =
        normalize-vector_value rt (contiguous_vector (dedupe_ops remote)) normal numeric in
      elim (dec_le k n) [
        | yes le ↦ inr (ap (λ c. has_seq (device op) c (dedupe_ops remote)) e ∙ present k p le)
        | no gt ↦ inl (
            select_complete ops (vector_value (contiguous_vector (dedupe_ops remote))) op i (
              rw read
                (wanted_of_lt (contiguous_vector (dedupe_ops remote)) op k n e at (omega arith))))
      ]

  -- A prefix that is empty only where the whole is.
  abbrev IsStart : List OpEnvelope → List OpEnvelope → Type 0
  IsStart xs ys = ((rest : List OpEnvelope) × (xs ++ rest ≡ ys)) × ((xs ≢ []) ⊎ (ys ≡ []))

  take-IsStart : (n : ℕ) (xs : List OpEnvelope) → 1 ≤ n → IsStart (take n xs) xs
  take-IsStart n [] h = (take-suffix n [], inr refl)
  take-IsStart (suc n) (x ∷ xs) h = (take-suffix (suc n) (x ∷ xs), inl (λ e. cc))
  take-IsStart zero (x ∷ xs) h = absurd (omega arith)

  slice_to-IsStart :
      (limit : Num) (ops : List OpEnvelope) → limit ≢ nan → IsStart (slice_to limit ops) ops
  unfolding slice_to
  slice_to-IsStart nan ops h = absurd (h refl)
  slice_to-IsStart (infinity true) ops h = take-IsStart 1 ops (omega arith)
  slice_to-IsStart (infinity false) [] h = (([], refl), inr refl)
  slice_to-IsStart (infinity false) (x ∷ xs) h = (([], append-nil (x ∷ xs)), inl (λ e. cc))
  slice_to-IsStart (finite true w f) ops h = take-IsStart 1 ops (omega arith)
  slice_to-IsStart (finite false w f) ops h = take-IsStart (max 1 w) ops (omega arith)

  -- A peer that lacks a kept op and asks from its own version vector is sent some op under every
  -- limit that is not NaN, also one below 1; what it is sent is a prefix of what it would be sent
  -- without a limit.
  pub select-progress :
      (ops remote : List OpEnvelope) (limit : Num) (op : OpEnvelope) (k : ℕ)
      → limit ≢ nan
      → In op (dedupe_ops ops)
      → is_empty (device op) ≡ false
      → seq op ≡ whole k
      → 1 ≤ k
      → has_seq (device op) (seq op) (dedupe_ops remote) ≡ false
      → (let want = vector_value (analyze_ops rt remote).version_vector in
          (select_ops rt ops want (some limit) ≢ [])
          × ((rest : List OpEnvelope) × (select_ops rt ops want (some limit) ++ rest
                ≡ select_ops rt ops want none)))
  unfolding select_ops
  select-progress ops remote limit op k n i h e p a =
      let want = vector_value (analyze_ops rt remote).version_vector in
      let (rest, filled) = slice_to-IsStart limit (select_ops rt ops want none) n in
      (
        elim filled [
          | inl f ↦ f
          | inr none_wanted ↦ absurd (elim (select-covers ops remote op k i h e p) [
            | inl wanted ↦ In-nil op (subst (In op) none_wanted wanted)
            | inr there ↦ cc
          ])
        ],
        rest,
      )
