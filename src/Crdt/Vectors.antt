-- ===== src/Crdt/Vectors.antt =====
-- Version vectors of packages/protocol/src/crdt.ts. A `Record<string, number>` is the list of its
-- entries in the order of insertion; the members that objects inherit are left out.
pub mod Laws
pub mod Merge
use Prim.Native.Nat.{ℕ}
use Prim.Native.String.{String}
use mathlib.Core.Bool.{Bool, true, false, not}
use mathlib.Core.Option.{none, some}
use mathlib.Core.List.{List, [], ◌∷◌, map}
use openclawapp.Base.{if◌then◌else◌, keep, is_empty, trim, lookup, insert}
use openclawapp.Base.Values.{
  Value, undefined, null, bool, num, str, arr, obj, entries, of_entries, Count, whole, or_none, gt,
  max_count, count_num, Runtime, count_or_zero,
}
use openclawapp.Crdt.Ids.{normalize_id}

abbrev pub VersionVector : Type 0
VersionVector = List (String × Count)

-- `Object.fromEntries`
unfoldable pub from_entries : VersionVector → List (String × Count) → VersionVector
from_entries acc [] = acc
from_entries acc ((k, c) ∷ es) = from_entries (insert k c acc) es

-- The vector as a JavaScript value.
abbrev pub vector_value : VersionVector → Value
vector_value v = obj (of_entries (map (λ e. (e.0, num (count_num e.1))) v))

-- `vector[k] || 0`
unfoldable pub seq_at : String → VersionVector → Count
seq_at k v = elim (lookup k v) [ none ↦ whole 0 | some c ↦ or_none c ]

module _ (rt : Runtime) where
  unfoldable pub normalize_entry : String × Value → String × Count
  normalize_entry (k, v) = (normalize_id (str k), count_or_zero rt v)

  unfoldable pub normalize_version_vector : Value → VersionVector
  unfolding from_entries normalize_entry
  normalize_version_vector (obj fs) =
      from_entries [] (keep (λ e. not (is_empty e.0)) (map normalize_entry (entries fs)))
  normalize_version_vector _ = []

  -- The loop of `mergeCrdtVersionVectors`.
  unfoldable pub merge_into : VersionVector → VersionVector → VersionVector
  merge_into merged [] = merged
  merge_into merged ((k, seq) ∷ rest) =
      merge_into (insert k (max_count (seq_at k merged) seq) merged) rest

  unfoldable pub merge_version_vectors : Value → Value → VersionVector
  merge_version_vectors left right =
      merge_into (normalize_version_vector left) (normalize_version_vector right)

  -- The loop of `diffCrdtVersionVectors`.
  unfoldable pub diff_into : VersionVector → VersionVector → VersionVector → VersionVector
  diff_into lhs diff [] = diff
  diff_into lhs diff ((k, seq) ∷ rest) =
      diff_into lhs (if gt seq (seq_at k lhs) then insert k seq diff else diff) rest

  unfoldable pub diff_version_vectors : Value → Value → VersionVector
  diff_version_vectors lhs remote =
      diff_into (normalize_version_vector lhs) [] (normalize_version_vector remote)
