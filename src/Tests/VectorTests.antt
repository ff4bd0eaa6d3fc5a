-- ===== src/Tests/VectorTests.antt =====
-- Ids and version vectors on sample values.
use mathlib.Core.Path.{◌≡◌, refl}
use mathlib.Core.Bool.{false}
use mathlib.Core.Option.{some}
use mathlib.Core.List.{[], ◌∷◌}
use mathlib.Core.Logic.{◌≢◌}
use openclawapp.Base.{All, Distinct, lookup, trim, insert, contains, set_of}
use openclawapp.Base.Values.{
  nan, finite, Value, arr, nil, cons, obj, str, num, end, field, Count, whole, not_a_number, clamp,
  count_or_zero,
}
use openclawapp.Crdt.Ids.{IsId, normalize_id, normalize_parents, normalize_parents_lem}
use openclawapp.Crdt.Vectors.{
  seq_at, vector_value, normalize_version_vector, normalize_entry, from_entries,
  merge_version_vectors, diff_version_vectors,
}
use openclawapp.Crdt.Vectors.Merge.{merge-diff, merge-nan}
use openclawapp.Tests.{sample}

abbrev parents_sample : Value
parents_sample = arr (cons (str " a ") (cons (str "a") (cons (num nan) (cons (str " ") nil))))

abbrev local : Value
local = obj (field " d1 " (num (finite false 7 0)) (field "d2" (num (finite false 1 0)) end))

abbrev remote : Value
remote = obj (field "d1" (num (finite false 3 0)) (field "d3" (num (finite false 2 0)) end))

abbrev broken : Value
broken = obj (field "d1" (str "many") end)

some-ne : (n : Count) → n ≢ not_a_number → some n ≢ some not_a_number
some-ne n h e = h (cc)

normalize_parents_test : normalize_parents parents_sample ≡ "a" ∷ []
unfolding normalize_parents normalize_id trim contains set_of
normalize_parents_test = refl

normalize_parents_lem_example :
    Distinct (normalize_parents parents_sample) × All IsId (normalize_parents parents_sample)
normalize_parents_lem_example = normalize_parents_lem parents_sample

remote_numeric : lookup "d1" (normalize_version_vector sample remote) ≢ some not_a_number
unfolding normalize_version_vector normalize_entry from_entries lookup insert trim normalize_id
    count_or_zero clamp
remote_numeric e = cc

local_numeric : lookup "d1" (normalize_version_vector sample local) ≢ some not_a_number
unfolding normalize_version_vector normalize_entry from_entries lookup insert trim normalize_id
    count_or_zero clamp
local_numeric e = cc

broken_entry : lookup "d1" (normalize_version_vector sample broken) ≡ some not_a_number
unfolding normalize_version_vector normalize_entry from_entries lookup insert trim normalize_id
    count_or_zero clamp
broken_entry = refl

merge-diff_example :
    seq_at "d1"
      (merge_version_vectors sample local (vector_value (diff_version_vectors sample local remote)))
    ≡ seq_at "d1" (merge_version_vectors sample local remote)
merge-diff_example = merge-diff sample local remote "d1" remote_numeric

merge-nan_example : seq_at "d1" (merge_version_vectors sample local broken) ≡ whole 0
merge-nan_example = merge-nan sample local broken "d1" broken_entry
