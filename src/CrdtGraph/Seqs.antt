-- ===== src/CrdtGraph/Seqs.antt =====
-- The version vectors of a list of ops: the greatest sequence number of each author, and the
-- greatest one up to which there is no gap.
pub mod Gaps
pub mod Collect
pub mod Contiguous
use Prim.Native.Nat.{ℕ, zero, suc, ◌+◌, ◌-◌, compare, Ordering}
use Prim.Native.String.{String}
use mathlib.Core.Bool.{Bool, true, false, not, ◌&&◌, ◌||◌}
use mathlib.Core.Option.{Option, none, some}
use mathlib.Core.List.{List, [], ◌∷◌, ◌++◌, map}
use openclawapp.Base.{if◌then◌else◌, eqb, is_empty, sort, lookup, insert}
use openclawapp.Base.Values.{
  Count, whole, infinite, not_a_number, or_none, positive, max_count, str,
}
use openclawapp.Crdt.Ids.{normalize_id}
use openclawapp.Crdt.Vectors.{VersionVector, seq_at}
use openclawapp.Crdt.Envelope.{OpEnvelope}

-- The sign of `a - b`; two infinite counts are equal before they are subtracted.
unfoldable pub compare_count : Count → Count → Ordering
compare_count (whole a) (whole b) = compare a b
compare_count (whole a) infinite = Ordering.lt
compare_count infinite (whole b) = Ordering.gt
compare_count _ _ = Ordering.eq

-- `a === b`
unfoldable pub count_eqb : Count → Count → Bool
count_eqb (whole a) (whole b) = eqb a b
count_eqb infinite infinite = true
count_eqb _ _ = false

unfoldable pub device : OpEnvelope → String
device op = normalize_id (str op.author_device_id)

unfoldable pub seq : OpEnvelope → Count
seq op = or_none op.author_seq

-- `!authorDeviceId || authorSeq <= 0`
unfoldable pub is_skipped : OpEnvelope → Bool
unfolding device seq
is_skipped op = is_empty (device op) || not (positive (seq op))

unfoldable pub observe : VersionVector → List OpEnvelope → VersionVector
unfolding is_skipped
observe observed [] = observed
observe observed (op ∷ ops) =
    observe
      (if is_skipped op
        then observed
        else insert (device op) (max_count (seq_at (device op) observed) (seq op)) observed)
      ops

unfoldable pub observed_vector : List OpEnvelope → VersionVector
unfolding observe
observed_vector ops = observe [] ops

unfoldable pub has_count : Count → List Count → Bool
unfolding count_eqb
has_count c [] = false
has_count c (d ∷ ds) = count_eqb d c || has_count c ds

-- `seqs.add(c)`
unfoldable pub add_seq : List Count → Count → List Count
unfolding has_count
add_seq seqs c = if has_count c seqs then seqs else seqs ++ c ∷ []

-- `seqsByAuthor.get(k) || new Set()`
unfoldable pub seqs_of : String → List (String × List Count) → List Count
seqs_of k m = elim (lookup k m) [ none ↦ [] | some cs ↦ cs ]

unfoldable pub collect : List (String × List Count) → List OpEnvelope → List (String × List Count)
unfolding is_skipped seqs_of add_seq
collect m [] = m
collect m (op ∷ ops) =
    collect
      (if is_skipped op then m else insert (device op) (add_seq (seqs_of (device op) m) (seq op)) m)
      ops

-- The loop over the ordered numbers: the first one that is missing.
unfoldable pub first_gap : ℕ → List Count → ℕ
unfolding count_eqb
first_gap expected [] = expected
first_gap expected (c ∷ cs) =
    let rest = first_gap (expected + 1) cs in
    if count_eqb c (whole expected) then rest else expected

unfoldable pub contiguous_entry : List Count → Count
unfolding first_gap compare_count
contiguous_entry seqs = whole (first_gap 1 (sort compare_count seqs) - 1)

unfoldable pub contiguous_entries : VersionVector → List (String × List Count) → VersionVector
unfolding contiguous_entry
contiguous_entries vector [] = vector
contiguous_entries vector ((k, seqs) ∷ m) =
    contiguous_entries (insert k (contiguous_entry seqs) vector) m

unfoldable pub contiguous_vector : List OpEnvelope → VersionVector
unfolding collect contiguous_entries
contiguous_vector ops = contiguous_entries [] (collect [] ops)
