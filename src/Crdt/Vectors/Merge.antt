-- ===== src/Crdt/Vectors/Merge.antt =====
-- Merging and comparing version vectors: the laws that synchronisation rests on.
use Prim.Native.Nat.{zero, suc}
use Prim.Native.String.{String}
use mathlib.Core.Path.{◌≡◌, refl, ap, sym, ◌∙◌}
use mathlib.Core.Bool.{false, not}
use mathlib.Core.Logic.{◌≢◌}
use mathlib.Core.Option.{Option, none, some}
use mathlib.Core.List.{List, [], ◌∷◌, ◌++◌, map, append_assoc, append-nil}
use native.Mathlib.Omega.{arith}
use openclawapp.Base.{
  All, keep, contains, Distinct, is_empty, lookup, insert, keys, contains-append, text_symm,
}
use openclawapp.Base.Sets.{contains-cons}
use openclawapp.Base.Values.{
  Value, num, entries, of_entries, Count, whole, infinite, not_a_number, or_none, count_num,
  Runtime, count_or_zero,
}
use openclawapp.Crdt.Ids.{normalize_id, IsId}
use openclawapp.Crdt.Vectors.{
  VersionVector, from_entries, vector_value, seq_at, normalize_entry, normalize_version_vector,
  merge_version_vectors, diff_version_vectors,
}
use openclawapp.Crdt.Vectors.Laws.{
  IsNormal, IsNumeric, learned, ahead, seq_at-merge, lookup-diff, diff-IsNormal, diff-IsNumeric,
}

insert-absent :
    (k : String) (c : Count) (v : VersionVector)
    → contains k (keys v) ≡ false
    → insert k c v ≡ v ++ (k, c) ∷ []
unfolding insert contains
insert-absent k c [] h = refl
insert-absent k c ((j, w) ∷ v) h = ground (arith, insert-absent k c v)

keys-concat :
    (v : VersionVector) (k : String) (c : Count) → keys (v ++ (k, c) ∷ []) ≡ keys v ++ k ∷ []
keys-concat [] k c = refl
keys-concat (e ∷ v) k c = ap (λ l. e.0 ∷ l) (keys-concat v k c)

absent_of_Distinct :
    (ks : List String) (k : String) (js : List String)
    → Distinct (ks ++ k ∷ js)
    → contains k ks ≡ false
unfolding contains
absent_of_Distinct [] k js d = refl
absent_of_Distinct (i ∷ ks) k js (n, d) = ground (
  arith,
  contains-append i ks (k ∷ js),
  contains-cons i k js,
  text_symm i k,
  absent_of_Distinct ks k js d,
)

from_entries-Distinct :
    (acc es : VersionVector) → Distinct (keys acc ++ keys es) → from_entries acc es ≡ acc ++ es
unfolding from_entries
from_entries-Distinct acc [] d = sym (append-nil acc)
from_entries-Distinct acc ((k, c) ∷ es) d =
    rw (insert-absent k c acc (absent_of_Distinct (keys acc) k (keys es) d)) (
      from_entries-Distinct (acc ++ (k, c) ∷ []) es (rw (keys-concat acc k c, append_assoc) d)
      ∙ append_assoc acc ((k, c) ∷ []) es)

-- `vector[k] || 0`, of the entry.
abbrev read : Option Count → Count
read none = whole 0
read (some c) = or_none c

seq_at-lookup : (k : String) (v : VersionVector) → seq_at k v ≡ read (lookup k v)
unfolding seq_at
seq_at-lookup k v = ground arith

learned-ahead :
    (a b : Option Count)
    → b ≢ some not_a_number
    → learned (read a) (ahead (read a) b) ≡ learned (read a) b
learned-ahead a none h = refl
learned-ahead a (some not_a_number) h = absurd (h refl)
learned-ahead none (some infinite) h = refl
learned-ahead none (some (whole m)) h = ground arith
learned-ahead (some not_a_number) (some infinite) h = refl
learned-ahead (some not_a_number) (some (whole m)) h = ground arith
learned-ahead (some infinite) (some infinite) h = refl
learned-ahead (some infinite) (some (whole m)) h = refl
learned-ahead (some (whole n)) (some infinite) h = refl
learned-ahead (some (whole n)) (some (whole m)) h = ground arith

learned-nan : (a : Option Count) → learned (read a) (some not_a_number) ≡ whole 0
learned-nan none = refl
learned-nan (some not_a_number) = refl
learned-nan (some infinite) = refl
learned-nan (some (whole n)) = refl

learned_comm :
    (a b : Option Count)
    → a ≢ some not_a_number
    → b ≢ some not_a_number
    → learned (read a) b ≡ learned (read b) a
learned_comm (some not_a_number) b h h' = absurd (h refl)
learned_comm a (some not_a_number) h h' = absurd (h' refl)
learned_comm none none h h' = refl
learned_comm none (some infinite) h h' = refl
learned_comm none (some (whole m)) h h' = ground arith
learned_comm (some infinite) none h h' = refl
learned_comm (some infinite) (some infinite) h h' = refl
learned_comm (some infinite) (some (whole m)) h h' = refl
learned_comm (some (whole n)) none h h' = ground arith
learned_comm (some (whole n)) (some infinite) h h' = refl
learned_comm (some (whole n)) (some (whole m)) h h' = ground arith

module _ (rt : Runtime) where
  count-round_trip : (c : Count) → c ≢ not_a_number → count_or_zero rt (num (count_num c)) ≡ c
  unfolding count_or_zero
  count-round_trip not_a_number h = absurd (h refl)
  count-round_trip infinite h = refl
  count-round_trip (whole zero) h = refl
  count-round_trip (whole (suc n)) h = refl

  entries-round_trip :
      (v : VersionVector)
      → All IsId (keys v)
      → IsNumeric v
      → keep
          (λ e. not (is_empty e.0))
          (map
            (normalize_entry rt)
            (entries (of_entries (map (λ e. (e.0, num (count_num e.1))) v))))
        ≡ v
  unfolding normalize_entry normalize_id
  entries-round_trip [] h n = refl
  entries-round_trip ((k, c) ∷ v) ((t, e), h) (m, n) =
      rw (t, e, count-round_trip c m) (ap (λ l. (k, c) ∷ l) (entries-round_trip v h n))

  -- A normal vector without NaN is read back as it was sent.
  pub normalize-vector_value :
      (v : VersionVector)
      → IsNormal v
      → IsNumeric v
      → normalize_version_vector rt (vector_value v) ≡ v
  unfolding normalize_version_vector
  normalize-vector_value v n m =
      rw (entries-round_trip v n.ids m) (from_entries-Distinct [] v n.distinct)

  -- Where the remote entry is not NaN, merging only what is ahead gives the same count as merging
  -- everything.
  pub merge-diff :
      (lhs rhs : Value) (k : String)
      → lookup k (normalize_version_vector rt rhs) ≢ some not_a_number
      → seq_at k (merge_version_vectors rt lhs (vector_value (diff_version_vectors rt lhs rhs)))
        ≡ seq_at k (merge_version_vectors rt lhs rhs)
  merge-diff lhs rhs k h =
      rw
        (
          seq_at-merge,
          seq_at-merge,
          normalize-vector_value (diff_version_vectors rt lhs rhs) (diff-IsNormal rt lhs rhs)
              (diff-IsNumeric rt lhs rhs),
          lookup-diff,
          seq_at-lookup,
        )
        (learned-ahead (lookup k (normalize_version_vector rt lhs))
          (lookup k (normalize_version_vector rt rhs)) h)

  -- A count that is NaN makes the merged entry read as 0, however far the local one was.
  pub merge-nan :
      (lhs rhs : Value) (k : String)
      → lookup k (normalize_version_vector rt rhs) ≡ some not_a_number
      → seq_at k (merge_version_vectors rt lhs rhs) ≡ whole 0
  merge-nan lhs rhs k h = rw (seq_at-merge, h, seq_at-lookup) (learned-nan _)

  -- Where neither entry is NaN, the order of merging does not change a count.
  pub merge_comm :
      (lhs rhs : Value) (k : String)
      → lookup k (normalize_version_vector rt lhs) ≢ some not_a_number
      → lookup k (normalize_version_vector rt rhs) ≢ some not_a_number
      → seq_at k (merge_version_vectors rt lhs rhs) ≡ seq_at k (merge_version_vectors rt rhs lhs)
  merge_comm lhs rhs k h h' =
      rw (seq_at-merge, seq_at-merge, seq_at-lookup, seq_at-lookup) (learned_comm _ _ h h')
