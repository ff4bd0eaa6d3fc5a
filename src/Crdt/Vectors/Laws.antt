-- ===== src/Crdt/Vectors/Laws.antt =====
-- What the entries of a normalised, merged or compared version vector are.
use Prim.Native.String.{String}
use mathlib.Core.Path.{◌≡◌, refl, ◌∙◌}
use mathlib.Core.Bool.{true, false, not}
use mathlib.Core.Logic.{inl, inr, ◌≢◌}
use mathlib.Core.Option.{Option, none, some}
use mathlib.Core.List.{List, [], ◌∷◌, map}
use native.Mathlib.Omega.{arith}
use text.Mathlib.Text.{◌==◌}
use text.Mathlib.TextEquality.{eq_iff}
use text.Mathlib.TextPositions.{eq_refl}
use openclawapp.Base.{
  if◌then◌else◌, Bool-cases, All, keep, contains, Distinct, is_empty, lookup, insert, keys,
}
use openclawapp.Base.Maps.{
  lookup-insert, lookup-nil, lookup-cons, Distinct-keys-insert, All-keys-insert,
}
use openclawapp.Base.Values.{
  Value, str, obj, entries, Count, whole, infinite, not_a_number, or_none, gt, max_count, Runtime,
}
use openclawapp.Crdt.Ids.{normalize_id, IsId, normalize_id-IsId}
use openclawapp.Crdt.Vectors.{
  VersionVector, from_entries, seq_at, normalize_entry, normalize_version_vector, merge_into,
  merge_version_vectors, diff_into, diff_version_vectors,
}

-- A normal vector: distinct normalised ids.
pub record IsNormal (v : VersionVector) : Type 0 where
  pub distinct : Distinct (keys v)
  pub ids : All IsId (keys v)

-- No entry is NaN.
abbrev pub IsNumeric : VersionVector → Type 0
IsNumeric v = All (λ e. e.1 ≢ not_a_number) v

-- The entry as it stands, 0 if there is none.
unfoldable pub entry_at : String → VersionVector → Count
entry_at k v = elim (lookup k v) [ none ↦ whole 0 | some c ↦ c ]

pub IsNormal-insert :
    (k : String) (c : Count) (v : VersionVector) → IsId k → IsNormal v → IsNormal (insert k c v)
IsNormal-insert k c v i n = record {
  distinct = Distinct-keys-insert k c v n.distinct;
  ids = All-keys-insert IsId k c v i n.ids;
}

from_entries-IsNormal :
    (acc es : VersionVector) → IsNormal acc → All IsId (keys es) → IsNormal (from_entries acc es)
unfolding from_entries
from_entries-IsNormal acc [] n h = n
from_entries-IsNormal acc ((k, c) ∷ es) n (i, h) =
    from_entries-IsNormal (insert k c acc) es (IsNormal-insert k c acc i n) h

pub IsNumeric-insert :
    (k : String) (c : Count) (v : VersionVector)
    → c ≢ not_a_number
    → IsNumeric v
    → IsNumeric (insert k c v)
unfolding insert
IsNumeric-insert k c [] p h = (p, tt)
IsNumeric-insert k c ((j, w) ∷ v) p (q, h) = elim (Bool-cases (j == k)) [
  | inl e ↦ rw e (p, h)
  | inr e ↦ rw e (q, IsNumeric-insert k c v p h)
]

pub nil-IsNormal : IsNormal []
nil-IsNormal = record { distinct = tt; ids = tt }

seq_at-insert :
    (k j : String) (c : Count) (v : VersionVector)
    → seq_at j (insert k c v) ≡ (if k == j then or_none c else seq_at j v)
unfolding seq_at
seq_at-insert k j c v = ground (arith, lookup-insert k j c v)

lookup-absent : (k : String) (v : VersionVector) → contains k (keys v) ≡ false → lookup k v ≡ none
unfolding lookup contains
lookup-absent k [] h = refl
lookup-absent k ((j, c) ∷ v) h = ground (arith, lookup-absent k v)

-- A count after hearing of another one: `Math.max(old, heard)`, read as `|| 0`.
abbrev pub learned : Count → Option Count → Count
learned old none = old
learned old (some c) = or_none (max_count old c)

-- An entry that is ahead of a count.
abbrev pub ahead : Count → Option Count → Option Count
ahead old none = none
ahead old (some c) = if gt c old then some c else none

module _ (rt : Runtime) where
  kept-IsId :
      (fs : List (String × Value))
      → All IsId (keys (keep (λ e. not (is_empty e.0)) (map (normalize_entry rt) fs)))
  unfolding normalize_entry
  kept-IsId [] = tt
  kept-IsId ((k, v) ∷ fs) = elim (Bool-cases (is_empty (normalize_id (str k)))) [
    | inl e ↦ rw e (kept-IsId fs)
    | inr e ↦ rw e (normalize_id-IsId (str k) e, kept-IsId fs)
  ]

  pub normalize-IsNormal : (v : Value) → IsNormal (normalize_version_vector rt v)
  unfolding normalize_version_vector
  normalize-IsNormal (obj fs) = from_entries-IsNormal [] _ nil-IsNormal (kept-IsId (entries fs))
  normalize-IsNormal _ = nil-IsNormal

  seq_at-merge_into_absent :
      (k : String) (merged v : VersionVector)
      → contains k (keys v) ≡ false
      → seq_at k (merge_into rt merged v) ≡ seq_at k merged
  unfolding merge_into contains
  seq_at-merge_into_absent k merged [] h = refl
  seq_at-merge_into_absent k merged ((j, c) ∷ v) h = ground (
    arith,
    seq_at-merge_into_absent k (insert j (max_count (seq_at j merged) c) merged) v,
    seq_at-insert j k (max_count (seq_at j merged) c) merged,
  )

  -- Each entry of a merged vector, whatever the numbers.
  seq_at-merge_into :
      (k : String) (merged v : VersionVector)
      → Distinct (keys v)
      → seq_at k (merge_into rt merged v) ≡ learned (seq_at k merged) (lookup k v)
  unfolding merge_into lookup
  seq_at-merge_into k merged [] d = refl
  seq_at-merge_into k merged ((j, c) ∷ v) (n, d) = elim (Bool-cases (j == k)) [
    | inl e ↦
        let same : j ≡ k = (eq_iff j k).0 e in
        rw (same, eq_refl k)
          (seq_at-merge_into_absent k (insert k (max_count (seq_at k merged) c) merged) v
              (rw same at n)
            ∙ rw (seq_at-insert, eq_refl k))
    | inr e ↦ ground (
      arith,
      seq_at-merge_into k (insert j (max_count (seq_at j merged) c) merged) v d,
      seq_at-insert j k (max_count (seq_at j merged) c) merged,
    )
  ]

  -- The merged entry of an author is the greater of the two counts.
  pub seq_at-merge :
      (lhs rhs : Value) (k : String)
      → seq_at k (merge_version_vectors rt lhs rhs)
        ≡ learned
            (seq_at k (normalize_version_vector rt lhs))
            (lookup k (normalize_version_vector rt rhs))
  unfolding merge_version_vectors
  seq_at-merge lhs rhs k = seq_at-merge_into k _ _ (normalize-IsNormal rhs).distinct

  lookup-diff_into_absent :
      (k : String) (lhs diff v : VersionVector)
      → contains k (keys v) ≡ false
      → lookup k (diff_into rt lhs diff v) ≡ lookup k diff
  unfolding diff_into contains
  lookup-diff_into_absent k lhs diff [] h = refl
  lookup-diff_into_absent k lhs diff ((j, c) ∷ v) h = ground (
    arith,
    lookup-diff_into_absent k lhs (if gt c (seq_at j lhs) then insert j c diff else diff) v,
    lookup-insert j k c diff,
  )

  -- The difference from where its loop begins: what was there, or what is ahead.
  abbrev or_else : Option Count → Option Count → Option Count
  or_else none old = old
  or_else (some c) old = some c

  lookup-diff_into :
      (k : String) (lhs diff v : VersionVector)
      → Distinct (keys v)
      → lookup k (diff_into rt lhs diff v)
        ≡ or_else (ahead (seq_at k lhs) (lookup k v)) (lookup k diff)
  unfolding diff_into
  lookup-diff_into k lhs diff [] d = rw (lookup-nil {V = Count} k)
  lookup-diff_into k lhs diff ((j, c) ∷ v) (n, d) = elim (Bool-cases (j == k)) [
    | inl e ↦
        let same : j ≡ k = (eq_iff j k).0 e in
        rw (same, lookup-cons, eq_refl k)
          (lookup-diff_into_absent k lhs (if gt c (seq_at k lhs) then insert k c diff else diff) v
              (rw same at n)
            ∙ ground (arith, lookup-insert k k c diff, eq_refl k))
    | inr e ↦ ground (
      arith,
      lookup-diff_into k lhs (if gt c (seq_at j lhs) then insert j c diff else diff) v d,
      lookup-insert j k c diff,
      lookup-cons k j c v,
    )
  ]

  or_else-none : (o : Option Count) → or_else o none ≡ o
  or_else-none none = refl
  or_else-none (some c) = refl

  -- The difference has exactly the remote entries that are ahead of the local ones.
  pub lookup-diff :
      (lhs rhs : Value) (k : String)
      → lookup k (diff_version_vectors rt lhs rhs)
        ≡ ahead
            (seq_at k (normalize_version_vector rt lhs))
            (lookup k (normalize_version_vector rt rhs))
  unfolding diff_version_vectors
  lookup-diff lhs rhs k =
      lookup-diff_into k _ [] _ (normalize-IsNormal rhs).distinct
      ∙ rw (lookup-nil {V = Count} k) (or_else-none _)

  diff_into-IsNormal :
      (lhs diff v : VersionVector)
      → IsNormal diff
      → All IsId (keys v)
      → IsNormal (diff_into rt lhs diff v)
  unfolding diff_into
  diff_into-IsNormal lhs diff [] n h = n
  diff_into-IsNormal lhs diff ((k, c) ∷ v) n (i, h) = elim (Bool-cases (gt c (seq_at k lhs))) [
    | inl e ↦ rw e (diff_into-IsNormal lhs (insert k c diff) v (IsNormal-insert k c diff i n) h)
    | inr e ↦ rw e (diff_into-IsNormal lhs diff v n h)
  ]

  pub diff-IsNormal : (lhs rhs : Value) → IsNormal (diff_version_vectors rt lhs rhs)
  unfolding diff_version_vectors
  diff-IsNormal lhs rhs = diff_into-IsNormal _ [] _ nil-IsNormal (normalize-IsNormal rhs).ids

  gt-numeric : (a b : Count) → gt a b ≡ true → a ≢ not_a_number
  gt-numeric not_a_number b h = cc
  gt-numeric infinite b h = cc
  gt-numeric (whole n) b h = cc

  diff_into-IsNumeric :
      (lhs diff v : VersionVector) → IsNumeric diff → IsNumeric (diff_into rt lhs diff v)
  unfolding diff_into
  diff_into-IsNumeric lhs diff [] n = n
  diff_into-IsNumeric lhs diff ((k, c) ∷ v) n = elim (Bool-cases (gt c (seq_at k lhs))) [
    | inl e ↦ rw e (
        diff_into-IsNumeric lhs (insert k c diff) v
          (IsNumeric-insert k c diff (gt-numeric c (seq_at k lhs) e) n))
    | inr e ↦ rw e (diff_into-IsNumeric lhs diff v n)
  ]

  pub diff-IsNumeric : (lhs rhs : Value) → IsNumeric (diff_version_vectors rt lhs rhs)
  unfolding diff_version_vectors
  diff-IsNumeric lhs rhs = diff_into-IsNumeric _ [] _ tt
