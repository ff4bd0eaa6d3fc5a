-- ===== src/CrdtGraph/Seqs/Contiguous.antt =====
-- `buildContiguousVersionVector`: up to its entry an author's numbers are all there.
use Prim.Native.Nat.{ℕ, ◌+◌, ◌≤◌}
use Prim.Native.String.{String}
use mathlib.Core.Path.{◌≡◌, refl, ap, sym, ◌∙◌}
use mathlib.Core.Bool.{true, false, not, ◌&&◌, ◌||◌}
use mathlib.Core.Logic.{inl, inr, ◌≢◌}
use mathlib.Core.Option.{Option, none, some}
use mathlib.Core.List.{List, [], ◌∷◌}
use native.Mathlib.Omega.{arith}
use text.Mathlib.Text.{◌==◌}
use text.Mathlib.TextEquality.{eq_iff}
use text.Mathlib.TextPositions.{eq_refl}
use openclawapp.Base.{
  if◌then◌else◌, Bool-cases, All, contains, Distinct, is_empty, lookup, insert, keys, sort,
}
use openclawapp.Base.Maps.{lookup-insert, lookup-nil, lookup-cons, All-keys-insert}
use openclawapp.Base.Values.{Count, whole, not_a_number, positive, str}
use openclawapp.Crdt.Ids.{IsId, normalize_id-IsId}
use openclawapp.Crdt.Vectors.{VersionVector, seq_at}
use openclawapp.Crdt.Vectors.Laws.{
  IsNormal, IsNumeric, IsNormal-insert, IsNumeric-insert, nil-IsNormal,
}
use openclawapp.Crdt.Envelope.{OpEnvelope}
use openclawapp.CrdtGraph.Seqs.{
  count_eqb, device, seq, is_skipped, has_count, seqs_of, add_seq, collect, contiguous_entry,
  contiguous_entries, contiguous_vector,
}
use openclawapp.CrdtGraph.Seqs.Gaps.{contiguous_entry-IsGap, eq_of_count_eqb}
use openclawapp.CrdtGraph.Seqs.Collect.{
  has_seq, recorded, has_count-collect, AreSeqs, AreSeqs-collect, Distinct-collect,
}

seqs_of-nil : (d : String) → seqs_of d [] ≡ []
unfolding seqs_of lookup
seqs_of-nil d = refl

no_seqs : (d : String) → AreSeqs (seqs_of d [])
no_seqs d = rw (seqs_of-nil d) (record { numbers = tt; distinct = tt; from_one = tt })

device-IsId : (op : OpEnvelope) → is_empty (device op) ≡ false → IsId (device op)
unfolding device
device-IsId op h = normalize_id-IsId (str op.author_device_id) h

contiguous_entry-number : (cs : List Count) → contiguous_entry cs ≢ not_a_number
unfolding contiguous_entry
contiguous_entry-number cs = cc

seq_at-insert_whole :
    (k j : String) (n : ℕ) (v : VersionVector)
    → seq_at j (insert k (whole n) v) ≡ (if k == j then whole n else seq_at j v)
unfolding seq_at
seq_at-insert_whole k j n v = ground (arith, lookup-insert k j (whole n) v)

-- The entry for an author's set, the old one if there is none.
abbrev entry_or : Count → Option (List Count) → Count
entry_or old none = old
entry_or old (some cs) = contiguous_entry cs

seq_at-insert_entry :
    (k j : String) (cs : List Count) (v : VersionVector)
    → seq_at j (insert k (contiguous_entry cs) v)
      ≡ (if k == j then contiguous_entry cs else seq_at j v)
unfolding contiguous_entry
seq_at-insert_entry k j cs v = seq_at-insert_whole k j _ v

absent-entry :
    (d : String) (v : VersionVector) (m : List (String × List Count))
    → contains d (keys m) ≡ false
    → seq_at d (contiguous_entries v m) ≡ seq_at d v
unfolding contiguous_entries contains
absent-entry d v [] h = refl
absent-entry d v ((k, cs) ∷ m) h =
    ground
      (arith, absent-entry d (insert k (contiguous_entry cs) v) m, seq_at-insert_entry k d cs v)

seq_at-entries :
    (d : String) (v : VersionVector) (m : List (String × List Count))
    → Distinct (keys m)
    → seq_at d (contiguous_entries v m) ≡ entry_or (seq_at d v) (lookup d m)
unfolding contiguous_entries
seq_at-entries d v [] h = rw (lookup-nil {V = List Count} d)
seq_at-entries d v ((k, cs) ∷ m) (n, h) = elim (Bool-cases (k == d)) [
  | inl e ↦
      let same : k ≡ d = (eq_iff k d).0 e in
      rw (same, lookup-cons, eq_refl d)
        (absent-entry d (insert d (contiguous_entry cs) v) m (rw same at n)
          ∙ rw (seq_at-insert_entry, eq_refl d))
  | inr e ↦
      rw (lookup-cons, e)
        (seq_at-entries d (insert k (contiguous_entry cs) v) m h
          ∙ ap (λ c. entry_or c (lookup d m)) (rw (seq_at-insert_entry, e)))
]

entry_or-empty :
    (d : String) (o : Option (List Count))
    → entry_or (seq_at d []) o ≡ contiguous_entry (elim o [ none ↦ [] | some cs ↦ cs ])
unfolding contiguous_entry seq_at lookup sort
entry_or-empty d none = refl
entry_or-empty d (some cs) = refl

-- The entry is read off the author's set, which is empty if there is none.
seq_at-contiguous :
    (d : String) (ops : List OpEnvelope)
    → seq_at d (contiguous_vector ops) ≡ contiguous_entry (seqs_of d (collect [] ops))
unfolding contiguous_vector seqs_of
seq_at-contiguous d ops =
    seq_at-entries d [] (collect [] ops) (Distinct-collect [] ops tt)
    ∙ entry_or-empty d (lookup d (collect [] ops))

-- An op with an author and a number above 0 is not skipped.
not_skipped :
    (d : String) (k : ℕ) (op : OpEnvelope)
    → is_empty d ≡ false
    → 1 ≤ k
    → device op ≡ d
    → seq op ≡ whole k
    → is_skipped op ≡ false
unfolding is_skipped
not_skipped d k op h p e f = rw (e, f, h) (ground arith)

recorded-has_seq :
    (d : String) (k : ℕ) (ops : List OpEnvelope)
    → is_empty d ≡ false
    → 1 ≤ k
    → recorded d (whole k) ops ≡ has_seq d (whole k) ops
unfolding recorded has_seq
recorded-has_seq d k [] h p = refl
recorded-has_seq d k (op ∷ ops) h p =
    elim (Bool-cases (device op == d && count_eqb (seq op) (whole k))) [
      | inl e ↦
          let s =
            not_skipped d k op h p ((eq_iff (device op) d).0 (ground arith))
              (eq_of_count_eqb (seq op) (whole k) (ground arith)) in
          rw (e, s)
      | inr e ↦ rw e (ground (arith, recorded-has_seq d k ops h p))
    ]

-- The entry of an author whose id is not empty is the number up to which none of the author's
-- numbers is missing: all from 1 to the entry stand in the list, and the next one does not.
pub contiguous_vector_lem :
    (d : String) (ops : List OpEnvelope)
    → is_empty d ≡ false
    → (n : ℕ) × (seq_at d (contiguous_vector ops) ≡ whole n)
      × ((k : ℕ) → 1 ≤ k → k ≤ n → has_seq d (whole k) ops ≡ true)
      × (has_seq d (whole (n + 1)) ops ≡ false)
unfolding has_count
contiguous_vector_lem d ops h =
    let s = AreSeqs-collect [] ops no_seqs d in
    let (n, e, present, absent) =
      contiguous_entry-IsGap (seqs_of d (collect [] ops)) s.numbers s.distinct s.from_one in
    (
      n,
      seq_at-contiguous d ops ∙ e,
      λ k a b. sym (stands k a) ∙ present k a b,
      sym (stands (n + 1) (omega arith)) ∙ absent,
    )
  where
    stands :
        (k : ℕ) → 1 ≤ k → has_count (whole k) (seqs_of d (collect [] ops)) ≡ has_seq d (whole k) ops
    stands k a =
        has_count-collect d (whole k) [] ops ∙ rw (seqs_of-nil d) (recorded-has_seq d k ops h a)

-- The vector can be sent: its keys are distinct normalised ids, and no entry is NaN.
collect-ids :
    (m : List (String × List Count)) (ops : List OpEnvelope)
    → All IsId (keys m)
    → All IsId (keys (collect m ops))
unfolding collect is_skipped
collect-ids m [] h = h
collect-ids m (op ∷ ops) h = elim (Bool-cases (is_empty (device op) || not (positive (seq op)))) [
  | inl e ↦ rw e (collect-ids m ops h)
  | inr e ↦ rw e (
      collect-ids (insert (device op) (add_seq (seqs_of (device op) m) (seq op)) m) ops
        (All-keys-insert IsId (device op) _ m (device-IsId op (ground arith)) h))
]

entries-IsNormal :
    (v : VersionVector) (m : List (String × List Count))
    → IsNormal v
    → IsNumeric v
    → All IsId (keys m)
    → IsNormal (contiguous_entries v m) × IsNumeric (contiguous_entries v m)
unfolding contiguous_entries
entries-IsNormal v [] n u h = (n, u)
entries-IsNormal v ((k, cs) ∷ m) n u (i, h) =
    entries-IsNormal (insert k (contiguous_entry cs) v) m (IsNormal-insert k _ v i n)
      (IsNumeric-insert k (contiguous_entry cs) v (contiguous_entry-number cs) u) h

pub contiguous-IsNormal :
    (ops : List OpEnvelope) → IsNormal (contiguous_vector ops) × IsNumeric (contiguous_vector ops)
unfolding contiguous_vector
contiguous-IsNormal ops =
    entries-IsNormal [] (collect [] ops) nil-IsNormal tt (collect-ids [] ops tt)
