-- ===== src/CrdtGraph/Seqs/Collect.antt =====
-- The sets of sequence numbers that `buildContiguousVersionVector` collects for each author.
use Prim.Native.String.{String}
use mathlib.Core.Path.{◌≡◌, refl}
use mathlib.Core.Bool.{Bool, true, false, not, ◌&&◌, ◌||◌}
use mathlib.Core.Logic.{inl, inr, ◌≢◌}
use mathlib.Core.List.{List, [], ◌∷◌, ◌++◌}
use native.Mathlib.Omega.{arith}
use text.Mathlib.Text.{◌==◌}
use text.Mathlib.TextEquality.{eq_iff}
use text.Mathlib.TextPositions.{eq_refl}
use openclawapp.Base.{
  if◌then◌else◌, Bool-cases, All-append, Distinct, is_empty, not_after, insert, keys,
}
use openclawapp.Base.Maps.{lookup-insert, Distinct-keys-insert}
use openclawapp.Base.Values.{Count, whole, infinite, not_a_number, or_none, positive}
use openclawapp.Crdt.Envelope.{OpEnvelope}
use openclawapp.CrdtGraph.Seqs.{
  compare_count, count_eqb, device, seq, is_skipped, has_count, add_seq, seqs_of, collect,
}
use openclawapp.CrdtGraph.Seqs.Gaps.{DistinctCounts, AreNumbers, IsFrom, eq_of_count_eqb}

-- Some op of the list is the author's op of that number.
unfoldable pub has_seq : String → Count → List OpEnvelope → Bool
has_seq d c [] = false
has_seq d c (op ∷ ops) = (device op == d && count_eqb (seq op) c) || has_seq d c ops

-- What the loop records.
unfoldable pub recorded : String → Count → List OpEnvelope → Bool
recorded d c [] = false
recorded d c (op ∷ ops) =
    (not (is_skipped op) && (device op == d && count_eqb (seq op) c)) || recorded d c ops

pub record AreSeqs (cs : List Count) : Type 0 where
  pub numbers : AreNumbers cs
  pub distinct : DistinctCounts cs
  pub from_one : IsFrom 1 cs

has_count-append :
    (a : Count) (cs ds : List Count) → has_count a (cs ++ ds) ≡ (has_count a cs || has_count a ds)
unfolding has_count
has_count-append a [] ds = refl
has_count-append a (c ∷ cs) ds = ground (arith, has_count-append a cs ds)

count_eqb_symm : (a b : Count) → count_eqb a b ≡ count_eqb b a
unfolding count_eqb
count_eqb_symm (whole a) (whole b) = ground arith
count_eqb_symm (whole a) infinite = refl
count_eqb_symm (whole a) not_a_number = refl
count_eqb_symm infinite (whole b) = refl
count_eqb_symm infinite infinite = refl
count_eqb_symm infinite not_a_number = refl
count_eqb_symm not_a_number (whole b) = refl
count_eqb_symm not_a_number infinite = refl
count_eqb_symm not_a_number not_a_number = refl

DistinctCounts-concat :
    (cs : List Count) (c : Count)
    → DistinctCounts cs
    → has_count c cs ≡ false
    → DistinctCounts (cs ++ c ∷ [])
unfolding has_count
DistinctCounts-concat [] c d h = (refl, tt)
DistinctCounts-concat (a ∷ cs) c (n, d) h = (
  ground (arith, has_count-append a cs (c ∷ []), count_eqb_symm a c),
  DistinctCounts-concat cs c d (ground arith),
)

-- A member that is there already adds nothing.
has_count_absorbs :
    (a c : Count) (cs : List Count)
    → has_count c cs ≡ true
    → has_count a cs ≡ (has_count a cs || count_eqb c a)
has_count_absorbs a c cs h = elim (Bool-cases (count_eqb c a)) [
  | inl e ↦ let same : c ≡ a = eq_of_count_eqb c a e in rw (rw same at h) refl
  | inr e ↦ rw e (ground arith)
]

pub has_count-add_seq :
    (a c : Count) (cs : List Count) → has_count a (add_seq cs c) ≡ (has_count a cs || count_eqb c a)
unfolding add_seq has_count
has_count-add_seq a c cs = elim (Bool-cases (has_count c cs)) [
  | inl e ↦ rw e (has_count_absorbs a c cs e)
  | inr e ↦ rw e (ground (arith, has_count-append a cs (c ∷ [])))
]

from_positive : (c : Count) → positive c ≡ true → not_after compare_count (whole 1) c ≡ true
unfolding compare_count
from_positive (whole n) p = ground arith
from_positive infinite p = refl
from_positive not_a_number p = cc

-- A number that is not skipped may join the set.
pub AreSeqs-add_seq :
    (cs : List Count) (c : Count)
    → c ≢ not_a_number
    → positive c ≡ true
    → AreSeqs cs
    → AreSeqs (add_seq cs c)
unfolding add_seq
AreSeqs-add_seq cs c h p s = elim (Bool-cases (has_count c cs)) [
  | inl e ↦ rw e s
  | inr e ↦ rw e (record {
    numbers = All-append _ cs (c ∷ []) s.numbers (h, tt);
    distinct = DistinctCounts-concat cs c s.distinct e;
    from_one = All-append _ cs (c ∷ []) s.from_one (from_positive c p, tt);
  })
]

seqs_of-insert :
    (k j : String) (cs : List Count) (m : List (String × List Count))
    → seqs_of j (insert k cs m) ≡ (if k == j then cs else seqs_of j m)
unfolding seqs_of
seqs_of-insert k j cs m = ground (arith, lookup-insert k j cs m)

has_count-insert :
    (d k : String) (a c : Count) (m : List (String × List Count))
    → has_count a (seqs_of d (insert k (add_seq (seqs_of k m) c) m))
      ≡ (has_count a (seqs_of d m) || (k == d && count_eqb c a))
has_count-insert d k a c m = elim (Bool-cases (k == d)) [
  | inl e ↦ rw ((eq_iff k d).0 e) (
      ground (
        arith,
        seqs_of-insert d d (add_seq (seqs_of d m) c) m,
        eq_refl d,
        has_count-add_seq a c (seqs_of d m),
      ))
  | inr e ↦ ground (arith, seqs_of-insert k d (add_seq (seqs_of k m) c) m)
]

-- The collected set of an author has the numbers of the author's ops.
pub has_count-collect :
    (d : String) (a : Count) (m : List (String × List Count)) (ops : List OpEnvelope)
    → has_count a (seqs_of d (collect m ops)) ≡ (has_count a (seqs_of d m) || recorded d a ops)
unfolding collect recorded
has_count-collect d a m [] = ground arith
has_count-collect d a m (op ∷ ops) = elim (Bool-cases (is_skipped op)) [
  | inl e ↦ rw e (has_count-collect d a m ops)
  | inr e ↦ rw e (
      ground (
        arith,
        has_count-collect d a (insert (device op) (add_seq (seqs_of (device op) m) (seq op)) m) ops,
        has_count-insert d (device op) a (seq op) m,
      ))
]

seq-number : (op : OpEnvelope) → seq op ≢ not_a_number
unfolding seq
seq-number op = or_none-number op.author_seq
  where
    or_none-number : (c : Count) → or_none c ≢ not_a_number
    or_none-number not_a_number = cc
    or_none-number infinite = cc
    or_none-number (whole n) = cc

pub AreSeqs-collect :
    (m : List (String × List Count)) (ops : List OpEnvelope)
    → ((d : String) → AreSeqs (seqs_of d m))
    → (d : String) → AreSeqs (seqs_of d (collect m ops))
unfolding collect is_skipped
AreSeqs-collect m [] h d = h d
AreSeqs-collect m (op ∷ ops) h d =
    elim (Bool-cases (is_empty (device op) || not (positive (seq op)))) [
      | inl e ↦ rw e (AreSeqs-collect m ops h d)
      | inr e ↦ rw e (
          AreSeqs-collect (insert (device op) (add_seq (seqs_of (device op) m) (seq op)) m) ops
            (λ j. joined j (ground arith)) d)
    ]
  where
    joined :
        (j : String)
        → positive (seq op) ≡ true
        → AreSeqs (seqs_of j (insert (device op) (add_seq (seqs_of (device op) m) (seq op)) m))
    joined j p = elim (Bool-cases (device op == j)) [
      | inl t ↦
          rw (seqs_of-insert, t)
            (AreSeqs-add_seq (seqs_of (device op) m) (seq op) (seq-number op) p (h (device op)))
      | inr t ↦ rw (seqs_of-insert, t) (h j)
    ]

pub Distinct-collect :
    (m : List (String × List Count)) (ops : List OpEnvelope)
    → Distinct (keys m)
    → Distinct (keys (collect m ops))
unfolding collect
Distinct-collect m [] d = d
Distinct-collect m (op ∷ ops) d = elim (Bool-cases (is_skipped op)) [
  | inl e ↦ rw e (Distinct-collect m ops d)
  | inr e ↦ rw e (
      Distinct-collect (insert (device op) (add_seq (seqs_of (device op) m) (seq op)) m) ops
        (Distinct-keys-insert (device op) _ m d))
]
