-- ===== src/CrdtGraph/Dedupe.antt =====
-- What `dedupeCrdtOps` keeps: the first op of each id.
use Prim.Native.String.{String}
use mathlib.Core.Path.{◌≡◌, refl, ap, sym, ◌∙◌}
use mathlib.Core.Bool.{Bool, true, false, ◌||◌}
use mathlib.Core.Logic.{inl, inr, ◌⊎◌}
use mathlib.Core.Option
use mathlib.Core.Option.{Option, none, some}
use mathlib.Core.List.{List, [], ◌∷◌, ◌++◌, map-append}
use native.Mathlib.Omega.{arith}
use text.Mathlib.Text.{◌==◌}
use text.Mathlib.TextEquality.{eq_iff}
use openclawapp.Base.{
  if◌then◌else◌, Bool-cases, All, All-append, find, contains, Distinct, is_empty,
}
use openclawapp.Base.Sets.{Distinct-append_single}
use openclawapp.Crdt.Ids.{normalize_parents_lem}
use openclawapp.Crdt.Envelope.{OpEnvelope}
use openclawapp.CrdtGraph.{id_of, ids, normal_op, dedupe_from, dedupe_ops, op_parents}

ids-concat :
    (ops : List OpEnvelope) (op : OpEnvelope) → ids (ops ++ op ∷ []) ≡ ids ops ++ op.op_id ∷ []
ids-concat ops op = map-append (λ op. op.op_id) ops (op ∷ [])

-- A test that drops an op because its id is empty or known.
abbrev is_dropped : List OpEnvelope → OpEnvelope → Bool
is_dropped by_id op = is_empty (id_of op.op_id) || contains (id_of op.op_id) (ids by_id)

Distinct-dedupe_from :
    (by_id ops : List OpEnvelope) → Distinct (ids by_id) → Distinct (ids (dedupe_from by_id ops))
unfolding dedupe_from normal_op
Distinct-dedupe_from by_id [] d = d
Distinct-dedupe_from by_id (op ∷ ops) d = elim (Bool-cases (is_dropped by_id op)) [
  | inl e ↦ rw e (Distinct-dedupe_from by_id ops d)
  | inr e ↦ rw e (
      Distinct-dedupe_from (by_id ++ normal_op op ∷ []) ops
        (rw ids-concat (Distinct-append_single (ids by_id) (id_of op.op_id) d (ground arith))))
]

pub dedupe-Distinct : (ops : List OpEnvelope) → Distinct (ids (dedupe_ops ops))
unfolding dedupe_ops
dedupe-Distinct ops = Distinct-dedupe_from [] ops tt

pub op_parents-Distinct : (op : OpEnvelope) → Distinct (op_parents op)
unfolding op_parents
op_parents-Distinct op = (normalize_parents_lem _).0

abbrev has_id : String → OpEnvelope → Bool
has_id a op = op.op_id == a

-- The op that a list of raw ops gives for an id.
abbrev pub first_op : String → List OpEnvelope → Option OpEnvelope
first_op a ops = Option.map normal_op (find (λ op. id_of op.op_id == a) ops)

abbrev or_first : Option OpEnvelope → Option OpEnvelope → Option OpEnvelope
or_first (some op) other = some op
or_first none other = other

find-concat :
    (a : String) (ops : List OpEnvelope) (op : OpEnvelope)
    → find (has_id a) (ops ++ op ∷ [])
      ≡ or_first (find (has_id a) ops) (if has_id a op then some op else none)
find-concat a [] op = ground arith
find-concat a (x ∷ xs) op = ground (arith, find-concat a xs op)

find-cases :
    (a : String) (ops : List OpEnvelope)
    → (find (has_id a) ops ≡ none) × (contains a (ids ops) ≡ false)
      ⊎ ((x : OpEnvelope) × (find (has_id a) ops ≡ some x) × (contains a (ids ops) ≡ true))
unfolding contains
find-cases a [] = inl (refl, refl)
find-cases a (x ∷ xs) = elim (Bool-cases (x.op_id == a)) [
  | inl e ↦ rw e (inr (x, refl, refl))
  | inr e ↦ rw e (find-cases a xs)
]

first_op-cons :
    (a : String) (op : OpEnvelope) (ops : List OpEnvelope)
    → first_op a (op ∷ ops) ≡ (if id_of op.op_id == a then some (normal_op op) else first_op a ops)
first_op-cons a op ops = ground arith

or_first-none : (o : Option OpEnvelope) → or_first o none ≡ o
or_first-none none = refl
or_first-none (some op) = refl

or_first_assoc : (o p q : Option OpEnvelope) → or_first (or_first o p) q ≡ or_first o (or_first p q)
or_first_assoc none p q = refl
or_first_assoc (some op) p q = refl

dropped_rest :
    (a : String) (by_id : List OpEnvelope) (op : OpEnvelope) (ops : List OpEnvelope)
    → is_empty a ≡ false
    → is_dropped by_id op ≡ true
    → or_first (find (has_id a) by_id) (first_op a ops)
      ≡ or_first (find (has_id a) by_id) (first_op a (op ∷ ops))
dropped_rest a by_id op ops h e = elim (Bool-cases (id_of op.op_id == a)) [
  | inl same ↦
      let same_id : id_of op.op_id ≡ a = (eq_iff (id_of op.op_id) a).0 same in
      elim (find-cases a by_id) [
        | inl (missing, absent) ↦ absurd (cc (rw (same_id, h, absent) at e))
        | inr (x, found, present) ↦ rw (found, or_first)
      ]
  | inr other ↦ rw (first_op-cons a op ops, other)
]

kept_first :
    (a : String) (op : OpEnvelope) (ops : List OpEnvelope)
    → or_first (if has_id a (normal_op op) then some (normal_op op) else none) (first_op a ops)
      ≡ first_op a (op ∷ ops)
unfolding normal_op
kept_first a op ops = elim (Bool-cases (id_of op.op_id == a)) [
  | inl e ↦ rw (first_op-cons a op ops, e)
  | inr e ↦ rw (first_op-cons a op ops, e)
]

find-dedupe_from :
    (a : String) (by_id ops : List OpEnvelope)
    → is_empty a ≡ false
    → find (has_id a) (dedupe_from by_id ops) ≡ or_first (find (has_id a) by_id) (first_op a ops)
unfolding dedupe_from
find-dedupe_from a by_id [] h = sym (or_first-none _)
find-dedupe_from a by_id (op ∷ ops) h = elim (Bool-cases (is_dropped by_id op)) [
  | inl e ↦ rw e (find-dedupe_from a by_id ops h ∙ dropped_rest a by_id op ops h e)
  | inr e ↦ rw e (
      find-dedupe_from a (by_id ++ normal_op op ∷ []) ops h
      ∙ ap (λ o. or_first o (first_op a ops)) (find-concat a by_id (normal_op op))
      ∙ or_first_assoc (find (has_id a) by_id) _ (first_op a ops)
      ∙ ap (or_first (find (has_id a) by_id)) (kept_first a op ops))
]

-- The kept op for an id that is not empty is the normalised copy of the first op with that id.
pub find-dedupe :
    (a : String) (ops : List OpEnvelope)
    → is_empty a ≡ false
    → find (λ op. op.op_id == a) (dedupe_ops ops)
      ≡ Option.map normal_op (find (λ op. id_of op.op_id == a) ops)
unfolding dedupe_ops
find-dedupe a ops h = find-dedupe_from a [] ops h

-- Every kept op is the normalised copy of a given one, and has an id.
All-dedupe_from :
    (P : OpEnvelope → Type 0)
    → ((op : OpEnvelope) → is_empty (id_of op.op_id) ≡ false → P (normal_op op))
    → (by_id ops : List OpEnvelope) → All P by_id
    → All P (dedupe_from by_id ops)
unfolding dedupe_from
All-dedupe_from P h by_id [] all = all
All-dedupe_from P h by_id (op ∷ ops) all = elim (Bool-cases (is_dropped by_id op)) [
  | inl e ↦ rw e (All-dedupe_from P h by_id ops all)
  | inr e ↦ rw e (
      All-dedupe_from P h (by_id ++ normal_op op ∷ []) ops
        (All-append P by_id (normal_op op ∷ []) all (h op (ground arith), tt)))
]

pub All-dedupe :
    (P : OpEnvelope → Type 0)
    → ((op : OpEnvelope) → is_empty (id_of op.op_id) ≡ false → P (normal_op op))
    → (ops : List OpEnvelope) → All P (dedupe_ops ops)
unfolding dedupe_ops
All-dedupe P h ops = All-dedupe_from P h [] ops tt
