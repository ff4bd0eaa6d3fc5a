-- ===== src/CrdtGraph/Seqs/Gaps.antt =====
-- The loop that looks for the first gap in an author's ordered sequence numbers.
use Prim.Native.Nat.{ℕ, ◌+◌, ◌-◌, ◌≤◌, ◌<◌, Ordering}
use mathlib.Core.Path.{◌≡◌, refl, sym, ◌∙◌}
use mathlib.Core.Bool.{true, false}
use mathlib.Core.Logic.{inl, inr, ◌≢◌}
use mathlib.Core.List.{List, [], ◌∷◌}
use native.Mathlib.Omega.{arith}
use openclawapp.Base.{Bool-cases, All, sort, not_after}
use openclawapp.Base.Sort.{insert_sorted, All-insert_sorted, All-sort}
use openclawapp.Base.Values.{Count, whole, infinite, not_a_number}
use openclawapp.CrdtGraph.Seqs.{compare_count, count_eqb, has_count, first_gap, contiguous_entry}

-- No count stands twice.
abbrev pub DistinctCounts : List Count → Type 0
DistinctCounts [] = Unit
DistinctCounts (c ∷ cs) = (has_count c cs ≡ false) × DistinctCounts cs

-- Strictly ascending.
abbrev Ascends : List Count → Type 0
Ascends [] = Unit
Ascends (c ∷ cs) = All (λ d. compare_count c d ≡ Ordering.lt) cs × Ascends cs

abbrev pub AreNumbers : List Count → Type 0
AreNumbers cs = All (λ c. c ≢ not_a_number) cs

compare_count_trans :
    (a b c : Count)
    → compare_count a b ≡ Ordering.lt
    → compare_count b c ≡ Ordering.lt
    → compare_count a c ≡ Ordering.lt
unfolding compare_count
compare_count_trans (whole a) (whole b) (whole c) h k = ground arith
compare_count_trans (whole a) (whole b) infinite h k = refl
compare_count_trans (whole a) (whole b) not_a_number h k = cc
compare_count_trans (whole a) infinite (whole c) h k = cc
compare_count_trans (whole a) infinite infinite h k = cc
compare_count_trans (whole a) infinite not_a_number h k = cc
compare_count_trans (whole a) not_a_number c h k = cc
compare_count_trans infinite (whole b) c h k = cc
compare_count_trans infinite infinite c h k = cc
compare_count_trans infinite not_a_number c h k = cc
compare_count_trans not_a_number b c h k = cc

-- Two different numbers stand one in front of the other.
lt_of_not_after :
    (a b : Count)
    → a ≢ not_a_number
    → b ≢ not_a_number
    → count_eqb b a ≡ false
    → not_after compare_count a b ≡ true
    → compare_count a b ≡ Ordering.lt
unfolding compare_count count_eqb
lt_of_not_after (whole a) (whole b) h k e n = ground arith
lt_of_not_after (whole a) infinite h k e n = refl
lt_of_not_after infinite (whole b) h k e n = cc
lt_of_not_after infinite infinite h k e n = cc
lt_of_not_after not_a_number b h k e n = absurd (h refl)
lt_of_not_after (whole a) not_a_number h k e n = absurd (k refl)
lt_of_not_after infinite not_a_number h k e n = absurd (k refl)

lt_of_after : (a b : Count) → not_after compare_count a b ≡ false → compare_count b a ≡ Ordering.lt
unfolding compare_count
lt_of_after (whole a) (whole b) n = ground arith
lt_of_after (whole a) infinite n = cc
lt_of_after (whole a) not_a_number n = cc
lt_of_after infinite (whole b) n = refl
lt_of_after infinite infinite n = cc
lt_of_after infinite not_a_number n = cc
lt_of_after not_a_number b n = cc

All-lt :
    (a b : Count) (cs : List Count)
    → compare_count a b ≡ Ordering.lt
    → All (λ d. compare_count b d ≡ Ordering.lt) cs
    → All (λ d. compare_count a d ≡ Ordering.lt) cs
All-lt a b [] h k = tt
All-lt a b (c ∷ cs) h (p, k) = (compare_count_trans a b c h p, All-lt a b cs h k)

insert_sorted-Ascends :
    (c : Count) (cs : List Count)
    → c ≢ not_a_number
    → AreNumbers cs
    → has_count c cs ≡ false
    → Ascends cs
    → Ascends (insert_sorted compare_count c cs)
unfolding insert_sorted has_count
insert_sorted-Ascends c [] h hs n s = (tt, tt)
insert_sorted-Ascends c (d ∷ ds) h (k, ks) n (l, s) =
    elim (Bool-cases (not_after compare_count c d)) [
      | inl e ↦
          let below = lt_of_not_after c d h k (ground arith) e in
          rw e ((below, All-lt c d ds below l), (l, s))
      | inr e ↦ rw e (
        All-insert_sorted compare_count (λ z. compare_count d z ≡ Ordering.lt) c ds
            (lt_of_after c d e) l,
        insert_sorted-Ascends c ds h ks (ground arith) s,
      )
    ]

has_count-insert_sorted :
    (a c : Count) (cs : List Count)
    → has_count a (insert_sorted compare_count c cs) ≡ has_count a (c ∷ cs)
unfolding insert_sorted has_count
has_count-insert_sorted a c [] = refl
has_count-insert_sorted a c (d ∷ ds) = elim (Bool-cases (not_after compare_count c d)) [
  | inl e ↦ rw e
  | inr e ↦ rw e (ground (arith, has_count-insert_sorted a c ds))
]

has_count-sort :
    (a : Count) (cs : List Count) → has_count a (sort compare_count cs) ≡ has_count a cs
unfolding sort has_count
has_count-sort a [] = refl
has_count-sort a (c ∷ cs) =
    ground (arith, has_count-insert_sorted a c (sort compare_count cs), has_count-sort a cs)

sort-Ascends :
    (cs : List Count) → AreNumbers cs → DistinctCounts cs → Ascends (sort compare_count cs)
unfolding sort
sort-Ascends [] h d = tt
sort-Ascends (c ∷ cs) (h, hs) (n, d) =
    insert_sorted-Ascends c (sort compare_count cs) h (All-sort compare_count _ cs hs)
      (has_count-sort c cs ∙ n) (sort-Ascends cs hs d)

-- The number of a list of counts is the number up to which none is missing.
pub record IsGap (e g : ℕ) (cs : List Count) : Type 0 where
  pub above : e ≤ g
  pub present : (k : ℕ) → e ≤ k → k < g → has_count (whole k) cs ≡ true
  pub absent : has_count (whole g) cs ≡ false

has_count-below :
    (k : ℕ) (cs : List Count)
    → All (λ d. compare_count (whole k) d ≡ Ordering.lt) cs
    → has_count (whole k) cs ≡ false
unfolding compare_count has_count
has_count-below k [] h = refl
has_count-below k (whole n ∷ cs) (p, h) = ground (arith, has_count-below k cs h)
has_count-below k (infinite ∷ cs) (p, h) = has_count-below k cs h
has_count-below k (not_a_number ∷ cs) (p, h) = cc

-- All counts are at least `e`.
abbrev pub IsFrom : ℕ → List Count → Type 0
IsFrom e cs = All (λ c. not_after compare_count (whole e) c ≡ true) cs

IsFrom-suc :
    (e : ℕ) (cs : List Count)
    → All (λ d. compare_count (whole e) d ≡ Ordering.lt) cs
    → IsFrom (e + 1) cs
unfolding compare_count
IsFrom-suc e [] h = tt
IsFrom-suc e (whole n ∷ cs) (p, h) = (ground arith, IsFrom-suc e cs h)
IsFrom-suc e (infinite ∷ cs) (p, h) = (refl, IsFrom-suc e cs h)
IsFrom-suc e (not_a_number ∷ cs) (p, h) = cc

pub eq_of_count_eqb : (a b : Count) → count_eqb a b ≡ true → a ≡ b
unfolding count_eqb
eq_of_count_eqb (whole a) (whole b) h = ground arith
eq_of_count_eqb (whole a) infinite h = cc
eq_of_count_eqb (whole a) not_a_number h = cc
eq_of_count_eqb infinite (whole b) h = cc
eq_of_count_eqb infinite infinite h = refl
eq_of_count_eqb infinite not_a_number h = cc
eq_of_count_eqb not_a_number b h = cc

IsGap-cons :
    (e g : ℕ) (c : Count) (cs : List Count) → c ≡ whole e → IsGap (e + 1) g cs → IsGap e g (c ∷ cs)
unfolding has_count
IsGap-cons e g c cs same gap = rw same (record {
  above = omega (arith, gap.above);
  present = λ k a b. ground (arith, gap.present k);
  absent = ground (arith, gap.above, gap.absent);
})

first_gap-IsGap :
    (e : ℕ) (cs : List Count)
    → AreNumbers cs
    → Ascends cs
    → IsFrom e cs
    → IsGap e (first_gap e cs) cs
unfolding first_gap has_count
first_gap-IsGap e [] hs s f = record {
  above = omega arith;
  present = λ k a b. absurd (omega arith);
  absent = refl;
}
first_gap-IsGap e (c ∷ cs) (h, hs) (l, s) (p, f) = elim (Bool-cases (count_eqb c (whole e))) [
  | inl t ↦
      let same : c ≡ whole e = eq_of_count_eqb c (whole e) t in
      rw t (
        IsGap-cons e (first_gap (e + 1) cs) c cs same
          (first_gap-IsGap (e + 1) cs hs s (IsFrom-suc e cs (rw same at l))))
  | inr t ↦
      let below = lt_of_not_after (whole e) c (λ q. cc) h t p in
      rw t (record {
        above = omega arith;
        present = λ k a b. absurd (omega arith);
        absent = ground (arith, has_count-below e cs (All-lt (whole e) c cs below l));
      })
]

-- The first missing number of a set of counts above 0.
pub contiguous_entry-IsGap :
    (cs : List Count)
    → AreNumbers cs
    → DistinctCounts cs
    → IsFrom 1 cs
    → (n : ℕ) × (contiguous_entry cs ≡ whole n)
      × ((k : ℕ) → 1 ≤ k → k ≤ n → has_count (whole k) cs ≡ true)
      × (has_count (whole (n + 1)) cs ≡ false)
unfolding contiguous_entry
contiguous_entry-IsGap cs hs d f =
    let g = first_gap 1 (sort compare_count cs) in
    let gap =
      first_gap-IsGap 1 (sort compare_count cs) (All-sort compare_count _ cs hs)
        (sort-Ascends cs hs d) (All-sort compare_count _ cs f) in
    let up : (g - 1) + 1 ≡ g = omega (arith, gap.above) in
    (
      g - 1,
      refl,
      λ k a b. sym (has_count-sort (whole k) cs) ∙ gap.present k a (omega (arith, gap.above)),
      rw up (sym (has_count-sort (whole g) cs) ∙ gap.absent),
    )
