-- ===== src/Mobile/Sessions/Laws.antt =====
-- The next own number of a session, and the merge of refreshed sessions.
use Prim.Native.Nat.{ℕ, ◌+◌, ◌≤◌, ◌<◌}
use Prim.Native.String.{String}
use mathlib.Core.Path.{◌≡◌, refl, sym, ap, subst, ◌∙◌}
use mathlib.Core.Bool.{true, false, ◌||◌}
use mathlib.Core.List.{List, [], ◌∷◌, ◌++◌}
use mathlib.Core.Logic.{◌⊎◌, inl, inr}
use native.Mathlib.Omega.{arith}
use text.Mathlib.TextEquality.{eq_iff}
use openclawapp.Base.{is_empty, if◌then◌else◌, Bool-cases}
use openclawapp.Base.Occurrences.{In, In-append_left}
use openclawapp.Base.Values.{Count, whole, infinite, not_a_number, max_count, Runtime}
use openclawapp.Chat.{Origin}
use openclawapp.Mobile.{ChatMessage, SessionItem}
use openclawapp.Mobile.ChatGraph.{normalize_origin_seq}
use openclawapp.Mobile.Sessions.Merge.{
  exact_numbers, succ_double, same_id, counts_for, max_origin_seq, next_origin_seq, next_count,
  sessions_match, has_match, merge_known, add_unmatched, merge_refreshed_sessions,
}

-- The count is a number up to `r`.
abbrev IsUpTo : ℕ → Count → Type 0
IsUpTo r c = (k : ℕ) × (c ≡ whole k) × (k ≤ r)

max_count-whole : (a b : Count) (r : ℕ) → max_count a b ≡ whole r → IsUpTo r a × IsUpTo r b
max_count-whole (whole a) (whole b) r e = ((a, refl, ground arith), (b, refl, ground arith))
max_count-whole (whole a) infinite r e = cc
max_count-whole (whole a) not_a_number r e = cc
max_count-whole infinite (whole b) r e = cc
max_count-whole infinite infinite r e = cc
max_count-whole infinite not_a_number r e = cc
max_count-whole not_a_number b r e = cc

IsUpTo-trans : (s r : ℕ) (c : Count) → s ≤ r → IsUpTo s c → IsUpTo r c
IsUpTo-trans s r c h (k, e, l) = (k, e, omega arith)

whole-inj : (a b : ℕ) → whole a ≡ whole b → a ≡ b
whole-inj a b e = cc

-- Two texts are the same, and not empty.
abbrev pub IsSame : String → String → Type 0
IsSame left right = (left ≡ right) × (is_empty right ≡ false)

abbrev pub SharesId : SessionItem → SessionItem → Type 0
SharesId x s =
    IsSame x.id s.id ⊎ (IsSame x.binding_id s.binding_id ⊎ IsSame x.device_id s.device_id)

same_id-IsSame : (left right : String) → same_id left right ≡ true → IsSame left right
same_id-IsSame left right h = ((eq_iff left right).0 (ground arith), ground arith)

module _ (rt : Runtime) where
  max_origin_seq-start :
      (side : Origin) (r : ℕ) (top : Count) (ms : List ChatMessage)
      → max_origin_seq rt side top ms ≡ whole r
      → IsUpTo r top
  unfolding max_origin_seq
  max_origin_seq-start side r top [] e = (r, e, omega arith)
  max_origin_seq-start side r top (m ∷ ms) e = elim (Bool-cases (counts_for side m)) [
    | inl c ↦
        let (k, f, l) =
          max_origin_seq-start side r (max_count top (normalize_origin_seq rt m)) ms (rw c at e) in
        IsUpTo-trans k r top l (max_count-whole top (normalize_origin_seq rt m) k f).0
    | inr c ↦ max_origin_seq-start side r top ms (rw c at e)
  ]

  max_origin_seq-above :
      (side : Origin) (r : ℕ) (ms : List ChatMessage) (top : Count)
      → max_origin_seq rt side top ms ≡ whole r
      → (m : ChatMessage) → In m ms
      → counts_for side m ≡ true
      → IsUpTo r (normalize_origin_seq rt m)
  unfolding max_origin_seq
  max_origin_seq-above side r [] top e m i c = absurd i
  max_origin_seq-above side r (x ∷ xs) top e m (inl p) c =
      subst (λ y. IsUpTo r (normalize_origin_seq rt y)) p
        (let counted : counts_for side x ≡ true = ap (counts_for side) p ∙ c in
          let (k, f, l) =
            max_origin_seq-start side r (max_count top (normalize_origin_seq rt x)) xs
              (rw counted at e) in
          IsUpTo-trans k r (normalize_origin_seq rt x) l
            (max_count-whole top (normalize_origin_seq rt x) k f).1)
  max_origin_seq-above side r (x ∷ xs) top e m (inr i) c = max_origin_seq-above side r xs _ e m i c

  -- The next number of a side, when it is below 2 ^ 53, is above the numbers of all messages that
  -- the session has of that side.
  pub next_origin_seq-above :
      (side : Origin) (ms : List ChatMessage) (n : ℕ)
      → next_origin_seq rt side ms ≡ whole n
      → n < exact_numbers
      → (m : ChatMessage) → In m ms
      → counts_for side m ≡ true
      → (k : ℕ) × (normalize_origin_seq rt m ≡ whole k) × (k < n)
  unfolding next_origin_seq succ_double
  next_origin_seq-above side ms n e b m i c =
      let (r, f, l) = before (max_origin_seq rt side (whole 0) ms) n e b in
      let (k, g, h) = max_origin_seq-above side r ms (whole 0) f m i c in (k, g, omega arith)
    where
      succeeds : (r n : ℕ) → succ_double r ≡ n → n < exact_numbers → r + 1 ≡ n
      succeeds r n e b = ground arith

      before :
          (top : Count) (n : ℕ)
          → next_count top ≡ whole n
          → n < exact_numbers
          → (r : ℕ) × (top ≡ whole r) × (r + 1 ≡ n)
      before (whole r) n e b = (r, refl, succeeds r n (whole-inj (succ_double r) n e) b)
      before infinite n e b = cc
      before not_a_number n e b = cc

  has_match-append :
      (s : SessionItem) (xs ys : List SessionItem)
      → has_match rt s (xs ++ ys) ≡ (has_match rt s xs || has_match rt s ys)
  unfolding has_match
  has_match-append s [] ys = refl
  has_match-append s (x ∷ xs) ys = elim (Bool-cases (sessions_match x s)) [
    | inl e ↦ rw e refl
    | inr e ↦ rw e (has_match-append s xs ys)
  ]

  -- A session that is there, or that matches one that is there.
  abbrev IsHeld : SessionItem → List SessionItem → Type 0
  IsHeld s merged = (has_match rt s merged ≡ true) ⊎ In s merged

  IsHeld-append : (s : SessionItem) (xs ys : List SessionItem) → IsHeld s xs → IsHeld s (xs ++ ys)
  IsHeld-append s xs ys (inl e) = inl (has_match-append s xs ys ∙ ground arith)
  IsHeld-append s xs ys (inr i) = inr (In-append_left s xs ys i)

  add_unmatched-matched :
      (l : SessionItem) (merged ls : List SessionItem)
      → has_match rt l merged ≡ true
      → add_unmatched rt merged (l ∷ ls) ≡ add_unmatched rt merged ls
  unfolding add_unmatched
  add_unmatched-matched l merged ls e =
      ap (λ b. add_unmatched rt (if b then merged else merged ++ (l ∷ [])) ls) e

  add_unmatched-new :
      (l : SessionItem) (merged ls : List SessionItem)
      → has_match rt l merged ≡ false
      → add_unmatched rt merged (l ∷ ls) ≡ add_unmatched rt (merged ++ (l ∷ [])) ls
  unfolding add_unmatched
  add_unmatched-new l merged ls e =
      ap (λ b. add_unmatched rt (if b then merged else merged ++ (l ∷ [])) ls) e

  add_unmatched-IsHeld :
      (s : SessionItem) (merged ls : List SessionItem)
      → IsHeld s merged
      → IsHeld s (add_unmatched rt merged ls)
  unfolding add_unmatched
  add_unmatched-IsHeld s merged [] k = k
  add_unmatched-IsHeld s merged (l ∷ ls) k = elim (Bool-cases (has_match rt l merged)) [
    | inl e ↦
        subst (IsHeld s) (sym (add_unmatched-matched l merged ls e))
          (add_unmatched-IsHeld s merged ls k)
    | inr e ↦
        subst (IsHeld s) (sym (add_unmatched-new l merged ls e))
          (add_unmatched-IsHeld s (merged ++ (l ∷ [])) ls (IsHeld-append s merged (l ∷ []) k))
  ]

  In-last : (s : SessionItem) (xs : List SessionItem) → In s (xs ++ (s ∷ []))
  In-last s [] = inl refl
  In-last s (x ∷ xs) = inr (In-last s xs)

  add_unmatched-all :
      (s : SessionItem) (merged ls : List SessionItem)
      → In s ls
      → IsHeld s (add_unmatched rt merged ls)
  unfolding add_unmatched
  add_unmatched-all s merged [] i = absurd i
  add_unmatched-all s merged (l ∷ ls) (inr i) =
      add_unmatched-all s (if has_match rt l merged then merged else merged ++ (l ∷ [])) ls i
  add_unmatched-all s merged (l ∷ ls) (inl p) =
      subst (λ x. IsHeld x (add_unmatched rt merged (l ∷ ls))) p
        (elim (Bool-cases (has_match rt l merged)) [
          | inl e ↦
              subst (IsHeld l) (sym (add_unmatched-matched l merged ls e))
                (add_unmatched-IsHeld l merged ls (inl e))
          | inr e ↦
              subst (IsHeld l) (sym (add_unmatched-new l merged ls e))
                (add_unmatched-IsHeld l (merged ++ (l ∷ [])) ls (inr (In-last l merged)))
        ])

  sessions_match-SharesId : (x s : SessionItem) → sessions_match x s ≡ true → SharesId x s
  unfolding sessions_match
  sessions_match-SharesId x s h = elim (Bool-cases (same_id x.id s.id)) [
    | inl e ↦ inl (same_id-IsSame x.id s.id e)
    | inr e ↦ elim (Bool-cases (same_id x.binding_id s.binding_id)) [
      | inl f ↦ inr (inl (same_id-IsSame x.binding_id s.binding_id f))
      | inr f ↦ inr (inr (same_id-IsSame x.device_id s.device_id (rw (e, f) at h)))
    ]
  ]

  has_match-SharesId :
      (s : SessionItem) (xs : List SessionItem)
      → has_match rt s xs ≡ true
      → (x : SessionItem) × In x xs × SharesId x s
  unfolding has_match
  has_match-SharesId s [] h = cc
  has_match-SharesId s (x ∷ xs) h = elim (Bool-cases (sessions_match x s)) [
    | inl e ↦ (x, inl refl, sessions_match-SharesId x s e)
    | inr e ↦ let (y, i, k) = has_match-SharesId s xs (rw e at h) in (y, inr i, k)
  ]

  -- No session that the app knows is lost when the refreshed sessions are merged in: it is among
  -- the result, or the result has a session with the same id, binding or device, which is not
  -- empty.
  pub merge-IsKept :
      (latest refreshed : List SessionItem) (s : SessionItem)
      → In s latest
      → In s (merge_refreshed_sessions rt latest refreshed)
        ⊎ ((x : SessionItem) × In x (merge_refreshed_sessions rt latest refreshed) × SharesId x s)
  unfolding merge_refreshed_sessions
  merge-IsKept latest refreshed s i =
      elim (add_unmatched-all s (merge_known rt latest refreshed) latest i) [
        | inl h ↦ inr (has_match-SharesId s _ h)
        | inr k ↦ inl k
      ]
