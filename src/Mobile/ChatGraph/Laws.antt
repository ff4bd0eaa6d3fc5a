-- ===== src/Mobile/ChatGraph/Laws.antt =====
-- What a session says of its messages in a sync.
use Prim.Native.Nat.{ℕ, ◌+◌, ◌≤◌}
use mathlib.Core.Path.{◌≡◌, refl}
use mathlib.Core.Bool.{Bool, true, false, ◌&&◌, ◌||◌}
use mathlib.Core.List.{List, [], ◌∷◌}
use mathlib.Core.Logic.{inl, inr, ◌≢◌}
use native.Mathlib.Omega.{arith}
use openclawapp.Base.{Bool-cases}
use openclawapp.Base.Values.{Count, whole, infinite, not_a_number, positive, Runtime}
use openclawapp.CrdtGraph.Seqs.{contiguous_entry, count_eqb, has_count, add_seq}
use openclawapp.CrdtGraph.Seqs.Gaps.{contiguous_entry-IsGap}
use openclawapp.CrdtGraph.Seqs.Collect.{AreSeqs, has_count-add_seq, AreSeqs-add_seq}
use openclawapp.Chat.{Origin, host, mobile_side}
use openclawapp.Mobile.{ChatMessage}
use openclawapp.Mobile.ChatGraph.{
  normalize_origin, normalize_origin_seq, same_origin, extract_chat_messages, seqs_of_origin,
  SessionState, describe_session_chat_state,
}

-- The number that the state gives for one side.
abbrev pub side_seq : Origin → SessionState → Count
side_seq host s = s.host_seq
side_seq mobile_side s = s.mobile_seq

module _ (rt : Runtime) where
  -- Some message of the list is the side's message of that number.
  abbrev pub sends : Origin → ℕ → List ChatMessage → Bool
  sends side k [] = false
  sends side k (m ∷ ms) =
      (same_origin side (normalize_origin m) && count_eqb (normalize_origin_seq rt m) (whole k))
      || sends side k ms

  -- The message is one of the side, with a number above 0.
  abbrev is_counted : Origin → ChatMessage → Bool
  is_counted side m = same_origin side (normalize_origin m) && positive (normalize_origin_seq rt m)

  AreSeqs-seqs_of_origin :
      (side : Origin) (cs : List Count) (ms : List ChatMessage)
      → AreSeqs cs
      → AreSeqs (seqs_of_origin rt side cs ms)
  unfolding seqs_of_origin
  AreSeqs-seqs_of_origin side cs [] s = s
  AreSeqs-seqs_of_origin side cs (m ∷ ms) s = elim (Bool-cases (is_counted side m)) [
    | inl e ↦
        rw (seqs_of_origin, e)
          (AreSeqs-seqs_of_origin side (add_seq cs (normalize_origin_seq rt m)) ms (
            AreSeqs-add_seq cs (normalize_origin_seq rt m)
              (not_NaN (normalize_origin_seq rt m) (ground arith)) (ground arith) s))
    | inr e ↦ rw (seqs_of_origin, e) (AreSeqs-seqs_of_origin side cs ms s)
  ]
    where
      not_NaN : (c : Count) → positive c ≡ true → c ≢ not_a_number
      not_NaN (whole n) p = λ q. cc
      not_NaN infinite p = λ q. cc
      not_NaN not_a_number p = λ q. cc

  positive-of_count_eqb :
      (c : Count) (k : ℕ) → 1 ≤ k → count_eqb c (whole k) ≡ true → positive c ≡ true
  unfolding count_eqb
  positive-of_count_eqb (whole n) k h e = ground arith
  positive-of_count_eqb infinite k h e = refl
  positive-of_count_eqb not_a_number k h e = cc

  has_count-seqs_of_origin :
      (side : Origin) (k : ℕ)
      → 1 ≤ k
      → (cs : List Count) (ms : List ChatMessage)
      → has_count (whole k) (seqs_of_origin rt side cs ms)
        ≡ (has_count (whole k) cs || sends side k ms)
  unfolding seqs_of_origin
  has_count-seqs_of_origin side k h cs [] = ground arith
  has_count-seqs_of_origin side k h cs (m ∷ ms) = elim (Bool-cases (is_counted side m)) [
    | inl e ↦
        rw (seqs_of_origin, e)
          (ground (
            arith,
            has_count-seqs_of_origin side k h (add_seq cs (normalize_origin_seq rt m)) ms,
            has_count-add_seq (whole k) (normalize_origin_seq rt m) cs,
          ))
    | inr e ↦
        rw (seqs_of_origin, e)
          (ground (
            arith,
            has_count-seqs_of_origin side k h cs ms,
            positive-of_count_eqb (normalize_origin_seq rt m) k h,
          ))
  ]

  no_seqs : AreSeqs []
  no_seqs = record { numbers = tt; distinct = tt; from_one = tt }

  -- The number that a session gives for a side: the messages of the side from 1 up to it are all
  -- kept, and the next one is not.
  pub describe-sends :
      (side : Origin) (ms : List ChatMessage)
      → (n : ℕ) × (side_seq side (describe_session_chat_state rt ms) ≡ whole n)
        × ((k : ℕ) → 1 ≤ k → k ≤ n → sends side k (extract_chat_messages rt ms) ≡ true)
        × (sends side (n + 1) (extract_chat_messages rt ms) ≡ false)
  unfolding describe_session_chat_state has_count
  describe-sends side ms =
      let kept = extract_chat_messages rt ms in
      let s = AreSeqs-seqs_of_origin side [] kept no_seqs in
      let (n, e, present, absent) =
        contiguous_entry-IsGap (seqs_of_origin rt side [] kept) s.numbers s.distinct s.from_one in
      (
        n,
        given side n e,
        λ k a b. ground (arith, has_count-seqs_of_origin side k a [] kept, present k a b),
        ground (arith, has_count-seqs_of_origin side (n + 1) (omega arith) [] kept, absent),
      )
    where
      given :
          (side : Origin) (n : ℕ)
          → contiguous_entry (seqs_of_origin rt side [] (extract_chat_messages rt ms)) ≡ whole n
          → side_seq side (describe_session_chat_state rt ms) ≡ whole n
      given host n e = e
      given mobile_side n e = e
