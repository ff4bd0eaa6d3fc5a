-- ===== src/Mobile/Sessions/Merge.antt =====
-- mobile/src/state/SessionsContext.tsx: the refreshed sessions are merged into the known ones, and
-- the next number of an own message.
use Prim.Native.Nat.{ℕ, ◌+◌, ◌%◌}
use Prim.Native.String.{String}
use mathlib.Core.Bool.{Bool, true, false, not, ◌&&◌, ◌||◌}
use mathlib.Core.Option.{Option, none, some}
use mathlib.Core.List.{List, [], ◌∷◌, ◌++◌}
use text.Mathlib.Text.{◌==◌}
use openclawapp.Base.{if◌then◌else◌, ltb, eqb, is_empty, find}
use openclawapp.Base.Values.{
  Num, finite, entries, of_entries, Count, not_a_number, infinite, whole, max_count, count_num,
  Runtime, clamp, truthy,
}
use openclawapp.Chat.{Origin, host, mobile_side, number_or_zero}
use openclawapp.Mobile.{ChatMessage, From, from_self, from_host, SessionItem}
use openclawapp.Mobile.ChatGraph.{
  is_system, same_origin, normalize_origin_seq, optional_num, reconcile_session_messages,
}
use openclawapp.Mobile.Sessions.{is_offline}

-- `left && right && left === right`
abbrev pub same_id : String → String → Bool
same_id left right = not (is_empty left) && (not (is_empty right) && left == right)

unfoldable pub sessions_match : SessionItem → SessionItem → Bool
sessions_match left right =
    same_id left.id right.id
    || (same_id left.binding_id right.binding_id || same_id left.device_id right.device_id)

-- The origin of a message, or else the side that it is from.
abbrev is_from : Origin → From → Bool
is_from host from_host = true
is_from mobile_side from_self = true
is_from _ _ = false

unfoldable pub counts_for : Origin → ChatMessage → Bool
counts_for side m =
    not (is_system m)
    && elim m.origin [ some origin ↦ same_origin origin side | none ↦ is_from side m.from ]

-- 2 ^ 53, up to which doubles have every whole number.
abbrev pub exact_numbers : ℕ
exact_numbers = 9007199254740992

-- `n + 1` of a double: exact below 2 ^ 53; then up to 2 ^ 54 halfway between two doubles, of which
-- the one with the even significand is taken; from there on too small to count. A `whole` from
-- 2 ^ 53 on is taken to be a double.
unfoldable pub succ_double : ℕ → ℕ
succ_double n =
    if ltb n exact_numbers
    then n + 1
    else if ltb n (exact_numbers + exact_numbers)
    then (if eqb (n % 4) 0 then n else n + 2)
    else n

-- `count + 1`
abbrev pub next_count : Count → Count
next_count (whole n) = whole (succ_double n)
next_count infinite = infinite
next_count not_a_number = not_a_number

-- `{...latest, ...refreshed}` for a field that may be missing
abbrev pub or_latest {ℓ} : {A : Type ℓ} → Option A → Option A → Option A
or_latest (some a) latest = some a
or_latest none latest = latest

module _ (rt : Runtime) where
  -- The `reduce` of `nextOriginSeq`, whose start is 0: a number below 0 counts as 0.
  unfoldable pub max_origin_seq : Origin → Count → List ChatMessage → Count
  unfolding counts_for normalize_origin_seq
  max_origin_seq side top [] = top
  max_origin_seq side top (m ∷ ms) =
      max_origin_seq side
        (if counts_for side m then max_count top (normalize_origin_seq rt m) else top) ms

  unfoldable pub next_origin_seq : Origin → List ChatMessage → Count
  unfolding max_origin_seq succ_double
  next_origin_seq side ms = next_count (max_origin_seq side (whole 0) ms)

  -- `Math.max(0, Math.trunc(Number(refreshed || latest || 0)))`
  abbrev merged_count : Option Num → Option Num → Num
  merged_count refreshed latest = count_num (
      clamp (
        number_or_zero rt (
          if truthy (optional_num refreshed) then optional_num refreshed else optional_num latest)))

  unfoldable pub merge_session : SessionItem → SessionItem → SessionItem
  unfolding reconcile_session_messages
  merge_session latest refreshed =
      let reconciled = reconcile_session_messages rt (latest.messages ++ refreshed.messages) in
      let gone = is_offline refreshed.status in
      record refreshed {
        messages = reconciled.messages;
        missing_message_ids = some reconciled.missing_message_ids;
        trust_state = or_latest refreshed.trust_state latest.trust_state;
        transport_ready = or_latest refreshed.transport_ready latest.transport_ready;
        peer_state = or_latest refreshed.peer_state latest.peer_state;
        peer_detail = or_latest refreshed.peer_detail latest.peer_detail;
        peer_capabilities = or_latest refreshed.peer_capabilities latest.peer_capabilities;
        link_transport =
            if gone then none else or_latest refreshed.link_transport latest.link_transport;
        link_rtt_ms = some (
            if gone
            then finite false 0 0
            else merged_count refreshed.link_rtt_ms latest.link_rtt_ms);
        link_rtt_at = some (
            if gone
            then finite false 0 0
            else merged_count refreshed.link_rtt_at latest.link_rtt_at);
        link_probe_pending = some (
            if gone
            then false
            else (elim (or_latest refreshed.link_probe_pending latest.link_probe_pending) [
              | none ↦ false
              | some b ↦ b
            ]));
        other = of_entries (entries refreshed.other ++ entries latest.other);
      }

  -- `refreshedSessions.map(…)`
  unfoldable pub merge_known : List SessionItem → List SessionItem → List SessionItem
  unfolding sessions_match merge_session
  merge_known latest [] = []
  merge_known latest (r ∷ rs) =
      elim (find (λ item. sessions_match item r) latest) [ none ↦ r | some l ↦ merge_session l r ]
      ∷ merge_known latest rs

  -- `items.some((item) => sessionsMatch(item, session))`
  unfoldable pub has_match : SessionItem → List SessionItem → Bool
  unfolding sessions_match
  has_match session [] = false
  has_match session (item ∷ items) = sessions_match item session || has_match session items

  -- The loop that adds the sessions that were not refreshed.
  unfoldable pub add_unmatched : List SessionItem → List SessionItem → List SessionItem
  unfolding has_match
  add_unmatched merged [] = merged
  add_unmatched merged (l ∷ ls) =
      add_unmatched (if has_match l merged then merged else merged ++ (l ∷ [])) ls

  unfoldable pub merge_refreshed_sessions : List SessionItem → List SessionItem → List SessionItem
  unfolding merge_known add_unmatched
  merge_refreshed_sessions latest refreshed = add_unmatched (merge_known latest refreshed) latest
