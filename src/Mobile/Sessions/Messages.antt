-- ===== src/Mobile/Sessions/Messages.antt =====
-- mobile/src/state/SessionsContext.tsx: messages join a session, change their delivery state, and
-- are chosen to be sent again. `format_time` is the platform's date formatting.
use Prim.Native.Nat.{ℕ, zero, suc, ◌-◌, Ordering}
use Prim.Native.String.{String, ◌++◌}
use mathlib.Core.Bool.{Bool, true, false, not, ◌&&◌}
use mathlib.Core.Option.{none, some}
use mathlib.Core.List.{List, [], ◌∷◌, map}
use text.Mathlib.Text.{◌==◌}
use openclawapp.Base.{if◌then◌else◌, is_empty, trim, keep, length, contains, sort}
use openclawapp.Base.Values.{Num, num, Count, gt, count_num, Runtime}
use openclawapp.Chat.{host, mobile_side, number_or_zero}
use openclawapp.Chat.Codec.{number_or_now}
use openclawapp.Chat.Timeline.{compare_num}
use openclawapp.Mobile.{
  ChatMessage, From, from_self, from_host, chat, system, DeliveryStatus, sent, failed, SessionItem,
}
use openclawapp.Mobile.ChatGraph.{
  is_system, normalize_origin_seq, optional_num, Upserted, upsert_session_message,
  describe_session_chat_state,
}
use openclawapp.Mobile.Sessions.{Store, text_or_none, patch_by_id, latest_of}

abbrev pub max_session_messages : ℕ
max_session_messages = 1000

abbrev pub drop {ℓ} : {A : Type ℓ} → ℕ → List A → List A
drop zero xs = xs
drop (suc n) [] = []
drop (suc n) (x ∷ xs) = drop n xs

-- `xs.slice(-n)`
abbrev pub take_last {ℓ} : {A : Type ℓ} → ℕ → List A → List A
take_last n xs = drop (length xs - n) xs

abbrev pub is_self : From → Bool
is_self from_self = true
is_self from_host = false

-- `messages.map(…)` of `updateMessageDeliveryState`
unfoldable pub set_delivery : String → DeliveryStatus → String → List ChatMessage → List ChatMessage
set_delivery id status error ms =
    map
      (λ m.
        if trim m.id == id
        then record m {
          delivery_status = some status;
          delivery_error = some (elim status [ failed ↦ trim error | _ ↦ "" ]);
        }
        else m)
      ms

unfoldable pub update_delivery_state : String → String → DeliveryStatus → String → Store → Store
unfolding set_delivery patch_by_id
update_delivery_state session_id message_id status error store =
    if is_empty (trim session_id)
    then store
    else if is_empty (trim message_id)
    then store
    else patch_by_id (trim session_id)
        (λ s. record s { messages = set_delivery (trim message_id) status error s.messages }) store

module _ (rt : Runtime) (format_time : Num → String) where
  -- A session with one message more.
  abbrev pub with_upserted : Upserted → String → SessionItem → SessionItem
  with_upserted upserted preview s = record s {
    preview = preview;
    is_replying = false;
    messages = take_last max_session_messages upserted.reconciled.messages;
    missing_message_ids = some upserted.reconciled.missing_message_ids;
  }

  -- The message that `appendMessageLocal` adds; the fields that it is not given are `none`.
  unfoldable pub local_message : ChatMessage → ChatMessage
  unfolding normalize_origin_seq
  local_message m =
      let ts = number_or_now rt 0 (num m.ts) in
      let of_system = is_system m in
      record {
        id = if is_empty (trim m.id) then "msg_" ++ rt.random_suffix else trim m.id;
        from = m.from;
        text = trim m.text;
        created_at = if is_empty m.created_at then format_time ts else m.created_at;
        ts = ts;
        kind = some (if of_system then system else chat);
        origin = if of_system then none else some (if is_self m.from then mobile_side else host);
        origin_seq = if of_system then none else some (count_num (normalize_origin_seq rt m));
        after = some (elim m.after [ none ↦ [] | some ids ↦ ids ]);
        missing_after = some [];
        delivery_status =
            if of_system
            then none
            else if is_self m.from
            then some (elim m.delivery_status [ none ↦ sent | some status ↦ status ])
            else none;
        delivery_error = some (
            if of_system
            then ""
            else if is_self m.from
            then trim (text_or_none m.delivery_error)
            else "");
      }

  -- `appendMessageLocal`
  unfoldable pub append_message_local : String → ChatMessage → Store → Store
  unfolding local_message upsert_session_message patch_by_id
  append_message_local session_id m store =
      if is_empty (trim m.text)
      then store
      else patch_by_id session_id
          (λ s.
            with_upserted (upsert_session_message rt s.messages (local_message m)) (trim m.text) s)
          store

  -- The message that `upsertRemoteChatMessage` keeps.
  unfoldable pub remote_message : ChatMessage → ChatMessage
  unfolding normalize_origin_seq
  remote_message m = record {
    id = trim m.id;
    from = m.from;
    text = m.text;
    created_at = format_time (number_or_now rt 0 (num m.ts));
    ts = number_or_now rt 1 (num m.ts);
    kind = some chat;
    origin = some (elim m.origin [ some mobile_side ↦ mobile_side | _ ↦ host ]);
    origin_seq = some (count_num (normalize_origin_seq rt m));
    after = some (elim m.after [ none ↦ [] | some ids ↦ ids ]);
    missing_after = some [];
    delivery_status = none;
    delivery_error = none;
  }

  -- `upsertRemoteChatMessage`: the store, and the ids that are missing now and were not before.
  unfoldable pub upsert_remote_message : String → ChatMessage → Store → Store × List String
  unfolding remote_message upsert_session_message patch_by_id
  upsert_remote_message session_id m store = if is_empty (trim m.id) then (store, []) else (
    patch_by_id session_id
        (λ s.
          with_upserted (upsert_session_message rt s.messages (remote_message m))
            (if is_empty (trim m.text) then s.preview else trim m.text) s)
        store,
    newly_missing (keep (λ s. s.id == session_id) store.sessions),
  )
    where
      -- The last session of the id gives the result.
      newly_missing : List SessionItem → List String
      newly_missing [] = []
      newly_missing (s ∷ []) =
          (upsert_session_message rt s.messages (remote_message m)).newly_missing_message_ids
      newly_missing (s ∷ t ∷ ss) = newly_missing (t ∷ ss)

  -- `message.kind !== 'system' && message.from === 'self'`
  abbrev pub is_own : ChatMessage → Bool
  is_own m = not (is_system m) && is_self m.from

  -- The messages that `resendKnownMessages` sends again.
  unfoldable pub known_messages : List String → List ChatMessage → List ChatMessage
  known_messages ids ms = keep (λ m. contains m.id ids) (keep is_own ms)

  abbrev compare_seqs : ChatMessage → ChatMessage → Ordering
  compare_seqs left right =
      compare_num (number_or_zero rt (optional_num left.origin_seq))
        (number_or_zero rt (optional_num right.origin_seq))

  -- The messages that `handleDesktopSyncState` sends again: those after the number that the desktop
  -- has, by their numbers.
  unfoldable pub messages_after : Count → List ChatMessage → List ChatMessage
  unfolding normalize_origin_seq
  messages_after mobile_seq ms =
      sort compare_seqs (keep (λ m. gt (normalize_origin_seq rt m) mobile_seq) (keep is_own ms))

  -- `handleDesktopSyncState`: what is sent again, and whether the desktop is asked for its messages.
  unfoldable pub handle_sync_state :
      SessionItem → (host_seq mobile_seq : Count) → Store → List ChatMessage × Bool
  unfolding messages_after describe_session_chat_state
  handle_sync_state session host_seq mobile_seq store =
      let current = latest_of store session in
      (
        messages_after mobile_seq current.messages,
        gt host_seq (describe_session_chat_state rt current.messages).host_seq,
      )
