-- ===== src/Mobile/Sessions/Sending.antt =====
-- mobile/src/state/SessionsContext.tsx: the user sends a message, retries one or removes a session,
-- and the app sends the state of a session. Nothing else happens while a call waits; what the
-- server, the peer channel and the signal stream answer is an argument.
use Prim.Native.Nat.{ℕ}
use Prim.Native.String.{String, ◌++◌}
use mathlib.Core.Bool.{Bool, true, false, not, ◌||◌}
use mathlib.Core.Option.{Option, none, some}
use text.Mathlib.Text.{◌==◌}
use openclawapp.Base.{if◌then◌else◌, is_empty, trim, find, lookup, insert}
use openclawapp.Base.Values.{
  Value, undefined, Num, finite, Runtime, Result, ok, err, Count, clamp, count_num, member,
  optional_member, truthy, text_of,
}
use openclawapp.Chat.{mobile_side, supports_chat, create_message_id}
use openclawapp.Chat.Codec.{number_or_now}
use openclawapp.Mobile.{ChatMessage, from_self, chat, sending, sent, failed, SessionItem}
use openclawapp.Mobile.ChatGraph.{
  is_system, optional_num, collect_session_leaf_ids, SessionState, describe_session_chat_state,
}
use openclawapp.Mobile.Sessions.{
  Store, text_or_none, find_by_id, latest_of, can_use_relay, mark_transport, remove_local,
}
use openclawapp.Mobile.Sessions.Merge.{next_origin_seq}
use openclawapp.Mobile.Sessions.Messages.{is_self, update_delivery_state, append_message_local}
use openclawapp.Mobile.Sessions.Peers.{Attempt, deliver_app_message, close_peer}
use openclawapp.Mobile.Sessions.Probes.{is_recent}

-- What the waits of a delivery give: whether the signal stream is connected, the attempt of the
-- peer channel, and the relay's two calls.
pub record Outcome : Type 0 where
  pub connected : Result Bool
  pub attempt : Attempt
  pub first : Result (Unit {0})
  pub second : Result (Unit {0})

-- What `sendChannelRevoke` delivers to: the session, if it names a device.
unfoldable pub revoke_target : SessionItem → Store → Option SessionItem
revoke_target session store =
    let s = latest_of store session in if is_empty (trim s.device_id) then none else some s

-- `removeSession`: the store, and the session whose desktop is told, before it is removed.
unfoldable pub remove_session : String → Store → Store × Option SessionItem
unfolding find_by_id close_peer remove_local revoke_target
remove_session session_id store = elim (find_by_id session_id store.sessions) [
  | none ↦ (remove_local session_id "" "" store, none)
  | some s ↦
      let closed = close_peer s.binding_id "session removed" store in
      if is_empty s.binding_id then (remove_local session_id "" "" store, none) else (
        remove_local session_id "" "" closed,
        (if trim (text_or_none s.trust_state) == "active" then revoke_target s closed else none),
      )
]

abbrev value_or_undefined : Option Value → Value
value_or_undefined none = undefined
value_or_undefined (some v) = v

module _ (rt : Runtime) where
  -- `requestMessageStateSync`: the store, and the state that was delivered.
  unfoldable pub request_state_sync :
      SessionItem
      → (interval now : ℕ) → (prefer_relay : Bool) → Outcome
      → Store
      → Store × Option SessionState
  unfolding can_use_relay describe_session_chat_state deliver_app_message
  request_state_sync session interval now prefer_relay outcome store =
      let s = latest_of store session in
      let binding_id = trim s.binding_id in
      let delivered =
        deliver_app_message s (record { prefer_relay = prefer_relay; force_peer_attempt = false })
          outcome.attempt outcome.first outcome.second store in
      if not (can_use_relay s)
        || (is_empty binding_id || is_recent interval now (lookup binding_id store.last_sync))
      then (store, none)
      else elim delivered.1 [
        | err e ↦ (delivered.0, none)
        | ok transport ↦ (
          record delivered.0 {
            last_sync = insert binding_id (finite false now 0) delivered.0.last_sync;
          },
          some (describe_session_chat_state rt s.messages),
        )
      ]

  -- `deliverLocalChatMessage` of the message with this id.
  unfoldable pub deliver_local : SessionItem → String → Outcome → Store → Store × Result (Unit {0})
  unfolding supports_chat deliver_app_message mark_transport update_delivery_state
  deliver_local session message_id outcome store =
      let s = latest_of store session in
      let delivered =
        deliver_app_message s (record { prefer_relay = false; force_peer_attempt = false })
          outcome.attempt outcome.first outcome.second store in
      if not (
        supports_chat rt
          (optional_member "supportedMessages" (value_or_undefined s.peer_capabilities)))
      then (store, err "当前桌面端未声明聊天能力")
      else elim outcome.connected [
        | err e ↦ (store, err e)
        | ok false ↦ (store, err "信令连接未建立")
        | ok true ↦ elim delivered.1 [
          | err e ↦ (delivered.0, err e)
          | ok transport ↦ (
            update_delivery_state s.id message_id sent ""
                (mark_transport s.id transport delivered.0),
            ok tt,
          )
        ]
      ]

  -- The `try` around `deliverLocalChatMessage`: a failure is noted at the message and thrown on.
  unfoldable pub deliver_or_fail :
      SessionItem → String → Outcome → Store → Store × Result (Unit {0})
  unfolding deliver_local update_delivery_state
  deliver_or_fail session message_id outcome store =
      let delivered = deliver_local session message_id outcome store in
      elim delivered.1 [
        | ok done ↦ delivered
        | err e ↦ (update_delivery_state session.id message_id failed e delivered.0, err e)
      ]

  -- `retryMessage`
  unfoldable pub retry_message :
      (session_id message_id : String) → Outcome → Store → Store × Result (Unit {0})
  unfolding find_by_id deliver_or_fail update_delivery_state
  retry_message session_id message_id outcome store = elim (find_by_id session_id store.sessions) [
    | none ↦ (store, err "会话不存在")
    | some s ↦ elim (find (λ m. trim m.id == trim message_id) s.messages) [
      | none ↦ (store, err "该消息无法重发")
      | some m ↦
          if not (is_self m.from) || is_system m
          then (store, err "该消息无法重发")
          else elim m.delivery_status [
            | some failed ↦
                deliver_or_fail s m.id outcome (update_delivery_state s.id m.id sending "" store)
            | _ ↦ (store, ok tt)
          ]
    ]
  ]

  module _ (format_time : Num → String) where
    -- The time and the id of a message that is sent with these options.
    abbrev pub sent_ts : Option Num → Count
    sent_ts ts = clamp (number_or_now rt 0 (optional_num ts))

    abbrev pub sent_id : Option String → Count → String
    sent_id message_id ts =
        if is_empty (trim (text_or_none message_id))
        then create_message_id rt (count_num ts)
        else trim (text_or_none message_id)

    -- Why `sendMessage` does not send this text, if it does not.
    unfoldable pub refusal : String → SessionItem → Option String
    refusal text s =
        let code = member "safetyCode" s.other in
        if is_empty (trim text)
        then some "请输入消息内容"
        else if trim (text_or_none s.trust_state) == "pending"
        then some ("请先在桌面端确认安全码" ++ (if truthy code then " " ++ text_of rt code else ""))
        else if trim (text_or_none s.trust_state) == "revoked"
        then some "该绑定已被撤销，无法发送消息"
        else none

    -- The message that `sendMessage` adds to this session.
    unfoldable pub draft : SessionItem → (text id : String) → Count → ChatMessage
    unfolding collect_session_leaf_ids next_origin_seq
    draft s text id ts = record {
      id = id;
      from = from_self;
      text = trim text;
      created_at = "";
      ts = count_num ts;
      kind = some chat;
      origin = some mobile_side;
      origin_seq = some (count_num (next_origin_seq rt mobile_side s.messages));
      after = some (collect_session_leaf_ids rt s.messages);
      missing_after = none;
      delivery_status = some sending;
      delivery_error = none;
    }

    -- `sendMessage`
    unfoldable pub send_message :
        (session_id text : String)
        → (message_id : Option String) → (ts : Option Num) → Outcome
        → Store
        → Store × Result (String × Count)
    unfolding find_by_id refusal draft append_message_local deliver_or_fail
    send_message session_id text message_id ts outcome store =
        elim (find_by_id session_id store.sessions) [
          | none ↦ (store, err "会话不存在")
          | some s ↦ elim (refusal text s) [
            | some e ↦ (store, err e)
            | none ↦
                let at = sent_ts ts in
                let id = sent_id message_id at in
                let delivered =
                  deliver_or_fail s id outcome
                    (append_message_local rt format_time s.id (draft s text id at) store) in
                (delivered.0, elim delivered.1 [ ok _ ↦ ok (id, at) | err e ↦ err e ])
          ]
        ]
