-- ===== src/Mobile/Sessions/Events.antt =====
-- mobile/src/state/SessionsContext.tsx: `handleSignalEvent`, what a signal of the server does to the
-- sessions, and the calls that it starts, which run later.
use Prim.Native.String.{String}
use mathlib.Core.Bool.{Bool, true, false, not, ◌||◌}
use mathlib.Core.Option.{Option, none, some}
use mathlib.Core.List.{List, [], ◌∷◌, map}
use text.Mathlib.Text.{◌==◌}
use openclawapp.Base.{if◌then◌else◌, is_empty}
use openclawapp.Base.Values.{
  Num, Value, undefined, str, num, obj, arr, elems, Fields, field, Runtime, member, trimmed_text,
  text_of, truthy, count_or_zero, count_num,
}
use openclawapp.Chat.{desktop, PeerMessage, host, mobile_side, message_type, payload_fields}
use openclawapp.Chat.Codec.{
  is_text, number_or_now, parse_ack, parse_ping, parse_pong, parse_sync_request, parse_sync_state,
  PingEvent, SyncStateEvent,
}
use openclawapp.Chat.Revoke.{parse_revoke}
use openclawapp.Mobile.{ChatMessage, from_host, SessionItem, connected, offline, relay}
use openclawapp.Mobile.Sessions.{
  Store, text_or_none, find_by_binding, find_by_device, patch_by_id, update_where, remove_local,
  apply_link_pong,
}
use openclawapp.Mobile.Sessions.Peers.{close_peer}
use openclawapp.Mobile.Sessions.Messages.{upsert_remote_message}

-- The calls that an event starts.
pub data Command : Type 0 where
  refresh : Command
  connect : SessionItem → Command
  resend : SessionItem → List String → Command
  respond : SessionItem → PingEvent → Command
  sync : SessionItem → SyncStateEvent → Command
  acknowledge : SessionItem → String → Command
  request_missing : SessionItem → List String → Command
  peer_signal : SessionItem → (type : String) → Fields → Command

pub record SignalEvent : Type 0 where
  pub type : Value
  pub from_id : Value
  pub payload : Fields

abbrev pub is_known : String → String → SessionItem → Bool
is_known binding_id device_id s = s.binding_id == binding_id || s.device_id == device_id

-- `getSessionByBindingIdSnapshot(…) || getSessionByDeviceIdSnapshot(…)`
unfoldable pub find_session : String → String → Store → Option SessionItem
unfolding find_by_binding find_by_device
find_session binding_id device_id store = elim (find_by_binding binding_id store.sessions) [
  | none ↦ find_by_device device_id store.sessions
  | some s ↦ some s
]

abbrev pub listed_session : Option SessionItem → List Command
listed_session none = []
listed_session (some s) = connect s ∷ []

unfoldable pub revoke_pairing : String → String → Store → Store
unfolding close_peer update_where
revoke_pairing binding_id device_id store =
    let closed =
      if is_empty binding_id then store else close_peer binding_id "binding revoked" store in
    record closed {
      sessions =
          update_where (is_known binding_id device_id)
            (λ s. record s {
              trust_state = some "revoked";
              status = offline;
              transport_ready = some false;
              preview = "绑定已撤销";
            })
            closed.sessions;
    }

module _ (rt : Runtime) (format_time : Num → String) where
  -- `payload.a || payload.b`
  abbrev either : String → String → Fields → Value
  either a b payload = if truthy (member a payload) then member a payload else member b payload

  -- `String(payload.bindingId || payload.binding_id || '').trim()`
  abbrev pub binding_of : Fields → String
  binding_of payload = trimmed_text rt (either "bindingId" "binding_id" payload)

  abbrev pub device_of : Fields → String → String
  device_of payload from_id =
      let named = either "deviceId" "device_id" payload in
      trimmed_text rt (if truthy named then named else str from_id)

  unfoldable pub approve_pairing : String → String → Fields → Store → Store
  unfolding update_where
  approve_pairing binding_id device_id payload store =
      let named = either "trustState" "trust_state" payload in
      record store {
        sessions =
            update_where (is_known binding_id device_id)
              (λ s. record s {
                trust_state = some (text_of rt (if truthy named then named else str "active"));
                status = connected;
                transport_ready = some true;
                preview = "桌面端已批准配对，正在尝试直连；失败会自动切换服务端转发。";
                other =
                    field "approvedAt"
                      (num (number_or_now rt 0 (either "approvedAt" "approved_at" payload)))
                      s.other;
              })
              store.sessions;
      }

  -- A relayed message; `from` is only copied into what the parsers give.
  abbrev pub relayed_message : Value → Option PeerMessage
  relayed_message (obj fs) = some (record {
    type = trimmed_text rt (member "type" fs);
    payload = member "payload" fs;
    ts = member "ts" fs;
    from = desktop;
  })
  relayed_message (arr vs) =
      some (record { type = ""; payload = undefined; ts = undefined; from = desktop })
  relayed_message _ = none

  -- A text of each value, `String(value || '')`, for an array.
  abbrev after_texts : Value → List String
  after_texts (arr vs) = map (λ v. text_of rt (if truthy v then v else str "")) (elems vs)
  after_texts _ = []

  -- The relayed chat message.
  abbrev pub relayed_chat : Fields → Value → ChatMessage
  relayed_chat payload ts = record {
    id = trimmed_text rt (member "id" payload);
    from = from_host;
    text = trimmed_text rt (member "text" payload);
    created_at = "";
    ts = number_or_now rt 0 ts;
    kind = none;
    origin = some (if is_text (member "origin" payload) "mobile" then mobile_side else host);
    origin_seq = some (count_num (count_or_zero rt (member "originSeq" payload)));
    after = some (after_texts (member "after" payload));
    missing_after = none;
    delivery_status = none;
    delivery_error = none;
  }

  abbrev missing_command : SessionItem → List String → List Command
  missing_command s [] = []
  missing_command s (i ∷ is) = request_missing s (i ∷ is) ∷ []

  unfoldable pub receive_relayed_chat : SessionItem → PeerMessage → Store → Store × List Command
  unfolding upsert_remote_message
  receive_relayed_chat s message store =
      let payload = payload_fields message.payload in
      let (next, missing) =
        upsert_remote_message rt format_time s.id (relayed_chat payload message.ts) store in
      if not (message.type == message_type)
      then (store, [])
      else if is_empty (trimmed_text rt (member "text" payload))
      then (store, [])
      else (next, acknowledge s (trimmed_text rt (member "id" payload)) ∷ missing_command s missing)

  -- A relayed message that is no revocation, in the order in which the parsers are tried.
  unfoldable pub receive_relayed : SessionItem → PeerMessage → Store → Store × List Command
  unfolding receive_relayed_chat apply_link_pong
  receive_relayed s message store = elim (parse_sync_request rt message) [
    | some request ↦ (store, resend s request.message_ids ∷ [])
    | none ↦ elim (parse_ack rt message) [
      | some a ↦ (store, [])
      | none ↦ elim (parse_pong rt message) [
        | some pong ↦
            (apply_link_pong rt s pong.payload.id (count_num pong.payload.sent_at) relay store, [])
        | none ↦ elim (parse_ping rt message) [
          | some ping ↦ (store, respond s ping ∷ [])
          | none ↦ elim (parse_sync_state rt message) [
            | some state ↦ (store, sync s state ∷ [])
            | none ↦ receive_relayed_chat s message store
          ]
        ]
      ]
    ]
  ]

  abbrev mark_relayed : SessionItem → Store → Store
  mark_relayed s store =
      patch_by_id s.id
        (λ item. record item {
          transport_ready = some true;
          link_transport = some relay;
          preview =
              if text_or_none s.peer_state == "connected" then s.preview else "已切换到服务端转发，可继续聊天。";
        })
        store

  unfoldable pub receive_for :
      String → String → SessionItem → PeerMessage → Store → Store × List Command
  unfolding receive_relayed close_peer remove_local patch_by_id
  receive_for binding_id device_id s message store = elim (parse_revoke rt message) [
    | some revoke ↦
        (let closed =
            if is_empty binding_id
            then store
            else close_peer binding_id "channel revoked by desktop" store in
          (
            remove_local revoke.channel_id
                (if is_empty revoke.binding_id then binding_id else revoke.binding_id) device_id
                closed,
            [],
          ))
    | none ↦ receive_relayed s message (mark_relayed s store)
  ]

  unfoldable pub handle_relay : String → String → Fields → Store → Store × List Command
  unfolding find_session receive_for
  handle_relay binding_id device_id payload store = elim (find_session binding_id device_id store) [
    | none ↦ (store, refresh ∷ [])
    | some s ↦ elim (relayed_message (member "message" payload)) [
      | none ↦ (store, [])
      | some message ↦ receive_for binding_id device_id s message store
    ]
  ]

  abbrev is_webrtc : String → Bool
  is_webrtc type = type == "webrtc.offer" || (type == "webrtc.answer" || type == "webrtc.ice")

  unfoldable pub handle_signal_event : SignalEvent → Store → Store × List Command
  unfolding handle_relay find_session approve_pairing revoke_pairing
  handle_signal_event event store =
      let type = trimmed_text rt event.type in
      let binding_id = binding_of event.payload in
      let device_id = device_of event.payload (trimmed_text rt event.from_id) in
      let approved = approve_pairing binding_id device_id event.payload store in
      if type == "stream.opened"
      then (store, [])
      else if type == "pair.approved"
      then (approved, refresh ∷ listed_session (find_session binding_id device_id approved))
      else if type == "pair.revoked"
      then (revoke_pairing binding_id device_id store, [])
      else if type == "relay.app"
      then handle_relay binding_id device_id event.payload store
      else if is_webrtc type
      then (
        store,
        elim (find_session binding_id device_id store) [
          | none ↦ refresh ∷ []
          | some s ↦ peer_signal s type event.payload ∷ []
        ],
      )
      else (store, [])
