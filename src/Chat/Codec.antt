-- ===== src/Chat/Codec.antt =====
-- The payloads of openclaw-chat.ts: what is built, and what is parsed. `none` is `null`. A parser
-- reads the clock at most once for each field; the number is which reading that is.
pub mod RoundTrip
use Prim.Native.Nat.{ℕ}
use Prim.Native.String.{String}
use mathlib.Core.Bool.{Bool, true, false, not}
use mathlib.Core.Option.{Option, none, some}
use mathlib.Core.List.{List}
use text.Mathlib.Text.{◌==◌}
use openclawapp.Base.{if◌then◌else◌, is_empty, trim}
use openclawapp.Base.Values.{
  Num, finite, Value, num, str, Fields, Runtime, Count, count_num, number_of, text_of, truthy,
  member, trimmed_text, count_or_zero, count_or_now,
}
use openclawapp.Crdt.Envelope.{or_text}
use openclawapp.Chat.{
  EntityType, desktop, mobile, Origin, host, mobile_side, origin_text, PeerMessage, payload_fields,
  message_type, ack_type, sync_request_type, sync_state_type, ping_type, pong_type,
  normalize_after_ids, create_message_id, create_probe_id,
}

pub record MessagePayload : Type 0 where
  pub id : String
  pub after : List String
  pub text : String
  pub origin : Origin
  pub origin_seq : Count

pub record ChatEvent : Type 0 where
  pub id : String
  pub after : List String
  pub text : String
  pub ts : Num
  pub from : EntityType
  pub origin : Origin
  pub origin_seq : Count

pub record IdsEvent : Type 0 where
  pub message_ids : List String
  pub ts : Num
  pub from : EntityType

pub record SyncStatePayload : Type 0 where
  pub host_seq : Count
  pub mobile_seq : Count
  pub leaf_ids : List String

pub record SyncStateEvent : Type 0 where
  pub payload : SyncStatePayload
  pub ts : Num
  pub from : EntityType

pub record PingPayload : Type 0 where
  pub id : String
  pub sent_at : Count

pub record PingEvent : Type 0 where
  pub payload : PingPayload
  pub ts : Num
  pub from : EntityType

pub record PongPayload : Type 0 where
  pub id : String
  pub sent_at : Count
  pub responded_at : Count

pub record PongEvent : Type 0 where
  pub payload : PongPayload
  pub ts : Num
  pub from : EntityType

-- `v === "…"`, for a value and a text
abbrev pub is_text : Value → String → Bool
is_text (str s) t = s == t
is_text _ t = false

-- `options.origin === 'mobile' ? 'mobile' : 'host'`
unfoldable pub built_origin : Value → Origin
built_origin v = if is_text v "mobile" then mobile_side else host

abbrev pub from_origin : EntityType → Origin
from_origin desktop = host
from_origin mobile = mobile_side

-- The origin of a parsed message: what the payload says, or else the side that sent it.
unfoldable pub parsed_origin : Value → EntityType → Origin
parsed_origin v from =
    if is_text v "mobile" then mobile_side else if is_text v "host" then host else from_origin from

module _ (rt : Runtime) where
  -- `Number(v || Date.now())`
  abbrev pub number_or_now : ℕ → Value → Num
  number_or_now i v = number_of rt (if truthy v then v else num (finite false (rt.now i) 0))

  -- `String(v || '')`
  abbrev pub text_or_empty : Value → String
  text_or_empty v = text_of rt (if truthy v then v else str "")

  -- The payload of a message of the type that a parser asks for.
  abbrev pub typed_payload : String → PeerMessage → Option Fields
  typed_payload type message =
      if trim message.type == type then some (payload_fields message.payload) else none

  unfoldable pub build_payload : Value → Value → Value → Value → Value → MessagePayload
  unfolding built_origin
  build_payload text id after origin origin_seq = record {
    id = or_text (trimmed_text rt id) (create_message_id rt (finite false (rt.now 0) 0));
    after = normalize_after_ids rt after;
    text = text_or_empty text;
    origin = built_origin origin;
    origin_seq = count_or_zero rt origin_seq;
  }

  unfoldable pub parse_message : PeerMessage → Option ChatEvent
  unfolding parsed_origin
  parse_message message = elim (typed_payload message_type message) [
    | none ↦ none
    | some payload ↦ some (record {
      id =
          or_text (trimmed_text rt (member "id" payload))
            (create_message_id rt (number_or_now 0 message.ts));
      after = normalize_after_ids rt (member "after" payload);
      text = text_or_empty (member "text" payload);
      ts = number_or_now 1 message.ts;
      from = message.from;
      origin = parsed_origin (member "origin" payload) message.from;
      origin_seq = count_or_zero rt (member "originSeq" payload);
    })
  ]

  -- The payload of a sync request, and of an acknowledgement.
  unfoldable pub build_ids_payload : Value → List String
  build_ids_payload message_ids = normalize_after_ids rt message_ids

  abbrev parse_ids : String → PeerMessage → Option IdsEvent
  parse_ids type message = elim (typed_payload type message) [
    | none ↦ none
    | some payload ↦ some (record {
      message_ids = normalize_after_ids rt (member "messageIds" payload);
      ts = number_or_now 0 message.ts;
      from = message.from;
    })
  ]

  unfoldable pub parse_ack : PeerMessage → Option IdsEvent
  parse_ack message = parse_ids ack_type message

  unfoldable pub parse_sync_request : PeerMessage → Option IdsEvent
  parse_sync_request message = parse_ids sync_request_type message

  unfoldable pub build_sync_state_payload : Value → Value → Value → SyncStatePayload
  build_sync_state_payload host_seq mobile_seq leaf_ids = record {
    host_seq = count_or_zero rt host_seq;
    mobile_seq = count_or_zero rt mobile_seq;
    leaf_ids = normalize_after_ids rt leaf_ids;
  }

  unfoldable pub parse_sync_state : PeerMessage → Option SyncStateEvent
  unfolding build_sync_state_payload
  parse_sync_state message = elim (typed_payload sync_state_type message) [
    | none ↦ none
    | some payload ↦ some (record {
      payload =
          build_sync_state_payload (member "hostSeq" payload) (member "mobileSeq" payload)
            (member "leafIds" payload);
      ts = number_or_now 0 message.ts;
      from = message.from;
    })
  ]

  unfoldable pub build_ping_payload : Value → Value → PingPayload
  build_ping_payload id sent_at =
      let at = count_or_now rt 0 sent_at in
      record { id = or_text (trimmed_text rt id) (create_probe_id rt (count_num at)); sent_at = at }

  unfoldable pub build_pong_payload : Value → Value → Value → PongPayload
  build_pong_payload id sent_at responded_at = record {
    id = trimmed_text rt id;
    sent_at = count_or_zero rt sent_at;
    responded_at = count_or_now rt 0 responded_at;
  }

  -- A ping or a pong without an id is refused.
  unfoldable pub parse_ping : PeerMessage → Option PingEvent
  parse_ping message = elim (typed_payload ping_type message) [
    | none ↦ none
    | some payload ↦
        if is_empty (trimmed_text rt (member "id" payload))
        then none
        else some (record {
          payload = record {
            id = trimmed_text rt (member "id" payload);
            sent_at = count_or_zero rt (member "sentAt" payload);
          };
          ts = number_or_now 0 message.ts;
          from = message.from;
        })
  ]

  unfoldable pub parse_pong : PeerMessage → Option PongEvent
  parse_pong message = elim (typed_payload pong_type message) [
    | none ↦ none
    | some payload ↦
        if is_empty (trimmed_text rt (member "id" payload))
        then none
        else some (record {
          payload = record {
            id = trimmed_text rt (member "id" payload);
            sent_at = count_or_zero rt (member "sentAt" payload);
            responded_at = count_or_zero rt (member "respondedAt" payload);
          };
          ts = number_or_now 0 message.ts;
          from = message.from;
        })
  ]
