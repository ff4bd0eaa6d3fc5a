-- ===== src/Chat.antt =====
-- packages/message-sdk/src/openclaw-chat.ts: the chat messages of two paired devices.
pub mod Timeline
pub mod Codec
pub mod Revoke
use Prim.Native.String.{String, ◌++◌}
use mathlib.Core.Bool.{Bool, true, false, not}
use mathlib.Core.List.{List, [], ◌∷◌, map}
use openclawapp.Base.{if◌then◌else◌, keep, is_empty, set_of, contains}
use openclawapp.Base.Values.{
  Num, Value, undefined, null, bool, num, str, arr, obj, elems, Fields, end, Runtime, clamp,
  count_num, number_of, truthy, trimmed_text, finite,
}

abbrev pub message_type : String
message_type = "app.openclaw.chat.message"

abbrev pub ack_type : String
ack_type = "app.openclaw.chat.ack"

abbrev pub sync_request_type : String
sync_request_type = "app.openclaw.chat.sync-request"

abbrev pub sync_state_type : String
sync_state_type = "app.openclaw.chat.sync-state"

abbrev pub ping_type : String
ping_type = "app.openclaw.chat.ping"

abbrev pub pong_type : String
pong_type = "app.openclaw.chat.pong"

pub data EntityType : Type 0 where
  desktop mobile : EntityType

pub data Origin : Type 0 where
  host mobile_side : Origin

unfoldable pub origin_text : Origin → String
origin_text host = "host"
origin_text mobile_side = "mobile"

-- A message that the peer channel delivers.
pub record PeerMessage : Type 0 where
  pub type : String
  pub payload : Value
  pub ts : Value
  pub from : EntityType

-- `payload && typeof payload === 'object' ? payload : {}`; an array has none of the fields read.
abbrev pub payload_fields : Value → Fields
payload_fields (obj fs) = fs
payload_fields _ = end

module _ (rt : Runtime) where
  -- `source.map((value) => String(value || '').trim()).filter(Boolean)`
  abbrev pub trimmed_texts : List Value → List String
  trimmed_texts vs = keep (λ i. not (is_empty i)) (map (trimmed_text rt) vs)

  unfoldable pub normalize_after_ids : Value → List String
  normalize_after_ids (arr vs) = set_of (trimmed_texts (elems vs))
  normalize_after_ids _ = []

  -- The text that an array's own list gives; the argument is `capabilities?.supportedMessages`.
  abbrev supported_texts : Value → List String
  supported_texts (arr vs) = trimmed_texts (elems vs)
  supported_texts _ = []

  unfoldable pub supports_chat : Value → Bool
  supports_chat supported_messages = elim (supported_texts supported_messages) [
    | [] ↦ true
    | m ∷ ms ↦ contains message_type (m ∷ ms)
  ]

  unfoldable pub create_message_id : Num → String
  create_message_id ts =
      "chat_" ++ (rt.number_text (count_num (clamp ts)) ++ ("_" ++ rt.random_suffix))

  unfoldable pub create_probe_id : Num → String
  create_probe_id ts =
      "chatping_" ++ (rt.number_text (count_num (clamp ts)) ++ ("_" ++ rt.random_suffix))

  -- `Number(v || 0)`
  abbrev pub number_or_zero : Value → Num
  number_or_zero v = number_of rt (if truthy v then v else num (finite false 0 0))
