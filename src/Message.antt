-- ===== src/Message.antt =====
-- packages/protocol/src/message.ts and the message types of packages/protocol/src/events.ts.
use Prim.Native.String.{String, ◌++◌}
use mathlib.Core.Path.{◌≡◌, refl}
use mathlib.Core.Bool.{false}
use mathlib.Core.Option.{Option, none, some}
use mathlib.Core.List.{List, [], ◌∷◌}
use text.Mathlib.Text.{◌==◌}
use openclawapp.Base.{if◌then◌else◌, is_empty, trim, lookup}
use openclawapp.Base.Values.{
  finite, Value, undefined, null, str, obj, Fields, end, field, Runtime, Result, ok, err, member,
  trimmed_string,
}
use openclawapp.Crdt.Ids.{IsId}
use openclawapp.Crdt.Envelope.{◌>>=◌, decode_object, object_or_empty, or_text}

pub data MessageType : Type 0 where
  pair_ready pair_claimed pair_revoked task_create task_accepted : MessageType
  task_progress task_result task_error ack heartbeat : MessageType

unfoldable pub type_text : MessageType → String
type_text pair_ready = "pair.ready"
type_text pair_claimed = "pair.claimed"
type_text pair_revoked = "pair.revoked"
type_text task_create = "task.create"
type_text task_accepted = "task.accepted"
type_text task_progress = "task.progress"
type_text task_result = "task.result"
type_text task_error = "task.error"
type_text ack = "ack"
type_text heartbeat = "heartbeat"

abbrev pub message_types : List MessageType
message_types =
    pair_ready ∷ pair_claimed ∷ pair_revoked ∷ task_create ∷ task_accepted ∷ task_progress
    ∷ task_result ∷ task_error ∷ ack ∷ heartbeat ∷ []

-- The listed type that a text spells: `VALID_MESSAGE_TYPES.has(type)`.
unfoldable pub find_type : String → List MessageType → Option MessageType
unfolding type_text
find_type s [] = none
find_type s (t ∷ ts) = if type_text t == s then some t else find_type s ts

pub record Envelope : Type 0 where
  pub message_id : String
  pub type : MessageType
  pub payload : Value
  pub session_id : Option String
  pub task_id : Option String
  pub device_id : Option String
  pub user_id : Option String
  pub target_device_id : Option String
  pub target_user_id : Option String
  pub timestamp : String

-- `asOptionalString`
unfoldable pub as_optional_string : Value → Option String
as_optional_string v = if is_empty (trimmed_string v) then none else some (trimmed_string v)

pub record CreateInput : Type 0 where
  pub message_id : Option String
  pub type : String
  pub payload : Value
  pub session_id : Option String
  pub task_id : Option String
  pub device_id : Option String
  pub user_id : Option String
  pub target_device_id : Option String
  pub target_user_id : Option String
  pub timestamp : Option String

-- `v ?? {}`
abbrev pub or_object : Value → Value
or_object undefined = obj end
or_object null = obj end
or_object v = v

-- `text || other`, for a text that may be missing
abbrev pub or_else_text : Option String → String → String
or_else_text none other = other
or_else_text (some s) other = or_text s other

module _ (rt : Runtime) where
  -- `createEnvelope`; the identifier that `generateMessageId` makes is the argument `made`.
  unfoldable pub create_envelope : String → CreateInput → Result Envelope
  unfolding find_type
  create_envelope made input = elim (find_type input.type message_types) [
    | none ↦ err ("Unsupported message type: " ++ input.type)
    | some t ↦ do
      now ← rt.iso_text (finite false (rt.now 0) 0)
      ok (record {
        message_id = or_else_text input.message_id made;
        type = t;
        payload = or_object input.payload;
        session_id = input.session_id;
        task_id = input.task_id;
        device_id = input.device_id;
        user_id = input.user_id;
        target_device_id = input.target_device_id;
        target_user_id = input.target_user_id;
        timestamp = or_else_text input.timestamp now;
      })
  ]

  unfoldable pub parse_typed : String → Fields → MessageType → Result Envelope
  unfolding as_optional_string
  parse_typed made candidate t = do
    let timestamp = as_optional_string (member "timestamp" candidate)
    at ← elim timestamp [ some s ↦ ok s | none ↦ rt.iso_text (finite false (rt.now 0) 0) ]
    ok (record {
      message_id = or_text (trimmed_string (member "message_id" candidate)) made;
      type = t;
      payload = object_or_empty (member "payload" candidate);
      session_id = as_optional_string (member "session_id" candidate);
      task_id = as_optional_string (member "task_id" candidate);
      device_id = as_optional_string (member "device_id" candidate);
      user_id = as_optional_string (member "user_id" candidate);
      target_device_id = as_optional_string (member "target_device_id" candidate);
      target_user_id = as_optional_string (member "target_user_id" candidate);
      timestamp = at;
    })

  unfoldable pub parse_envelope : String → Value → Result Envelope
  unfolding find_type parse_typed
  parse_envelope made raw = do
    candidate ← decode_object rt "Envelope must be a JSON object" raw
    let type = trimmed_string (member "type" candidate)
    if is_empty type
        then err "Envelope `type` is required"
        else elim (find_type type message_types) [
          | none ↦ err ("Unsupported envelope type: " ++ type)
          | some t ↦ parse_typed made candidate t
        ]

-- An optional text as the value that is sent.
abbrev pub optional_value : Option String → Value
optional_value none = null
optional_value (some s) = str s

abbrev pub envelope_fields : Envelope → Fields
envelope_fields e = field "message_id" (str e.message_id) (
    field "type" (str (type_text e.type)) (
      field "payload" e.payload (
        field "session_id" (optional_value e.session_id) (
          field "task_id" (optional_value e.task_id) (
            field "device_id" (optional_value e.device_id) (
              field "user_id" (optional_value e.user_id) (
                field "target_device_id" (optional_value e.target_device_id) (
                  field "target_user_id" (optional_value e.target_user_id)
                    (field "timestamp" (str e.timestamp) end)))))))))

-- An optional text that is trimmed and not empty, if it is there.
abbrev pub IsOptionalId : Option String → Type 0
IsOptionalId none = Unit {0}
IsOptionalId (some s) = IsId s

as_optional_string_back :
    (o : Option String) → IsOptionalId o → as_optional_string (optional_value o) ≡ o
unfolding as_optional_string trimmed_string
as_optional_string_back none h = refl
as_optional_string_back (some s) (t, n) = rw (t, n)

trimmed_string-IsId : (s : String) → IsId s → trimmed_string (str s) ≡ s
unfolding trimmed_string
trimmed_string-IsId s h = h.0

find-type_text : (t : MessageType) → find_type (type_text t) message_types ≡ some t
unfolding find_type
find-type_text pair_ready = refl
find-type_text _ = refl

trimmed_string-type_text : (t : MessageType) → trimmed_string (str (type_text t)) ≡ type_text t
unfolding trimmed_string type_text trim
trimmed_string-type_text pair_ready = refl
trimmed_string-type_text _ = refl

type_text-is_empty : (t : MessageType) → is_empty (type_text t) ≡ false
unfolding type_text
type_text-is_empty pair_ready = refl
type_text-is_empty _ = refl

object_or_empty_of_obj : (v : Value) (fs : Fields) → v ≡ obj fs → object_or_empty v ≡ v
unfolding object_or_empty
object_or_empty_of_obj v fs e = rw e

-- An envelope that is sent as an object is read back as it was: its id and time are normal, its
-- payload is an object, and each of its other texts is normal or missing.
pub parse-envelope_fields :
    (rt : Runtime) (made : String) (e : Envelope) (fs : Fields)
    → IsId e.message_id
    → e.payload ≡ obj fs
    → IsOptionalId e.session_id
    → IsOptionalId e.task_id
    → IsOptionalId e.device_id
    → IsOptionalId e.user_id
    → IsOptionalId e.target_device_id
    → IsOptionalId e.target_user_id
    → IsId e.timestamp
    → parse_envelope rt made (obj (envelope_fields e)) ≡ ok e
unfolding parse_envelope decode_object lookup
parse-envelope_fields rt made e fs i p a b c d f g t = simp (
  trimmed_string-type_text e.type,
  type_text-is_empty e.type,
  find-type_text e.type,
  trimmed_string-IsId _ i,
  i.1,
  object_or_empty_of_obj _ fs p,
  as_optional_string_back _ a,
  as_optional_string_back _ b,
  as_optional_string_back _ c,
  as_optional_string_back _ d,
  as_optional_string_back _ f,
  as_optional_string_back _ g,
  as_optional_string_back (some e.timestamp) t,
)
