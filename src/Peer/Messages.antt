-- ===== src/Peer/Messages.antt =====
-- packages/pair-sdk/src/peer.ts: what a peer channel sends, and how it answers a message of its
-- data channel. Signing and verifying are the browser's: their answers are arguments.
use Prim.Native.String.{String, ◌++◌}
use mathlib.Core.Bool.{Bool, true, false, not, ◌&&◌, ◌||◌}
use mathlib.Core.Option.{Option, none, some}
use mathlib.Core.List.{List, [], ◌∷◌}
use openclawapp.Base.{if◌then◌else◌, is_empty, contains, set_of, trim}
use openclawapp.Base.Values.{
  finite, Value, num, str, arr, obj, elems, Fields, end, field, Runtime, Result, ok, member,
  trimmed_text, text_of, truthy,
}
use openclawapp.Crdt.Envelope.{or_text, ◌>>◌, require}
use openclawapp.Crdt.Wire.{array_or_empty}
use openclawapp.Chat.{EntityType, desktop, mobile, PeerMessage, trimmed_texts}
use openclawapp.Chat.Codec.{is_text, number_or_now}
use openclawapp.Peer.{
  Capabilities, Options, Channel, hello_type, capabilities_type, entity_text, trusted_remote_role,
  is_app_type, hello_text, is_open, is_ready,
}

-- What a message of the data channel makes `handleDataMessage` do first: nothing, throw, wait for
-- the verification of a text and a signature, keep capabilities, or deliver an app message.
pub data Reaction : Type 0 where
  ignored : Reaction
  refused : String → Reaction
  verify_hello : (text : String) (signature : Value) → Reaction
  learned : Capabilities → Reaction
  delivered : PeerMessage → Reaction

-- An object's members; an array has none of those that are read.
abbrev pub object_members : Value → Option Fields
object_members (obj fs) = some fs
object_members (arr vs) = some end
object_members _ = none

-- `v && typeof v === 'object' ? v : {}`
abbrev pub object_value : Value → Value
object_value (obj fs) = obj fs
object_value (arr vs) = arr vs
object_value _ = obj end

abbrev pub read_from : Value → EntityType → EntityType
read_from v other =
    if is_text v "desktop" then desktop else if is_text v "mobile" then mobile else other

-- What is sent once a hello is verified.
pub data Sent : Type 0 where
  hello : Sent
  capabilities : Capabilities → Sent

module _ (rt : Runtime) where
  -- `String(v || '').trim() || undefined`
  abbrev pub optional_text : Value → Option String
  optional_text v = if is_empty (trimmed_text rt v) then none else some (trimmed_text rt v)

  unfoldable pub normalize_capabilities : Fields → Capabilities
  normalize_capabilities value = record {
    protocol_version =
        or_text
          (trimmed_text rt (
            if truthy (member "protocolVersion" value)
            then member "protocolVersion" value
            else str "openclaw-pair-v2"))
          "openclaw-pair-v2";
    supported_messages = set_of (
        trimmed_texts rt (
          str hello_type
          ∷ str capabilities_type
          ∷ elems (array_or_empty (member "supportedMessages" value))));
    features = set_of (trimmed_texts rt (elems (array_or_empty (member "features" value))));
    app_id = optional_text (member "appId" value);
    app_version = optional_text (member "appVersion" value);
  }

  unfoldable pub supports_remote_message : Channel → String → Bool
  supports_remote_message c type =
      if is_empty (trim type) then false else elim c.remote_capabilities [
        | none ↦ true
        | some remote ↦ contains (trim type) remote.supported_messages
      ]

  -- `sendAppMessage`: the envelope that it sends.
  unfoldable pub send_app_message : Options → Channel → String → Value → Result Fields
  unfolding is_ready is_app_type supports_remote_message
  send_app_message options c type payload = do
    require (is_ready c) "peer channel is not ready"
    require (is_app_type (trim type)) "app message type must start with app."
    require (supports_remote_message c (trim type))
        ("peer does not advertise support for " ++ trim type)
    ok (
        field "type" (str (trim type)) (
          field "payload" (object_value payload) (
            field "ts" (num (finite false (rt.now 0) 0))
              (field "from" (str (entity_text options.role)) end))))

  -- The hello that `sendHello` sends.
  unfoldable pub hello_fields : Options → String → Value → Fields
  hello_fields options nonce signature = field "type" (str hello_type) (
      field "bindingId" (str options.binding_id) (
        field "entityType" (str (entity_text options.role)) (
          field "entityId" (str options.self_id) (
            field "publicKey" (str options.self_public_key)
              (field "nonce" (str nonce) (field "signature" signature end))))))

  -- The hello's fields are those of the trusted peer.
  unfoldable pub is_trusted_hello : Options → Fields → Bool
  is_trusted_hello options payload =
      is_text (member "bindingId" payload) options.binding_id
      && (is_text (member "entityType" payload) (entity_text (trusted_remote_role options.role))
          && (is_text (member "entityId" payload) options.trusted_peer_id
              && is_text (member "publicKey" payload) options.trusted_peer_public_key))

  unfoldable pub react_hello : Options → Fields → Reaction
  unfolding is_trusted_hello hello_text
  react_hello options payload =
      if is_trusted_hello options payload
      then verify_hello
          (hello_text options.binding_id (trusted_remote_role options.role) options.trusted_peer_id
            options.trusted_peer_public_key (text_of rt (member "nonce" payload)))
          (member "signature" payload)
      else refused "peer hello does not match trusted binding"

  unfoldable pub react_app : Options → Fields → Reaction
  unfolding is_app_type
  react_app options payload =
      if is_app_type (trimmed_text rt (member "type" payload))
      then delivered (record {
        type = trimmed_text rt (member "type" payload);
        payload = object_value (member "payload" payload);
        ts = num (number_or_now rt 0 (member "ts" payload));
        from = read_from (member "from" payload) (trusted_remote_role options.role);
      })
      else ignored

  -- `handleDataMessage` for an object, up to its first `await`.
  unfoldable pub react_object : Options → Channel → Fields → Reaction
  unfolding react_hello react_app normalize_capabilities
  react_object options c payload =
      if is_text (member "type" payload) hello_type
      then react_hello options payload
      else if not c.remote_verified
      then ignored
      else if is_text (member "type" payload) capabilities_type
      then learned (normalize_capabilities payload)
      else react_app options payload

  -- `handleDataMessage` after the JSON is parsed.
  unfoldable pub react : Options → Channel → Value → Reaction
  unfolding react_object
  react options c value = elim (object_members value) [
    | none ↦ ignored
    | some payload ↦ react_object options c payload
  ]

  -- `sendCapabilitiesIfReady`
  unfoldable pub send_capabilities : Options → Channel → Channel × List Sent
  unfolding normalize_capabilities
  send_capabilities options c =
      if not (is_open c.data_channel)
        || (not c.hello_sent || (not c.remote_verified || c.capabilities_sent))
      then (c, [])
      else (
        record c { capabilities_sent = true },
        capabilities (normalize_capabilities options.capabilities) ∷ [],
      )
