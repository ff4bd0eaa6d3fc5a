-- ===== src/CrdtGraph/Messages.antt =====
-- `materializeCrdtMessages`: the messages that the ops of kind `message.create` make. `none` is the
-- TypeError of reading a member of a payload that is null or undefined.
pub mod Table
pub mod Ids
use Prim.Native.Nat.{Ordering}
use Prim.Native.String.{String}
use mathlib.Core.Bool.{Bool, true, false, not, ◌||◌}
use mathlib.Core.Option.{Option, none, some}
use mathlib.Core.List.{List, [], ◌∷◌, map}
use text.Mathlib.Text.{◌==◌}
use openclawapp.Base.{if◌then◌else◌, is_empty, contains, keys, insert, find, keep, sort}
use openclawapp.Base.Values.{
  Value, undefined, null, str, arr, obj, elems, Fields, end, Count, or_none, Runtime, member,
  optional_member,
}
use openclawapp.Crdt.Ids.{normalize_id}
use openclawapp.Crdt.Envelope.{OpEnvelope, OpKind, message_create}
use openclawapp.CrdtGraph.{op_parents, compare_ops, analyze_ops}

pub record Message : Type 0 where
  pub message_id : String
  pub op_id : String
  pub conversation_id : String
  pub author_device_id : String
  pub author_entity_type : String
  pub author_seq : Count
  pub hlc : String
  pub text : String
  pub parts : List Value
  pub client_nonce : Option String
  pub parents : List String
  pub signed_at : Count

-- The members of a value; other values than objects have none of those that are read.
abbrev pub members : Value → Option Fields
members undefined = none
members null = none
members (obj fs) = some fs
members _ = some end

-- `part && typeof part === "object"`
abbrev pub is_part : Value → Bool
is_part (arr vs) = true
is_part (obj fs) = true
is_part _ = false

abbrev pub text_member : Value → String
text_member (str s) = s
text_member _ = ""

abbrev pub parts_member : Value → List Value
parts_member (arr vs) = keep is_part (elems vs)
parts_member _ = []

abbrev pub is_message : OpKind → Bool
is_message message_create = true
is_message _ = false

unfoldable pub make_message : OpEnvelope → Fields → Message
make_message op payload = record {
  message_id = normalize_id (member "messageId" payload);
  op_id = op.op_id;
  conversation_id = op.conversation_id;
  author_device_id = op.author_device_id;
  author_entity_type = op.author_entity_type;
  author_seq = or_none op.author_seq;
  hlc = op.hlc;
  text = text_member (optional_member "text" (member "body" payload));
  parts = parts_member (optional_member "parts" (member "body" payload));
  client_nonce =
      if is_empty (normalize_id (member "clientNonce" payload))
      then none
      else some (normalize_id (member "clientNonce" payload));
  parents = op_parents op;
  signed_at = or_none op.signed_at;
}

-- The rest of one round: the first message of an id stays.
unfoldable pub add_message : List (String × Message) → OpEnvelope → Fields → List (String × Message)
unfolding make_message
add_message messages op payload =
    let id = normalize_id (member "messageId" payload) in
    if is_empty id || contains id (keys messages)
    then messages
    else insert id (make_message op payload) messages

unfoldable pub materialize_payload :
    List (String × Message) → OpEnvelope → Option Fields → Option (List (String × Message))
unfolding add_message
materialize_payload messages op none = none
materialize_payload messages op (some payload) = some (add_message messages op payload)

-- One round of the loop.
unfoldable pub materialize_op :
    List (String × Message) → OpEnvelope → Option (List (String × Message))
unfolding materialize_payload
materialize_op messages op =
    if not (is_message op.kind)
    then some messages
    else materialize_payload messages op (members op.payload)

unfoldable pub materialize_from :
    Option (List (String × Message)) → List OpEnvelope → Option (List (String × Message))
unfolding materialize_op
materialize_from none ops = none
materialize_from (some messages) [] = some messages
materialize_from (some messages) (op ∷ ops) = materialize_from (materialize_op messages op) ops

module _ (rt : Runtime) where
  unfoldable pub compare_made : List OpEnvelope → Message → Message → Ordering
  compare_made ordered left right = elim (find (λ op. op.op_id == left.op_id) ordered) [
    | none ↦ rt.locale_compare left.message_id right.message_id
    | some left_op ↦ elim (find (λ op. op.op_id == right.op_id) ordered) [
      | none ↦ rt.locale_compare left.message_id right.message_id
      | some right_op ↦ compare_ops rt left_op right_op
    ]
  ]

  unfoldable pub materialize_messages : List OpEnvelope → Option (List Message)
  unfolding materialize_from compare_made
  materialize_messages ops =
      let ordered = (analyze_ops rt ops).ordered_ops in
      elim (materialize_from (some []) ordered) [
        | none ↦ none
        | some messages ↦ some (sort (compare_made ordered) (map (λ e. e.1) messages))
      ]
