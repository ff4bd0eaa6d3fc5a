-- ===== src/Crdt/Envelope.antt =====
-- The op envelope of packages/protocol/src/crdt.ts: its kinds, its constructor and its parser.
-- A thrown `Error` is `err` with the message. The clock is read anew at each `Date.now()`.
pub mod RoundTrip
pub mod Accepted
use Prim.Native.Nat.{ℕ, zero, suc, ◌-◌}
use Prim.Native.String.{String, count, ◌++◌}
use mathlib.Core.Bool.{Bool, true, false, not}
use mathlib.Core.Option.{Option, none, some}
use mathlib.Core.List
use mathlib.Core.List.{List}
use text.Mathlib.Text.{◌==◌}
use openclawapp.Base.{if◌then◌else◌, is_empty}
use openclawapp.Base.Values.{
  Num, Value, undefined, null, bool, num, str, arr, obj, Fields, Result, ok, err, Runtime, Count,
  clamp, count_num, positive, member, count_or_now, count_or_zero,
}
use openclawapp.Crdt.Ids.{normalize_id, normalize_parents, texts}

pub data OpKind : Type 0 where
  conversation_create member_add member_remove device_trust_add device_trust_remove : OpKind
  channel_revoke message_create message_edit message_delete : OpKind
  reaction_add reaction_remove read_cursor : OpKind

unfoldable pub kind_text : OpKind → String
kind_text conversation_create = "conversation.create"
kind_text member_add = "member.add"
kind_text member_remove = "member.remove"
kind_text device_trust_add = "device.trust.add"
kind_text device_trust_remove = "device.trust.remove"
kind_text channel_revoke = "channel.revoke"
kind_text message_create = "message.create"
kind_text message_edit = "message.edit"
kind_text message_delete = "message.delete"
kind_text reaction_add = "reaction.add"
kind_text reaction_remove = "reaction.remove"
kind_text read_cursor = "read.cursor"

-- `Object.values(CRDT_OP_KINDS)`
abbrev pub op_kinds : List OpKind
op_kinds = List.◌∷◌ conversation_create (
    List.◌∷◌ member_add (
      List.◌∷◌ member_remove (
        List.◌∷◌ device_trust_add (
          List.◌∷◌ device_trust_remove (
            List.◌∷◌ channel_revoke (
              List.◌∷◌ message_create (
                List.◌∷◌ message_edit (
                  List.◌∷◌ message_delete (
                    List.◌∷◌ reaction_add
                      (List.◌∷◌ reaction_remove (List.◌∷◌ read_cursor List.[])))))))))))

-- The listed kind that a text spells: `Object.values(CRDT_OP_KINDS).includes(kind)`.
unfoldable pub find_kind : String → List OpKind → Option OpKind
unfolding kind_text
find_kind s List.[] = none
find_kind s (List.◌∷◌ k ks) = if kind_text k == s then some k else find_kind s ks

-- `text || other`
abbrev pub or_text : String → String → String
or_text s other = if is_empty s then other else s

pub record OpEnvelope : Type 0 where
  pub op_id : String
  pub conversation_id : String
  pub author_device_id : String
  pub author_entity_type : String
  pub author_seq : Count
  pub hlc : String
  pub parents : List String
  pub kind : OpKind
  pub payload : Value
  pub signed_at : Count
  pub signature : String

pub record OpInput : Type 0 where
  pub op_id : Value
  pub conversation_id : Value
  pub author_device_id : Value
  pub author_entity_type : Value
  pub author_seq : Num
  pub hlc : Value
  pub parents : Value
  pub kind : OpKind
  pub payload : Value
  pub signed_at : Value
  pub signature : Value

infixl 5 ◌>>=◌ ◌>>◌
abbrev pub ◌>>=◌ {ℓ κ} :
    {Found : Type ℓ} {Given : Type κ} → Result Found → (Found → Result Given) → Result Given
ok found >>= next = next found
err message >>= next = err message

abbrev pub ◌>>◌ {κ} : {Given : Type κ} → Result (Unit {0}) → Result Given → Result Given
first >> next = first >>= λ _. next

-- `if (!test) throw new Error(message)`
abbrev pub require : Bool → String → Result (Unit {0})
require true message = ok tt
require false message = err message

-- `text.padStart(n, "0")`
unfoldable pub zeros : ℕ → String
zeros zero = ""
zeros (suc n) = "0" ++ zeros n

abbrev pub pad_start : ℕ → String → String
pad_start n s = zeros (n - count s) ++ s

-- `typeof v === "object" && !Array.isArray(v)`, for a truthy `v`
abbrev pub as_object : Value → Option Fields
as_object (obj fs) = some fs
as_object _ = none

-- `v && typeof v === "object" && !Array.isArray(v) ? v : {}`
unfoldable pub object_or_empty : Value → Value
object_or_empty (obj fs) = obj fs
object_or_empty _ = obj Fields.end

module _ (rt : Runtime) where
  -- The first lines of every parser: a text is parsed as JSON, and the value must be an object.
  unfoldable pub decode_object : String → Value → Result Fields
  decode_object message raw = do
    value ← elim raw [
      | str s ↦ elim (rt.json_parse s) [ ok v ↦ ok v | err e ↦ err ("Invalid JSON payload: " ++ e) ]
      | other ↦ ok other
    ]
    elim (as_object value) [ none ↦ err message | some fs ↦ ok fs ]

  unfoldable pub build_hlc : String → Num → Num → Result String
  build_hlc author_device_id author_seq at_ms = do
    let device = or_text (normalize_id (str author_device_id)) "unknown-device"
    let seq = clamp author_seq
    iso ← rt.iso_text at_ms
    ok (iso ++ ("#" ++ (device ++ ("#" ++ pad_start 12 (rt.number_text (count_num seq))))))

  unfoldable pub create_op_id : String → Num → Num → String
  create_op_id author_device_id author_seq at_ms =
      let device = or_text (normalize_id (str author_device_id)) "unknown-device" in
      let seq = clamp author_seq in
      "op_"
      ++ (device
          ++ ("_"
              ++ (rt.number_text (count_num seq)
                  ++ ("_"
                      ++ (rt.number_text (count_num (clamp at_ms)) ++ ("_" ++ rt.random_suffix))))))

  -- The four checks of `createCrdtOpEnvelope`, in their order.
  unfoldable pub check_input : OpInput → Result (Unit {0})
  check_input input = do
    require (not (is_empty (normalize_id input.conversation_id))) "conversationId is required"
    require (not (is_empty (normalize_id input.author_device_id))) "authorDeviceId is required"
    require (positive (clamp input.author_seq)) "authorSeq must be greater than 0"
    require (not (is_empty (normalize_id input.signature))) "signature is required"

  -- `createCrdtOpEnvelope`, whose clock reading is the `i`-th one: its local constants, the clock
  -- of the op, and the object that it returns.
  module _ (i : ℕ) (input : OpInput) where
    abbrev pub input_device : String
    input_device = normalize_id input.author_device_id

    abbrev pub input_seq : Count
    input_seq = clamp input.author_seq

    abbrev pub input_signed_at : Count
    input_signed_at = count_or_now rt i input.signed_at

    unfoldable pub op_hlc : Result String
    op_hlc =
        if is_empty (normalize_id input.hlc)
        then build_hlc input_device (count_num input_seq) (count_num input_signed_at)
        else ok (normalize_id input.hlc)

    abbrev pub op_record : String → OpEnvelope
    op_record hlc = record {
      op_id =
          or_text (normalize_id input.op_id)
            (create_op_id input_device (count_num input_seq) (count_num input_signed_at));
      conversation_id = normalize_id input.conversation_id;
      author_device_id = input_device;
      author_entity_type = or_text (normalize_id input.author_entity_type) "desktop";
      author_seq = input_seq;
      hlc = hlc;
      parents = normalize_parents input.parents;
      kind = input.kind;
      payload = input.payload;
      signed_at = input_signed_at;
      signature = normalize_id input.signature;
    }

    unfoldable pub create_op_envelope : Result OpEnvelope
    unfolding check_input op_hlc
    create_op_envelope = do check_input input; hlc ← op_hlc; ok (op_record hlc)

  -- What `parseCrdtOpEnvelope` hands to the constructor.
  unfoldable pub op_input : OpKind → Fields → OpInput
  op_input kind candidate = record {
    op_id = str (normalize_id (member "opId" candidate));
    conversation_id = str (normalize_id (member "conversationId" candidate));
    author_device_id = str (normalize_id (member "authorDeviceId" candidate));
    author_entity_type =
        str (or_text (normalize_id (member "authorEntityType" candidate)) "desktop");
    author_seq = count_num (count_or_zero rt (member "authorSeq" candidate));
    hlc = str (normalize_id (member "hlc" candidate));
    parents = texts (normalize_parents (member "parents" candidate));
    kind = kind;
    payload = object_or_empty (member "payload" candidate);
    signed_at = num (count_num (count_or_now rt 0 (member "signedAt" candidate)));
    signature = str (normalize_id (member "signature" candidate));
  }

  -- The rest of the parser, once it is known which kind the text spells.
  unfoldable pub parse_kinded : Fields → String → Option OpKind → Result OpEnvelope
  parse_kinded candidate kind none = err ("Unsupported CRDT op kind: " ++ or_text kind "<empty>")
  parse_kinded candidate kind (some k) = create_op_envelope 1 (op_input k candidate)

  unfoldable pub parse_candidate : Fields → Result OpEnvelope
  unfolding parse_kinded
  parse_candidate candidate =
      let kind = normalize_id (member "kind" candidate) in
      parse_kinded candidate kind (find_kind kind op_kinds)

  unfoldable pub parse_op_envelope : Value → Result OpEnvelope
  unfolding parse_candidate
  parse_op_envelope raw = do
    candidate ← decode_object "CRDT op must be a JSON object" raw
    parse_candidate candidate

-- What an evaluation of these computes with.
unfoldable pub runs : Unit {0}
unfolding decode_object build_hlc create_op_id create_op_envelope op_input parse_op_envelope
    find_kind kind_text zeros normalize_id normalize_parents count_or_now count_or_zero
    object_or_empty
runs = tt
