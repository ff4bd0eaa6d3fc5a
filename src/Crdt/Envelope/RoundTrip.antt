-- ===== src/Crdt/Envelope/RoundTrip.antt =====
-- Valid op envelopes: what the constructor makes, and what the parser reads back.
use Prim.Native.Nat.{ℕ, zero, suc}
use Prim.Native.String.{String}
use mathlib.Core.Path.{◌≡◌, refl, ap, ◌∙◌}
use mathlib.Core.Bool.{true}
use mathlib.Core.Option.{some}
use openclawapp.Base.{All, Distinct, trim, lookup}
use openclawapp.Base.Values.{
  Value, num, str, obj, Fields, end, field, ok, Runtime, Count, whole, infinite, not_a_number,
  clamp, count_num, positive, member, count_or_now, count_or_zero,
}
use openclawapp.Crdt.Ids.{normalize_id, texts, IsId, normalize_parents_of_normal}
use openclawapp.Crdt.Envelope.{
  OpKind, conversation_create, kind_text, op_kinds, find_kind, OpEnvelope, OpInput, decode_object,
  create_op_envelope, op_input, parse_kinded, parse_candidate, parse_op_envelope, object_or_empty,
}

-- An op as the object that is sent.
abbrev pub op_fields : OpEnvelope → Fields
op_fields op = field "opId" (str op.op_id) (
    field "conversationId" (str op.conversation_id) (
      field "authorDeviceId" (str op.author_device_id) (
        field "authorEntityType" (str op.author_entity_type) (
          field "authorSeq" (num (count_num op.author_seq)) (
            field "hlc" (str op.hlc) (
              field "parents" (texts op.parents) (
                field "kind" (str (kind_text op.kind)) (
                  field "payload" op.payload (
                    field "signedAt" (num (count_num op.signed_at))
                      (field "signature" (str op.signature) end))))))))))

pub record IsValid (op : OpEnvelope) : Type 0 where
  pub op_id : IsId op.op_id
  pub conversation_id : IsId op.conversation_id
  pub author_device_id : IsId op.author_device_id
  pub author_entity_type : IsId op.author_entity_type
  pub author_seq : positive op.author_seq ≡ true
  pub hlc : IsId op.hlc
  pub parents : Distinct op.parents × All IsId op.parents
  pub payload : (fs : Fields) × (op.payload ≡ obj fs)
  pub signed_at : positive op.signed_at ≡ true
  pub signature : IsId op.signature

clamp-count_num : (c : Count) → clamp (count_num c) ≡ c
unfolding clamp
clamp-count_num not_a_number = refl
clamp-count_num infinite = refl
clamp-count_num (whole n) = refl

pub count_or_zero-positive :
    (rt : Runtime) (c : Count) → positive c ≡ true → count_or_zero rt (num (count_num c)) ≡ c
unfolding count_or_zero
count_or_zero-positive rt not_a_number h = cc
count_or_zero-positive rt infinite h = refl
count_or_zero-positive rt (whole zero) h = refl
count_or_zero-positive rt (whole (suc n)) h = refl

pub count_or_now-positive :
    (rt : Runtime) (i : ℕ) (c : Count)
    → positive c ≡ true
    → count_or_now rt i (num (count_num c)) ≡ c
unfolding count_or_now
count_or_now-positive rt i not_a_number h = cc
count_or_now-positive rt i infinite h = refl
count_or_now-positive rt i (whole zero) h = cc
count_or_now-positive rt i (whole (suc n)) h = refl

find-kind_text : (k : OpKind) → find_kind (kind_text k) op_kinds ≡ some k
unfolding find_kind
find-kind_text conversation_create = refl
find-kind_text _ = refl

normalize_id-kind_text : (k : OpKind) → normalize_id (str (kind_text k)) ≡ kind_text k
unfolding normalize_id kind_text trim
normalize_id-kind_text conversation_create = refl
normalize_id-kind_text _ = refl

pub normalize_id_of_IsId : (i : String) → IsId i → normalize_id (str i) ≡ i
unfolding normalize_id
normalize_id_of_IsId i h = h.0

object_or_empty-obj : (v : Value) (fs : Fields) → v ≡ obj fs → object_or_empty v ≡ v
unfolding object_or_empty
object_or_empty-obj v fs e = rw e

module _ (rt : Runtime) where
  -- What the constructor is given for a valid op.
  abbrev input_of : OpEnvelope → OpInput
  input_of op = record {
    op_id = str op.op_id;
    conversation_id = str op.conversation_id;
    author_device_id = str op.author_device_id;
    author_entity_type = str op.author_entity_type;
    author_seq = count_num op.author_seq;
    hlc = str op.hlc;
    parents = texts op.parents;
    kind = op.kind;
    payload = op.payload;
    signed_at = num (count_num op.signed_at);
    signature = str op.signature;
  }

  op_input-op_fields :
      (op : OpEnvelope) → IsValid op → op_input rt op.kind (op_fields op) ≡ input_of op
  unfolding op_input lookup
  op_input-op_fields op v = simp (
    normalize_id_of_IsId _ v.op_id,
    normalize_id_of_IsId _ v.conversation_id,
    normalize_id_of_IsId _ v.author_device_id,
    normalize_id_of_IsId _ v.author_entity_type,
    v.author_entity_type.1,
    count_or_zero-positive rt op.author_seq v.author_seq,
    normalize_id_of_IsId _ v.hlc,
    normalize_parents_of_normal _ v.parents.0 v.parents.1,
    count_or_now-positive rt 0 op.signed_at v.signed_at,
    normalize_id_of_IsId _ v.signature,
    object_or_empty-obj op.payload v.payload.0 v.payload.1,
  )

  create-input_of :
      (i : ℕ) (op : OpEnvelope) → IsValid op → create_op_envelope rt i (input_of op) ≡ ok op
  unfolding create_op_envelope
  create-input_of i op v = simp (
    normalize_id_of_IsId _ v.op_id,
    v.op_id.1,
    normalize_id_of_IsId _ v.conversation_id,
    v.conversation_id.1,
    normalize_id_of_IsId _ v.author_device_id,
    v.author_device_id.1,
    normalize_id_of_IsId _ v.author_entity_type,
    v.author_entity_type.1,
    clamp-count_num,
    v.author_seq,
    normalize_id_of_IsId _ v.hlc,
    v.hlc.1,
    normalize_id_of_IsId _ v.signature,
    v.signature.1,
    normalize_parents_of_normal _ v.parents.0 v.parents.1,
    count_or_now-positive rt i op.signed_at v.signed_at,
  )

  kind-op_fields :
      (op : OpEnvelope) → normalize_id (member "kind" (op_fields op)) ≡ kind_text op.kind
  unfolding lookup
  kind-op_fields op = normalize_id-kind_text op.kind

  parse_candidate-op_fields :
      (op : OpEnvelope) → IsValid op → parse_candidate rt (op_fields op) ≡ ok op
  unfolding parse_candidate
  parse_candidate-op_fields op v =
      ap (λ s. parse_kinded rt (op_fields op) s (find_kind s op_kinds)) (kind-op_fields op)
      ∙ ap (parse_kinded rt (op_fields op) (kind_text op.kind)) (find-kind_text op.kind)
      ∙ ap (create_op_envelope rt 1) (op_input-op_fields op v)
      ∙ create-input_of 1 op v

  -- A valid op that is sent as an object is read back as it was.
  pub parse-op_fields :
      (op : OpEnvelope) → IsValid op → parse_op_envelope rt (obj (op_fields op)) ≡ ok op
  unfolding parse_op_envelope decode_object
  parse-op_fields op v = parse_candidate-op_fields op v
