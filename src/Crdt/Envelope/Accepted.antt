-- ===== src/Crdt/Envelope/Accepted.antt =====
-- What an accepted op envelope satisfies, and which inputs are refused.
use Prim.Native.Nat.{ℕ}
use Prim.Native.String.{String}
use mathlib.Core.Path.{◌≡◌, refl, subst}
use mathlib.Core.Bool.{true, false}
use mathlib.Core.Logic.{inl, inr}
use mathlib.Core.Option.{Option, none, some}
use native.Mathlib.Omega.{arith}
use text.Mathlib.TextLemmas.{cons-append}
use openclawapp.Base.{Bool-cases, All, Distinct, is_empty, trim}
use openclawapp.Base.Values.{
  Num, Value, Fields, Result, ok, err, Runtime, positive, member, clamp, count_num,
}
use openclawapp.Crdt.Ids.{normalize_id, IsId, normalize_parents_lem, normalize_id-IsId}
use openclawapp.Crdt.Envelope.{
  OpKind, op_kinds, find_kind, OpEnvelope, OpInput, ◌>>=◌, check_input, op_hlc, op_record,
  create_op_envelope, op_input, parse_op_envelope, parse_candidate, parse_kinded, or_text,
  decode_object, create_op_id, input_signed_at,
}

-- What every accepted op has.
pub record IsAccepted (op : OpEnvelope) : Type 0 where
  pub op_id : is_empty op.op_id ≡ false
  pub conversation_id : IsId op.conversation_id
  pub author_device_id : IsId op.author_device_id
  pub author_entity_type : IsId op.author_entity_type
  pub author_seq : positive op.author_seq ≡ true
  pub parents : Distinct op.parents × All IsId op.parents
  pub signature : IsId op.signature

pub >>=-eq-ok :
    {Found Given : Type 0} (step : Result Found) (next : Found → Result Given) {result : Given}
    → (step >>= next) ≡ ok result
    → (found : Found) × (step ≡ ok found) × (next found ≡ ok result)
>>=-eq-ok (err message) next made = cc
>>=-eq-ok (ok found) next made = (found, refl, made)

or_text-IsId : (v : Value) (other : String) → IsId other → IsId (or_text (normalize_id v) other)
or_text-IsId v other h = elim (Bool-cases (is_empty (normalize_id v))) [
  | inl e ↦ rw e h
  | inr e ↦ rw e (normalize_id-IsId v e)
]

or_text-filled :
    (v : Value) (other : String)
    → is_empty other ≡ false
    → is_empty (or_text (normalize_id v) other) ≡ false
or_text-filled v other h = elim (Bool-cases (is_empty (normalize_id v))) [
  | inl e ↦ rw e h
  | inr e ↦ rw e e
]

desktop-IsId : IsId "desktop"
unfolding trim
desktop-IsId = (refl, refl)

module _ (rt : Runtime) where
  -- Each check of the constructor, for an input that passes them all.
  record IsChecked (input : OpInput) : Type 0 where
    conversation : is_empty (normalize_id input.conversation_id) ≡ false
    device : is_empty (normalize_id input.author_device_id) ≡ false
    seq : positive (clamp input.author_seq) ≡ true
    signature : is_empty (normalize_id input.signature) ≡ false

  check_input-IsChecked : (input : OpInput) → check_input rt input ≡ ok tt → IsChecked input
  unfolding check_input
  check_input-IsChecked input h = ground arith

  create_op_id-filled :
      (device : String) (seq at : Num) → is_empty (create_op_id rt device seq at) ≡ false
  unfolding create_op_id
  create_op_id-filled device seq at = rw cons-append refl

  -- Whatever the constructor accepts is well formed.
  pub create-IsAccepted :
      (i : ℕ) (input : OpInput) (op : OpEnvelope)
      → create_op_envelope rt i input ≡ ok op
      → IsAccepted op
  unfolding create_op_envelope
  create-IsAccepted i input op h =
      let (u, checked, h') =
        >>=-eq-ok (check_input rt input)
          (λ _. op_hlc rt i input >>= λ hlc. ok (op_record rt i input hlc)) h in
      let (hlc, _, made) =
        >>=-eq-ok (op_hlc rt i input) (λ hlc. ok (op_record rt i input hlc)) h' in
      let c = check_input-IsChecked input checked in
      let same : op_record rt i input hlc ≡ op = cc in
      subst IsAccepted same (record {
        op_id = or_text-filled input.op_id _ (
            create_op_id-filled (normalize_id input.author_device_id)
              (count_num (clamp input.author_seq)) (count_num (input_signed_at rt i input)));
        conversation_id = normalize_id-IsId input.conversation_id c.conversation;
        author_device_id = normalize_id-IsId input.author_device_id c.device;
        author_entity_type = or_text-IsId input.author_entity_type "desktop" desktop-IsId;
        author_seq = c.seq;
        parents = normalize_parents_lem input.parents;
        signature = normalize_id-IsId input.signature c.signature;
      })

  -- Whatever the parser accepts has an id that is not empty, a conversation, author device, entity
  -- type and signature that are not empty and without spaces around them, a number above 0, and
  -- distinct parents that are such texts too.
  pub parse-IsAccepted :
      (raw : Value) (op : OpEnvelope) → parse_op_envelope rt raw ≡ ok op → IsAccepted op
  unfolding parse_op_envelope parse_candidate
  parse-IsAccepted raw op h =
      let (fs, _, h') =
        >>=-eq-ok (decode_object rt "CRDT op must be a JSON object" raw) (parse_candidate rt) h in
      kinded fs (normalize_id (member "kind" fs))
        (find_kind (normalize_id (member "kind" fs)) op_kinds) h'
    where
      kinded :
          (fs : Fields) (s : String) (k : Option OpKind)
          → parse_kinded rt fs s k ≡ ok op
          → IsAccepted op
      kinded fs s none e = cc
      kinded fs s (some k) e = create-IsAccepted 1 (op_input rt k fs) op e
