-- ===== src/Crdt/Wire/Batch.antt =====
-- The messages of the synchronisation protocol, sent as objects and read back.
use Prim.Native.Nat.{ℕ, zero, suc}
use Prim.Native.String.{String}
use mathlib.Core.Path.{◌≡◌, refl, ap, ◌∙◌, subst}
use mathlib.Core.Bool.{Bool, true, false, not}
use mathlib.Core.Option.{Option, none, some}
use mathlib.Core.List.{List, [], ◌∷◌, map}
use native.Mathlib.Omega.{arith}
use openclawapp.Base.{All, Distinct, is_empty, lookup}
use openclawapp.Base.Values.{
  Value, bool, num, str, arr, obj, Fields, end, field, Result, ok, err, Runtime, Count, whole,
  infinite, not_a_number, positive, count_num, member, elems, of_elems, number_of,
}
use openclawapp.Crdt.Ids.{IsId, normalize_id-IsId, texts, normalize_id, normalize_parents_of_normal}
use openclawapp.Crdt.Vectors.{vector_value}
use openclawapp.Crdt.Vectors.Laws.{normalize-IsNormal, IsNormal, IsNumeric}
use openclawapp.Crdt.Vectors.Merge.{normalize-vector_value}
use openclawapp.Crdt.Envelope.{OpEnvelope, require, decode_object, parse_op_envelope}
use openclawapp.Crdt.Envelope.RoundTrip.{
  IsValid, op_fields, parse-op_fields, normalize_id_of_IsId, count_or_now-positive,
}
use openclawapp.Crdt.Envelope.Accepted.{>>=-eq-ok, IsAccepted, parse-IsAccepted}
use openclawapp.Crdt.Wire.{
  SyncState, SyncRequest, SyncBatch, id_member, vector_member, now_member, push_parsed, read_limit,
  limit_value, create_sync_batch, parse_ops, parse_sync_state, parse_sync_request, parse_sync_batch,
  is_true, array_or_empty,
}

-- The messages as the objects that are sent.
abbrev pub state_fields : SyncState → Fields
state_fields m = field "conversationId" (str m.conversation_id) (
    field "versionVector" (vector_value m.version_vector)
      (field "frontier" (texts m.frontier) (field "ts" (num (count_num m.ts)) end)))

abbrev pub request_fields : SyncRequest → Fields
request_fields m = field "conversationId" (str m.conversation_id) (
    field "wantFrom" (vector_value m.want_from)
      (field "limit" (limit_value m.limit) (field "ts" (num (count_num m.ts)) end)))

abbrev pub batch_fields : SyncBatch → Fields
batch_fields m = field "conversationId" (str m.conversation_id) (
    field "baseVersionVector" (vector_value m.base_version_vector) (
      field "ops" (arr (of_elems (map (λ op. obj (op_fields op)) m.ops)))
        (field "hasMore" (bool m.has_more) (field "ts" (num (count_num m.ts)) end))))

-- A limit that the request's constructor gives.
abbrev pub IsLimit : Option Count → Type 0
IsLimit none = Unit {0}
IsLimit (some c) = positive c ≡ true

push_parsed-eq-ok :
    (p : Result OpEnvelope) (q : Result (List OpEnvelope)) {ops : List OpEnvelope}
    → push_parsed p q ≡ ok ops
    → (op : OpEnvelope) × (rest : List OpEnvelope) × (p ≡ ok op) × (q ≡ ok rest) × (op ∷ rest ≡ ops)
unfolding push_parsed
push_parsed-eq-ok (err e) q h = cc
push_parsed-eq-ok (ok op) (err e) h = cc
push_parsed-eq-ok (ok op) (ok rest) h = (op, rest, refl, refl, cc)

ok_inj : {A : Type 0} {a b : A} → ok a ≡ ok b → a ≡ b
ok_inj h = cc

not-true : (b : Bool) → not b ≡ true → b ≡ false
not-true false h = refl
not-true true h = cc

require-ok : (b : Bool) (message : String) (u : Unit {0}) → require b message ≡ ok u → b ≡ true
require-ok true message u h = refl
require-ok false message u h = cc

module _ (rt : Runtime) where
  read_limit-limit_value :
      (l : Option Count) → IsLimit l → read_limit (number_of rt) (limit_value l) ≡ l
  unfolding read_limit
  read_limit-limit_value none h = refl
  read_limit-limit_value (some not_a_number) h = cc
  read_limit-limit_value (some infinite) h = refl
  read_limit-limit_value (some (whole zero)) h = cc
  read_limit-limit_value (some (whole (suc n))) h = ap (λ k. some (whole k)) (omega arith)

  parse_ops-op_fields :
      (ops : List OpEnvelope)
      → All IsValid ops
      → parse_ops rt (elems (of_elems (map (λ op. obj (op_fields op)) ops))) ≡ ok ops
  unfolding parse_ops push_parsed
  parse_ops-op_fields [] h = refl
  parse_ops-op_fields (op ∷ ops) (v, h) =
      ap (λ p. push_parsed p (parse_ops rt (elems (of_elems (map (λ x. obj (op_fields x)) ops)))))
        (parse-op_fields rt op v)
      ∙ ap (push_parsed (ok op)) (parse_ops-op_fields ops h)

  -- A state that is sent as an object is read back as it was: its id, vector and frontier are
  -- normal, its vector has no NaN, and its time is above 0.
  pub parse-state_fields :
      (m : SyncState)
      → IsId m.conversation_id
      → IsNormal m.version_vector
      → IsNumeric m.version_vector
      → Distinct m.frontier
      → All IsId m.frontier
      → positive m.ts ≡ true
      → parse_sync_state rt (obj (state_fields m)) ≡ ok m
  unfolding parse_sync_state decode_object lookup
  parse-state_fields m c v n d f t = simp (
    normalize_id_of_IsId _ c,
    c.1,
    normalize-vector_value rt _ v n,
    normalize_parents_of_normal _ d f,
    count_or_now-positive rt 0 m.ts t,
    count_or_now-positive rt 1 m.ts t,
  )

  -- A request that is sent as an object is read back as it was: its id and vector are normal, the
  -- vector has no NaN, and its limit, if any, and its time are above 0.
  parse-request_fields :
      (m : SyncRequest)
      → IsId m.conversation_id
      → IsNormal m.want_from
      → IsNumeric m.want_from
      → IsLimit m.limit
      → positive m.ts ≡ true
      → parse_sync_request rt (obj (request_fields m)) ≡ ok m
  unfolding parse_sync_request decode_object lookup
  parse-request_fields m c v n l t = simp (
    normalize_id_of_IsId _ c,
    c.1,
    normalize-vector_value rt _ v n,
    read_limit-limit_value m.limit l,
    count_or_now-positive rt 0 m.ts t,
    count_or_now-positive rt 1 m.ts t,
  )

  -- A batch that is sent as an object is read back as it was: its id and vector are normal, the
  -- vector has no NaN, its ops are valid, and its time is above 0.
  pub parse-batch_fields :
      (m : SyncBatch)
      → IsId m.conversation_id
      → IsNormal m.base_version_vector
      → IsNumeric m.base_version_vector
      → All IsValid m.ops
      → positive m.ts ≡ true
      → parse_sync_batch rt (obj (batch_fields m)) ≡ ok m
  unfolding parse_sync_batch decode_object lookup
  parse-batch_fields m c v n o t = simp (
    normalize_id_of_IsId _ c,
    c.1,
    normalize-vector_value rt _ v n,
    parse_ops-op_fields m.ops o,
    count_or_now-positive rt 0 m.ts t,
    count_or_now-positive rt 1 m.ts t,
  )

  parse_ops-IsAccepted :
      (raws : List Value) (ops : List OpEnvelope) → parse_ops rt raws ≡ ok ops → All IsAccepted ops
  unfolding parse_ops
  parse_ops-IsAccepted [] ops h = let e : [] ≡ ops = cc in subst (All IsAccepted) e tt
  parse_ops-IsAccepted (raw ∷ raws) ops h =
      let (op, rest, p, q, e) =
        push_parsed-eq-ok (parse_op_envelope rt raw) (parse_ops rt raws) h in
      subst (All IsAccepted) e (parse-IsAccepted rt raw op p, parse_ops-IsAccepted raws rest q)

  create-batch-IsAccepted :
      (i : ℕ) (id vector : Value) (ops : List OpEnvelope) (more ts : Value) (m : SyncBatch)
      → create_sync_batch rt i id vector ops more ts ≡ ok m
      → IsId m.conversation_id × (ops ≡ m.ops) × IsNormal m.base_version_vector
  unfolding create_sync_batch
  create-batch-IsAccepted i id vector ops more ts m h =
      let (u, checked, h') =
        >>=-eq-ok (require (not (is_empty (normalize_id id))) "conversationId is required") _ h in
      let same = ok_inj h' in
      (
        subst (λ x. IsId x.conversation_id) same
            (normalize_id-IsId id
              (not-true _ (require-ok _ "conversationId is required" u checked))),
        ap (λ x. x.ops) same,
        subst (λ x. IsNormal x.base_version_vector) same (normalize-IsNormal rt vector),
      )

  -- Whatever batch is accepted, its conversation id is normal and not empty, each of its ops is
  -- accepted as well formed, and its version vector is normal.
  pub parse-batch-IsAccepted :
      (raw : Value) (m : SyncBatch)
      → parse_sync_batch rt raw ≡ ok m
      → IsId m.conversation_id × All IsAccepted m.ops × IsNormal m.base_version_vector
  unfolding parse_sync_batch
  parse-batch-IsAccepted raw m h =
      let (c, _, h') =
        >>=-eq-ok (decode_object rt "CRDT sync batch must be a JSON object" raw) _ h in
      let (ops, parsed, h'') =
        >>=-eq-ok (parse_ops rt (elems (array_or_empty (member "ops" c)))) _ h' in
      let (i, e, n) =
        create-batch-IsAccepted 1 (id_member rt c "conversationId")
          (vector_member rt c "baseVersionVector") ops (bool (is_true (member "hasMore" c)))
          (now_member rt c "ts") m h'' in
      (i, subst (All IsAccepted) e (parse_ops-IsAccepted _ ops parsed), n)
