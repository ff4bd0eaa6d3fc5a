-- ===== src/Crdt/Wire.antt =====
-- The messages of the synchronisation protocol of packages/protocol/src/crdt.ts: their
-- constructors and their parsers. A missing field is `undefined`.
pub mod Batch
use Prim.Native.Nat.{ℕ, max}
use Prim.Native.String.{String, ◌++◌}
use mathlib.Core.Bool.{Bool, true, false, not}
use mathlib.Core.Option.{Option, none, some}
use mathlib.Core.List.{List, [], ◌∷◌}
use openclawapp.Base.{if◌then◌else◌, is_empty}
use openclawapp.Base.Values.{
  Num, nan, infinity, finite, Value, undefined, null, bool, num, str, arr, obj, Elems, nil, cons,
  elems, Fields, Result, ok, err, Runtime, Count, not_a_number, infinite, whole, clamp, count_num,
  number_of, member, count_or_now, count_or_zero,
}
use openclawapp.Crdt.Ids.{normalize_id, normalize_parents, texts}
use openclawapp.Crdt.Vectors.{VersionVector, normalize_version_vector, vector_value}
use openclawapp.Crdt.Envelope.{
  OpEnvelope, ◌>>=◌, ◌>>◌, require, or_text, decode_object, parse_op_envelope,
}

pub record ConversationSummary : Type 0 where
  pub conversation_id : String
  pub version_vector : VersionVector
  pub frontier : List String

pub record SyncState : Type 0 where
  pub conversation_id : String
  pub version_vector : VersionVector
  pub frontier : List String
  pub ts : Count

pub record SyncRequest : Type 0 where
  pub conversation_id : String
  pub want_from : VersionVector
  pub limit : Option Count
  pub ts : Count

pub record SyncBatch : Type 0 where
  pub conversation_id : String
  pub base_version_vector : VersionVector
  pub ops : List OpEnvelope
  pub has_more : Bool
  pub ts : Count

pub record Ping : Type 0 where
  pub id : String
  pub sent_at : Count

pub record Pong : Type 0 where
  pub id : String
  pub sent_at : Count
  pub responded_at : Count

-- `Math.max(1, Math.trunc(x))`
unfoldable pub at_least_one : Num → Count
at_least_one nan = not_a_number
at_least_one (infinity false) = infinite
at_least_one (infinity true) = whole 1
at_least_one (finite false w f) = whole (max 1 w)
at_least_one (finite true w f) = whole 1

-- `limit == null ? undefined : …`, for the limit as a value
unfoldable pub read_limit : (Value → Num) → Value → Option Count
unfolding at_least_one
read_limit number undefined = none
read_limit number null = none
read_limit number v = some (at_least_one (number v))

-- A limit as the value that it is sent as.
abbrev pub limit_value : Option Count → Value
limit_value none = undefined
limit_value (some c) = num (count_num c)

-- `v === true`
abbrev pub is_true : Value → Bool
is_true (bool b) = b
is_true _ = false

-- `Array.isArray(v) ? v : []`
abbrev pub array_or_empty : Value → Elems
array_or_empty (arr vs) = vs
array_or_empty _ = nil

-- One round of the loop of `parseCrdtSyncBatch`, and what the rounds after it give.
unfoldable pub push_parsed : Result OpEnvelope → Result (List OpEnvelope) → Result (List OpEnvelope)
push_parsed (err e) rest = err ("Invalid CRDT op in sync batch: " ++ e)
push_parsed (ok op) (err e) = err e
push_parsed (ok op) (ok ops) = ok (op ∷ ops)

module _ (rt : Runtime) where
  unfoldable pub create_summary : Value → Value → Value → Result ConversationSummary
  create_summary conversation_id version_vector frontier = do
    require (not (is_empty (normalize_id conversation_id))) "conversationId is required"
    ok (record {
      conversation_id = normalize_id conversation_id;
      version_vector = normalize_version_vector rt version_vector;
      frontier = normalize_parents frontier;
    })

  -- The number is which reading of the clock the constructor makes.
  unfoldable pub create_sync_state : ℕ → Value → Value → Value → Value → Result SyncState
  create_sync_state i conversation_id version_vector frontier ts = do
    require (not (is_empty (normalize_id conversation_id))) "conversationId is required"
    ok (record {
      conversation_id = normalize_id conversation_id;
      version_vector = normalize_version_vector rt version_vector;
      frontier = normalize_parents frontier;
      ts = count_or_now rt i ts;
    })

  unfoldable pub create_sync_request : ℕ → Value → Value → Value → Value → Result SyncRequest
  create_sync_request i conversation_id want_from limit ts = do
    require (not (is_empty (normalize_id conversation_id))) "conversationId is required"
    ok (record {
      conversation_id = normalize_id conversation_id;
      want_from = normalize_version_vector rt want_from;
      limit = read_limit (number_of rt) limit;
      ts = count_or_now rt i ts;
    })

  unfoldable pub create_sync_batch :
      ℕ → Value → Value → List OpEnvelope → Value → Value → Result SyncBatch
  create_sync_batch i conversation_id base_version_vector ops has_more ts = do
    require (not (is_empty (normalize_id conversation_id))) "conversationId is required"
    ok (record {
      conversation_id = normalize_id conversation_id;
      base_version_vector = normalize_version_vector rt base_version_vector;
      ops = ops;
      has_more = is_true has_more;
      ts = count_or_now rt i ts;
    })

  unfoldable pub create_ping : ℕ → Value → Value → Ping
  create_ping i id sent_at =
      let at = count_or_now rt i sent_at in
      record {
        id =
            or_text (normalize_id id)
              ("ping_" ++ (rt.number_text (count_num at) ++ ("_" ++ rt.random_suffix)));
        sent_at = at;
      }

  unfoldable pub create_pong : ℕ → Value → Value → Value → Result Pong
  create_pong i id sent_at responded_at = do
    require (not (is_empty (normalize_id id))) "id is required"
    ok (record {
      id = normalize_id id;
      sent_at = count_or_zero rt sent_at;
      responded_at = count_or_now rt i responded_at;
    })

  -- What a parser hands on: each of these fields is normalised once before the constructor
  -- normalises it again.
  module _ (candidate : Fields) where
    abbrev pub id_member : String → Value
    id_member k = str (normalize_id (member k candidate))

    abbrev pub vector_member : String → Value
    vector_member k = vector_value (normalize_version_vector rt (member k candidate))

    abbrev pub now_member : String → Value
    now_member k = num (count_num (count_or_now rt 0 (member k candidate)))

    abbrev pub frontier_member : Value
    frontier_member = texts (normalize_parents (member "frontier" candidate))

  unfoldable pub parse_sync_state : Value → Result SyncState
  unfolding create_sync_state
  parse_sync_state raw = do
    c ← decode_object rt "CRDT sync state must be a JSON object" raw
    create_sync_state 1 (id_member c "conversationId") (vector_member c "versionVector")
        (frontier_member c) (now_member c "ts")

  unfoldable pub parse_sync_request : Value → Result SyncRequest
  unfolding create_sync_request
  parse_sync_request raw = do
    c ← decode_object rt "CRDT sync request must be a JSON object" raw
    create_sync_request 1 (id_member c "conversationId") (vector_member c "wantFrom")
        (limit_value (read_limit (number_of rt) (member "limit" c))) (now_member c "ts")

  -- The loop of `parseCrdtSyncBatch`: the first op that is refused ends it.
  unfoldable pub parse_ops : List Value → Result (List OpEnvelope)
  unfolding push_parsed
  parse_ops [] = ok []
  parse_ops (raw ∷ raws) = push_parsed (parse_op_envelope rt raw) (parse_ops raws)

  unfoldable pub parse_sync_batch : Value → Result SyncBatch
  unfolding create_sync_batch parse_ops
  parse_sync_batch raw = do
    c ← decode_object rt "CRDT sync batch must be a JSON object" raw
    ops ← parse_ops (elems (array_or_empty (member "ops" c)))
    create_sync_batch 1 (id_member c "conversationId") (vector_member c "baseVersionVector") ops
        (bool (is_true (member "hasMore" c))) (now_member c "ts")

  unfoldable pub parse_ping : Value → Result Ping
  unfolding create_ping
  parse_ping raw = do
    c ← decode_object rt "CRDT ping must be a JSON object" raw
    ok (create_ping 1 (id_member c "id") (now_member c "sentAt"))

  unfoldable pub parse_pong : Value → Result Pong
  unfolding create_pong
  parse_pong raw = do
    c ← decode_object rt "CRDT pong must be a JSON object" raw
    create_pong 1 (id_member c "id") (num (count_num (count_or_zero rt (member "sentAt" c))))
        (now_member c "respondedAt")
