-- ===== src/Mobile/ChatGraph.antt =====
-- mobile/src/utils/chatGraph.ts: the messages of a session, normalised, described for a sync, put
-- in order, and extended by one.
pub mod Laws
pub mod Upsert
use Prim.Native.Nat.{ℕ, zero, suc, ◌+◌, compare, Ordering}
use Prim.Native.String.{String}
use mathlib.Core.Bool.{Bool, true, false, not, ◌&&◌, ◌||◌}
use mathlib.Core.Option.{Option, none, some}
use mathlib.Core.List.{List, [], ◌∷◌, ◌++◌, map}
use text.Mathlib.Text.{◌==◌}
use openclawapp.Base.{if◌then◌else◌, is_empty, trim, keep, contains, sort, lookup, insert}
use openclawapp.Base.Values.{
  Num, Value, undefined, null, num, str, arr, Count, positive, count_num, finite, Runtime, clamp,
}
use openclawapp.Crdt.Ids.{texts}
use openclawapp.CrdtGraph.Seqs.{add_seq, contiguous_entry}
use openclawapp.Chat.{Origin, host, mobile_side, normalize_after_ids, number_or_zero}
use openclawapp.Chat.Timeline.{MessageLike, Node, Timeline, analyze_messages, compare_num}
use openclawapp.Mobile.{
  ChatMessage, From, from_self, from_host, Kind, chat, system, DeliveryStatus, sending, sent,
  failed,
}

-- `message.kind === 'system'`
abbrev pub is_system : ChatMessage → Bool
is_system m = elim m.kind [ some system ↦ true | _ ↦ false ]

unfoldable pub normalize_origin : ChatMessage → Origin
normalize_origin m = elim m.origin [ some mobile_side ↦ mobile_side | _ ↦ host ]

abbrev delivery_of : From → Option DeliveryStatus → Option DeliveryStatus
delivery_of from_host status = none
delivery_of from_self (some sending) = some sending
delivery_of from_self (some failed) = some failed
delivery_of from_self _ = some sent

-- `v || ''`
abbrev or_no_text : Option String → String
or_no_text none = ""
or_no_text (some s) = s

abbrev failure_text : Option DeliveryStatus → Option String → String
failure_text (some failed) error = trim (or_no_text error)
failure_text _ error = ""

-- `v`, for a field that may be missing
abbrev pub optional_num : Option Num → Value
optional_num none = undefined
optional_num (some n) = num n

abbrev pub optional_texts : Option (List String) → Value
optional_texts none = undefined
optional_texts (some ts) = texts ts

abbrev pub same_origin : Origin → Origin → Bool
same_origin host host = true
same_origin mobile_side mobile_side = true
same_origin _ _ = false

pub record SessionState : Type 0 where
  pub host_seq : Count
  pub mobile_seq : Count
  pub leaf_ids : List String

pub record Reconciled : Type 0 where
  pub messages : List ChatMessage
  pub leaf_ids : List String
  pub missing_message_ids : List String

pub record Upserted : Type 0 where
  pub reconciled : Reconciled
  pub inserted : Bool
  pub newly_missing_message_ids : List String

module _ (rt : Runtime) where
  unfoldable pub normalize_message_ts : ChatMessage → Num
  normalize_message_ts m = number_or_zero rt (num m.ts)

  unfoldable pub normalize_origin_seq : ChatMessage → Count
  normalize_origin_seq m = clamp (number_or_zero rt (optional_num m.origin_seq))

  unfoldable pub normalize_chat_message : ChatMessage → ChatMessage
  unfolding normalize_message_ts normalize_origin normalize_origin_seq
  normalize_chat_message m =
      let of_system = is_system m in
      let status = if of_system then none else delivery_of m.from m.delivery_status in
      record {
        id = trim m.id;
        from = m.from;
        text = m.text;
        created_at = m.created_at;
        ts = normalize_message_ts m;
        kind = some (if of_system then system else chat);
        origin = if of_system then none else some (normalize_origin m);
        origin_seq = if of_system then none else some (count_num (normalize_origin_seq m));
        after = some (if of_system then [] else normalize_after_ids rt (optional_texts m.after));
        missing_after =
            some
              (if of_system then [] else normalize_after_ids rt (optional_texts m.missing_after));
        delivery_status = status;
        delivery_error = some (failure_text status m.delivery_error);
      }

  unfoldable pub extract_chat_messages : List ChatMessage → List ChatMessage
  unfolding normalize_chat_message
  extract_chat_messages ms =
      keep (λ m. not (is_system m) && not (is_empty m.id)) (map normalize_chat_message ms)

  -- What the analysis reads of a message.
  abbrev pub as_like : ChatMessage → MessageLike
  as_like m = record {
    id = str m.id;
    after = texts (elim m.after [ none ↦ [] | some ids ↦ ids ]);
    ts = num m.ts;
    body = null;
  }

  unfoldable pub collect_session_leaf_ids : List ChatMessage → List String
  unfolding extract_chat_messages
  collect_session_leaf_ids ms =
      (analyze_messages rt (map as_like (extract_chat_messages ms))).leaf_ids

  -- The set of `byOrigin` for one side: its numbers above 0.
  unfoldable pub seqs_of_origin : Origin → List Count → List ChatMessage → List Count
  unfolding normalize_origin normalize_origin_seq
  seqs_of_origin side seqs [] = seqs
  seqs_of_origin side seqs (m ∷ ms) =
      seqs_of_origin side
        (if same_origin side (normalize_origin m) && positive (normalize_origin_seq m)
          then add_seq seqs (normalize_origin_seq m)
          else seqs)
        ms

  unfoldable pub describe_session_chat_state : List ChatMessage → SessionState
  unfolding extract_chat_messages seqs_of_origin
  describe_session_chat_state ms =
      let kept = extract_chat_messages ms in
      record {
        host_seq = contiguous_entry (seqs_of_origin host [] kept);
        mobile_seq = contiguous_entry (seqs_of_origin mobile_side [] kept);
        leaf_ids = (analyze_messages rt (map as_like kept)).leaf_ids;
      }

  -- `compareFallbackOrder`
  unfoldable pub compare_fallback : ChatMessage → ChatMessage → Ordering
  unfolding normalize_message_ts
  compare_fallback left right =
      elim (compare_num (normalize_message_ts left) (normalize_message_ts right)) [
        | Ordering.eq ↦ rt.locale_compare left.id right.id
        | other ↦ other
      ]

  -- The normalised messages of one kind by their ids, the last one of an id in the first one's place.
  unfoldable pub table_of :
      Bool → List (String × ChatMessage) → List ChatMessage → List (String × ChatMessage)
  unfolding normalize_chat_message
  table_of systems table [] = table
  table_of systems table (m ∷ ms) =
      let next = normalize_chat_message m in
      table_of systems
        (if is_empty next.id
          then table
          else if is_system next
          then (if systems then insert next.id next table else table)
          else if systems
          then table
          else insert next.id next table)
        ms

  -- A message of the ordered graph, with the parents that it misses.
  abbrev pub settle : List String → ChatMessage → ChatMessage
  settle missing m =
      let ids = normalize_after_ids rt (optional_texts m.after) in
      record m { after = some ids; missing_after = some (keep (λ i. contains i missing) ids) }

  -- `analysis.ordered.map(…)`
  unfoldable pub ordered_messages :
      List String → List (String × ChatMessage) → List Node → List ChatMessage
  ordered_messages missing table [] = []
  ordered_messages missing table (n ∷ ns) =
      let rest = ordered_messages missing table ns in
      elim (lookup n.id table) [ none ↦ rest | some m ↦ settle missing m ∷ rest ]

  -- `new Map(messages.map((message, index) => [message.id, index]))`
  unfoldable pub index_messages : ℕ → List (String × ℕ) → List ChatMessage → List (String × ℕ)
  index_messages n table [] = table
  index_messages n table (m ∷ ms) = index_messages (n + 1) (insert m.id n table) ms

  -- The comparison of two messages of a session; the graph orders those that it has both.
  unfoldable pub compare_in_session : List (String × ℕ) → ChatMessage → ChatMessage → Ordering
  unfolding compare_fallback
  compare_in_session order left right = elim (lookup left.id order) [
    | none ↦ compare_fallback left right
    | some i ↦ elim (lookup right.id order) [
      | none ↦ compare_fallback left right
      | some j ↦ compare i j
    ]
  ]

  -- The comparison need not be transitive when there are system messages; `sort` then stands for
  -- one of the orders that the engine may give.
  unfoldable pub reconcile_session_messages : List ChatMessage → Reconciled
  unfolding table_of ordered_messages index_messages compare_in_session
  reconcile_session_messages ms =
      let systems = map (λ e. e.1) (table_of true [] ms) in
      let chats = table_of false [] ms in
      let analysis = analyze_messages rt (map (λ e. as_like e.1) chats) in
      let ordered = ordered_messages analysis.missing_ids chats analysis.ordered in
      record {
        messages = sort (compare_in_session (index_messages 0 [] ordered)) (systems ++ ordered);
        leaf_ids = analysis.leaf_ids;
        missing_message_ids = analysis.missing_ids;
      }

  -- `messages.some((message) => String(message?.id || '').trim() === id)`
  unfoldable pub has_message : String → List ChatMessage → Bool
  has_message id [] = false
  has_message id (m ∷ ms) = trim m.id == id || has_message id ms

  unfoldable pub upsert_session_message : List ChatMessage → ChatMessage → Upserted
  unfolding normalize_chat_message reconcile_session_messages has_message
  upsert_session_message current next =
      let incoming = normalize_chat_message next in
      let previous = reconcile_session_messages current in
      let next_messages = keep (λ m. not (trim m.id == incoming.id)) current ++ (incoming ∷ []) in
      let reconciled = reconcile_session_messages next_messages in
      record {
        reconciled = reconciled;
        inserted = not (has_message incoming.id current);
        newly_missing_message_ids =
            keep (λ i. not (contains i previous.missing_message_ids))
              reconciled.missing_message_ids;
      }
