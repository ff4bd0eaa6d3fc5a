-- ===== src/Tests/ChatTests.antt =====
-- Chat messages on sample values.
use Prim.Native.Nat.{ℕ, ◌<◌}
use mathlib.Core.Path.{◌≡◌, refl}
use mathlib.Core.Bool.{true, false, not, ◌&&◌}
use mathlib.Core.Option.{some}
use mathlib.Core.List.{List, [], ◌∷◌, map, Perm}
use mathlib.Core.Logic.{◌≢◌}
use native.Mathlib.Omega.{arith}
use openclawapp.Base.{set_of, All, contains, lookup, insert, trim, length}
use openclawapp.Base.Values.{
  undefined, null, finite, str, num, obj, whole, not_a_number, trimmed_text,
}
use openclawapp.Base.Occurrences.{In}
use openclawapp.Graph.Invariant.{All-In}
use openclawapp.Crdt.Ids.{IsId, texts}
use openclawapp.Graph.Permutation.{ParentsFirst}
use openclawapp.Graph.Results.{names}
use openclawapp.Chat.{mobile, host, message_type, normalize_after_ids}
use openclawapp.Chat.Timeline.{
  MessageLike, Node, normal_node, index_from, nodes_of, node_parents, analyze_messages,
}
use openclawapp.Chat.Timeline.Laws.{
  last_message, lookup-index, ordered_messages-perm, ordered_messages-ParentsFirst,
  contains-leaf_message_ids,
}
use openclawapp.Chat.Codec.{
  MessagePayload, SyncStatePayload, PongPayload, parse_message, number_or_now,
}
use openclawapp.Chat.Codec.RoundTrip.{message_fields, parse-message_fields}
use openclawapp.Tests.{sample}

abbrev hello : MessageLike
hello = record { id = str "m1"; after = undefined; ts = num (finite false 5 0); body = null }

abbrev reply : MessageLike
reply = record {
  id = str "m2";
  after = texts ("m1" ∷ []);
  ts = num (finite false 3 0);
  body = null;
}

abbrev chat : List MessageLike
chat = reply ∷ hello ∷ []

abbrev rank : Node → ℕ
rank n = length n.after

-- Each pair of the kept messages.
ranked_pairs :
    All
      (λ x.
        All
          (λ y. contains y.id (node_parents sample x) ≡ true → rank y < rank x)
          (nodes_of sample chat))
      (nodes_of sample chat)
unfolding nodes_of index_from normal_node insert trimmed_text trim node_parents normalize_after_ids
    contains set_of
ranked_pairs = (((λ h. cc), ((λ h. omega arith), tt)), (((λ h. cc), ((λ h. cc), tt)), tt))

ranked :
    (x y : Node)
    → In x (nodes_of sample chat)
    → In y (nodes_of sample chat)
    → contains y.id (node_parents sample x) ≡ true
    → rank y < rank x
ranked x y i j = All-In _ y _ (All-In _ x _ ranked_pairs i) j

ordered_messages-ParentsFirst_example :
    ParentsFirst
      (λ n. n.id)
      (node_parents sample)
      (nodes_of sample chat)
      []
      (analyze_messages sample chat).ordered
ordered_messages-ParentsFirst_example = ordered_messages-ParentsFirst sample chat rank ranked

ordered_messages-perm_example : Perm (analyze_messages sample chat).ordered (nodes_of sample chat)
ordered_messages-perm_example = ordered_messages-perm sample chat

lookup-index_example : lookup "m1" (index_from sample [] chat) ≡ last_message sample "m1" chat
lookup-index_example = lookup-index sample "m1" chat

contains-leaf_message_ids_example : contains "m2" (analyze_messages sample chat).leaf_ids ≡ (
    contains "m2" (map (λ n. n.id) (nodes_of sample chat))
    && not (names (node_parents sample) "m2" (nodes_of sample chat)))
contains-leaf_message_ids_example = contains-leaf_message_ids sample chat "m2"

abbrev sent : MessagePayload
sent = record { id = "m1"; after = "m0" ∷ []; text = " hi "; origin = host; origin_seq = whole 0 }

abbrev state : SyncStatePayload
state = record { host_seq = whole 4; mobile_seq = whole 0; leaf_ids = "m1" ∷ [] }

abbrev pong : PongPayload
pong = record { id = "p1"; sent_at = whole 3; responded_at = whole 4 }

id-IsId : IsId "m0" × IsId "m1" × IsId "p1"
unfolding trim
id-IsId = ((refl, refl), (refl, refl), (refl, refl))

whole-ne : (n : ℕ) → whole n ≢ not_a_number
whole-ne n e = cc

parse-message_fields_example :
    parse_message sample (record {
      type = message_type;
      payload = obj (message_fields sent);
      ts = undefined;
      from = mobile;
    })
    ≡ some (record {
      id = "m1";
      after = "m0" ∷ [];
      text = " hi ";
      ts = number_or_now sample 1 undefined;
      from = mobile;
      origin = host;
      origin_seq = whole 0;
    })
unfolding contains
parse-message_fields_example =
    parse-message_fields sample sent undefined mobile id-IsId.1 (refl, tt) (id-IsId.0, tt)
      (whole-ne 0)
