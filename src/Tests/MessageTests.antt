-- ===== src/Tests/MessageTests.antt =====
-- The messages that a sample history makes.
use Prim.Native.String.{String}
use mathlib.Core.Path.{◌≡◌, refl}
use mathlib.Core.Option.{none, some}
use mathlib.Core.List.{[], ◌∷◌}
use openclawapp.Base.{Distinct, contains, trim, set_of, sort, lookup, insert}
use openclawapp.Base.Values.{obj, str, end, field, whole}
use openclawapp.Crdt.Ids.{normalize_id, normalize_parents}
use openclawapp.Crdt.Envelope.{OpEnvelope}
use openclawapp.Graph.{runs}
use openclawapp.CrdtGraph.{normal_op, dedupe_from, dedupe_ops, op_parents, analyze_ops}
use openclawapp.CrdtGraph.Messages.{
  Message, make_message, add_message, materialize_op, materialize_payload, materialize_from,
  materialize_messages,
}
use openclawapp.CrdtGraph.Messages.Ids.{creates, materialize-ids}
use openclawapp.Tests.{sample, first}

abbrev written : OpEnvelope
written = record first {
  payload =
      obj (field "messageId" (str "m1") (field "body" (obj (field "text" (str "hi") end)) end));
}

abbrev made : Message
made = record {
  message_id = "m1";
  op_id = "a";
  conversation_id = "talk";
  author_device_id = "d1";
  author_entity_type = "desktop";
  author_seq = whole 1;
  hlc = "h";
  text = "hi";
  parts = [];
  client_nonce = none;
  parents = [];
  signed_at = whole 5;
}

materialized : materialize_messages sample (written ∷ []) ≡ some (made ∷ [])
unfolding materialize_messages materialize_from materialize_op materialize_payload add_message
    make_message analyze_ops dedupe_ops dedupe_from normal_op op_parents runs normalize_id
    normalize_parents trim set_of contains sort lookup insert
materialized = refl

materialize-ids_example :
    Distinct ("m1" ∷ [])
    × ((a : String)
        → contains a ("m1" ∷ []) ≡ creates a (analyze_ops sample (written ∷ [])).ordered_ops)
materialize-ids_example = materialize-ids sample (written ∷ []) (made ∷ []) materialized
