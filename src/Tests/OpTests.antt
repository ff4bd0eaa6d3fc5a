-- ===== src/Tests/OpTests.antt =====
-- Op envelopes and synchronisation messages on sample values.
use Prim.Native.String.{String}
use mathlib.Core.Path.{◌≡◌, refl}
use mathlib.Core.Bool.{true}
use mathlib.Core.List.{List, [], ◌∷◌}
use openclawapp.Base.{contains, All, trim}
use openclawapp.Base.Values.{obj, end, Count, whole, ok}
use openclawapp.Crdt.Ids.{IsId}
use openclawapp.Crdt.Vectors.Laws.{IsNormal, IsNumeric}
use openclawapp.Crdt.Envelope.{parse_op_envelope}
use openclawapp.Crdt.Envelope.RoundTrip.{IsValid, op_fields, parse-op_fields}
use openclawapp.Crdt.Envelope.Accepted.{IsAccepted, parse-IsAccepted}
use openclawapp.Crdt.Wire.{SyncState, SyncBatch, parse_sync_batch}
use openclawapp.Crdt.Wire.Batch.{batch_fields, parse-batch_fields, parse-batch-IsAccepted}
use openclawapp.Tests.{sample, first}

first-IsValid : IsValid first
unfolding trim
first-IsValid = record {
  op_id = (refl, refl);
  conversation_id = (refl, refl);
  author_device_id = (refl, refl);
  author_entity_type = (refl, refl);
  author_seq = refl;
  hlc = (refl, refl);
  parents = (tt, tt);
  payload = (end, refl);
  signed_at = refl;
  signature = (refl, refl);
}

parse-op_fields_example : parse_op_envelope sample (obj (op_fields first)) ≡ ok first
parse-op_fields_example = parse-op_fields sample first first-IsValid

parse-IsAccepted_example : IsAccepted first
parse-IsAccepted_example =
    parse-IsAccepted sample (obj (op_fields first)) first
      (parse-op_fields sample first first-IsValid)

abbrev vector : List (String × Count)
vector = ("d1", whole 1) ∷ []

abbrev state : SyncState
state = record {
  conversation_id = "talk";
  version_vector = vector;
  frontier = "a" ∷ [];
  ts = whole 9;
}

abbrev batch : SyncBatch
batch = record {
  conversation_id = "talk";
  base_version_vector = vector;
  ops = first ∷ [];
  has_more = true;
  ts = whole 9;
}

text-IsId : IsId "talk" × IsId "a" × IsId "d1"
unfolding trim
text-IsId = ((refl, refl), (refl, refl), (refl, refl))

vector-IsNormal : IsNormal vector
unfolding contains
vector-IsNormal = record { distinct = (refl, tt); ids = (text-IsId.2, tt) }

vector-IsNumeric : IsNumeric vector
vector-IsNumeric = ((λ e. cc), tt)

parse-batch_fields_example : parse_sync_batch sample (obj (batch_fields batch)) ≡ ok batch
parse-batch_fields_example =
    parse-batch_fields sample batch text-IsId.0 vector-IsNormal vector-IsNumeric (first-IsValid, tt)
      refl

parse-batch-IsAccepted_example : IsId "talk" × All IsAccepted (first ∷ []) × IsNormal vector
parse-batch-IsAccepted_example =
    parse-batch-IsAccepted sample (obj (batch_fields batch)) batch parse-batch_fields_example
