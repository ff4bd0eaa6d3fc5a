-- ===== src/Tests.antt =====
-- What the tests share: an environment to run in, and sample data.
pub mod VectorTests
pub mod OpTests
pub mod GraphTests
pub mod ChatTests
pub mod PeerTests
pub mod MessageTests
pub mod PeerRunTests
pub mod MobileTests
pub mod ProbeTests
pub mod SendTests
use Prim.Native.Nat.{ℕ}
use Prim.Native.String.{String}
use mathlib.Core.Path.{◌≡◌, refl}
use mathlib.Core.Bool.{false}
use mathlib.Core.List.{List, [], ◌∷◌}
use openclawapp.Base.{text_order}
use openclawapp.Base.Values.{
  nan, finite, Value, obj, str, num, end, field, Runtime, ok, err, Count, whole,
}
use openclawapp.Crdt.Envelope.{OpEnvelope, message_create}

abbrev pub sample : Runtime
sample = record {
  text_number = λ s. nan;
  number_text = λ n. "n";
  object_number = λ v. nan;
  object_text = λ v. "[object Object]";
  json_parse = λ s. err "Unexpected token";
  iso_text = λ n. ok "2026-01-01T00:00:00.000Z";
  locale_compare = text_order;
  now = λ i. 1000;
  random_suffix = "5eed";
}

-- A message op of an author.
abbrev pub sample_op : String → String → ℕ → List String → OpEnvelope
sample_op id device seq parents = record {
  op_id = id;
  conversation_id = "talk";
  author_device_id = device;
  author_entity_type = "desktop";
  author_seq = whole seq;
  hlc = "h";
  parents = parents;
  kind = message_create;
  payload = obj end;
  signed_at = whole 5;
  signature = "sig";
}

abbrev pub first : OpEnvelope
first = sample_op "a" "d1" 1 []

abbrev pub second : OpEnvelope
second = sample_op "b" "d1" 2 ("a" ∷ [])

abbrev pub history : List OpEnvelope
history = second ∷ first ∷ []
