-- ===== src/CrdtGraph/Messages/Ids.antt =====
-- Which messages `materializeCrdtMessages` makes.
use Prim.Native.Nat.{Ordering}
use Prim.Native.String.{String}
use mathlib.Core.Path.{◌≡◌, refl, ap, sym, ◌∙◌, subst}
use mathlib.Core.Bool.{Bool, true, false, not, ◌&&◌, ◌||◌}
use mathlib.Core.Logic.{inl, inr}
use mathlib.Core.Option.{Option, none, some}
use mathlib.Core.List.{List, [], ◌∷◌, map}
use text.Mathlib.Text.{◌==◌}
use openclawapp.Base.{if◌then◌else◌, Bool-cases, Distinct, is_empty, contains, keys, sort, lookup}
use openclawapp.Base.Occurrences.{contains-tally, tally-Distinct, Distinct-of_tally}
use openclawapp.Base.Values.{Value, undefined, null, obj, Fields, Runtime, member, optional_member}
use openclawapp.Crdt.Ids.{normalize_id}
use openclawapp.Crdt.Envelope.{OpEnvelope}
use openclawapp.Graph.Release.{tally-sort}
use openclawapp.CrdtGraph.{analyze_ops}
use openclawapp.CrdtGraph.Messages.{
  Message, materialize_payload, materialize_op, materialize_from, compare_made,
  materialize_messages, is_message, members,
}
use openclawapp.CrdtGraph.Messages.Table.{
  ids_of_keyed, IsTable, Adds, or_assoc, or_false, some_inj, add_message-Adds,
}

-- The id of the message that an op names.
abbrev pub message_id_of : OpEnvelope → String
message_id_of op = normalize_id (optional_member "messageId" op.payload)

-- Some op creates a message of this id.
abbrev pub creates : String → List OpEnvelope → Bool
creates a [] = false
creates a (op ∷ ops) =
    (is_message op.kind && (not (is_empty (message_id_of op)) && (message_id_of op == a)))
    || creates a ops

id-members :
    (v : Value) (payload : Fields)
    → members v ≡ some payload
    → normalize_id (member "messageId" payload) ≡ normalize_id (optional_member "messageId" v)
unfolding lookup
id-members undefined payload h = cc
id-members null payload h = cc
id-members (obj fs) payload h = ap (λ f. normalize_id (member "messageId" f)) (sym (some_inj h))
id-members _ payload h = ap (λ f. normalize_id (member "messageId" f)) (sym (some_inj h))

payload-Adds :
    (m : List (String × Message)) (op : OpEnvelope) (fs : Option Fields)
    (out : List (String × Message))
    → IsTable m
    → members op.payload ≡ fs
    → materialize_payload m op fs ≡ some out
    → Adds (λ a. not (is_empty (message_id_of op)) && (message_id_of op == a)) m out
unfolding materialize_payload
payload-Adds m op none out t p h = cc
payload-Adds m op (some payload) out t p h =
    subst (λ i. Adds (λ a. not (is_empty i) && (i == a)) m out) (id-members op.payload payload p)
      (subst
        (Adds
          (λ a.
            not (is_empty (normalize_id (member "messageId" payload)))
            && (normalize_id (member "messageId" payload) == a))
          m)
        (some_inj h) (add_message-Adds m op payload t))

pick_else : {A : Type 0} (b : Bool) (x y z : A) → b ≡ true → (if not b then x else y) ≡ z → y ≡ z
pick_else true x y z e h = h
pick_else false x y z e h = cc

pick_then : {A : Type 0} (b : Bool) (x y z : A) → b ≡ false → (if not b then x else y) ≡ z → x ≡ z
pick_then true x y z e h = cc
pick_then false x y z e h = h

materialize_op-Adds :
    (m : List (String × Message)) (op : OpEnvelope) (out : List (String × Message))
    → IsTable m
    → materialize_op m op ≡ some out
    → Adds
        (λ a. is_message op.kind && (not (is_empty (message_id_of op)) && (message_id_of op == a)))
        m
        out
unfolding materialize_op
materialize_op-Adds m op out t h = elim (Bool-cases (is_message op.kind)) [
  | inl e ↦
      let (u, f) = payload-Adds m op (members op.payload) out t refl (
        pick_else (is_message op.kind) (some m) (materialize_payload m op (members op.payload))
          (some out) e h) in
      (u, λ a. rw e (f a))
  | inr e ↦
      let same = some_inj (
        pick_then (is_message op.kind) (some m) (materialize_payload m op (members op.payload))
          (some out) e h) in
      (
        subst IsTable same t,
        λ a. rw e (ap (λ l. contains a (keys l)) (sym same) ∙ or_false (contains a (keys m))),
      )
]

materialize_from-eq-some :
    (r : Option (List (String × Message))) (ops : List OpEnvelope) {out : List (String × Message)}
    → materialize_from r ops ≡ some out
    → (m : List (String × Message)) × (r ≡ some m)
unfolding materialize_from
materialize_from-eq-some none ops h = cc
materialize_from-eq-some (some m) ops h = (m, refl)

materialize_from-Adds :
    (m : List (String × Message)) (ops : List OpEnvelope) (out : List (String × Message))
    → IsTable m
    → materialize_from (some m) ops ≡ some out
    → Adds (λ a. creates a ops) m out
unfolding materialize_from
materialize_from-Adds m [] out t h =
    let same = some_inj h in
    (
      subst IsTable same t,
      λ a. ap (λ l. contains a (keys l)) (sym same) ∙ or_false (contains a (keys m)),
    )
materialize_from-Adds m (op ∷ ops) out t h =
    let (next, e) = materialize_from-eq-some (materialize_op m op) ops h in
    let (u, f) = materialize_op-Adds m op next t e in
    let (w, g) =
      materialize_from-Adds next ops out u (ap (λ r. materialize_from r ops) (sym e) ∙ h) in
    (
      w,
      λ a.
          g a
          ∙ ap (λ b. b || creates a ops) (f a)
          ∙ or_assoc (contains a (keys m)) _ (creates a ops),
    )

map-eq-some :
    {A B : Type 0} (o : Option A) (f : A → B) {b : B}
    → elim o [ none ↦ none | some a ↦ some (f a) ] ≡ some b
    → (a : A) × (o ≡ some a) × (f a ≡ b)
map-eq-some none f h = cc
map-eq-some (some a) f h = (a, refl, some_inj h)

sorted_ids :
    (compare : Message → Message → Ordering) (ms : List Message)
    → Distinct (map (λ m. m.message_id) ms)
    → Distinct (map (λ m. m.message_id) (sort compare ms))
      × ((a : String)
          → contains a (map (λ m. m.message_id) (sort compare ms))
            ≡ contains a (map (λ m. m.message_id) ms))
sorted_ids compare ms d = (
  Distinct-of_tally _ (λ a. rw tally-sort (tally-Distinct a (map (λ m. m.message_id) ms) d)),
  λ a.
      contains-tally a (map (λ m. m.message_id) (sort compare ms))
      ∙ rw tally-sort (sym (contains-tally a (map (λ m. m.message_id) ms))),
)

module _ (rt : Runtime) where
  -- If messages are made, their ids are distinct, and they are the ids that the ops create: those
  -- that are not empty and named by an ordered op of kind `message.create`.
  pub materialize-ids :
      (ops : List OpEnvelope) (ms : List Message)
      → materialize_messages rt ops ≡ some ms
      → Distinct (map (λ m. m.message_id) ms)
        × ((a : String)
            → contains a (map (λ m. m.message_id) ms) ≡ creates a (analyze_ops rt ops).ordered_ops)
  unfolding materialize_messages contains
  materialize-ids ops ms h =
      let ordered = (analyze_ops rt ops).ordered_ops in
      let (m, made, same) =
        map-eq-some (materialize_from (some []) ordered)
          (λ m. sort (compare_made rt ordered) (map (λ e. e.1) m)) h in
      let (t, g) = materialize_from-Adds [] ordered m (record { keyed = tt; distinct = tt }) made in
      let ids = ids_of_keyed m t.keyed in
      let (d, c) =
        sorted_ids (compare_made rt ordered) (map (λ e. e.1) m)
          (subst Distinct (sym ids) t.distinct) in
      (
        subst (λ l. Distinct (map (λ x. x.message_id) l)) same d,
        λ a.
            ap (λ l. contains a (map (λ x. x.message_id) l)) (sym same)
            ∙ c a
            ∙ ap (contains a) ids
            ∙ g a,
      )
