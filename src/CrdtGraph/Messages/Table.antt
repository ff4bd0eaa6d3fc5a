-- ===== src/CrdtGraph/Messages/Table.antt =====
-- The table of messages that `materializeCrdtMessages` fills, one op at a time.
use Prim.Native.String.{String}
use mathlib.Core.Path.{◌≡◌, refl, ap, sym, ◌∙◌, subst}
use mathlib.Core.Bool.{Bool, true, false, not, ◌&&◌, ◌||◌}
use mathlib.Core.Logic.{inl, inr}
use mathlib.Core.Option.{some}
use mathlib.Core.List.{List, [], ◌∷◌, map}
use native.Mathlib.Omega.{arith}
use text.Mathlib.Text.{◌==◌}
use text.Mathlib.TextEquality.{eq_iff}
use openclawapp.Base.{Bool-cases, All, Distinct, is_empty, contains, keys, insert}
use openclawapp.Base.Maps.{Distinct-keys-insert, contains-keys-insert}
use openclawapp.Base.Values.{Fields, member}
use openclawapp.Crdt.Ids.{normalize_id}
use openclawapp.Crdt.Envelope.{OpEnvelope}
use openclawapp.CrdtGraph.Messages.{Message, make_message, add_message}

abbrev pub IsKeyed : List (String × Message) → Type 0
IsKeyed m = All (λ e. e.1.message_id ≡ e.0) m

IsKeyed-insert :
    (k : String) (n : Message) (m : List (String × Message))
    → n.message_id ≡ k
    → IsKeyed m
    → IsKeyed (insert k n m)
unfolding insert
IsKeyed-insert k n [] e h = (e, tt)
IsKeyed-insert k n ((j, w) ∷ m) e (p, h) = elim (Bool-cases (j == k)) [
  | inl t ↦ rw t (e, h)
  | inr t ↦ rw t (p, IsKeyed-insert k n m e h)
]

pub ids_of_keyed :
    (m : List (String × Message)) → IsKeyed m → map (λ n. n.message_id) (map (λ e. e.1) m) ≡ keys m
ids_of_keyed [] h = refl
ids_of_keyed ((k, n) ∷ m) (e, h) = rw (e, ids_of_keyed m h) refl

-- What the loop keeps: entries under their own ids, each once.
pub record IsTable (m : List (String × Message)) : Type 0 where
  pub keyed : IsKeyed m
  pub distinct : Distinct (keys m)

-- The entries after a round, or after all of them, have the ids before and those created.
abbrev pub Adds : (String → Bool) → List (String × Message) → List (String × Message) → Type 0
Adds created before after =
    IsTable after
    × ((a : String) → contains a (keys after) ≡ (contains a (keys before) || created a))

pub some_inj : {A : Type 0} {a b : A} → some a ≡ some b → a ≡ b
some_inj h = cc

absorbed :
    (i a : String) (xs : List String)
    → contains i xs ≡ true
    → contains a xs ≡ (contains a xs || (i == a))
absorbed i a xs h = elim (Bool-cases (i == a)) [
  | inl e ↦
      let c : contains a xs ≡ true = subst (λ z. contains z xs ≡ true) ((eq_iff i a).0 e) h in
      c ∙ sym (ap (λ b. b || (i == a)) c)
  | inr e ↦ rw e (ground arith)
]

or_swap : (x y z : Bool) → x ≡ (y || z) → x ≡ (z || y)
or_swap x y z h = ground arith

pub add_message-Adds :
    (m : List (String × Message)) (op : OpEnvelope) (payload : Fields)
    → IsTable m
    → Adds
        (λ a. let id = normalize_id (member "messageId" payload) in not (is_empty id) && (id == a))
        m
        (add_message m op payload)
unfolding add_message make_message
add_message-Adds m op payload t =
    elim (Bool-cases (is_empty (normalize_id (member "messageId" payload)))) [
      | inl e ↦ rw e (t, λ a. ground arith)
      | inr e ↦ elim (Bool-cases (contains (normalize_id (member "messageId" payload)) (keys m))) [
        | inl f ↦ rw (e, f) (t, λ a. absorbed _ a (keys m) f)
        | inr f ↦
            rw (e, f)
              (
                record {
                  keyed = IsKeyed-insert _ (make_message op payload) m refl t.keyed;
                  distinct = Distinct-keys-insert _ (make_message op payload) m t.distinct;
                },
                λ a.
                    or_swap _ (normalize_id (member "messageId" payload) == a) (contains a (keys m))
                      (contains-keys-insert a _ (make_message op payload) m),
              )
      ]
    ]

pub or_assoc : (x y z : Bool) → ((x || y) || z) ≡ (x || (y || z))
or_assoc true y z = refl
or_assoc false y z = refl

pub or_false : (b : Bool) → b ≡ (b || false)
or_false true = refl
or_false false = refl
