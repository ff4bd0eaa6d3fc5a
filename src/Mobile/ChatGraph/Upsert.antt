-- ===== src/Mobile/ChatGraph/Upsert.antt =====
-- A message that joins a session is among its messages.
use Prim.Native.String.{String}
use mathlib.Core.Path.{◌≡◌, refl, ap, sym, ◌∙◌}
use mathlib.Core.Bool.{true, false}
use mathlib.Core.Option.{Option, none, some}
use mathlib.Core.List.{List, [], ◌∷◌, map}
use mathlib.Core.Logic.{inl, inr}
use text.Mathlib.Text.{◌==◌}
use openclawapp.Base.{
  if◌then◌else◌, Bool-cases, Option-cases, All, trim, trim_idem, is_empty, lookup, insert,
}
use openclawapp.Base.Maps.{lookup-insert}
use openclawapp.Base.Occurrences.{In, In-append_right, In-sort}
use openclawapp.Base.Values.{Runtime}
use openclawapp.Crdt.Ids.{IsId}
use openclawapp.Chat.Codec.RoundTrip.{trimmed_text-IsId}
use openclawapp.Chat.Timeline.{Node, normal_node, analyze_messages}
use openclawapp.Chat.Timeline.Laws.{last_message, ordered-has}
use openclawapp.Mobile.{ChatMessage}
use openclawapp.Mobile.ChatGraph.{
  is_system, normalize_chat_message, as_like, table_of, settle, ordered_messages,
  reconcile_session_messages,
}

abbrev or_else : Option ChatMessage → Option ChatMessage → Option ChatMessage
or_else (some m) o = some m
or_else none o = o

or_else_assoc : (o p q : Option ChatMessage) → or_else (or_else o p) q ≡ or_else o (or_else p q)
or_else_assoc (some m) p q = refl
or_else_assoc none p q = refl

or_else-none : (o : Option ChatMessage) → or_else o none ≡ o
or_else-none (some m) = refl
or_else-none none = refl

module _ (rt : Runtime) where
  -- The normalised message, if it is a chat message of this id.
  abbrev own_chat : String → ChatMessage → Option ChatMessage
  own_chat a m =
      if is_empty m.id
      then none
      else if is_system m
      then none
      else if m.id == a
      then some m
      else none

  -- The last chat message of an id, normalised.
  abbrev pub last_chat : String → List ChatMessage → Option ChatMessage
  last_chat a [] = none
  last_chat a (m ∷ ms) = or_else (last_chat a ms) (own_chat a (normalize_chat_message rt m))

  abbrev extended : List (String × ChatMessage) → ChatMessage → List (String × ChatMessage)
  extended table next =
      if is_empty next.id
      then table
      else if is_system next
      then table
      else insert next.id next table

  lookup-extended :
      (a : String) (table : List (String × ChatMessage)) (m : ChatMessage)
      → lookup a (extended table m) ≡ or_else (own_chat a m) (lookup a table)
  lookup-extended a table m = elim (Bool-cases (is_empty m.id)) [
    | inl e ↦ rw e refl
    | inr e ↦ elim (Bool-cases (is_system m)) [
      | inl f ↦ rw (e, f) refl
      | inr f ↦ elim (Bool-cases (m.id == a)) [
        | inl g ↦ rw (e, f, lookup-insert, g) refl
        | inr g ↦ rw (e, f, lookup-insert, g) refl
      ]
    ]
  ]

  lookup-table_of :
      (a : String) (table : List (String × ChatMessage)) (ms : List ChatMessage)
      → lookup a (table_of rt false table ms) ≡ or_else (last_chat a ms) (lookup a table)
  unfolding table_of
  lookup-table_of a table [] = refl
  lookup-table_of a table (m ∷ ms) =
      lookup-table_of a (extended table (normalize_chat_message rt m)) ms
      ∙ ap (or_else (last_chat a ms)) (lookup-extended a table (normalize_chat_message rt m))
      ∙ sym (
          or_else_assoc (last_chat a ms) (own_chat a (normalize_chat_message rt m))
            (lookup a table))

  -- Each row stands under the id of its message.
  abbrev IsRow : String × ChatMessage → Type 0
  IsRow e = (e.1.id ≡ e.0) × IsId e.0

  IsRow-insert :
      (m : ChatMessage) (table : List (String × ChatMessage))
      → IsId m.id
      → All IsRow table
      → All IsRow (insert m.id m table)
  unfolding insert
  IsRow-insert m [] i h = ((refl, i), tt)
  IsRow-insert m ((k, v) ∷ table) i (p, h) = elim (Bool-cases (k == m.id)) [
    | inl e ↦ rw e ((refl, i), h)
    | inr e ↦ rw e (p, IsRow-insert m table i h)
  ]

  extended-IsRow :
      (table : List (String × ChatMessage)) (m : ChatMessage)
      → trim m.id ≡ m.id
      → All IsRow table
      → All IsRow (extended table m)
  extended-IsRow table m t h = elim (Bool-cases (is_empty m.id)) [
    | inl e ↦ rw e h
    | inr e ↦ elim (Bool-cases (is_system m)) [
      | inl f ↦ rw (e, f) h
      | inr f ↦ rw (e, f) (IsRow-insert m table (t, e) h)
    ]
  ]

  table_of-IsRow :
      (table : List (String × ChatMessage)) (ms : List ChatMessage)
      → All IsRow table
      → All IsRow (table_of rt false table ms)
  unfolding table_of
  table_of-IsRow table [] h = h
  table_of-IsRow table (m ∷ ms) h =
      table_of-IsRow (extended table (normalize_chat_message rt m)) ms
        (extended-IsRow table (normalize_chat_message rt m) (normal_id m) h)
    where
      normal_id :
          (m : ChatMessage)
          → trim (normalize_chat_message rt m).id ≡ (normalize_chat_message rt m).id
      normal_id m = trim_idem m.id

  -- The analysis keeps a message for each row.
  last_message-table :
      (a : String) (table : List (String × ChatMessage)) (m : ChatMessage)
      → All IsRow table
      → lookup a table ≡ some m
      → (n : Node) × (last_message rt a (map (λ e. as_like rt e.1) table) ≡ some n)
  unfolding lookup
  last_message-table a [] m h e = cc
  last_message-table a ((k, v) ∷ table) m ((p, i), h) e = elim (Bool-cases (k == a)) [
    | inr f ↦ (let (n, g) = last_message-table a table m h (rw f at e) in (n, rw g refl))
    | inl f ↦ elim (Option-cases (last_message rt a (map (λ e. as_like rt e.1) table))) [
      | inr (n, g) ↦ (n, rw g refl)
      | inl g ↦ (normal_node rt (as_like rt v), rw (g, p, trimmed_text-IsId rt k i, i.1, f) refl)
    ]
  ]

  In-ordered_messages :
      (missing : List String) (table : List (String × ChatMessage)) (ns : List Node) (n : Node)
      (m : ChatMessage)
      → In n ns
      → lookup n.id table ≡ some m
      → In (settle rt missing m) (ordered_messages rt missing table ns)
  unfolding ordered_messages
  In-ordered_messages missing table [] n m i e = absurd i
  In-ordered_messages missing table (x ∷ ns) n m (inl p) e = rw (p, ordered_messages, e) (inl refl)
  In-ordered_messages missing table (x ∷ ns) n m (inr i) e =
      elim (Option-cases (lookup x.id table)) [
        | inl f ↦ rw (ordered_messages, f) (In-ordered_messages missing table ns n m i e)
        | inr (y, f) ↦ rw (ordered_messages, f) (inr (In-ordered_messages missing table ns n m i e))
      ]

  -- The last chat message of an id is among the reconciled messages.
  pub reconcile-In :
      (ms : List ChatMessage) (a : String) (m : ChatMessage)
      → last_chat a ms ≡ some m
      → (let done = reconcile_session_messages rt ms in
          In (settle rt done.missing_message_ids m) done.messages)
  unfolding reconcile_session_messages lookup
  reconcile-In ms a m h =
      let chats = table_of rt false [] ms in
      let found = lookup-table_of a [] ms ∙ or_else-none (last_chat a ms) ∙ h in
      let (n, e) = last_message-table a chats m (table_of-IsRow [] ms tt) found in
      let likes = map (λ e. as_like rt e.1) chats in
      let (x, i, f) = ordered-has rt a likes n e in
      let missing = (analyze_messages rt likes).missing_ids in
      In-sort _ (settle rt missing m) _ (
        In-append_right (settle rt missing m) (map (λ e. e.1) (table_of rt true [] ms)) _ (
          In-ordered_messages missing chats (analyze_messages rt likes).ordered x m i
            (ap (λ k. lookup k chats) f ∙ found)))

  -- The message is a chat message with an id.
  abbrev pub IsChat : ChatMessage → Type 0
  IsChat m = (is_system m ≡ false) × (is_empty (trim m.id) ≡ false)
