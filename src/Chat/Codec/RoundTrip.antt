-- ===== src/Chat/Codec/RoundTrip.antt =====
-- Payloads of openclaw-chat.ts, sent as objects and parsed again.
use Prim.Native.Nat.{zero, suc}
use Prim.Native.String.{String}
use mathlib.Core.Path.{◌≡◌, refl, ap, ◌∙◌}
use mathlib.Core.Logic.{◌≢◌}
use mathlib.Core.Bool.{not}
use mathlib.Core.Option.{some}
use mathlib.Core.List.{List, [], ◌∷◌, map}
use openclawapp.Base.{All, Distinct, is_empty, trim, set_of, lookup, keep}
use openclawapp.Base.Sets.{set_of_of_Distinct}
use openclawapp.Base.Values.{
  Value, num, str, obj, Fields, end, field, Runtime, Count, whole, infinite, not_a_number,
  count_num, clamp, trimmed_text, count_or_zero, elems, of_elems,
}
use openclawapp.Crdt.Ids.{IsId, texts}
use openclawapp.Chat.{
  EntityType, Origin, host, mobile_side, origin_text, message_type, sync_state_type, pong_type,
  normalize_after_ids,
}
use openclawapp.Chat.Codec.{
  MessagePayload, SyncStatePayload, PongPayload, text_or_empty, number_or_now, parsed_origin,
  parse_message, parse_sync_state, parse_pong, build_sync_state_payload,
}

abbrev pub message_fields : MessagePayload → Fields
message_fields p = field "id" (str p.id) (
    field "after" (texts p.after) (
      field "text" (str p.text) (
        field "origin" (str (origin_text p.origin))
          (field "originSeq" (num (count_num p.origin_seq)) end))))

abbrev pub state_fields : SyncStatePayload → Fields
state_fields p =
    field "hostSeq" (num (count_num p.host_seq))
      (field "mobileSeq" (num (count_num p.mobile_seq)) (field "leafIds" (texts p.leaf_ids) end))

abbrev pub pong_fields : PongPayload → Fields
pong_fields p = field "id" (str p.id) (
    field "sentAt" (num (count_num p.sent_at))
      (field "respondedAt" (num (count_num p.responded_at)) end))

module _ (rt : Runtime) where
  count_or_zero-count_num :
      (c : Count) → c ≢ not_a_number → count_or_zero rt (num (count_num c)) ≡ c
  unfolding count_or_zero clamp
  count_or_zero-count_num not_a_number h = absurd (h refl)
  count_or_zero-count_num infinite h = refl
  count_or_zero-count_num (whole zero) h = refl
  count_or_zero-count_num (whole (suc n)) h = refl

  pub trimmed_text-IsId : (i : String) → IsId i → trimmed_text rt (str i) ≡ i
  unfolding trimmed_text
  trimmed_text-IsId i (t, n) = rw n t

  trimmed_texts-IsId :
      (xs : List String)
      → All IsId xs
      → keep
          (λ i. not (is_empty i))
          (map (trimmed_text rt) (elems (of_elems (map (λ x. str x) xs))))
        ≡ xs
  trimmed_texts-IsId [] h = refl
  trimmed_texts-IsId (x ∷ xs) (i, h) =
      rw (trimmed_text-IsId x i, i.1) (ap (λ l. x ∷ l) (trimmed_texts-IsId xs h))

  pub after_ids_of_normal :
      (xs : List String) → Distinct xs → All IsId xs → normalize_after_ids rt (texts xs) ≡ xs
  unfolding normalize_after_ids
  after_ids_of_normal xs d h = ap set_of (trimmed_texts-IsId xs h) ∙ set_of_of_Distinct xs d

  parsed_origin-origin_text :
      (o : Origin) (from : EntityType) → parsed_origin (str (origin_text o)) from ≡ o
  unfolding parsed_origin origin_text
  parsed_origin-origin_text host from = refl
  parsed_origin-origin_text mobile_side from = refl

  text-str : (s : String) → text_or_empty rt (str s) ≡ s
  text-str String.[] = refl
  text-str (String.◌∷◌ c s) = refl

  -- A chat message that is sent as an object is read with the id, the text, the ids after which it
  -- stands, the origin and the number that it was built with; its id is normal, the ids are
  -- distinct and normal, and the number is not NaN.
  pub parse-message_fields :
      (p : MessagePayload) (ts : Value) (from : EntityType)
      → IsId p.id
      → Distinct p.after
      → All IsId p.after
      → p.origin_seq ≢ not_a_number
      → parse_message rt
          (record { type = message_type; payload = obj (message_fields p); ts = ts; from = from })
        ≡ some (record {
          id = p.id;
          after = p.after;
          text = p.text;
          ts = number_or_now rt 1 ts;
          from = from;
          origin = p.origin;
          origin_seq = p.origin_seq;
        })
  unfolding parse_message lookup trim
  parse-message_fields p ts from i d h n = simp (
    trimmed_text-IsId p.id i,
    i.1,
    after_ids_of_normal p.after d h,
    text-str p.text,
    parsed_origin-origin_text p.origin from,
    count_or_zero-count_num p.origin_seq n,
  )

  -- A synchronisation state that is sent as an object is read as it was built; its leaf ids are
  -- distinct and normal, and its numbers are not NaN.
  pub parse-sync_state_fields :
      (p : SyncStatePayload) (ts : Value) (from : EntityType)
      → p.host_seq ≢ not_a_number
      → p.mobile_seq ≢ not_a_number
      → Distinct p.leaf_ids
      → All IsId p.leaf_ids
      → parse_sync_state rt
          (record { type = sync_state_type; payload = obj (state_fields p); ts = ts; from = from })
        ≡ some (record { payload = p; ts = number_or_now rt 0 ts; from = from })
  unfolding parse_sync_state build_sync_state_payload lookup trim
  parse-sync_state_fields p ts from a b d h = simp (
    count_or_zero-count_num p.host_seq a,
    count_or_zero-count_num p.mobile_seq b,
    after_ids_of_normal p.leaf_ids d h,
  )

  -- A pong that is sent as an object is read as it was built; its id is normal, and its times are
  -- not NaN.
  pub parse-pong_fields :
      (p : PongPayload) (ts : Value) (from : EntityType)
      → IsId p.id
      → p.sent_at ≢ not_a_number
      → p.responded_at ≢ not_a_number
      → parse_pong rt
          (record { type = pong_type; payload = obj (pong_fields p); ts = ts; from = from })
        ≡ some (record { payload = p; ts = number_or_now rt 0 ts; from = from })
  unfolding parse_pong lookup trim
  parse-pong_fields p ts from i a b = simp (
    trimmed_text-IsId p.id i,
    i.1,
    count_or_zero-count_num p.sent_at a,
    count_or_zero-count_num p.responded_at b,
  )
