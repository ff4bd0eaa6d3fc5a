-- ===== src/Peer/Descriptions.antt =====
-- packages/pair-sdk/src/peer.ts: the session descriptions and candidates of a signal, as the peer
-- channel normalises them.
use Prim.Native.Nat.{ℕ, zero, suc}
use Prim.Native.Char.{code}
use Prim.Native.String.{String, [], ◌∷◌, count, ◌++◌}
use mathlib.Core.Bool.{Bool, false, not, ◌&&◌, ◌||◌}
use mathlib.Core.Option.{Option, none, some}
use text.Mathlib.Text.{◌==◌}
use openclawapp.Base.{if◌then◌else◌, eqb, is_empty, trim}
use openclawapp.Base.Values.{
  Value, undefined, null, str, obj, Fields, field, end, Runtime, Result, ok, err, optional_member,
  text_of, trimmed_text, truthy,
}
use openclawapp.Peer.{Description, starts_with}

-- `text.includes(part)`
abbrev pub has_text : String → String → Bool
has_text part [] = starts_with part []
has_text part (c ∷ s) = starts_with part (c ∷ s) || has_text part s

-- `text.endsWith(part)`
abbrev pub ends_with : String → String → Bool
ends_with part [] = part == []
ends_with part (c ∷ s) = part == (c ∷ s) || ends_with part s

-- `text.replaceAll(part, to)` for a part of `suc n` characters; `skip` characters of the last
-- occurrence are still to be dropped.
unfoldable pub replace_all : String → String → ℕ → String → String
unfolding starts_with
replace_all part to skip [] = []
replace_all part to (suc skip) (c ∷ s) = replace_all part to skip s
replace_all part to zero (c ∷ s) =
    let found = starts_with part (c ∷ s) in
    let rest = replace_all part to (if found then pred (count part) else 0) s in
    if found then to ++ rest else c ∷ rest
  where
    pred : ℕ → ℕ
    pred zero = 0
    pred (suc n) = n

-- `/[\r\n]/.test(text)`
abbrev has_break : String → Bool
has_break [] = false
has_break (c ∷ s) = eqb (code c) 13 || (eqb (code c) 10 || has_break s)

-- The escaped line breaks, for a text that has no others.
unfoldable pub unescape_breaks : String → String
unfolding replace_all
unescape_breaks s =
    if not (has_break s) && (has_text "\\r\\n" s || (has_text "\\n" s || has_text "\\r" s))
    then replace_all "\\r" "\r" 0 (replace_all "\\n" "\n" 0 (replace_all "\\r\\n" "\r\n" 0 s))
    else s

-- The three replacements of the line breaks by `\r\n`.
unfoldable pub to_crlf : String → String
unfolding replace_all
to_crlf s = replace_all "\n" "\r\n" 0 (replace_all "\r" "\n" 0 (replace_all "\r\n" "\n" 0 s))

unfoldable pub close_sdp : String → String
close_sdp s = if ends_with "\r\n" s then s else s ++ "\r\n"

module _ (rt : Runtime) where
  -- `String(raw ?? '')`
  abbrev pub nullish_text : Value → String
  nullish_text undefined = ""
  nullish_text null = ""
  nullish_text v = text_of rt v

  unfoldable pub normalize_sdp : Value → String
  unfolding unescape_breaks to_crlf close_sdp
  normalize_sdp raw =
      let text = nullish_text raw in
      let trimmed = trim (unescape_breaks text) in
      if is_empty (trim text)
      then ""
      else if is_empty trimmed
      then ""
      else close_sdp (to_crlf trimmed)

  -- The object that the description is read from: the text is parsed, or is the SDP itself.
  unfoldable pub description_source : Value → String → Value
  description_source (str s) fallback =
      let plain = obj (field "type" (str fallback) (field "sdp" (str (trim s)) end)) in
      if starts_with "{" (trim s) && ends_with "}" (trim s)
      then elim (rt.json_parse (trim s)) [ err _ ↦ plain | ok v ↦ v ]
      else plain
  description_source v fallback = v

  unfoldable pub normalize_description : Value → String → Result Description
  unfolding normalize_sdp description_source
  normalize_description value fallback =
      let candidate = description_source value fallback in
      let sdp = normalize_sdp (optional_member "sdp" candidate) in
      if is_empty sdp
      then err ("missing " ++ (fallback ++ " sdp"))
      else ok (record {
        type = trim (
            text_of rt (
              if truthy (optional_member "type" candidate)
              then optional_member "type" candidate
              else str fallback));
        sdp = sdp;
      })

  -- `v ?? null`
  abbrev pub or_null : Value → Value
  or_null undefined = null
  or_null v = v

  -- The candidate to add, if there is one.
  unfoldable pub normalize_candidate : Value → Option Fields
  normalize_candidate value =
      let candidate = trimmed_text rt (optional_member "candidate" value) in
      if not (truthy value)
      then none
      else if is_empty candidate
      then none
      else some (
          field "candidate" (str candidate) (
            field "sdpMid" (or_null (optional_member "sdpMid" value)) (
              field "sdpMLineIndex" (or_null (optional_member "sdpMLineIndex" value)) (
                field "usernameFragment" (or_null (optional_member "usernameFragment" value))
                  end))))

-- `hasSameDescription`
unfoldable pub has_same_description : Option Description → Description → Bool
has_same_description none next = false
has_same_description (some current) next =
    trim current.type == trim next.type && current.sdp == next.sdp
