-- ===== src/Pairing/IceServers.antt =====
-- packages/pair-sdk/src/web.ts: the ICE servers of the server's answer, normalised.
use Prim.Native.String.{String}
use mathlib.Core.Option.{Option, none, some}
use mathlib.Core.List.{List, [], ◌∷◌}
use openclawapp.Base.{if◌then◌else◌, is_empty, set_of}
use openclawapp.Base.Values.{Value, str, arr, elems, Runtime, ok, member, trimmed_text}
use openclawapp.Chat.{trimmed_texts}
use openclawapp.Peer.Messages.{optional_text, object_members}

pub record IceServer : Type 0 where
  pub urls : List String
  pub username : Option String
  pub credential : Option String
  pub credential_type : Option String

module _ (rt : Runtime) where
  -- `item.urls` as an array
  abbrev url_values : Value → List Value
  url_values (arr vs) = elems vs
  url_values v = if is_empty (trimmed_text rt v) then [] else v ∷ []

  unfoldable pub normal_server : Value → Option IceServer
  normal_server item = elim (object_members item) [
    | none ↦ none
    | some fs ↦
        (let urls = set_of (trimmed_texts rt (url_values (member "urls" fs))) in
          elim urls [
            | [] ↦ none
            | u ∷ us ↦ some (record {
              urls = u ∷ us;
              username = optional_text rt (member "username" fs);
              credential = optional_text rt (member "credential" fs);
              credential_type = optional_text rt (member "credentialType" fs);
            })
          ])
  ]

  unfoldable pub normal_servers : List Value → List IceServer
  unfolding normal_server
  normal_servers [] = []
  normal_servers (v ∷ vs) = elim (normal_server v) [
    | none ↦ normal_servers vs
    | some s ↦ s ∷ normal_servers vs
  ]

  -- The raw value as an array, if it is one, or a text of one.
  abbrev raw_items : Value → Option (List Value)
  raw_items (arr vs) = some (elems vs)
  raw_items (str s) = elim (rt.json_parse s) [ ok (arr vs) ↦ some (elems vs) | _ ↦ none ]
  raw_items _ = none

  -- The servers, or `none` when the fallback itself is given back.
  unfoldable pub normalize_ice_servers : Value → (fallback : List Value) → Option (List IceServer)
  unfolding normal_servers
  normalize_ice_servers raw fallback =
      let items : List Value = elim (raw_items raw) [ none ↦ fallback | some vs ↦ vs ] in
      elim (normal_servers items) [ [] ↦ none | s ∷ ss ↦ some (s ∷ ss) ]
