-- ===== src/Apps.antt =====
-- packages/pair-sdk/src/app.ts: the registry of the app modules that share a peer channel.
use Prim.Native.String.{String}
use mathlib.Core.Path.{◌≡◌, refl, ap, ◌∙◌}
use mathlib.Core.Bool.{Bool, true, false, not, ◌||◌}
use mathlib.Core.Logic.{inl, inr}
use mathlib.Core.List.{List, [], ◌∷◌, ◌++◌, map, map-append}
use native.Mathlib.Omega.{arith}
use text.Mathlib.TextEquality.{eq_iff}
use text.Mathlib.TextPositions.{eq_refl}
use openclawapp.Base.{
  if◌then◌else◌, Bool-cases, is_empty, contains, trim, set_of, contains-append, keep-append,
}
use openclawapp.Base.Sets.{contains-set_of}
use openclawapp.Base.Values.{Value, str, elems, Fields, Runtime, member, truthy, trimmed_text}
use openclawapp.Crdt.Ids.{IsId}
use openclawapp.Crdt.Envelope.{or_text}
use openclawapp.Crdt.Wire.{array_or_empty}
use openclawapp.Chat.{trimmed_texts}
use openclawapp.Chat.Codec.{is_text}
use openclawapp.Chat.Codec.RoundTrip.{trimmed_text-IsId}
use openclawapp.Peer.{Capabilities}
use openclawapp.Peer.Messages.{optional_text}

-- A module; its handler is known by its id.
pub record AppModule : Type 0 where
  pub id : String
  pub feature : Value
  pub supported_messages : Value

-- `messageTypes.includes(type)`
unfoldable pub lists_type : String → List Value → Bool
lists_type type [] = false
lists_type type (v ∷ vs) = is_text v type || lists_type type vs

-- `modules.flatMap((module) => …supportedMessages)`
unfoldable pub all_types : List AppModule → List Value
all_types [] = []
all_types (m ∷ ms) = elems (array_or_empty m.supported_messages) ++ all_types ms

-- The modules whose handlers `dispatch` runs, in their order, and whether there was one.
unfoldable pub dispatch : List AppModule → String → List String × Bool
unfolding lists_type
dispatch [] type = ([], false)
dispatch (m ∷ ms) type =
    let (ids, handled) = dispatch ms type in
    if lists_type type (elems (array_or_empty m.supported_messages))
    then (m.id ∷ ids, true)
    else (ids, handled)

dispatch-cons :
    (m : AppModule) (ms : List AppModule) (type : String)
    → (dispatch (m ∷ ms) type).1
      ≡ (lists_type type (elems (array_or_empty m.supported_messages)) || (dispatch ms type).1)
unfolding dispatch
dispatch-cons m ms type =
    elim (Bool-cases (lists_type type (elems (array_or_empty m.supported_messages)))) [
      | inl e ↦ rw e refl
      | inr e ↦ rw e refl
    ]

is_text-eq : (v : Value) (t : String) → is_text v t ≡ true → v ≡ str t
is_text-eq (str s) t h = ap (λ x. str x) ((eq_iff s t).0 h)
is_text-eq _ t h = cc

module _ (rt : Runtime) where
  unfoldable pub supported_types : List AppModule → List String
  unfolding all_types
  supported_types modules = set_of (trimmed_texts rt (all_types modules))

  unfoldable pub feature_names : List AppModule → List String
  feature_names modules = set_of (trimmed_texts rt (map (λ m. m.feature) modules))

  unfoldable pub supports : List AppModule → String → Bool
  unfolding supported_types
  supports modules type =
      if is_empty (trim type) then false else contains (trim type) (supported_types modules)

  unfoldable pub build_capabilities : List AppModule → Fields → Capabilities
  unfolding supported_types feature_names
  build_capabilities modules base = record {
    protocol_version =
        or_text
          (trimmed_text rt (
            if truthy (member "protocolVersion" base)
            then member "protocolVersion" base
            else str "openclaw-pair-v2"))
          "openclaw-pair-v2";
    supported_messages = set_of (
        trimmed_texts rt (
          elems (array_or_empty (member "supportedMessages" base))
          ++ map (λ s. str s) (supported_types modules)));
    features = set_of (
        trimmed_texts rt (
          elems (array_or_empty (member "features" base))
          ++ map (λ s. str s) (feature_names modules)));
    app_id = optional_text rt (member "appId" base);
    app_version = optional_text rt (member "appVersion" base);
  }

  -- A listed type that is trimmed and not empty stands in the trimmed list.
  lists_type-trimmed :
      (type : String) (vs : List Value)
      → IsId type
      → lists_type type vs ≡ true
      → contains type (trimmed_texts rt vs) ≡ true
  unfolding lists_type contains
  lists_type-trimmed type [] i h = cc
  lists_type-trimmed type (v ∷ vs) i h = elim (Bool-cases (is_text v type)) [
    | inl e ↦ rw (is_text-eq v type e, trimmed_text-IsId rt type i, i.1) (rw eq_refl refl)
    | inr e ↦
        let rest = lists_type-trimmed type vs i (ground arith) in
        elim (Bool-cases (is_empty (trimmed_text rt v))) [
          | inl f ↦ rw f rest
          | inr f ↦ rw f (ground arith)
        ]
  ]

  trimmed_texts-append :
      (vs ws : List Value)
      → trimmed_texts rt (vs ++ ws) ≡ trimmed_texts rt vs ++ trimmed_texts rt ws
  trimmed_texts-append vs ws =
      rw map-append
        (keep-append (λ i. not (is_empty i)) (map (trimmed_text rt) vs) (map (trimmed_text rt) ws))

  all_types-trimmed :
      (type : String) (modules : List AppModule)
      → IsId type
      → (dispatch modules type).1 ≡ true
      → contains type (trimmed_texts rt (all_types modules)) ≡ true
  unfolding all_types dispatch
  all_types-trimmed type [] i h = cc
  all_types-trimmed type (m ∷ ms) i h =
      ap (contains type)
        (trimmed_texts-append (elems (array_or_empty m.supported_messages)) (all_types ms))
      ∙ contains-append type (trimmed_texts rt (elems (array_or_empty m.supported_messages))) _
      ∙ elim (Bool-cases (lists_type type (elems (array_or_empty m.supported_messages)))) [
        | inl e ↦
            rw (lists_type-trimmed type (elems (array_or_empty m.supported_messages)) i e) refl
        | inr e ↦
            let rest = all_types-trimmed type ms i (ground (arith, dispatch-cons m ms type)) in
            rw rest (ground arith)
      ]

  -- A type that a message was dispatched on, trimmed and not empty, is one that the registry says
  -- it supports.
  pub dispatch-supports :
      (modules : List AppModule) (type : String)
      → IsId type
      → (dispatch modules type).1 ≡ true
      → supports modules type ≡ true
  unfolding supports
  dispatch-supports modules type i h =
      rw (i.0, i.1) (contains-set_of type _ ∙ all_types-trimmed type modules i h)
