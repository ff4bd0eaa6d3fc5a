-- ===== src/Peer/Trust.antt =====
-- What a peer channel lets through, before and after the peer is verified.
use Prim.Native.String.{String}
use mathlib.Core.Path.{◌≡◌, refl}
use mathlib.Core.Bool.{Bool, true, false}
use mathlib.Core.Logic.{inl, inr, ◌≢◌}
use text.Mathlib.TextPositions.{eq_refl}
use openclawapp.Base.{Bool-cases, lookup}
use openclawapp.Base.Values.{Value, arr, obj, Fields, end, Runtime, member}
use openclawapp.Chat.{PeerMessage}
use openclawapp.Chat.Codec.{is_text}
use openclawapp.Peer.{Options, Channel, trusted_remote_role, hello_text, hello_type, Capabilities}
use openclawapp.Peer.Messages.{
  Reaction, verify_hello, learned, delivered, hello_fields, is_trusted_hello, react_hello,
  react_object, react,
}

-- Each side names the other as the peer that it trusts, in the same binding.
pub record IsMutual (here there : Options) : Type 0 where
  pub binding : here.binding_id ≡ there.binding_id
  pub role : trusted_remote_role here.role ≡ there.role
  pub id : here.trusted_peer_id ≡ there.self_id
  pub key : here.trusted_peer_public_key ≡ there.self_public_key

-- Neither a delivery nor capabilities.
abbrev is_early : Reaction → Bool
is_early (delivered m) = false
is_early (learned k) = false
is_early _ = true

module _ (rt : Runtime) where
  react_hello-is_early :
      (options : Options) (payload : Fields) → is_early (react_hello rt options payload) ≡ true
  unfolding react_hello
  react_hello-is_early options payload = elim (Bool-cases (is_trusted_hello rt options payload)) [
    | inl e ↦ rw e refl
    | inr e ↦ rw e refl
  ]

  early_object :
      (options : Options) (c : Channel) (payload : Fields)
      → c.remote_verified ≡ false
      → is_early (react_object rt options c payload) ≡ true
  unfolding react_object
  early_object options c payload h =
      elim (Bool-cases (is_text (member "type" payload) hello_type)) [
        | inl e ↦ rw e (react_hello-is_early options payload)
        | inr e ↦ rw (e, h) refl
      ]

  react-is_early :
      (options : Options) (c : Channel) (value : Value)
      → c.remote_verified ≡ false
      → is_early (react rt options c value) ≡ true
  unfolding react
  react-is_early options c (obj fs) h = early_object options c fs h
  react-is_early options c (arr vs) h = early_object options c end h
  react-is_early options c _ h = refl

  -- Before the peer is verified, no message is delivered and no capabilities are kept.
  pub react-unverified :
      (options : Options) (c : Channel) (value : Value)
      → c.remote_verified ≡ false
      → ((m : PeerMessage) → react rt options c value ≢ delivered m)
        × ((k : Capabilities) → react rt options c value ≢ learned k)
  react-unverified options c value h =
      let early = react-is_early options c value h in (λ m e. cc, λ k e. cc)

  -- The hello of a peer that is trusted mutually is not refused: its signature is verified, over
  -- the text that the peer signs.
  pub react-hello_fields :
      (here there : Options) (c : Channel) (nonce : String) (signature : Value)
      → IsMutual here there
      → react rt here c (obj (hello_fields rt there nonce signature))
        ≡ verify_hello
            (hello_text there.binding_id there.role there.self_id there.self_public_key nonce)
            signature
  unfolding react react_object react_hello is_trusted_hello hello_fields lookup
  react-hello_fields here there c nonce signature t =
      rw (t.binding, t.role, t.id, t.key) (simp (eq_refl))
