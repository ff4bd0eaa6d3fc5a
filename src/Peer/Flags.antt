-- ===== src/Peer/Flags.antt =====
-- What the signals and the browser's events do to the flags of a peer channel: each keeps all of
-- them, or resets all of them.
use Prim.Native.Nat.{ℕ}
use Prim.Native.String.{String}
use mathlib.Core.Path.{◌≡◌, refl, ◌∙◌}
use mathlib.Core.Bool.{Bool, true, false}
use mathlib.Core.Option.{Option, none}
use mathlib.Core.Logic.{◌⊎◌, inl, inr}
use native.Mathlib.Omega.{arith}
use openclawapp.Base.{Option-cases}
use openclawapp.Base.Values.{Value, Runtime, Result-cases, optional_member}
use openclawapp.Peer.{
  Capabilities, Options, Description, PeerState, PeerConnection, Channel, connecting, dispose,
}
use openclawapp.Peer.Descriptions.{normalize_description}
use openclawapp.Peer.Signals.{
  Browser, SignalTask, set_remote, create_answer, create_offer, with_remote, with_local, flush,
  close, new_peer, ensure_peer, with_channel, connect, handle_offer, handle_answer, handle_ice,
  handle_signal, resume_signal, repeat_offer, own_answer, should_recreate_for_offer,
  should_recreate_for_connect,
}
use openclawapp.Peer.Events.{
  with_ready_state, on_connection_state, on_ice_state, on_close, on_error,
}

-- The flags of the greeting.
pub record Flags : Type 0 where
  pub hello_sent : Bool
  pub capabilities_sent : Bool
  pub remote_verified : Bool
  pub remote_capabilities : Option Capabilities

abbrev pub flags : Channel → Flags
flags c = record {
  hello_sent = c.hello_sent;
  capabilities_sent = c.capabilities_sent;
  remote_verified = c.remote_verified;
  remote_capabilities = c.remote_capabilities;
}

abbrev pub cleared : Flags
cleared = record {
  hello_sent = false;
  capabilities_sent = false;
  remote_verified = false;
  remote_capabilities = none;
}

-- All flags are kept, or all are reset.
abbrev pub Keeps : Channel → Channel → Type 0
Keeps c next = (flags next ≡ flags c) ⊎ (flags next ≡ cleared)

Keeps-trans : (a b c : Channel) → Keeps a b → Keeps b c → Keeps a c
Keeps-trans a b c (inl e) (inl f) = inl (f ∙ e)
Keeps-trans a b c (inr e) (inl f) = inr (f ∙ e)
Keeps-trans a b c _ (inr f) = inr f

dispose-Keeps : (state : PeerState) (c : Channel) → Keeps c (dispose state c)
unfolding dispose
dispose-Keeps state c = inr refl

pub close-Keeps : (c : Channel) → Keeps c (close c)
unfolding close dispose
close-Keeps c = inr refl

with_remote-Keeps : (id : ℕ) (d : Description) (c : Channel) → flags (with_remote id d c) ≡ flags c
unfolding with_remote
with_remote-Keeps id d c = ground arith

with_local-Keeps : (id : ℕ) (d : Description) (c : Channel) → flags (with_local id d c) ≡ flags c
unfolding with_local
with_local-Keeps id d c = ground arith

flush-Keeps : (c : Channel) → flags (flush c).0 ≡ flags c
unfolding flush
flush-Keeps c = ground arith

pub resume_signal-Keeps :
    (c : Channel) (t : SignalTask) (given : Description) → Keeps c (resume_signal c t given).channel
unfolding resume_signal
resume_signal-Keeps c (set_remote id d true) given =
    inl (flush-Keeps (with_remote id d c) ∙ with_remote-Keeps id d c)
resume_signal-Keeps c (set_remote id d false) given =
    inl (flush-Keeps (with_remote id d c) ∙ with_remote-Keeps id d c)
resume_signal-Keeps c (create_answer id) given = inl (with_local-Keeps id given c)
resume_signal-Keeps c (create_offer id) given = inl (with_local-Keeps id given c)

pub with_ready_state-Keeps :
    (id : ℕ) (state : String) (c : Channel) → Keeps c (with_ready_state id state c)
unfolding with_ready_state
with_ready_state-Keeps id state c = inl (ground arith)

pub on_connection_state-Keeps :
    (id : ℕ) (state ice : String) (c : Channel) → Keeps c (on_connection_state id state ice c)
unfolding on_connection_state dispose
on_connection_state-Keeps id state ice c = ground arith

pub on_ice_state-Keeps :
    (id : ℕ) (state ice : String) (c : Channel) → Keeps c (on_ice_state id state ice c)
unfolding on_ice_state dispose
on_ice_state-Keeps id state ice c = ground arith

pub on_close-Keeps : (id owner : ℕ) (c : Channel) → Keeps c (on_close id owner c)
unfolding on_close dispose
on_close-Keeps id owner c = ground arith

pub on_error-Keeps : (id owner : ℕ) (c : Channel) → Keeps c (on_error id owner c)
unfolding on_error dispose
on_error-Keeps id owner c = ground arith

module _ (rt : Runtime) (browser : Browser) where
  ensure_peer-Keeps : (force : Bool) (c : Channel) → Keeps c (ensure_peer rt browser force c).0
  unfolding ensure_peer new_peer dispose
  ensure_peer-Keeps true c = inr refl
  ensure_peer-Keeps false c = ground arith

  with_channel-flags : (c : Channel) → flags (with_channel rt browser c) ≡ flags c
  unfolding with_channel
  with_channel-flags c = ground arith

  abbrev asked : Channel → Channel
  asked c = record c { closed_by_user = false }

  pub connect-Keeps : (c : Channel) → Keeps c (connect rt browser c).channel
  unfolding connect
  connect-Keeps c =
      let force = should_recreate_for_connect (asked c) in
      ground (
        arith,
        ensure_peer-Keeps force (asked c),
        with_channel-flags (ensure_peer rt browser force (asked c)).0,
      )

  repeat_offer-flags :
      (c : Channel) (p : PeerConnection) → flags (repeat_offer rt browser c p).channel ≡ flags c
  repeat_offer-flags c p = elim (Option-cases (own_answer rt browser p)) [
    | inl e ↦ rw (repeat_offer, e) (flush-Keeps c)
    | inr (d, e) ↦ rw (repeat_offer, e) refl
  ]

  handle_offer-Keeps : (c : Channel) (v : Value) → Keeps c (handle_offer rt browser c v).channel
  unfolding handle_offer
  handle_offer-Keeps c v =
      elim (Result-cases (normalize_description rt (optional_member "description" v) "offer")) [
        | inl (e, h) ↦ rw (handle_offer, h) (inl refl)
        | inr (d, h) ↦
            rw (handle_offer, h)
              (let force = should_recreate_for_offer (asked c) d in
                let (kept, p) = ensure_peer rt browser force (asked c) in
                ground (
                  arith,
                  ensure_peer-Keeps force (asked c),
                  repeat_offer-flags (record kept { state = connecting }) p,
                ))
      ]

  handle_answer-Keeps : (c : Channel) (v : Value) → Keeps c (handle_answer rt browser c v).channel
  unfolding handle_answer
  handle_answer-Keeps c v = ground (arith, ensure_peer-Keeps false c)

  handle_ice-Keeps : (c : Channel) (v : Value) → Keeps c (handle_ice rt browser c v).channel
  unfolding handle_ice
  handle_ice-Keeps c v = ground (arith, ensure_peer-Keeps false c)

  -- A signal keeps all flags of the greeting, or resets all of them.
  pub handle_signal-Keeps :
      (options : Options) (c : Channel) (type : String) (payload : Value)
      → Keeps c (handle_signal rt browser options c type payload).channel
  unfolding handle_signal
  handle_signal-Keeps options c type payload = ground (
    arith,
    handle_offer-Keeps c payload,
    handle_answer-Keeps c payload,
    handle_ice-Keeps c payload,
  )
