-- ===== src/Peer/Secrecy.antt =====
-- What holds of a peer channel in every world that a run reaches: nothing is delivered and no
-- peer counts as verified unless the trusted peer's signed hello was received.
use Prim.Native.String.{String}
use mathlib.Core.Path.{◌≡◌, refl, sym, subst}
use mathlib.Core.Bool.{Bool, true, false}
use mathlib.Core.Option.{none, some}
use mathlib.Core.List.{List, [], ◌∷◌}
use mathlib.Core.Logic.{◌⊎◌, inl, inr}
use native.Mathlib.Omega.{arith}
use openclawapp.Base.{All}
use openclawapp.Base.Values.{Value, Fields, Runtime, member, text_of}
use openclawapp.Chat.{PeerMessage}
use openclawapp.Peer.{Options, Channel, trusted_remote_role, hello_text}
use openclawapp.Peer.Messages.{object_members, is_trusted_hello}
use openclawapp.Peer.Events.{AuthTask, check_hello, sign_hello, greeted, Turn}
use openclawapp.Peer.Flags.{Flags, flags, Keeps}
use openclawapp.Peer.Worlds.{listed}

module _ (rt : Runtime) (verify : String → String → Value → Bool) (options : Options) where
  -- The value is a hello of the trusted peer, and its signature holds.
  abbrev pub IsHello : Value → Type 0
  IsHello v =
      (payload : Fields) × (object_members v ≡ some payload)
      × (is_trusted_hello rt options payload ≡ true)
      × (verify options.trusted_peer_public_key
            (hello_text options.binding_id (trusted_remote_role options.role)
              options.trusted_peer_id options.trusted_peer_public_key
              (text_of rt (member "nonce" payload)))
            (member "signature" payload)
          ≡ true)

  -- Such a hello was received.
  abbrev pub HasHello : List Value → Type 0
  HasHello [] = ⊥
  HasHello (v ∷ vs) = IsHello v ⊎ HasHello vs

  pub record IsSound (received : List Value) (f : Flags) : Type 0 where
    pub verified : f.remote_verified ≡ true → HasHello received
    pub announced : f.capabilities_sent ≡ true → (f.hello_sent ≡ true) × (f.remote_verified ≡ true)
    pub learned : f.remote_verified ≡ false → f.remote_capabilities ≡ none

  -- A task that waits for a verification has received what it verifies.
  abbrev pub IsChecked : List Value → AuthTask → Type 0
  IsChecked received (check_hello text signature) =
      verify options.trusted_peer_public_key text signature ≡ true → HasHello received
  IsChecked received _ = Unit

  abbrev pub IsSoundTurn : List Value → Turn → Type 0
  IsSoundTurn received turn =
      IsSound received (flags turn.channel)
      × All (IsChecked received) (listed turn.task)
      × All (λ m. HasHello received) turn.delivered

  pub Keeps-IsSound :
      (received : List Value) (c next : Channel)
      → Keeps c next
      → IsSound received (flags c)
      → IsSound received (flags next)
  Keeps-IsSound received c next (inl e) h = subst (IsSound received) (sym e) h
  Keeps-IsSound received c next (inr e) h =
      subst (IsSound received) (sym e) (record {
        verified = λ p. ground arith;
        announced = λ p. ground arith;
        learned = λ p. refl;
      })

  -- Another value that is received changes nothing.
  pub more-IsSound :
      (v : Value) (received : List Value) (f : Flags)
      → IsSound received f
      → IsSound (v ∷ received) f
  more-IsSound v received f h = record {
    verified = λ p. inr (h.verified p);
    announced = h.announced;
    learned = h.learned;
  }

  pub more-IsChecked :
      (v : Value) (received : List Value) (ts : List AuthTask)
      → All (IsChecked received) ts
      → All (IsChecked (v ∷ received)) ts
  more-IsChecked v received [] h = tt
  more-IsChecked v received (check_hello text signature ∷ ts) (a, h) =
      (λ p. inr (a p), more-IsChecked v received ts h)
  more-IsChecked v received (sign_hello g ∷ ts) (a, h) = (tt, more-IsChecked v received ts h)
  more-IsChecked v received (greeted ∷ ts) (a, h) = (tt, more-IsChecked v received ts h)

  pub more-delivered :
      (v : Value) (received : List Value) (ms : List PeerMessage)
      → All (λ m. HasHello received) ms
      → All (λ m. HasHello (v ∷ received)) ms
  more-delivered v received [] h = tt
  more-delivered v received (m ∷ ms) (a, h) = (inr a, more-delivered v received ms h)
