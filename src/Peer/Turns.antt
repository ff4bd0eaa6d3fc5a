-- ===== src/Peer/Turns.antt =====
-- The callbacks of the data channel keep what holds of a peer channel in a run.
use Prim.Native.Nat.{ℕ}
use Prim.Native.String.{String}
use mathlib.Core.Path.{◌≡◌, refl}
use mathlib.Core.Bool.{Bool, true}
use mathlib.Core.Option.{some}
use mathlib.Core.List.{List, ◌∷◌}
use mathlib.Core.Logic.{inl, inr}
use native.Mathlib.Omega.{arith}
use openclawapp.Base.{Bool-cases}
use openclawapp.Base.Values.{Value, arr, obj, Fields, end, Runtime, member}
use openclawapp.Chat.Codec.{is_text}
use openclawapp.Peer.{Options, Channel, connected, hello_type, capabilities_type}
use openclawapp.Peer.Messages.{
  Reaction, ignored, refused, verify_hello, learned, delivered, object_members, is_trusted_hello,
  react, react_object, react_hello, react_app, send_capabilities,
}
use openclawapp.Peer.Events.{
  AuthTask, check_hello, sign_hello, greeted, Turn, Sending, Greeter, opening, answering, on_open,
  on_message, resume_auth, resume_check, resume_hello, finish_greeting, after_hello, apply_reaction,
}
use openclawapp.Peer.Flags.{flags}
use openclawapp.Peer.Secrecy.{IsHello, HasHello, IsSound, IsChecked, IsSoundTurn, more-IsSound}

module _ (rt : Runtime) (verify : String → String → Value → Bool) (options : Options) where
  abbrev IsFine : List Value → Channel → Type 0
  IsFine received c = IsSound rt verify options received (flags c)

  abbrev IsFineTurn : List Value → Turn → Type 0
  IsFineTurn received turn = IsSoundTurn rt verify options received turn

  pub on_open-IsSoundTurn :
      (received : List Value) (id owner : ℕ) (c : Channel)
      → IsFine received c
      → IsFineTurn received (on_open id owner c)
  unfolding on_open
  on_open-IsSoundTurn received id owner c h = ground arith

  send_capabilities-IsSound :
      (received : List Value) (c : Channel)
      → IsFine received c
      → IsFine received (send_capabilities rt options c).0
  unfolding send_capabilities
  send_capabilities-IsSound received c h = ground arith

  finish_greeting-IsSoundTurn :
      (received : List Value) (sending : Sending) (c : Channel)
      → IsFine received c
      → IsFineTurn received (finish_greeting rt verify options sending c)
  unfolding finish_greeting
  finish_greeting-IsSoundTurn received sending c h =
      let sound = send_capabilities-IsSound received (record c { state = connected }) h in
      ground arith

  after_hello-IsSoundTurn :
      (received : List Value) (greeter : Greeter) (sending : Sending) (c : Channel)
      → IsFine received c
      → IsFineTurn received (after_hello rt verify options greeter sending c)
  unfolding after_hello
  after_hello-IsSoundTurn received opening sending c h =
      let sound = send_capabilities-IsSound received (record c { state = connected }) h in
      ground arith
  after_hello-IsSoundTurn received answering sending c h =
      let sound = send_capabilities-IsSound received (record c { state = connected }) h in
      ground arith

  greeted-IsSound :
      (received : List Value) (c : Channel)
      → IsFine received c
      → IsFine received (record c { hello_sent = true })
  greeted-IsSound received c h = record {
    verified = h.verified;
    announced = λ p. (refl, (h.announced p).1);
    learned = h.learned;
  }

  resume_hello-IsSoundTurn :
      (received : List Value) (greeter : Greeter) (sending : Sending) (c : Channel)
      → IsFine received c
      → IsFineTurn received (resume_hello rt verify options greeter sending c)
  unfolding resume_hello
  resume_hello-IsSoundTurn received opening sending c h =
      let now = greeted-IsSound received c h in
      let sound =
        after_hello-IsSoundTurn received opening sending (record c { hello_sent = true }) now in
      ground arith
  resume_hello-IsSoundTurn received answering sending c h =
      let now = greeted-IsSound received c h in
      let sound =
        after_hello-IsSoundTurn received answering sending (record c { hello_sent = true }) now in
      ground arith

  verified-IsSound :
      (received : List Value) (c : Channel)
      → HasHello rt verify options received
      → IsFine received c
      → IsFine received (record c { remote_verified = true })
  verified-IsSound received c hello h = record {
    verified = λ p. hello;
    announced = λ p. ((h.announced p).0, refl);
    learned = λ p. ground arith;
  }

  resume_check-IsSoundTurn :
      (received : List Value) (text : String) (signature : Value) (sending : Sending) (c : Channel)
      → IsChecked rt verify options received (check_hello text signature)
      → IsFine received c
      → IsFineTurn received (resume_check rt verify options text signature sending c)
  unfolding resume_check
  resume_check-IsSoundTurn received text signature sending c checked h =
      elim (Bool-cases (verify options.trusted_peer_public_key text signature)) [
        | inr e ↦ rw (resume_check, e) (h, tt, tt)
        | inl e ↦
            (let now = verified-IsSound received c (checked e) h in
              let sound =
                finish_greeting-IsSoundTurn received sending (record c { remote_verified = true })
                  now in
              ground arith)
      ]

  pub resume_auth-IsSoundTurn :
      (received : List Value) (task : AuthTask) (sending : Sending) (c : Channel)
      → IsChecked rt verify options received task
      → IsFine received c
      → IsFineTurn received (resume_auth rt verify options task sending c)
  unfolding resume_auth
  resume_auth-IsSoundTurn received (check_hello text signature) sending c checked h =
      resume_check-IsSoundTurn received text signature sending c checked h
  resume_auth-IsSoundTurn received (sign_hello greeter) sending c checked h =
      resume_hello-IsSoundTurn received greeter sending c h
  resume_auth-IsSoundTurn received greeted sending c checked h =
      finish_greeting-IsSoundTurn received sending c h

  -- What a reaction to a value rests on.
  abbrev IsJustified : Value → Channel → Reaction → Type 0
  IsJustified v c (verify_hello text signature) =
      verify options.trusted_peer_public_key text signature ≡ true → IsHello rt verify options v
  IsJustified v c (learned k) = c.remote_verified ≡ true
  IsJustified v c (delivered m) = c.remote_verified ≡ true
  IsJustified v c _ = Unit

  react_hello-IsJustified :
      (v : Value) (payload : Fields) (c : Channel)
      → object_members v ≡ some payload
      → IsJustified v c (react_hello rt options payload)
  unfolding react_hello
  react_hello-IsJustified v payload c h = elim (Bool-cases (is_trusted_hello rt options payload)) [
    | inl e ↦ rw (react_hello, e) (λ p. (payload, h, e, p))
    | inr e ↦ rw (react_hello, e) tt
  ]

  react_app-IsJustified :
      (v : Value) (payload : Fields) (c : Channel)
      → c.remote_verified ≡ true
      → IsJustified v c (react_app rt options payload)
  unfolding react_app
  react_app-IsJustified v payload c h = ground arith

  react_object-IsJustified :
      (v : Value) (payload : Fields) (c : Channel)
      → object_members v ≡ some payload
      → IsJustified v c (react_object rt options c payload)
  unfolding react_object
  react_object-IsJustified v payload c h =
      elim (Bool-cases (is_text (member "type" payload) hello_type)) [
        | inl e ↦ rw (react_object, e) (react_hello-IsJustified v payload c h)
        | inr e ↦ elim (Bool-cases c.remote_verified) [
          | inr f ↦ rw (react_object, e, f) tt
          | inl f ↦ elim (Bool-cases (is_text (member "type" payload) capabilities_type)) [
            | inl g ↦ rw (react_object, e, f, g) refl
            | inr g ↦
                rw (react_object, e, f, g)
                  (react_app-IsJustified v payload (record c { remote_verified = true }) refl)
          ]
        ]
      ]

  react-IsJustified : (v : Value) (c : Channel) → IsJustified v c (react rt options c v)
  unfolding react
  react-IsJustified (obj fs) c = react_object-IsJustified (obj fs) fs c refl
  react-IsJustified (arr vs) c = react_object-IsJustified (arr vs) end c refl
  react-IsJustified _ c = tt

  apply_reaction-IsSoundTurn :
      (v : Value) (received : List Value) (r : Reaction) (c : Channel)
      → IsJustified v c r
      → IsFine received c
      → IsFineTurn (v ∷ received) (apply_reaction rt verify options r c)
  apply_reaction-IsSoundTurn v received ignored c j h =
      (more-IsSound rt verify options v received (flags c) h, tt, tt)
  apply_reaction-IsSoundTurn v received (refused e) c j h =
      (more-IsSound rt verify options v received (flags c) h, tt, tt)
  apply_reaction-IsSoundTurn v received (verify_hello text signature) c j h =
      (more-IsSound rt verify options v received (flags c) h, (λ p. inl (j p), tt), tt)
  apply_reaction-IsSoundTurn v received (learned k) c j h = (
    record {
      verified = λ p. inr (h.verified p);
      announced = h.announced;
      learned = λ p. ground arith;
    },
    tt,
    tt,
  )
  apply_reaction-IsSoundTurn v received (delivered m) c j h =
      (more-IsSound rt verify options v received (flags c) h, tt, (inr (h.verified j), tt))

  pub on_message-IsSoundTurn :
      (v : Value) (received : List Value) (id owner : ℕ) (c : Channel)
      → IsFine received c
      → IsFineTurn (v ∷ received) (on_message rt verify options id owner v c)
  unfolding on_message
  on_message-IsSoundTurn v received id owner c h =
      let turn =
        apply_reaction-IsSoundTurn v received (react rt options c v) c (react-IsJustified v c) h in
      let kept = more-IsSound rt verify options v received (flags c) h in ground arith
