-- ===== src/Peer/Greeting.antt =====
-- The greeting of packages/pair-sdk/src/peer.ts from the peer's hello to the ready channel.
use Prim.Native.Nat.{ℕ}
use Prim.Native.String.{String}
use mathlib.Core.Path.{◌≡◌, refl, subst, sym}
use mathlib.Core.Bool.{Bool, true}
use mathlib.Core.List.{List, [], ◌∷◌, ◌++◌, append-nil}
use mathlib.Core.Logic.{inl, inr}
use native.Mathlib.Omega.{arith}
use openclawapp.Base.{if◌then◌else◌, Bool-cases}
use openclawapp.Base.Values.{Value, obj, Runtime, ok}
use openclawapp.Peer.{Options, Channel, hello_text, is_open, is_ready}
use openclawapp.Peer.Messages.{
  Sent, hello, capabilities, normalize_capabilities, send_capabilities, hello_fields,
}
use openclawapp.Peer.Signals.{Browser}
use openclawapp.Peer.Events.{
  check_hello, is_current_channel, on_message, Sending, resume_auth, resume_check, resume_hello,
  after_hello, finish_greeting,
}
use openclawapp.Peer.Worlds.{
  World, channel_message, settle_auth, resume_task, handle_message, handle, run,
}
use openclawapp.Peer.Trust.{IsMutual, react-hello_fields}

-- The browser signs, and accepts what is sent.
abbrev pub accepted : Sending
accepted = record { signed = true; accepts_hello = true; accepts_capabilities = true }

module _ (rt : Runtime) (browser : Browser) (verify : String → String → Value → Bool)
    (options : Options) where
  -- The world in which only the verification of a hello is awaited.
  abbrev checking : String → Value → World → World
  checking text signature w = record w { tasks = check_hello text signature ∷ [] }

  -- The awaited verification, signature and end of a greeting, with nothing in between.
  abbrev pub settle_all : World → World
  settle_all =
      run rt browser verify options
        (settle_auth 0 accepted ∷ settle_auth 0 accepted ∷ settle_auth 0 accepted ∷ [])

  -- The hello and the capabilities that are not sent yet.
  abbrev pub greeting : Channel → List Sent
  greeting c =
      (if c.hello_sent then [] else hello ∷ [])
      ++ (if c.capabilities_sent
          then []
          else capabilities (normalize_capabilities rt options.capabilities) ∷ [])

  -- The channel is ready, its greeting is out, and nothing is awaited.
  pub record IsGreeted (before after : World) : Type 0 where
    pub ready : is_ready after.channel ≡ true
    pub hello_sent : after.channel.hello_sent ≡ true
    pub capabilities_sent : after.channel.capabilities_sent ≡ true
    pub sent : after.sent ≡ before.sent ++ greeting before.channel
    pub settled : after.tasks ≡ []

  settle-IsGreeted :
      (text : String) (signature : Value) (w : World)
      → is_open w.channel.data_channel ≡ true
      → verify options.trusted_peer_public_key text signature ≡ true
      → IsGreeted w (settle_all (checking text signature w))
  unfolding handle resume_task resume_auth resume_check resume_hello after_hello finish_greeting
      send_capabilities is_ready
  settle-IsGreeted text signature w o v = elim (Bool-cases w.channel.hello_sent) [
    | inl e ↦ elim (Bool-cases w.channel.capabilities_sent) [
      | inl f ↦ record {
        ready = simp (o, v, e, f);
        hello_sent = simp (o, v, e, f);
        capabilities_sent = simp (o, v, e, f);
        sent = simp (o, v, e, f, append-nil);
        settled = simp (o, v, e, f);
      }
      | inr f ↦ record {
        ready = simp (o, v, e, f);
        hello_sent = simp (o, v, e, f);
        capabilities_sent = simp (o, v, e, f);
        sent = simp (o, v, e, f, append-nil);
        settled = simp (o, v, e, f);
      }
    ]
    | inr e ↦ elim (Bool-cases w.channel.capabilities_sent) [
      | inl f ↦ record {
        ready = ground arith;
        hello_sent = ground arith;
        capabilities_sent = ground arith;
        sent = ground (arith, append-nil w.sent, append-nil (w.sent ++ (hello ∷ [])));
        settled = ground arith;
      }
      | inr f ↦ record {
        ready = ground arith;
        hello_sent = ground arith;
        capabilities_sent = ground arith;
        sent = ground (arith, append-nil w.sent, append-nil (w.sent ++ (hello ∷ own ∷ [])));
        settled = ground arith;
      }
    ]
  ]
    where
      own : Sent
      own = capabilities (normalize_capabilities rt options.capabilities)

  -- The hello of the mutually trusted peer makes an open channel ready: it arrives on the current
  -- channel while nothing is awaited, its signature holds, and the own signature and sends are not
  -- rejected. With no event between the steps of the greeting, the channel is then ready, and of
  -- the own hello and capabilities exactly what was not sent before is sent.
  pub greet-IsGreeted :
      (there : Options) (nonce raw : String) (signature : Value) (id owner : ℕ) (w : World)
      → IsMutual options there
      → is_current_channel id owner w.channel ≡ true
      → is_open w.channel.data_channel ≡ true
      → w.tasks ≡ []
      → rt.json_parse raw ≡ ok (obj (hello_fields rt there nonce signature))
      → verify options.trusted_peer_public_key
          (hello_text there.binding_id there.role there.self_id there.self_public_key nonce)
          signature
        ≡ true
      → IsGreeted w (settle_all (handle rt browser verify options (channel_message id owner raw) w))
  unfolding handle handle_message on_message
  greet-IsGreeted there nonce raw signature id owner w m c o t p v =
      subst (λ after. IsGreeted w (settle_all after)) (sym arrived)
        (told (settle-IsGreeted text signature received o v))
    where
      text : String
      text = hello_text there.binding_id there.role there.self_id there.self_public_key nonce

      received : World
      received = record w { received = obj (hello_fields rt there nonce signature) ∷ w.received }

      arrived :
          handle rt browser verify options (channel_message id owner raw) w
          ≡ checking text signature received
      arrived =
          rw
            (
              handle_message,
              p,
              on_message,
              c,
              react-hello_fields rt options there w.channel nonce signature m,
              t,
              append-nil w.sent,
              append-nil w.delivered,
            )
            refl

      told : {after : World} → IsGreeted received after → IsGreeted w after
      told g = record {
        ready = g.ready;
        hello_sent = g.hello_sent;
        capabilities_sent = g.capabilities_sent;
        sent = g.sent;
        settled = g.settled;
      }
