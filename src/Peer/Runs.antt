-- ===== src/Peer/Runs.antt =====
-- What holds of a peer channel in every world that a run of it reaches: no peer counts as verified
-- and nothing is delivered unless the trusted peer's signed hello was received.
use Prim.Native.Nat.{ℕ, zero, suc}
use Prim.Native.String.{String}
use mathlib.Core.Path.{◌≡◌, refl, subst}
use mathlib.Core.Bool.{Bool, true, false}
use mathlib.Core.Option.{Option, none, some, none-ne-some, some_inj}
use mathlib.Core.List.{List, [], ◌∷◌, ◌++◌}
use mathlib.Core.Logic.{inl, inr, ◌≢◌, ◌⊎◌}
use native.Mathlib.Omega.{arith}
use openclawapp.Base.{Option-cases, Bool-cases, All, All-append}
use openclawapp.Base.Values.{Value, Runtime, Result-cases}
use openclawapp.Chat.{PeerMessage}
use openclawapp.Peer.{Options, Channel, Description}
use openclawapp.Peer.Descriptions.{normalize_candidate}
use openclawapp.Peer.Signals.{
  Browser, Done, Signal, SignalTask, ice, connect, close, handle_signal, resume_signal,
}
use openclawapp.Peer.Events.{
  AuthTask, Turn, Sending, is_current_peer, with_ready_state, on_connection_state, on_ice_state,
  on_data_channel, on_open, on_close, on_error, on_message, resume_auth,
}
use openclawapp.Peer.Flags.{
  Keeps, flags, connect-Keeps, close-Keeps, handle_signal-Keeps, resume_signal-Keeps,
  with_ready_state-Keeps, on_connection_state-Keeps, on_ice_state-Keeps, on_close-Keeps,
  on_error-Keeps,
}
use openclawapp.Peer.Secrecy.{
  HasHello, IsSound, IsChecked, IsSoundTurn, Keeps-IsSound, more-IsChecked, more-delivered,
}
use openclawapp.Peer.Turns.{on_open-IsSoundTurn, resume_auth-IsSoundTurn, on_message-IsSoundTurn}
use openclawapp.Peer.Worlds.{
  World, Event, asked_connect, asked_close, next_signal, reject_signal, got_signal, settle_signal,
  settle_offer, reject_offer, found_candidate, opened_channel, connection_state, ice_state,
  ready_state, channel_opened, channel_closed, channel_failed, channel_message, settle_auth, start,
  at_place, without_place, listed, take_turn, take_done, handle_message, run_queue, resume_chain,
  resume_offer, resume_task, emit_candidate, handle, Reach, started, stepped,
}

module _ (rt : Runtime) (browser : Browser) (verify : String → String → Value → Bool)
    (options : Options) where
  pub record IsSecure (w : World) : Type 0 where
    pub sound : IsSound rt verify options w.received (flags w.channel)
    pub checked : All (IsChecked rt verify options w.received) w.tasks
    pub shown : All (λ m. HasHello rt verify options w.received) w.delivered

  start-IsSecure : IsSecure start
  unfolding start
  start-IsSecure = record {
    sound = record {
      verified = λ p. ground arith;
      announced = λ p. ground arith;
      learned = λ p. refl;
    };
    checked = tt;
    shown = tt;
  }

  -- A step of the channel alone.
  channel-IsSecure :
      (w : World) (next : Channel)
      → Keeps w.channel next
      → IsSecure w
      → IsSecure (record w { channel = next })
  channel-IsSecure w next k h = record {
    sound = Keeps-IsSound rt verify options w.received w.channel next k h.sound;
    checked = h.checked;
    shown = h.shown;
  }

  -- A step of a callback, whose value is received already.
  turn-IsSecure :
      (w : World) (turn : Turn)
      → All (IsChecked rt verify options w.received) w.tasks
      → All (λ m. HasHello rt verify options w.received) w.delivered
      → IsSoundTurn rt verify options w.received turn
      → IsSecure (take_turn w turn)
  turn-IsSecure w turn checked shown (sound, tasks, delivered) = record {
    sound = sound;
    checked =
        All-append (IsChecked rt verify options w.received) w.tasks (listed turn.task) checked
          tasks;
    shown =
        All-append (λ m. HasHello rt verify options w.received) w.delivered turn.delivered shown
          delivered;
  }

  -- A task and the tasks without it.
  at_place-All :
      (P : AuthTask → Type 0) (place : ℕ) (ts : List AuthTask) (t : AuthTask)
      → at_place place ts ≡ some t
      → All P ts
      → P t
  at_place-All P place [] t e h = absurd (none-ne-some t e)
  at_place-All P zero (x ∷ ts) t e (a, h) = subst P (some_inj.0 e) a
  at_place-All P (suc n) (x ∷ ts) t e (a, h) = at_place-All P n ts t e h

  without_place-All :
      (P : AuthTask → Type 0) (place : ℕ) (ts : List AuthTask)
      → All P ts
      → All P (without_place place ts)
  without_place-All P place [] h = tt
  without_place-All P zero (x ∷ ts) (a, h) = h
  without_place-All P (suc n) (x ∷ ts) (a, h) = (a, without_place-All P n ts h)

  handle_message-IsSecure :
      (id owner : ℕ) (raw : String) (w : World)
      → IsSecure w
      → IsSecure (handle_message rt browser verify options id owner raw w)
  unfolding handle_message
  handle_message-IsSecure id owner raw w h = elim (Result-cases (rt.json_parse raw)) [
    | inl (e, p) ↦ rw (handle_message, p) h
    | inr (v, p) ↦
        rw (handle_message, p)
          (turn-IsSecure (record w { received = v ∷ w.received })
            (on_message rt verify options id owner v w.channel)
            (more-IsChecked rt verify options v w.received w.tasks h.checked)
            (more-delivered rt verify options v w.received w.delivered h.shown)
            (on_message-IsSoundTurn rt verify options v w.received id owner w.channel h.sound))
  ]

  resume_task-IsSecure :
      (place : ℕ) (sending : Sending) (w : World)
      → IsSecure w
      → IsSecure (resume_task rt browser verify options place sending w)
  unfolding resume_task
  resume_task-IsSecure place sending w h = elim (Option-cases (at_place place w.tasks)) [
    | inl p ↦ rw (resume_task, p) h
    | inr (t, p) ↦
        rw (resume_task, p)
          (turn-IsSecure (record w { tasks = without_place place w.tasks })
            (resume_auth rt verify options t sending w.channel)
            (without_place-All (IsChecked rt verify options w.received) place w.tasks h.checked)
            h.shown
            (resume_auth-IsSoundTurn rt verify options w.received t sending w.channel
              (at_place-All (IsChecked rt verify options w.received) place w.tasks t p h.checked)
              h.sound))
  ]

  -- A handler of a signal, and the world that it leaves.
  done-IsSecure :
      (w : World) (done : Done)
      → Keeps w.channel done.channel
      → IsSecure w
      → IsSecure (take_done w done)
  done-IsSecure w done k h = record {
    sound = Keeps-IsSound rt verify options w.received w.channel done.channel k h.sound;
    checked = h.checked;
    shown = h.shown;
  }

  -- The tasks of the signals are no tasks of the data channel.
  aside-IsSecure :
      (w : World) (offers : List SignalTask) (chain : Option SignalTask)
      (queue : List (String × Value)) (signals : List Signal)
      → IsSecure w
      → IsSecure (record w { offers = offers; chain = chain; queue = queue; signals = signals })
  aside-IsSecure w offers chain queue signals h = record {
    sound = h.sound;
    checked = h.checked;
    shown = h.shown;
  }

  run_queue-IsSecure : (w : World) → IsSecure w → IsSecure (run_queue rt browser verify options w)
  unfolding run_queue
  run_queue-IsSecure w h = elim (Option-cases w.chain) [
    | inr (t, p) ↦ rw (run_queue, p) h
    | inl p ↦ go p w.queue refl
  ]
    where
      go :
          w.chain ≡ none
          → (q : List (String × Value)) → w.queue ≡ q
          → IsSecure (run_queue rt browser verify options w)
      go p [] e = rw (run_queue, p, e) h
      go p ((type, payload) ∷ queue) e =
          rw (run_queue, p, e)
            (let done = handle_signal rt browser options w.channel type payload in
              aside-IsSecure (take_done w done) w.offers done.task queue (w.signals ++ done.signals)
                (done-IsSecure w done
                  (handle_signal-Keeps rt browser options w.channel type payload) h))

  resume_chain-IsSecure :
      (given : Description) (w : World)
      → IsSecure w
      → IsSecure (resume_chain rt browser verify given w)
  unfolding resume_chain
  resume_chain-IsSecure given w h = elim (Option-cases w.chain) [
    | inl p ↦ rw (resume_chain, p) h
    | inr (t, p) ↦
        rw (resume_chain, p)
          (let done = resume_signal w.channel t given in
            aside-IsSecure (take_done w done) w.offers done.task w.queue (w.signals ++ done.signals)
              (done-IsSecure w done (resume_signal-Keeps w.channel t given) h))
  ]

  resume_offer-IsSecure :
      (place : ℕ) (given : Description) (w : World)
      → IsSecure w
      → IsSecure (resume_offer rt browser verify place given w)
  unfolding resume_offer
  resume_offer-IsSecure place given w h = elim (Option-cases (at_place place w.offers)) [
    | inl p ↦ rw (resume_offer, p) h
    | inr (t, p) ↦
        rw (resume_offer, p)
          (let done = resume_signal w.channel t given in
            aside-IsSecure (take_done w done) (without_place place w.offers ++ listed done.task)
              w.chain w.queue (w.signals ++ done.signals)
              (done-IsSecure w done (resume_signal-Keeps w.channel t given) h))
  ]

  emit_candidate-IsSecure :
      (peer : ℕ) (candidate : Value) (w : World)
      → IsSecure w
      → IsSecure (emit_candidate rt browser verify peer candidate w)
  unfolding emit_candidate
  emit_candidate-IsSecure peer candidate w h =
      elim (Option-cases (normalize_candidate rt candidate)) [
        | inl p ↦ rw (emit_candidate, p) h
        | inr (c, p) ↦ elim (Bool-cases (is_current_peer peer w.channel)) [
          | inl q ↦
              rw (emit_candidate, p, q)
                (aside-IsSecure w w.offers w.chain w.queue (w.signals ++ (ice c ∷ [])) h)
          | inr q ↦ rw (emit_candidate, p, q) h
        ]
      ]

  open_channel-IsSecure :
      (peer : ℕ) (ready : String) (w : World)
      → IsSecure w
      → IsSecure (handle rt browser verify options (opened_channel peer ready) w)
  unfolding handle on_data_channel
  open_channel-IsSecure peer ready w h = elim (Bool-cases (is_current_peer peer w.channel)) [
    | inl q ↦ rw (handle, q) (channel-IsSecure w (on_data_channel ready w.channel) (inl refl) h)
    | inr q ↦ rw (handle, q) h
  ]

  -- Every event keeps what holds.
  handle-IsSecure :
      (e : Event) (w : World) → IsSecure w → IsSecure (handle rt browser verify options e w)
  unfolding handle
  handle-IsSecure asked_connect w h =
      let done = connect rt browser w.channel in
      aside-IsSecure (take_done w done) (w.offers ++ listed done.task) w.chain w.queue
        (w.signals ++ done.signals) (done-IsSecure w done (connect-Keeps rt browser w.channel) h)
  handle-IsSecure asked_close w h = channel-IsSecure w (close w.channel) (close-Keeps w.channel) h
  handle-IsSecure (got_signal type payload) w h =
      aside-IsSecure w w.offers w.chain (w.queue ++ ((type, payload) ∷ [])) w.signals h
  handle-IsSecure next_signal w h = run_queue-IsSecure w h
  handle-IsSecure reject_signal w h = aside-IsSecure w w.offers none w.queue w.signals h
  handle-IsSecure (settle_signal given) w h = resume_chain-IsSecure given w h
  handle-IsSecure (settle_offer place given) w h = resume_offer-IsSecure place given w h
  handle-IsSecure (reject_offer place) w h =
      aside-IsSecure w (without_place place w.offers) w.chain w.queue w.signals h
  handle-IsSecure (found_candidate peer candidate) w h = emit_candidate-IsSecure peer candidate w h
  handle-IsSecure (opened_channel peer ready) w h = open_channel-IsSecure peer ready w h
  handle-IsSecure (connection_state peer state ice_now) w h =
      channel-IsSecure w (on_connection_state peer state ice_now w.channel)
        (on_connection_state-Keeps peer state ice_now w.channel) h
  handle-IsSecure (ice_state peer state ice_now) w h =
      channel-IsSecure w (on_ice_state peer state ice_now w.channel)
        (on_ice_state-Keeps peer state ice_now w.channel) h
  handle-IsSecure (ready_state id state) w h =
      channel-IsSecure w (with_ready_state id state w.channel)
        (with_ready_state-Keeps id state w.channel) h
  handle-IsSecure (channel_opened id owner) w h =
      turn-IsSecure w (on_open id owner w.channel) h.checked h.shown
        (on_open-IsSoundTurn rt verify options w.received id owner w.channel h.sound)
  handle-IsSecure (channel_closed id owner) w h =
      channel-IsSecure w (on_close id owner w.channel) (on_close-Keeps id owner w.channel) h
  handle-IsSecure (channel_failed id owner) w h =
      channel-IsSecure w (on_error id owner w.channel) (on_error-Keeps id owner w.channel) h
  handle-IsSecure (channel_message id owner raw) w h = handle_message-IsSecure id owner raw w h
  handle-IsSecure (settle_auth place sending) w h = resume_task-IsSecure place sending w h

  Reach-IsSecure : {w : World} → Reach rt browser verify options w → IsSecure w
  Reach-IsSecure started = start-IsSecure
  Reach-IsSecure (stepped {w} r e) = handle-IsSecure e w (Reach-IsSecure r)

  some_hello :
      (received : List Value) (ms : List PeerMessage)
      → All (λ m. HasHello rt verify options received) ms
      → ms ≢ []
      → HasHello rt verify options received
  some_hello received [] h n = absurd (n refl)
  some_hello received (m ∷ ms) h n = h.0

  -- In every world that a run reaches, in which events and answers of the browser come in any
  -- order: if the peer counts as verified, or a message was delivered, then the data channel
  -- received a hello of the trusted peer whose signature `verify` accepts.
  pub Reach-HasHello :
      (w : World)
      → Reach rt browser verify options w
      → (w.channel.remote_verified ≡ true) ⊎ (w.delivered ≢ [])
      → HasHello rt verify options w.received
  Reach-HasHello w r (inl v) = (Reach-IsSecure r).sound.verified v
  Reach-HasHello w r (inr n) = some_hello w.received w.delivered (Reach-IsSecure r).shown n

  -- In every world that a run reaches: own capabilities count as sent only to a verified peer,
  -- after the own hello, and capabilities of the peer are kept only while it is verified.
  pub Reach-order :
      (w : World)
      → Reach rt browser verify options w
      → ((w.channel.capabilities_sent ≡ false)
          ⊎ ((w.channel.hello_sent ≡ true) × (w.channel.remote_verified ≡ true)))
        × ((w.channel.remote_verified ≡ true) ⊎ (w.channel.remote_capabilities ≡ none))
  Reach-order w r = let h = (Reach-IsSecure r).sound in (announced h, kept h)
    where
      announced :
          IsSound rt verify options w.received (flags w.channel)
          → (w.channel.capabilities_sent ≡ false)
            ⊎ ((w.channel.hello_sent ≡ true) × (w.channel.remote_verified ≡ true))
      announced h = elim (Bool-cases w.channel.capabilities_sent) [
        | inl e ↦ inr (h.announced e)
        | inr e ↦ inl e
      ]

      kept :
          IsSound rt verify options w.received (flags w.channel)
          → (w.channel.remote_verified ≡ true) ⊎ (w.channel.remote_capabilities ≡ none)
      kept h = elim (Bool-cases w.channel.remote_verified) [
        | inl e ↦ inl e
        | inr e ↦ inr (h.learned e)
      ]
