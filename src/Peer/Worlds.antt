-- ===== src/Peer/Worlds.antt =====
-- packages/pair-sdk/src/peer.ts: a peer channel among the browser's events. Every `await` ends a
-- step, so that steps of different callbacks interleave; `enqueueSignal` runs one signal at a time.
use Prim.Native.Nat.{ℕ, zero, suc}
use Prim.Native.String.{String}
use mathlib.Core.Bool.{Bool, false}
use mathlib.Core.Option.{Option, none, some}
use mathlib.Core.List.{List, [], ◌∷◌, ◌++◌}
use openclawapp.Base.{if◌then◌else◌}
use openclawapp.Base.Values.{Value, Runtime, ok, err}
use openclawapp.Chat.{PeerMessage}
use openclawapp.Peer.{idle, Options, Description, Channel}
use openclawapp.Peer.Messages.{Sent}
use openclawapp.Peer.Descriptions.{normalize_candidate}
use openclawapp.Peer.Signals.{
  Browser, SignalTask, Signal, ice, Done, connect, close, handle_signal, resume_signal,
}
use openclawapp.Peer.Events.{
  AuthTask, Turn, Sending, is_current_peer, with_ready_state, on_connection_state, on_ice_state,
  on_data_channel, on_open, on_close, on_error, on_message, resume_auth,
}

-- The channel, what its callbacks wait for, the signals that are queued, and what left the channel.
-- `received` keeps the values that its data channels have received.
pub record World : Type 0 where
  pub channel : Channel
  pub tasks : List AuthTask
  pub offers : List SignalTask
  pub chain : Option SignalTask
  pub queue : List (String × Value)
  pub received : List Value
  pub sent : List Sent
  pub delivered : List PeerMessage
  pub signals : List Signal
  pub added : List (ℕ × Value)

-- What the program, the peer or the browser does next. A task is named by its place.
pub data Event : Type 0 where
  asked_connect asked_close next_signal reject_signal : Event
  got_signal : (type : String) (payload : Value) → Event
  settle_signal : Description → Event
  settle_offer : (place : ℕ) (given : Description) → Event
  reject_offer : (place : ℕ) → Event
  found_candidate : (peer : ℕ) (candidate : Value) → Event
  opened_channel : (peer : ℕ) (ready : String) → Event
  connection_state ice_state : (peer : ℕ) (state ice : String) → Event
  ready_state : (id : ℕ) (state : String) → Event
  channel_opened channel_closed channel_failed : (id owner : ℕ) → Event
  channel_message : (id owner : ℕ) (raw : String) → Event
  settle_auth : (place : ℕ) (sending : Sending) → Event

-- The constructor of `PairV2PeerChannel`.
unfoldable pub start : World
start = record {
  channel = record {
    fresh = 0;
    peer = none;
    data_channel = none;
    state = idle;
    pending_remote_candidates = [];
    hello_sent = false;
    capabilities_sent = false;
    remote_verified = false;
    remote_capabilities = none;
    closed_by_user = false;
  };
  tasks = [];
  offers = [];
  chain = none;
  queue = [];
  received = [];
  sent = [];
  delivered = [];
  signals = [];
  added = [];
}

module _ {ℓ} {A : Type ℓ} where
  abbrev pub at_place : ℕ → List A → Option A
  at_place n [] = none
  at_place zero (x ∷ xs) = some x
  at_place (suc n) (x ∷ xs) = at_place n xs

  abbrev pub without_place : ℕ → List A → List A
  without_place n [] = []
  without_place zero (x ∷ xs) = xs
  without_place (suc n) (x ∷ xs) = x ∷ without_place n xs

  abbrev pub listed : Option A → List A
  listed none = []
  listed (some x) = x ∷ []

-- A handler of a signal, or `connect`, is at its next `await`; its task goes to the chain, or else
-- to the offers.
abbrev pub take_done : World → Done → World
take_done w done = record w {
  channel = done.channel;
  signals = w.signals ++ done.signals;
  added = w.added ++ done.added;
}

abbrev pub in_chain : World → Done → World
in_chain w done = record (take_done w done) { chain = done.task }

abbrev pub in_offers : World → Done → World
in_offers w done = record (take_done w done) { offers = w.offers ++ listed done.task }

-- A callback of the data channel is at its next `await`.
abbrev pub take_turn : World → Turn → World
take_turn w turn = record w {
  channel = turn.channel;
  tasks = w.tasks ++ listed turn.task;
  sent = w.sent ++ turn.sent;
  delivered = w.delivered ++ turn.delivered;
}

abbrev pub on_channel : (Channel → Channel) → World → World
on_channel f w = record w { channel = f w.channel }

module _ (rt : Runtime) (browser : Browser) (verify : String → String → Value → Bool) where
  unfoldable pub handle_message : Options → ℕ → ℕ → String → World → World
  unfolding on_message
  handle_message options id owner raw w = elim (rt.json_parse raw) [
    | err e ↦ w
    | ok value ↦
        take_turn (record w { received = value ∷ w.received })
          (on_message rt verify options id owner value w.channel)
  ]

  -- The signal that is first in the queue, once no other is handled.
  unfoldable pub run_queue : Options → World → World
  unfolding handle_signal
  run_queue options w = elim w.chain [
    | some t ↦ w
    | none ↦ elim w.queue [
      | [] ↦ w
      | (type, payload) ∷ queue ↦
          in_chain (record w { queue = queue })
            (handle_signal rt browser options w.channel type payload)
    ]
  ]

  -- The browser settles what the handled signal waits for.
  unfoldable pub resume_chain : Description → World → World
  unfolding resume_signal
  resume_chain given w = elim w.chain [
    | none ↦ w
    | some t ↦ in_chain w (resume_signal w.channel t given)
  ]

  unfoldable pub resume_offer : ℕ → Description → World → World
  unfolding resume_signal
  resume_offer place given w = elim (at_place place w.offers) [
    | none ↦ w
    | some t ↦
        in_offers (record w { offers = without_place place w.offers })
          (resume_signal w.channel t given)
  ]

  unfoldable pub resume_task : Options → ℕ → Sending → World → World
  unfolding resume_auth
  resume_task options place sending w = elim (at_place place w.tasks) [
    | none ↦ w
    | some t ↦
        take_turn (record w { tasks = without_place place w.tasks })
          (resume_auth rt verify options t sending w.channel)
  ]

  -- `onicecandidate`, which `disposePeer` removes.
  unfoldable pub emit_candidate : ℕ → Value → World → World
  unfolding is_current_peer normalize_candidate
  emit_candidate peer candidate w = elim (normalize_candidate rt candidate) [
    | none ↦ w
    | some c ↦
        if is_current_peer peer w.channel
        then record w { signals = w.signals ++ (ice c ∷ []) }
        else w
  ]

  unfoldable pub handle : Options → Event → World → World
  unfolding handle_message run_queue resume_chain resume_offer resume_task emit_candidate connect
      close is_current_peer on_data_channel on_connection_state on_ice_state with_ready_state
      on_open on_close on_error
  handle options asked_connect w = in_offers w (connect rt browser w.channel)
  handle options asked_close w = on_channel close w
  handle options (got_signal type payload) w = record w {
    queue = w.queue ++ ((type, payload) ∷ []);
  }
  handle options next_signal w = run_queue options w
  handle options (settle_signal given) w = resume_chain given w
  handle options reject_signal w = record w { chain = none }
  handle options (settle_offer place given) w = resume_offer place given w
  handle options (reject_offer place) w = record w { offers = without_place place w.offers }
  handle options (found_candidate peer candidate) w = emit_candidate peer candidate w
  handle options (opened_channel peer ready) w =
      if is_current_peer peer w.channel then on_channel (on_data_channel ready) w else w
  handle options (connection_state peer state ice_now) w =
      on_channel (on_connection_state peer state ice_now) w
  handle options (ice_state peer state ice_now) w = on_channel (on_ice_state peer state ice_now) w
  handle options (ready_state id state) w = on_channel (with_ready_state id state) w
  handle options (channel_opened id owner) w = take_turn w (on_open id owner w.channel)
  handle options (channel_closed id owner) w = on_channel (on_close id owner) w
  handle options (channel_failed id owner) w = on_channel (on_error id owner) w
  handle options (channel_message id owner raw) w = handle_message options id owner raw w
  handle options (settle_auth place sending) w = resume_task options place sending w

  -- The worlds that a run of events reaches.
  pub data Reach (options : Options) : World → Type 0 where
    started : Reach options start
    stepped : {w : World} → Reach options w → (e : Event) → Reach options (handle options e w)

  -- The world after these events.
  abbrev pub run : Options → List Event → World → World
  run options [] w = w
  run options (e ∷ es) w = run options es (handle options e w)
