-- ===== src/Peer/Events.antt =====
-- packages/pair-sdk/src/peer.ts: the callbacks of the connection and of the data channel, and the
-- greeting, each up to its next `await`. A callback knows the numbers of the objects that it was
-- set on; what the browser settles is an argument.
use Prim.Native.Nat.{ℕ, ◌+◌}
use Prim.Native.String.{String}
use mathlib.Core.Bool.{Bool, true, false, not, ◌&&◌, ◌||◌}
use mathlib.Core.Option.{Option, none, some}
use mathlib.Core.List.{List, [], ◌∷◌}
use text.Mathlib.Text.{◌==◌}
use openclawapp.Base.{if◌then◌else◌, eqb, trim}
use openclawapp.Base.Values.{Value, Runtime}
use openclawapp.Chat.{PeerMessage}
use openclawapp.Peer.{
  disconnected, failed, channel_open, connected, verifying, Options, Channel, dispose, is_open,
}
use openclawapp.Peer.Messages.{
  Reaction, ignored, refused, verify_hello, learned, delivered, Sent, hello, react,
  send_capabilities,
}

unfoldable pub is_current_peer : ℕ → Channel → Bool
is_current_peer id c = elim c.peer [ none ↦ false | some p ↦ eqb p.id id ]

unfoldable pub is_current_channel : ℕ → ℕ → Channel → Bool
unfolding is_current_peer
is_current_channel id owner c =
    elim c.data_channel [ none ↦ false | some d ↦ eqb d.id id ] && is_current_peer owner c

-- The browser changes the states of the connection `id`.
abbrev with_states : ℕ → String → String → Channel → Channel
with_states id state ice c = elim c.peer [
  | none ↦ c
  | some p ↦
      if eqb p.id id
      then record c {
        peer = some (record p { connection_state = state; ice_connection_state = ice });
      }
      else c
]

-- The browser changes the state of the data channel `id`.
unfoldable pub with_ready_state : ℕ → String → Channel → Channel
with_ready_state id state c = elim c.data_channel [
  | none ↦ c
  | some d ↦
      if eqb d.id id then record c { data_channel = some (record d { ready_state = state }) } else c
]

-- `onconnectionstatechange` of the connection `id`, whose states are now these.
unfoldable pub on_connection_state : ℕ → String → String → Channel → Channel
unfolding is_current_peer dispose
on_connection_state id state ice c =
    let now = with_states id state ice c in
    if not (is_current_peer id c)
    then c
    else if trim state == "failed"
    then dispose failed now
    else if trim state == "closed"
    then dispose disconnected now
    else if trim state == "disconnected"
    then record now { state = disconnected }
    else now

-- `oniceconnectionstatechange`
unfoldable pub on_ice_state : ℕ → String → String → Channel → Channel
unfolding is_current_peer dispose
on_ice_state id state ice c =
    let now = with_states id state ice c in
    if not (is_current_peer id c)
    then c
    else if trim ice == "failed"
    then dispose failed now
    else now

-- `ondatachannel`: the new channel takes the place of the old one.
unfoldable pub on_data_channel : String → Channel → Channel
on_data_channel ready c = record c {
  fresh = c.fresh + 1;
  data_channel = some (record { id = c.fresh; ready_state = ready });
}

unfoldable pub on_close : ℕ → ℕ → Channel → Channel
unfolding is_current_channel dispose
on_close id owner c =
    let now = record c { data_channel = none } in
    if not (is_current_channel id owner c)
    then c
    else if not c.closed_by_user && is_current_peer owner c
    then dispose disconnected now
    else now

unfoldable pub on_error : ℕ → ℕ → Channel → Channel
unfolding is_current_channel dispose
on_error id owner c =
    let now = record c { data_channel = none } in
    if not (is_current_channel id owner c)
    then c
    else if is_current_peer owner c
    then dispose failed now
    else now

-- Who waits for `sendHello`.
pub data Greeter : Type 0 where
  opening answering : Greeter

-- What a callback of the data channel waits for.
pub data AuthTask : Type 0 where
  check_hello : (text : String) (signature : Value) → AuthTask
  sign_hello : Greeter → AuthTask
  greeted : AuthTask

-- A callback of the data channel at its next `await`, or at its end.
pub record Turn : Type 0 where
  pub channel : Channel
  pub task : Option AuthTask
  pub sent : List Sent
  pub delivered : List PeerMessage

abbrev pub ends : Channel → Turn
ends c = record { channel = c; task = none; sent = []; delivered = [] }

-- `sendHello` up to the signature; `none` when it returns at once.
abbrev pub start_hello : Greeter → Channel → Option AuthTask
start_hello greeter c =
    if not (is_open c.data_channel) || c.hello_sent then none else some (sign_hello greeter)

unfoldable pub on_open : ℕ → ℕ → Channel → Turn
unfolding is_current_channel is_open
on_open id owner c =
    let now = record c { state = channel_open } in
    if not (is_current_channel id owner c)
    then ends c
    else record (ends now) { task = start_hello opening now }

-- Whether the browser accepts what `sendHello` and `sendCapabilitiesIfReady` send.
pub record Sending : Type 0 where
  pub signed : Bool
  pub accepts_hello : Bool
  pub accepts_capabilities : Bool

-- A rejected `sendHello`: only the one of `onopen` tells it.
abbrev pub reject_hello : Greeter → Channel → Turn
reject_hello opening c = ends (record c { state = failed })
reject_hello answering c = ends c

-- A resolved `sendHello`.
abbrev pub resolve_hello : Greeter → Channel → Turn
resolve_hello opening c = ends c
resolve_hello answering c = record (ends c) { task = some greeted }

abbrev has_no_channel : Channel → Bool
has_no_channel c = elim c.data_channel [ none ↦ true | some d ↦ false ]

abbrev is_sent : List Sent → Bool
is_sent [] = false
is_sent (s ∷ ss) = true

module _ (rt : Runtime) (verify : String → String → Value → Bool) (options : Options) where
  -- The end of `sendHello`, whose hello is out.
  unfoldable pub after_hello : Greeter → Sending → Channel → Turn
  unfolding send_capabilities
  after_hello greeter sending c =
      let (next, own) = send_capabilities rt options (record c { state = connected }) in
      if not c.remote_verified
      then (let turn = resolve_hello greeter (record c { state = verifying }) in
          record turn { sent = hello ∷ [] })
      else if is_sent own && not sending.accepts_capabilities
      then (let turn = reject_hello greeter next in record turn { sent = hello ∷ [] })
      else (let turn = resolve_hello greeter next in record turn { sent = hello ∷ own })

  -- `sendHello` from the signature on.
  unfoldable pub resume_hello : Greeter → Sending → Channel → Turn
  unfolding after_hello
  resume_hello greeter sending c =
      let now = record c { hello_sent = true } in
      if not sending.signed
      then reject_hello greeter c
      else if has_no_channel c || not sending.accepts_hello
      then reject_hello greeter now
      else after_hello greeter sending now

  -- The end of `handleDataMessage` for a verified hello, after its own hello.
  unfoldable pub finish_greeting : Sending → Channel → Turn
  unfolding send_capabilities
  finish_greeting sending c =
      let (next, own) = send_capabilities rt options (record c { state = connected }) in
      if is_sent own && not sending.accepts_capabilities
      then ends next
      else record (ends next) { sent = own }

  -- `handleDataMessage` for a hello, from the verification on.
  unfoldable pub resume_check : String → Value → Sending → Channel → Turn
  unfolding finish_greeting is_open
  resume_check text signature sending c =
      let now = record c { remote_verified = true } in
      if not (verify options.trusted_peer_public_key text signature)
      then ends c
      else if c.hello_sent
      then finish_greeting sending now
      else elim (start_hello answering now) [
        | none ↦ record (ends now) { task = some greeted }
        | some t ↦ record (ends now) { task = some t }
      ]

  unfoldable pub resume_auth : AuthTask → Sending → Channel → Turn
  unfolding resume_check resume_hello finish_greeting
  resume_auth (check_hello text signature) sending c = resume_check text signature sending c
  resume_auth (sign_hello greeter) sending c = resume_hello greeter sending c
  resume_auth greeted sending c = finish_greeting sending c

  -- What a reaction does up to its first `await`.
  abbrev pub apply_reaction : Reaction → Channel → Turn
  apply_reaction ignored c = ends c
  apply_reaction (refused e) c = ends c
  apply_reaction (verify_hello text signature) c = record (ends c) {
    task = some (check_hello text signature);
  }
  apply_reaction (learned k) c = ends (record c { remote_capabilities = some k })
  apply_reaction (delivered m) c = record (ends c) { delivered = m ∷ [] }

  -- `onmessage`, for the parsed data.
  unfoldable pub on_message : ℕ → ℕ → Value → Channel → Turn
  unfolding is_current_channel react
  on_message id owner value c =
      if not (is_current_channel id owner c)
      then ends c
      else apply_reaction (react rt options c value) c
