-- ===== src/Peer/Signals.antt =====
-- packages/pair-sdk/src/peer.ts: `connect`, `close`, and the handlers of the signals, each up to
-- its next `await`; what is awaited is a task. The browser's objects are parameters: what state a
-- new one is in, and what a settled call gives.
use Prim.Native.Nat.{ℕ, ◌+◌}
use Prim.Native.String.{String}
use mathlib.Core.Bool.{Bool, true, false, not, ◌&&◌, ◌||◌}
use mathlib.Core.Option.{Option, none, some}
use mathlib.Core.List.{List, [], ◌∷◌, ◌++◌, map}
use text.Mathlib.Text.{◌==◌}
use openclawapp.Base.{if◌then◌else◌, eqb, is_empty, trim}
use openclawapp.Base.Values.{Value, obj, Fields, Runtime, ok, err, optional_member, trimmed_text}
use openclawapp.Peer.{
  connecting, disconnected, Options, Description, PeerConnection, DataChannel, Channel, is_ready,
  dispose,
}
use openclawapp.Peer.Descriptions.{normalize_description, normalize_candidate, has_same_description}

-- What the browser decides: whether it has `RTCPeerConnection`, and the states of a new object.
pub record Browser : Type 0 where
  pub has_webrtc : Bool
  pub peer_state : String
  pub ice_state : String
  pub channel_state : String

-- What a handler of the channel waits for; a number is that of the peer connection.
pub data SignalTask : Type 0 where
  set_remote : (peer : ℕ) (description : Description) (answers : Bool) → SignalTask
  create_answer : (peer : ℕ) → SignalTask
  create_offer : (peer : ℕ) → SignalTask

pub data Signal : Type 0 where
  offer : Description → Signal
  answer : Description → Signal
  ice : Fields → Signal

-- Where a handler is at its next `await`, or at its end: the candidates that were given to a
-- connection, the signals that were emitted, and the message that was thrown.
pub record Done : Type 0 where
  pub channel : Channel
  pub task : Option SignalTask
  pub signals : List Signal
  pub added : List (ℕ × Value)
  pub error : Option String

abbrev pub rest : Channel → Done
rest c = record { channel = c; task = none; signals = []; added = []; error = none }

abbrev pub waits : Channel → SignalTask → Done
waits c t = record { channel = c; task = some t; signals = []; added = []; error = none }

abbrev pub throws : Channel → String → Done
throws c e = record { channel = c; task = none; signals = []; added = []; error = some e }

abbrev pub no_webrtc : String
no_webrtc = "当前环境不支持 WebRTC"

-- `isPeerTerminal`
unfoldable pub is_peer_terminal : PeerConnection → Bool
is_peer_terminal p =
    let state = trim p.connection_state in
    state == "failed" || (state == "closed" || state == "disconnected")

-- `isDataChannelClosed`
unfoldable pub is_channel_closed : DataChannel → Bool
is_channel_closed d = let state = trim d.ready_state in state == "closing" || state == "closed"

abbrev has_channel : Option DataChannel → Bool
has_channel none = false
has_channel (some d) = true

abbrev is_described : Option Description → Bool
is_described none = false
is_described (some d) = true

unfoldable pub should_recreate_for_offer : Channel → Description → Bool
unfolding has_same_description
should_recreate_for_offer c description = elim c.peer [
  | none ↦ false
  | some p ↦
      not (has_same_description p.remote_description description)
      && (is_described p.remote_description
          || (is_described p.local_description || has_channel c.data_channel))
]

unfoldable pub should_recreate_for_connect : Channel → Bool
unfolding is_peer_terminal is_channel_closed
should_recreate_for_connect c = elim c.peer [
  | none ↦ false
  | some p ↦
      is_peer_terminal p || elim c.data_channel [ none ↦ false | some d ↦ is_channel_closed d ]
]

-- The data channel that `connect` has to replace: there is none, or it is closed.
abbrev lacks_channel : Option DataChannel → Bool
lacks_channel none = true
lacks_channel (some d) = is_channel_closed d

-- A settled description of the connection `id`, when that is still the channel's.
unfoldable pub with_remote : ℕ → Description → Channel → Channel
with_remote id d c = elim c.peer [
  | none ↦ c
  | some p ↦
      if eqb p.id id then record c { peer = some (record p { remote_description = some d }) } else c
]

unfoldable pub with_local : ℕ → Description → Channel → Channel
with_local id d c = elim c.peer [
  | none ↦ c
  | some p ↦
      if eqb p.id id then record c { peer = some (record p { local_description = some d }) } else c
]

-- `flushRemoteCandidates`: the candidates that it gives to the connection, in their order.
unfoldable pub flush : Channel → Channel × List (ℕ × Value)
flush c = elim c.peer [
  | none ↦ (c, [])
  | some p ↦
      if is_described p.remote_description
      then (
        record c { pending_remote_candidates = [] },
        map (λ v. (p.id, v)) c.pending_remote_candidates,
      )
      else (c, [])
]

unfoldable pub close : Channel → Channel
unfolding dispose
close c = dispose disconnected (record c { closed_by_user = true })

-- What follows a task that the browser settled, with the description that it gave.
unfoldable pub resume_signal : Channel → SignalTask → Description → Done
unfolding with_remote with_local flush
resume_signal c (set_remote id d answers) given =
    let (next, queued) = flush (with_remote id d c) in
    record (if answers then waits next (create_answer id) else rest next) { added = queued }
resume_signal c (create_answer id) given = record (rest (with_local id given c)) {
  signals = answer given ∷ [];
}
resume_signal c (create_offer id) given = record (rest (with_local id given c)) {
  signals = offer given ∷ [];
}

module _ (rt : Runtime) (browser : Browser) where
  -- A new connection, and the flags that it resets.
  unfoldable pub new_peer : Channel → Channel × PeerConnection
  new_peer c = (
    record c {
      fresh = c.fresh + 1;
      peer = some p;
      state = connecting;
      hello_sent = false;
      capabilities_sent = false;
      remote_verified = false;
      remote_capabilities = none;
    },
    p,
  )
    where
      p : PeerConnection
      p = record {
        id = c.fresh;
        connection_state = browser.peer_state;
        ice_connection_state = browser.ice_state;
        remote_description = none;
        local_description = none;
      }

  -- `ensurePeer`, in a browser that has `RTCPeerConnection`.
  unfoldable pub ensure_peer : Bool → Channel → Channel × PeerConnection
  unfolding dispose new_peer
  ensure_peer force c =
      let kept = if force then dispose connecting c else c in
      elim kept.peer [ none ↦ new_peer kept | some p ↦ (kept, p) ]

  -- `attachDataChannel(peer.createDataChannel(…), peer)`, when one is needed.
  unfoldable pub with_channel : Channel → Channel
  unfolding is_channel_closed
  with_channel c =
      if lacks_channel c.data_channel
      then record c {
        fresh = c.fresh + 1;
        data_channel = some (record { id = c.fresh; ready_state = browser.channel_state });
      }
      else c

  unfoldable pub connect : Channel → Done
  unfolding is_ready should_recreate_for_connect ensure_peer with_channel
  connect c =
      let asked = record c { closed_by_user = false } in
      let (kept, p) = ensure_peer (should_recreate_for_connect asked) asked in
      if not browser.has_webrtc
      then throws c no_webrtc
      else if is_ready asked
      then rest asked
      else waits (record (with_channel kept) { state = connecting }) (create_offer p.id)

  -- The answer of the connection, when it has one.
  abbrev pub own_answer : PeerConnection → Option Description
  own_answer p = elim p.local_description [
    | none ↦ none
    | some d ↦ if d.type == "answer" && not (is_empty d.sdp) then some d else none
  ]

  -- The rest of an offer that the connection already has.
  abbrev pub repeat_offer : Channel → PeerConnection → Done
  repeat_offer c p = elim (own_answer p) [
    | none ↦
        (let (next, queued) = flush c in
          record (waits next (create_answer p.id)) { added = queued })
    | some d ↦ record (rest c) { signals = answer d ∷ [] }
  ]

  unfoldable pub handle_offer : Channel → Value → Done
  unfolding ensure_peer should_recreate_for_offer has_same_description flush
  handle_offer c payload =
      let asked = record c { closed_by_user = false } in
      elim (normalize_description rt (optional_member "description" payload) "offer") [
        | err e ↦ throws asked e
        | ok d ↦
            if not browser.has_webrtc
            then throws asked no_webrtc
            else (let (kept, p) = ensure_peer (should_recreate_for_offer asked d) asked in
                let received = record kept { state = connecting } in
                if has_same_description p.remote_description d
                then repeat_offer received p
                else waits received (set_remote p.id d true))
      ]

  unfoldable pub handle_answer : Channel → Value → Done
  unfolding ensure_peer
  handle_answer c payload =
      if not browser.has_webrtc
      then throws c no_webrtc
      else (let (kept, p) = ensure_peer false c in
          elim (normalize_description rt (optional_member "description" payload) "answer") [
            | err e ↦ throws kept e
            | ok d ↦ waits kept (set_remote p.id d false)
          ])

  unfoldable pub handle_ice : Channel → Value → Done
  unfolding ensure_peer
  handle_ice c payload = elim (normalize_candidate rt (optional_member "candidate" payload)) [
    | none ↦ rest c
    | some candidate ↦
        if not browser.has_webrtc
        then throws c no_webrtc
        else (let (kept, p) = ensure_peer false c in
            if is_described p.remote_description
            then record (rest kept) { added = (p.id, obj candidate) ∷ [] }
            else rest (record kept {
              pending_remote_candidates = kept.pending_remote_candidates ++ (obj candidate ∷ []);
            }))
  ]

  -- A queued signal of `handleSignal`: that of another binding is dropped.
  unfoldable pub handle_signal : Options → Channel → String → Value → Done
  unfolding handle_offer handle_answer handle_ice
  handle_signal options c type payload =
      if not (trimmed_text rt (optional_member "bindingId" payload) == options.binding_id)
      then rest c
      else if type == "webrtc.offer"
      then handle_offer c payload
      else if type == "webrtc.answer"
      then handle_answer c payload
      else if type == "webrtc.ice"
      then handle_ice c payload
      else rest c
