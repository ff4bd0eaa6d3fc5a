-- ===== src/Mobile/Sessions/Probes.antt =====
-- mobile/src/state/SessionsContext.tsx: how the app measures a link. A ping is recorded when it is
-- delivered, a pong or the timer of the ping ends it. The random id of a ping is an argument, and a
-- time is a number of the clock. The payloads of the messages are those of Chat/Codec.
use Prim.Native.Nat.{ℕ, ◌+◌}
use Prim.Native.String.{String}
use mathlib.Core.Bool.{Bool, true, false, not, ◌&&◌, ◌||◌}
use mathlib.Core.Option.{Option, none, some}
use mathlib.Core.List.{List, [], ◌∷◌}
use text.Mathlib.Text.{◌==◌}
use openclawapp.Base.{if◌then◌else◌, ltb, is_empty, trim, lookup, insert}
use openclawapp.Base.Values.{Num, finite, Runtime, Result, ok, err}
use openclawapp.Mobile.{SessionItem, Transport}
use openclawapp.Mobile.Sessions.{
  Store, without, text_or_none, latest_of, patch_by_id, apply_link_pong, clear_pending_ping,
}
use openclawapp.Mobile.Sessions.Peers.{
  Delivery, Attempt, deliver_app_message, close_peer, prune_link_probes,
}

-- The timer that a delivered ping sets.
pub record Timer : Type 0 where
  pub binding_id : String
  pub ping_id : String

-- `respondToLinkPing`: whether it delivers a pong, and how; nothing else happens while it waits.
unfoldable pub respond_to_link_ping :
    SessionItem
    → (ping_id : String) → (prefer_relay : Bool) → Attempt
    → Result (Unit {0})
    → Result (Unit {0})
    → Store
    → Store × Result (Option Transport)
unfolding deliver_app_message
respond_to_link_ping session ping_id prefer_relay attempt first second store =
    let delivered =
      deliver_app_message session
        (record { prefer_relay = prefer_relay; force_peer_attempt = false }) attempt first second
        store in
    if is_empty (trim ping_id)
    then (store, ok none)
    else (delivered.0, elim delivered.1 [ ok transport ↦ ok (some transport) | err e ↦ err e ])

-- Whether the last ping was less than `interval` ago; the times kept are those of the clock, and a
-- missing one is 0.
abbrev pub is_recent : ℕ → ℕ → Option Num → Bool
is_recent interval now (some (finite false last f)) = ltb 0 interval && ltb now (last + interval)
is_recent interval now _ = ltb 0 interval && ltb now interval

-- The conditions under which a ping goes to the session that the store has now.
unfoldable pub may_probe : ℕ → ℕ → SessionItem → Store → Bool
may_probe interval now s store =
    trim (text_or_none s.trust_state) == "active"
    && (not (is_empty (trim s.binding_id))
        && not (is_recent interval now (lookup (trim s.binding_id) store.last_ping)))

-- Up to the `await` of `probeSessionLink`.
unfoldable pub start_probe : SessionItem → Store → Store
unfolding patch_by_id
start_probe s = patch_by_id s.id (λ item. record item { link_probe_pending = some true })

abbrev pub unmeasured : SessionItem → SessionItem
unmeasured item = record item {
  link_probe_pending = some false;
  link_rtt_ms = some (finite false 0 0);
  link_rtt_at = some (finite false 0 0);
}

-- After the `await`, for what the delivery gave: the store, and whether a timer is set.
unfoldable pub finish_probe :
    SessionItem → (ping_id : String) → (now : ℕ) → Result Transport → Store → Store × Bool
unfolding patch_by_id
finish_probe s ping_id now (ok transport) store = (
  patch_by_id s.id
      (λ item. record item { link_transport = some transport; link_probe_pending = some true })
      (record store {
        pending =
            insert (trim s.binding_id)
              (record {
                id = ping_id;
                sent_at = finite false now 0;
                transport = transport;
                session_id = s.id;
              })
              store.pending;
        last_ping = insert (trim s.binding_id) (finite false now 0) store.last_ping;
      }),
  true,
)
finish_probe s ping_id now (err _) store = (
  patch_by_id s.id unmeasured
      (record store { pending = without (trim s.binding_id) store.pending }),
  false,
)

-- The callback of the timer.
unfoldable pub expire_probe : Timer → Store → Store
unfolding patch_by_id
expire_probe t store = elim (lookup t.binding_id store.pending) [
  | none ↦ store
  | some p ↦
      if p.id == t.ping_id
      then patch_by_id p.session_id unmeasured
          (record store { pending = without t.binding_id store.pending })
      else store
]

-- `probeSessionLink`, when nothing else happens while it waits.
unfoldable pub probe_session_link :
    SessionItem
    → (interval now : ℕ) → (ping_id : String) → (prefer_relay : Bool) → Attempt
    → Result (Unit {0})
    → Result (Unit {0})
    → Store
    → Store × Bool
unfolding may_probe start_probe deliver_app_message finish_probe
probe_session_link session interval now ping_id prefer_relay attempt first second store =
    let s = latest_of store session in
    let delivered =
      deliver_app_message s (record { prefer_relay = prefer_relay; force_peer_attempt = true })
        attempt first second (start_probe s store) in
    if may_probe interval now s store
    then finish_probe s ping_id now delivered.1 delivered.0
    else (store, false)

-- The store with the timers that are set.
pub record Probing : Type 0 where
  pub store : Store
  pub timers : List Timer

unfoldable pub armed : String → String → List Timer → Bool
armed binding_id ping_id [] = false
armed binding_id ping_id (t ∷ ts) =
    (t.binding_id == binding_id && t.ping_id == ping_id) || armed binding_id ping_id ts

-- A timer fires once.
unfoldable pub disarm : String → String → List Timer → List Timer
disarm binding_id ping_id [] = []
disarm binding_id ping_id (t ∷ ts) =
    if t.binding_id == binding_id && t.ping_id == ping_id
    then ts
    else t ∷ disarm binding_id ping_id ts

-- What happens to the recorded pings, in any order: `finished` is the rest of a probe after its
-- wait, `fired` a timer, and the others are the code that ends pings or waits for one.
pub data ProbeEvent : Type 0 where
  started : SessionItem → ProbeEvent
  delivering : SessionItem → Delivery → Attempt → Result (Unit {0}) → Result (Unit {0}) → ProbeEvent
  finished : SessionItem → (ping_id : String) → (now : ℕ) → Result Transport → ProbeEvent
  answered : SessionItem → (pong_id : String) → Num → Transport → ProbeEvent
  fired : Timer → ProbeEvent
  closed : (binding_id detail : String) → ProbeEvent
  cleared : SessionItem → ProbeEvent
  pruned : List SessionItem → ProbeEvent

module _ (rt : Runtime) where
  unfoldable pub handle_probe : ProbeEvent → Probing → Probing
  unfolding start_probe deliver_app_message finish_probe apply_link_pong expire_probe close_peer
      clear_pending_ping prune_link_probes armed disarm
  handle_probe (started s) w = record w { store = start_probe s w.store }
  handle_probe (delivering s delivery attempt first second) w = record w {
    store = (deliver_app_message s delivery attempt first second w.store).0;
  }
  handle_probe (finished s ping_id now result) w =
      let done = finish_probe s ping_id now result w.store in
      record {
        store = done.0;
        timers =
            (if done.1
              then record { binding_id = trim s.binding_id; ping_id = ping_id } ∷ w.timers
              else w.timers);
      }
  handle_probe (answered s pong_id sent_at transport) w = record w {
    store = apply_link_pong rt s pong_id sent_at transport w.store;
  }
  handle_probe (fired t) w =
      if armed t.binding_id t.ping_id w.timers
      then record {
        store = expire_probe t w.store;
        timers = disarm t.binding_id t.ping_id w.timers;
      }
      else w
  handle_probe (closed binding_id detail) w = record w {
    store = close_peer binding_id detail w.store;
  }
  handle_probe (cleared s) w = record w { store = clear_pending_ping s w.store }
  handle_probe (pruned sessions) w = record w { store = prune_link_probes sessions w.store }

  abbrev pub run_probes : List ProbeEvent → Probing → Probing
  run_probes [] w = w
  run_probes (e ∷ es) w = run_probes es (handle_probe e w)
