-- ===== src/Mobile/Sessions/Peers.antt =====
-- mobile/src/state/SessionsContext.tsx: which peers and timestamps are kept for the sessions, and
-- how an app message is delivered: over the peer channel, or else by the relay. What the peer
-- channel and the server answer is an argument.
use Prim.Native.String.{String}
use mathlib.Core.Bool.{Bool, true, false, not, ◌&&◌, ◌||◌}
use mathlib.Core.Option.{Option, none, some}
use mathlib.Core.List.{List, [], ◌∷◌, map}
use text.Mathlib.Text.{◌==◌}
use openclawapp.Base.{if◌then◌else◌, is_empty, trim, keep, find, contains, lookup, keys}
use openclawapp.Base.Values.{Result, ok, err}
use openclawapp.Mobile.{SessionItem, Transport, p2p, relay}
use openclawapp.Mobile.Sessions.{
  Store, without, text_or_none, latest_of, can_use_relay, patch_by_id, update_peer_state,
  mark_peer_failure,
}

-- `closePeer`; the state that `peer.close()` reports is overwritten by the last update.
unfoldable pub close_peer : String → String → Store → Store
unfolding update_peer_state
close_peer binding_id detail store =
    let key = trim binding_id in
    let cleared = record store {
      peer_connecting = keep (λ b. not (b == key)) store.peer_connecting;
      pending = without key store.pending;
      last_ping = without key store.last_ping;
    } in
    if is_empty key then store else elim (lookup key store.peers) [
      | none ↦ cleared
      | some peer ↦
          update_peer_state key "disconnected" detail
            (record cleared { peers = without key store.peers })
    ]

-- The trimmed texts that are not empty.
abbrev pub kept_texts : List String → List String
kept_texts ts = keep (λ t. not (is_empty t)) (map trim ts)

abbrev pub bindings : List SessionItem → List String
bindings sessions = kept_texts (map (λ s. s.binding_id) sessions)

abbrev pub is_active : Option String → Bool
is_active none = false
is_active (some state) = state == "active"

-- No peer is kept for this binding.
unfoldable pub is_stale : List SessionItem → String → Bool
is_stale sessions binding_id =
    not (contains binding_id (bindings sessions))
    || elim (find (λ s. s.binding_id == binding_id) sessions) [
      | none ↦ true
      | some s ↦ not (is_active s.trust_state)
    ]

unfoldable pub close_stale_from : List SessionItem → List String → Store → Store
unfolding is_stale close_peer
close_stale_from sessions [] store = store
close_stale_from sessions (b ∷ bs) store =
    close_stale_from sessions bs
      (if is_stale sessions b then close_peer b "session removed" store else store)

unfoldable pub close_stale_peers : List SessionItem → Store → Store
unfolding close_stale_from
close_stale_peers sessions store = close_stale_from sessions (keys store.peers) store

abbrev pub only {ℓ} : {V : Type ℓ} → List String → List (String × V) → List (String × V)
only ids m = keep (λ e. contains e.0 ids) m

unfoldable pub prune_sync_times : List SessionItem → Store → Store
prune_sync_times sessions store = record store {
  last_sync = only (bindings sessions) store.last_sync;
}

unfoldable pub prune_presence_times : List SessionItem → Store → Store
prune_presence_times sessions store = record store {
  last_presence = only (kept_texts (map (λ s. s.server_base_url) sessions)) store.last_presence;
}

unfoldable pub prune_link_probes : List SessionItem → Store → Store
prune_link_probes sessions store = record store {
  last_ping = only (bindings sessions) store.last_ping;
  pending = only (bindings sessions) store.pending;
}

-- How `deliverAppMessage` is asked to deliver.
pub record Delivery : Type 0 where
  pub prefer_relay : Bool
  pub force_peer_attempt : Bool

-- What the peer channel did of an attempt: it sent the message, it was not ready in time, or it
-- threw.
pub data Attempt : Type 0 where
  sent not_ready : Attempt
  thrown : String → Attempt

unfoldable pub should_attempt_peer : Delivery → SessionItem → Bool
should_attempt_peer delivery s =
    let state = trim (text_or_none s.peer_state) in
    not delivery.prefer_relay
    && (delivery.force_peer_attempt || (not (state == "failed") && not (state == "disconnected")))

-- `sendRelayAppMessage`, whose first call and whose call with a new token succeed or throw.
unfoldable pub send_relay : SessionItem → Result (Unit {0}) → Result (Unit {0}) → Result (Unit {0})
send_relay s first second =
    if is_empty (trim s.binding_id) || is_empty (trim s.device_id)
    then err "绑定信息不完整，无法使用服务端转发"
    else elim first [ ok done ↦ ok done | err _ ↦ second ]

-- The relay's part of `deliverAppMessage`.
unfoldable pub deliver_by_relay :
    SessionItem → Result (Unit {0}) → Result (Unit {0}) → Store → Store × Result Transport
unfolding can_use_relay send_relay patch_by_id
deliver_by_relay s first second store =
    if not (can_use_relay s)
    then (store, err "桌面端当前离线，无法使用服务端转发")
    else elim (send_relay s first second) [
      | err e ↦ (store, err e)
      | ok _ ↦ (
        patch_by_id s.id
            (λ item. record item {
              transport_ready = some true;
              link_transport = some relay;
              preview = "已切换到服务端转发，可继续聊天。";
            })
            store,
        ok relay,
      )
    ]

-- `deliverAppMessage`; nothing else happens while it waits.
unfoldable pub deliver_app_message :
    SessionItem
    → Delivery
    → Attempt
    → Result (Unit {0})
    → Result (Unit {0})
    → Store
    → Store × Result Transport
unfolding should_attempt_peer deliver_by_relay mark_peer_failure
deliver_app_message session delivery attempt first second store =
    let s = latest_of store session in
    if should_attempt_peer delivery s
    then elim attempt [
      | sent ↦ (store, ok p2p)
      | not_ready ↦ deliver_by_relay s first second store
      | thrown e ↦ deliver_by_relay s first second (mark_peer_failure s e store)
    ]
    else deliver_by_relay s first second store
