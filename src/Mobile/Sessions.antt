-- ===== src/Mobile/Sessions.antt =====
-- mobile/src/state/SessionsContext.tsx: the sessions that the app keeps, the maps beside them, and
-- the updates of both. A patch is a function on the session; `format_time` and the clock are the
-- platform's. A field that `refreshed` does not have counts as absent from it.
pub mod Merge
pub mod Peers
pub mod Messages
pub mod Events
pub mod Laws
pub mod Routes
pub mod Revocation
pub mod Stale
pub mod Probes
pub mod Pings
pub mod Sending
pub mod Statuses
pub mod Timers
use Prim.Native.Nat.{ℕ, ◌-◌}
use Prim.Native.String.{String, ◌++◌}
use mathlib.Core.Bool.{Bool, true, false, not, ◌&&◌, ◌||◌}
use mathlib.Core.Option.{Option, none, some}
use mathlib.Core.List.{List, [], ◌∷◌, map}
use text.Mathlib.Text.{◌==◌}
use openclawapp.Base.{if◌then◌else◌, is_empty, trim, keep, find, lookup}
use openclawapp.Base.Values.{
  Num, finite, num, Runtime, number_of, truthy, clamp, count_num, Count, gt, whole,
}
use openclawapp.Peer.{Channel}
use openclawapp.Mobile.{ConnectionStatus, offline, SessionItem, Transport}

pub record Pending : Type 0 where
  pub id : String
  pub sent_at : Num
  pub transport : Transport
  pub session_id : String

-- The refs of `SessionsProvider` that the modelled code reads or sets.
pub record Store : Type 0 where
  pub sessions : List SessionItem
  pub peers : List (String × Channel)
  pub peer_connecting : List String
  pub last_presence : List (String × Num)
  pub last_sync : List (String × Num)
  pub last_ping : List (String × Num)
  pub pending : List (String × Pending)

-- `map.delete(key)`
abbrev pub without {ℓ} : {V : Type ℓ} → String → List (String × V) → List (String × V)
without key m = keep (λ e. not (e.0 == key)) m

abbrev pub text_or_none : Option String → String
text_or_none none = ""
text_or_none (some s) = s

abbrev pub is_offline : ConnectionStatus → Bool
is_offline offline = true
is_offline _ = false

unfoldable pub find_by_id : String → List SessionItem → Option SessionItem
find_by_id id sessions = find (λ s. s.id == id) sessions

unfoldable pub find_by_binding : String → List SessionItem → Option SessionItem
find_by_binding binding_id sessions =
    if is_empty (trim binding_id)
    then none
    else find (λ s. s.binding_id == trim binding_id) sessions

unfoldable pub find_by_device : String → List SessionItem → Option SessionItem
find_by_device device_id sessions =
    if is_empty (trim device_id) then none else find (λ s. s.device_id == trim device_id) sessions

-- `getSessionByIdSnapshot(session.id) || session`
abbrev pub latest_of : Store → SessionItem → SessionItem
latest_of store session = elim (find_by_id session.id store.sessions) [
  | none ↦ session
  | some latest ↦ latest
]

-- `canUseRelayTransport`
unfoldable pub can_use_relay : SessionItem → Bool
can_use_relay s =
    trim (text_or_none s.trust_state) == "active"
    && (not (is_offline s.status)
        && (not (is_empty (trim s.binding_id)) && not (is_empty (trim s.device_id))))

-- `isPeerNegotiating`
unfoldable pub is_peer_negotiating : String → Bool
is_peer_negotiating state =
    state == "connecting" || (state == "channel-open" || state == "verifying")

unfoldable pub update_where :
    (SessionItem → Bool) → (SessionItem → SessionItem) → List SessionItem → List SessionItem
update_where p patch sessions = map (λ s. if p s then patch s else s) sessions

unfoldable pub patch_by_id : String → (SessionItem → SessionItem) → Store → Store
unfolding update_where
patch_by_id id patch store = record store {
  sessions = update_where (λ s. s.id == id) patch store.sessions;
}

unfoldable pub patch_by_binding : String → (SessionItem → SessionItem) → Store → Store
unfolding update_where
patch_by_binding binding_id patch store =
    if is_empty (trim binding_id) then store else record store {
      sessions = update_where (λ s. s.binding_id == trim binding_id) patch store.sessions;
    }

-- `target && value === target`
abbrev pub is_target : String → String → Bool
is_target target value = not (is_empty target) && value == target

abbrev pub is_removed : String → String → String → SessionItem → Bool
is_removed id binding_id device_id s =
    is_target (trim id) s.id
    || (is_target (trim binding_id) s.binding_id || is_target (trim device_id) s.device_id)

-- `removeSessionLocal`
unfoldable pub remove_local : String → String → String → Store → Store
remove_local id binding_id device_id store = record store {
  sessions = keep (λ s. not (is_removed id binding_id device_id s)) store.sessions;
}

unfoldable pub clear_pending_ping : SessionItem → Store → Store
clear_pending_ping s store = if is_empty (trim s.binding_id) then store else record store {
  pending = without (trim s.binding_id) store.pending;
  last_ping = without (trim s.binding_id) store.last_ping;
}

unfoldable pub mark_transport : String → Transport → Store → Store
unfolding patch_by_id
mark_transport id transport = patch_by_id id (λ s. record s { link_transport = some transport })

-- The preview of a session whose peer is in this state.
unfoldable pub peer_preview : String → String → SessionItem → String
unfolding can_use_relay is_peer_negotiating
peer_preview state detail s =
    let relayed = can_use_relay s in
    if state == "connected"
    then "P2P 通道已建立，可以开始聊天。"
    else if is_peer_negotiating state
    then "正在建立直连通道，失败会自动切换服务端转发..."
    else if state == "failed"
    then (if not (is_empty detail)
        then (if relayed then "P2P 通道建立失败，已切换服务端转发：" ++ detail else "P2P 通道建立失败：" ++ detail)
        else if relayed
        then "P2P 通道建立失败，已切换服务端转发。"
        else "P2P 通道建立失败")
    else if state == "disconnected"
    then (if not (is_empty detail)
        then (if relayed then "P2P 通道已断开，已切换服务端转发：" ++ detail else "P2P 通道已断开：" ++ detail)
        else if relayed
        then "P2P 通道已断开，已切换服务端转发。"
        else "P2P 通道已断开，等待重连")
    else if relayed
    then "桌面端在线，可通过服务端转发聊天。"
    else s.preview

abbrev pub with_peer_state : String → String → SessionItem → SessionItem
with_peer_state state detail s = record s {
  peer_state = some state;
  peer_detail = some detail;
  transport_ready = some (state == "connected" || can_use_relay s);
  preview = peer_preview state detail s;
}

unfoldable pub update_peer_state : String → String → String → Store → Store
unfolding peer_preview update_where can_use_relay
update_peer_state binding_id state detail store =
    if is_empty (trim binding_id) then store else record store {
      sessions =
          update_where (λ s. s.binding_id == trim binding_id) (with_peer_state state detail)
            store.sessions;
    }

-- `markPeerFailure`, for the text of the error.
unfoldable pub mark_peer_failure : SessionItem → String → Store → Store
unfolding update_peer_state patch_by_id can_use_relay
mark_peer_failure session detail store =
    if not (is_empty (trim session.binding_id))
    then update_peer_state (trim session.binding_id) "failed" detail store
    else patch_by_id session.id
        (λ s. record s {
          peer_state = some "failed";
          peer_detail = some detail;
          transport_ready = some (can_use_relay session);
          preview =
              (if can_use_relay session then "P2P 通道建立失败，已切换服务端转发：" else "P2P 通道建立失败：") ++ detail;
        })
        store

module _ (rt : Runtime) where
  -- `Math.max(0, Date.now() - sentAt)` for a `sentAt` above 0, and else 0.
  abbrev round_trip : Count → Num → Num
  round_trip sent now = if gt sent (whole 0) then elapsed sent now else finite false 0 0
    where
      elapsed : Count → Num → Num
      elapsed (whole n) (finite false w f) = finite false (w - n) 0
      elapsed _ _ = finite false 0 0

  -- `applyLinkPong`; the number of the pong is `pong_sent`.
  unfoldable pub apply_link_pong : SessionItem → String → Num → Transport → Store → Store
  unfolding patch_by_id
  apply_link_pong session pong_id pong_sent transport store =
      let binding_id = trim session.binding_id in
      let now : Num = finite false (rt.now 0) 0 in
      let known : Option Pending =
        if is_empty binding_id then none else lookup binding_id store.pending in
      let answered : Bool = elim known [ none ↦ false | some p ↦ p.id == trim pong_id ] in
      let pending_sent : Num = elim known [ none ↦ finite false 0 0 | some p ↦ p.sent_at ] in
      let sent =
        clamp (number_of rt (if truthy (num pong_sent) then num pong_sent else num pending_sent)) in
      patch_by_id (trim session.id)
        (λ s. record s {
          link_transport = some transport;
          link_rtt_ms = some (round_trip sent now);
          link_rtt_at = some now;
          link_probe_pending = some false;
        })
        (if answered then record store { pending = without binding_id store.pending } else store)
