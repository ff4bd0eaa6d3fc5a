-- ===== src/Mobile/Sessions/Routes.antt =====
-- Which way an app message of the mobile app takes, and what the session shows of it.
use Prim.Native.String.{String}
use mathlib.Core.Path.{◌≡◌, refl}
use mathlib.Core.Bool.{true, false, ◌||◌}
use mathlib.Core.Option.{some}
use mathlib.Core.List.{List}
use mathlib.Core.Logic.{◌⊎◌, inl, inr, ◌≢◌}
use native.Mathlib.Omega.{arith}
use text.Mathlib.Text.{◌==◌}
use text.Mathlib.TextEquality.{eq_iff}
use openclawapp.Base.{Bool-cases, All, trim, is_empty}
use openclawapp.Base.Values.{Result, ok, err, Result-cases}
use openclawapp.Mobile.{
  ConnectionStatus, connected, waiting, offline, SessionItem, Transport, p2p, relay,
}
use openclawapp.Mobile.Sessions.{
  Store, text_or_none, latest_of, can_use_relay, patch_by_id, mark_peer_failure, is_offline,
}
use openclawapp.Mobile.Sessions.Revocation.{update_where-All}
use openclawapp.Mobile.Sessions.Peers.{
  Delivery, Attempt, sent, not_ready, thrown, should_attempt_peer, send_relay, deliver_by_relay,
  deliver_app_message,
}

-- The session is active and its desktop is not offline, and both are named.
pub record IsReachable (s : SessionItem) : Type 0 where
  pub active : trim (text_or_none s.trust_state) ≡ "active"
  pub online : s.status ≢ offline
  pub binding : is_empty (trim s.binding_id) ≡ false
  pub device : is_empty (trim s.device_id) ≡ false

-- The sessions of this id are shown as relayed and ready.
abbrev pub IsRelayed : String → SessionItem → Type 0
IsRelayed id s =
    ((s.id == id) ≡ false) ⊎ ((s.link_transport ≡ some relay) × (s.transport_ready ≡ some true))

-- The peer channel may be tried: it has not failed or closed, or the attempt is forced.
abbrev pub MayTryPeer : Delivery → SessionItem → Type 0
MayTryPeer delivery s =
    (delivery.prefer_relay ≡ false)
    × ((delivery.force_peer_attempt ≡ true)
        ⊎ ((trim (text_or_none s.peer_state) ≢ "failed")
            × (trim (text_or_none s.peer_state) ≢ "disconnected")))

-- What a delivery by each transport rests on, and what it leaves of the sessions.
abbrev pub IsRouted :
    SessionItem
    → Delivery
    → Attempt
    → Result (Unit {0})
    → Result (Unit {0})
    → List SessionItem
    → Transport
    → Type 0
IsRouted s delivery attempt first second sessions relay =
    IsReachable s × ((first ≡ ok tt) ⊎ (second ≡ ok tt)) × All (IsRelayed s.id) sessions
IsRouted s delivery attempt first second sessions p2p = MayTryPeer delivery s × (attempt ≡ sent)

is_offline-offline : (c : ConnectionStatus) → is_offline c ≡ false → c ≢ offline
is_offline-offline connected h e = cc
is_offline-offline waiting h e = cc
is_offline-offline offline h e = cc

can_use_relay-IsReachable : (s : SessionItem) → can_use_relay s ≡ true → IsReachable s
unfolding can_use_relay
can_use_relay-IsReachable s h = record {
  active = (eq_iff (trim (text_or_none s.trust_state)) "active").0 (ground arith);
  online = is_offline-offline s.status (ground arith);
  binding = ground arith;
  device = ground arith;
}

not_same : (a b : String) → (a == b) ≡ false → a ≢ b
not_same a b h e = absurd (cc (h, (eq_iff a b).1 e))

send_relay-ok :
    (s : SessionItem) (first second : Result (Unit {0})) (done : Unit {0})
    → send_relay s first second ≡ ok done
    → (first ≡ ok tt) ⊎ (second ≡ ok tt)
unfolding send_relay
send_relay-ok s (ok u) second done h = inl refl
send_relay-ok s (err e) second done h =
    elim (Bool-cases (is_empty (trim s.binding_id) || is_empty (trim s.device_id))) [
      | inl f ↦ absurd (cc (rw f at h))
      | inr f ↦ inr (rw f at h)
    ]

patch_by_id-IsRelayed :
    (id : String) (store : Store)
    → All
        (IsRelayed id)
        (patch_by_id id
          (λ item. record item {
            transport_ready = some true;
            link_transport = some relay;
            preview = "已切换到服务端转发，可继续聊天。";
          })
          store).sessions
unfolding patch_by_id
patch_by_id-IsRelayed id store =
    update_where-All (IsRelayed id) (λ s. s.id == id) _ (λ s e. inr (refl, refl)) (λ s e. inl e)
      store.sessions

deliver_by_relay-ok :
    (s : SessionItem) (delivery : Delivery) (attempt : Attempt) (first second : Result (Unit {0}))
    (store : Store) (transport : Transport)
    → (deliver_by_relay s first second store).1 ≡ ok transport
    → IsRouted s delivery attempt first second
        (deliver_by_relay s first second store).0.sessions
        transport
unfolding deliver_by_relay
deliver_by_relay-ok s delivery attempt first second store transport h =
    elim (Bool-cases (can_use_relay s)) [
      | inr e ↦ absurd (cc (rw e at h))
      | inl e ↦ elim (Result-cases (send_relay s first second)) [
        | inl (d, f) ↦ absurd (cc (rw (e, f) at h))
        | inr (u, f) ↦
            rw (deliver_by_relay, e, f)
              (by_relay transport (rw (e, f) at h) (send_relay-ok s first second u f)
                (can_use_relay-IsReachable s e))
      ]
    ]
  where
    by_relay :
        (t : Transport)
        → Path (Result Transport) (ok relay) (ok t)
        → (first ≡ ok tt) ⊎ (second ≡ ok tt)
        → IsReachable s
        → IsRouted s delivery attempt first second
            (patch_by_id s.id
              (λ item. record item {
                transport_ready = some true;
                link_transport = some relay;
                preview = "已切换到服务端转发，可继续聊天。";
              })
              store).sessions
            t
    by_relay relay h a r = (r, a, patch_by_id-IsRelayed s.id store)
    by_relay p2p h a r = absurd (cc h)

should_attempt_peer-MayTryPeer :
    (delivery : Delivery) (s : SessionItem)
    → should_attempt_peer delivery s ≡ true
    → MayTryPeer delivery s
unfolding should_attempt_peer
should_attempt_peer-MayTryPeer delivery s h = (
  ground arith,
  elim (Bool-cases delivery.force_peer_attempt) [
    | inl e ↦ inl e
    | inr e ↦ inr (
      not_same (trim (text_or_none s.peer_state)) "failed" (ground arith),
      not_same (trim (text_or_none s.peer_state)) "disconnected" (ground arith),
    )
  ],
)

-- A message that is delivered by the relay: its session is active, not offline and names its
-- binding and device, the server accepted one of the calls, and the session is then shown as
-- relayed and ready. One that is delivered over the peer channel: the channel sent it, the relay
-- was not preferred, and the channel had not failed or closed, unless the attempt was forced.
pub deliver-IsRouted :
    (session : SessionItem) (delivery : Delivery) (attempt : Attempt)
    (first second : Result (Unit {0})) (store : Store) (transport : Transport)
    → (deliver_app_message session delivery attempt first second store).1 ≡ ok transport
    → IsRouted
        (latest_of store session)
        delivery
        attempt
        first
        second
        (deliver_app_message session delivery attempt first second store).0.sessions
        transport
unfolding deliver_app_message
deliver-IsRouted session delivery attempt first second store transport h =
    elim (Bool-cases (should_attempt_peer delivery s)) [
      | inr e ↦
          rw (deliver_app_message, e)
            (deliver_by_relay-ok s delivery attempt first second store transport (rw e at h))
      | inl e ↦
          rw (deliver_app_message, e)
            (attempted attempt transport (should_attempt_peer-MayTryPeer delivery s e) (rw e at h))
    ]
  where
    s : SessionItem
    s = latest_of store session

    done_of : Attempt → Store × Result Transport
    done_of a = elim a [
      | sent ↦ (store, ok p2p)
      | not_ready ↦ deliver_by_relay s first second store
      | thrown e ↦ deliver_by_relay s first second (mark_peer_failure s e store)
    ]

    attempted :
        (a : Attempt) (t : Transport)
        → MayTryPeer delivery s
        → (done_of a).1 ≡ ok t
        → IsRouted s delivery a first second (done_of a).0.sessions t
    attempted sent p2p m h = (m, refl)
    attempted sent relay m h = absurd (cc h)
    attempted not_ready t m h = deliver_by_relay-ok s delivery not_ready first second store t h
    attempted (thrown e) t m h =
        deliver_by_relay-ok s delivery (thrown e) first second (mark_peer_failure s e store) t h
