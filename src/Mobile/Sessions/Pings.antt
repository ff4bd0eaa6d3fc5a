-- ===== src/Mobile/Sessions/Pings.antt =====
-- Which recorded pings are left by the code that closes peers, prunes, delivers and takes pongs.
use Prim.Native.String.{String}
use mathlib.Core.Path.{◌≡◌, refl, ap, ◌∙◌}
use mathlib.Core.Bool.{Bool, true, false, not}
use mathlib.Core.Option.{none, some}
use mathlib.Core.List.{List, [], ◌∷◌}
use mathlib.Core.Logic.{inl, inr}
use native.Mathlib.Omega.{arith}
use text.Mathlib.Text.{◌==◌}
use text.Mathlib.TextEquality.{eq_iff}
use openclawapp.Base.{
  if◌then◌else◌, Bool-cases, Option-cases, trim, is_empty, keep, lookup, contains,
}
use openclawapp.Base.Values.{Num, Runtime, Result, ok, Result-cases}
use openclawapp.Mobile.{SessionItem, Transport, p2p}
use openclawapp.Mobile.Sessions.{
  Store, Pending, without, latest_of, can_use_relay, update_peer_state, mark_peer_failure,
  apply_link_pong, clear_pending_ping,
}
use openclawapp.Mobile.Sessions.Peers.{
  Delivery, Attempt, sent, not_ready, thrown, bindings, should_attempt_peer, send_relay,
  deliver_by_relay, deliver_app_message, close_peer, prune_link_probes,
}

abbrev pub Pings : Type 0
Pings = List (String × Pending)

-- Every ping of the first map is in the second.
unfoldable pub Within : Pings → Pings → Type 0
Within m n = (b : String) (p : Pending) → lookup b m ≡ some p → lookup b n ≡ some p

module _ (q : String → Bool) where
  pub lookup-keep :
      (b : String) (m : Pings) → lookup b (keep (λ e. q e.0) m) ≡ (if q b then lookup b m else none)
  unfolding lookup
  lookup-keep b [] = ground arith
  lookup-keep b ((k, v) ∷ m) = elim (Bool-cases (q k)) [
    | inl e ↦
        rw e
          (ap (λ o. if k == b then some v else o) (lookup-keep b m) ∙ ground (arith, eq_iff k b, e))
    | inr e ↦ rw e (lookup-keep b m ∙ ground (arith, eq_iff k b, e))
  ]

  pub keep-Within : (m : Pings) → Within (keep (λ e. q e.0) m) m
  unfolding Within
  keep-Within m b p h = ground (arith, lookup-keep b m)

update_peer_state-pending :
    (binding_id state detail : String) (store : Store)
    → (update_peer_state binding_id state detail store).pending ≡ store.pending
unfolding update_peer_state
update_peer_state-pending binding_id state detail store =
    elim (Bool-cases (is_empty (trim binding_id))) [
      | inl e ↦ rw (update_peer_state, e) refl
      | inr e ↦ rw (update_peer_state, e) refl
    ]

mark_peer_failure-pending :
    (s : SessionItem) (detail : String) (store : Store)
    → (mark_peer_failure s detail store).pending ≡ store.pending
unfolding mark_peer_failure
mark_peer_failure-pending s detail store = elim (Bool-cases (is_empty (trim s.binding_id))) [
  | inl e ↦ rw (mark_peer_failure, e) refl
  | inr e ↦ rw (mark_peer_failure, e) (update_peer_state-pending _ "failed" detail store)
]

deliver_by_relay-pending :
    (s : SessionItem) (first second : Result (Unit {0})) (store : Store)
    → (deliver_by_relay s first second store).0.pending ≡ store.pending
unfolding deliver_by_relay
deliver_by_relay-pending s first second store = elim (Bool-cases (can_use_relay s)) [
  | inl e ↦ elim (Result-cases (send_relay s first second)) [
    | inl (_, f) ↦ rw (deliver_by_relay, e, f) refl
    | inr (_, f) ↦ rw (deliver_by_relay, e, f) refl
  ]
  | inr e ↦ rw (deliver_by_relay, e) refl
]

pub deliver-pending :
    (s : SessionItem) (delivery : Delivery) (attempt : Attempt) (first second : Result (Unit {0}))
    (store : Store)
    → (deliver_app_message s delivery attempt first second store).0.pending ≡ store.pending
unfolding deliver_app_message
deliver-pending session delivery attempt first second store =
    let s = latest_of store session in
    elim (Bool-cases (should_attempt_peer delivery s)) [
      | inl e ↦ rw (deliver_app_message, e) (attempted s attempt)
      | inr e ↦ rw (deliver_app_message, e) (deliver_by_relay-pending s first second store)
    ]
  where
    attempted :
        (s : SessionItem) (a : Attempt)
        → ((elim a as (λ _. Store × Result Transport) [
          | sent ↦ (store, ok p2p)
          | not_ready ↦ deliver_by_relay s first second store
          | thrown d ↦ deliver_by_relay s first second (mark_peer_failure s d store)
        ]).0
          ).pending
          ≡ store.pending
    attempted s sent = refl
    attempted s not_ready = deliver_by_relay-pending s first second store
    attempted s (thrown d) =
        deliver_by_relay-pending s first second (mark_peer_failure s d store)
        ∙ mark_peer_failure-pending s d store

pub Within-refl : (m : Pings) → Within m m
unfolding Within
Within-refl m b p h = h

pub same-Within : {m n : Pings} → m ≡ n → Within m n
same-Within {m} {n} e = rw e (Within-refl n)

pub close_peer-Within :
    (binding_id detail : String) (store : Store)
    → Within (close_peer binding_id detail store).pending store.pending
unfolding close_peer
close_peer-Within binding_id detail store = elim (Bool-cases (is_empty (trim binding_id))) [
  | inl e ↦ rw (close_peer, e) (Within-refl store.pending)
  | inr e ↦ elim (Option-cases (lookup (trim binding_id) store.peers)) [
    | inl f ↦ rw (close_peer, e, f) (keep-Within (λ k. not (k == trim binding_id)) store.pending)
    | inr (c, f) ↦
        rw (close_peer, e, f, update_peer_state-pending)
          (keep-Within (λ k. not (k == trim binding_id)) store.pending)
  ]
]

pub clear_pending_ping-Within :
    (s : SessionItem) (store : Store) → Within (clear_pending_ping s store).pending store.pending
unfolding clear_pending_ping
clear_pending_ping-Within s store = elim (Bool-cases (is_empty (trim s.binding_id))) [
  | inl e ↦ rw (clear_pending_ping, e) (Within-refl store.pending)
  | inr e ↦
      rw (clear_pending_ping, e) (keep-Within (λ k. not (k == trim s.binding_id)) store.pending)
]

chosen-Within :
    (answered : Bool) (key : String) (store : Store)
    → Within
        (if answered then record store { pending = without key store.pending } else store).pending
        store.pending
chosen-Within true key store = keep-Within (λ k. not (k == key)) store.pending
chosen-Within false key store = Within-refl store.pending

pub apply_link_pong-Within :
    (rt : Runtime) (s : SessionItem) (pong_id : String) (n : Num) (transport : Transport)
    (store : Store)
    → Within (apply_link_pong rt s pong_id n transport store).pending store.pending
unfolding apply_link_pong
apply_link_pong-Within rt s pong_id n transport store = chosen-Within _ (trim s.binding_id) store

pub prune_link_probes-Within :
    (sessions : List SessionItem) (store : Store)
    → Within (prune_link_probes sessions store).pending store.pending
unfolding prune_link_probes
prune_link_probes-Within sessions store =
    keep-Within (λ k. contains k (bindings sessions)) store.pending
