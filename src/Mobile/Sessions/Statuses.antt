-- ===== src/Mobile/Sessions/Statuses.antt =====
-- The delivery status that a sent or retried message has in the end.
use Prim.Native.String.{String}
use mathlib.Core.Path.{◌≡◌, refl, sym, ap, ◌∙◌}
use mathlib.Core.Bool.{Bool, true, false, not}
use mathlib.Core.Option.{Option, none, some}
use mathlib.Core.List.{List, [], ◌∷◌}
use mathlib.Core.Logic.{inl, inr, ◌⊎◌}
use text.Mathlib.Text.{◌==◌}
use text.Mathlib.TextEquality.{eq_iff}
use openclawapp.Base.{if◌then◌else◌, Bool-cases, Option-cases, All, trim}
use openclawapp.Base.Values.{Num, Runtime, Result, ok, err, Result-cases, Count}
use openclawapp.Crdt.Ids.{IsId}
use openclawapp.Mobile.{ChatMessage, DeliveryStatus, sent, failed, Transport, SessionItem}
use openclawapp.Mobile.Sessions.{Store, find_by_id, latest_of, mark_transport}
use openclawapp.Mobile.Sessions.Messages.{set_delivery, update_delivery_state, append_message_local}
use openclawapp.Mobile.Sessions.Peers.{deliver_app_message}
use openclawapp.Mobile.Sessions.Revocation.{update_where-All}
use openclawapp.Mobile.Sessions.Sending.{
  Outcome, deliver_local, deliver_or_fail, refusal, sent_ts, sent_id, draft, send_message,
}

-- Messages of this id have this status in the session, if it has this id.
abbrev pub HasStatus : String → String → DeliveryStatus → SessionItem → Type 0
HasStatus session_id id status s =
    ((s.id == session_id) ≡ false)
    ⊎ All (λ m. ((trim m.id == id) ≡ false) ⊎ (m.delivery_status ≡ some status)) s.messages

abbrev pub status_of {ℓ} : {A : Type ℓ} → Result A → DeliveryStatus
status_of (ok a) = sent
status_of (err e) = failed

set_delivery-All :
    (id : String) (status : DeliveryStatus) (error : String) (ms : List ChatMessage)
    → All
        (λ m. ((trim m.id == id) ≡ false) ⊎ (m.delivery_status ≡ some status))
        (set_delivery id status error ms)
unfolding set_delivery
set_delivery-All id status error [] = tt
set_delivery-All id status error (m ∷ ms) = elim (Bool-cases (trim m.id == id)) [
  | inl e ↦ rw e (inr refl, set_delivery-All id status error ms)
  | inr e ↦ rw e (inl e, set_delivery-All id status error ms)
]

update_delivery_state-All :
    (session_id id : String) (status : DeliveryStatus) (error : String) (store : Store)
    → IsId session_id
    → IsId id
    → All
        (HasStatus session_id id status)
        (update_delivery_state session_id id status error store).sessions
unfolding update_delivery_state
update_delivery_state-All session_id id status error store (t, n) (u, k) =
    rw (update_delivery_state, t, n, u, k)
      (update_where-All (HasStatus session_id id status) (λ s. s.id == session_id) _
        (λ s e. inr (set_delivery-All id status error s.messages)) (λ s e. inl e) store.sessions)

find_by_id-id :
    (id : String) (ss : List SessionItem) (s : SessionItem) → find_by_id id ss ≡ some s → s.id ≡ id
unfolding find_by_id
find_by_id-id id [] s h = absurd (cc h)
find_by_id-id id (x ∷ ss) s h = elim (Bool-cases (x.id == id)) [
  | inl e ↦ ap text_id (sym (rw e at h)) ∙ (eq_iff x.id id).0 e
  | inr e ↦ find_by_id-id id ss s (rw e at h)
]
  where
    text_id : Option SessionItem → String
    text_id none = s.id
    text_id (some t) = t.id

latest_of-id : (store : Store) (session : SessionItem) → (latest_of store session).id ≡ session.id
latest_of-id store session = elim (Option-cases (find_by_id session.id store.sessions)) [
  | inl e ↦ rw (latest_of, e) refl
  | inr (s, e) ↦ rw (latest_of, e) (find_by_id-id session.id store.sessions s e)
]

deliver_local-All :
    (rt : Runtime) (session : SessionItem) (id : String) (outcome : Outcome) (store : Store)
    (done : Unit {0})
    → IsId session.id
    → IsId id
    → (deliver_local rt session id outcome store).1 ≡ ok done
    → All (HasStatus session.id id sent) (deliver_local rt session id outcome store).0.sessions
unfolding deliver_local
deliver_local-All rt session id outcome store done i j h =
    ended _ outcome.connected
      (deliver_app_message s (record { prefer_relay = false; force_peer_attempt = false })
        outcome.attempt outcome.first outcome.second store)
      h
  where
    s : SessionItem
    s = latest_of store session

    done_of : Bool → Result Bool → Store × Result Transport → Store × Result (Unit {0})
    done_of supported connected delivered =
        if not supported then (store, err "当前桌面端未声明聊天能力") else elim connected [
          | err e ↦ (store, err e)
          | ok false ↦ (store, err "信令连接未建立")
          | ok true ↦ elim delivered.1 [
            | err e ↦ (delivered.0, err e)
            | ok transport ↦ (
              update_delivery_state s.id id sent "" (mark_transport s.id transport delivered.0),
              ok tt,
            )
          ]
        ]

    ended :
        (supported : Bool) (connected : Result Bool) (delivered : Store × Result Transport)
        → (done_of supported connected delivered).1 ≡ ok done
        → All (HasStatus session.id id sent) (done_of supported connected delivered).0.sessions
    ended false c d h = absurd (cc h)
    ended true (err e) d h = absurd (cc h)
    ended true (ok false) d h = absurd (cc h)
    ended true (ok true) (st, err e) h = absurd (cc h)
    ended true (ok true) (st, ok t) h =
        rw (latest_of-id store session)
          (update_delivery_state-All session.id id sent "" (mark_transport session.id t st) i j)

deliver_or_fail-All :
    (rt : Runtime) (session : SessionItem) (id : String) (outcome : Outcome) (store : Store)
    → IsId session.id
    → IsId id
    → (let r = deliver_or_fail rt session id outcome store in
        All (HasStatus session.id id (status_of r.1)) r.0.sessions)
unfolding deliver_or_fail
deliver_or_fail-All rt session id outcome store i j =
    elim (Result-cases (deliver_local rt session id outcome store).1) [
      | inl (e, f) ↦
          rw (deliver_or_fail, f)
            (update_delivery_state-All session.id id failed e
              (deliver_local rt session id outcome store).0 i j)
      | inr (d, f) ↦
          rw (deliver_or_fail, f, f) (deliver_local-All rt session id outcome store d i j f)
    ]

returned-All :
    (session_id id : String) (v : String × Count) (r : Result (Unit {0})) (ss : List SessionItem)
    → All (HasStatus session_id id (status_of r)) ss
    → All
        (HasStatus session_id id
          (status_of (elim r as (λ _. Result (String × Count)) [ ok _ ↦ ok v | err e ↦ err e ])))
        ss
returned-All session_id id v (ok _) ss h = h
returned-All session_id id v (err e) ss h = h

-- Once a message that is not refused was sent, all messages of its id in the session count as sent
-- if `sendMessage` returns, and as failed if it throws: none is left as being sent. The id of the
-- session and of the message are not empty and without spaces around them.
pub send_message-All :
    (rt : Runtime) (format_time : Num → String) (session_id text : String)
    (message_id : Option String) (ts : Option Num) (outcome : Outcome) (store : Store)
    (s : SessionItem)
    → find_by_id session_id store.sessions ≡ some s
    → refusal rt format_time text s ≡ none
    → IsId s.id
    → IsId (sent_id rt format_time message_id (sent_ts rt format_time ts))
    → (let r = send_message rt format_time session_id text message_id ts outcome store in
        All
          (HasStatus s.id
            (sent_id rt format_time message_id (sent_ts rt format_time ts))
            (status_of r.1))
          r.0.sessions)
unfolding send_message
send_message-All rt format_time session_id text message_id ts outcome store s f n i j =
    rw (send_message, f, n)
      (returned-All s.id id (id, at) (deliver_or_fail rt s id outcome added).1 _
        (deliver_or_fail-All rt s id outcome added i j))
  where
    at : Count
    at = sent_ts rt format_time ts

    id : String
    id = sent_id rt format_time message_id at

    added : Store
    added = append_message_local rt format_time s.id (draft rt format_time s text id at) store
