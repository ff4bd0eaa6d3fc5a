-- ===== src/Mobile/Sessions/Revocation.antt =====
-- What the revocation of a pairing leaves of its sessions and its peer.
use Prim.Native.String.{String}
use mathlib.Core.Path.{◌≡◌, refl, ap, ◌∙◌}
use mathlib.Core.Bool.{Bool, true, false}
use mathlib.Core.Option.{none, some}
use mathlib.Core.List.{List, [], ◌∷◌}
use mathlib.Core.Logic.{inl, inr, ◌⊎◌}
use openclawapp.Base.{Bool-cases, All, trim, trim_idem, is_empty, lookup}
use openclawapp.Base.Values.{Value, Num, Runtime, trimmed_text}
use openclawapp.Crdt.Ids.{IsId}
use openclawapp.Mobile.{SessionItem}
use openclawapp.Mobile.Sessions.{Store, can_use_relay, update_where}
use openclawapp.Mobile.Sessions.Stale.{close_peer-peers, lookup-without}
use openclawapp.Mobile.Sessions.Events.{
  SignalEvent, is_known, revoke_pairing, binding_of, device_of, handle_signal_event,
}

-- What holds of patched and of unpatched sessions holds of all.
pub update_where-All :
    (P : SessionItem → Type 0) (p : SessionItem → Bool) (patch : SessionItem → SessionItem)
    → ((s : SessionItem) → p s ≡ true → P (patch s))
    → ((s : SessionItem) → p s ≡ false → P s)
    → (ss : List SessionItem) → All P (update_where p patch ss)
unfolding update_where
update_where-All P p patch h k [] = tt
update_where-All P p patch h k (s ∷ ss) = elim (Bool-cases (p s)) [
  | inl e ↦ rw e (h s e, update_where-All P p patch h k ss)
  | inr e ↦ rw e (k s e, update_where-All P p patch h k ss)
]

-- A revoked session is not reachable.
abbrev pub IsCut : SessionItem → Type 0
IsCut s = (can_use_relay s ≡ false) × (s.transport_ready ≡ some false)

revoke_pairing-IsCut :
    (binding_id device_id : String) (store : Store)
    → All
        (λ s. (is_known binding_id device_id s ≡ false) ⊎ IsCut s)
        (revoke_pairing binding_id device_id store).sessions
unfolding revoke_pairing can_use_relay trim
revoke_pairing-IsCut binding_id device_id store =
    update_where-All (λ s. (is_known binding_id device_id s ≡ false) ⊎ IsCut s)
      (is_known binding_id device_id) _ (λ s e. inr (refl, refl)) (λ s e. inl e) _

trim-trimmed_text : (rt : Runtime) (v : Value) → trim (trimmed_text rt v) ≡ trimmed_text rt v
unfolding trimmed_text
trim-trimmed_text rt v = trim_idem _

-- A signal that a pairing is revoked: every session of its binding or its device is offline for
-- the relay and not ready, and no peer channel of the binding is kept, if it names a binding.
pub handle-revoked :
    (rt : Runtime) (format_time : Num → String) (event : SignalEvent) (store : Store)
    → trimmed_text rt event.type ≡ "pair.revoked"
    → (let binding_id = binding_of rt format_time event.payload in
        let device_id = device_of rt format_time event.payload (trimmed_text rt event.from_id) in
        let next = (handle_signal_event rt format_time event store).0 in
        All (λ s. (is_known binding_id device_id s ≡ false) ⊎ IsCut s) next.sessions
        × ((is_empty binding_id ≡ true) ⊎ (lookup binding_id next.peers ≡ none)))
unfolding handle_signal_event revoke_pairing
handle-revoked rt format_time event store h =
    let binding_id = binding_of rt format_time event.payload in
    let device_id = device_of rt format_time event.payload (trimmed_text rt event.from_id) in
    rw (handle_signal_event, h)
      (
        revoke_pairing-IsCut binding_id device_id store,
        elim (Bool-cases (is_empty binding_id)) [
          | inl e ↦ inl e
          | inr n ↦ inr (closed binding_id device_id (trim-trimmed_text rt _, n))
        ],
      )
  where
    closed :
        (binding_id device_id : String)
        → IsId binding_id
        → lookup binding_id (revoke_pairing binding_id device_id store).peers ≡ none
    closed binding_id device_id i =
        rw (revoke_pairing, i.1)
          (ap (lookup binding_id) (close_peer-peers binding_id "binding revoked" store i)
            ∙ lookup-without binding_id store.peers)
