-- ===== src/Mobile/Sessions/Stale.antt =====
-- Which peer channels are left when the stale ones are closed.
use Prim.Native.String.{String}
use mathlib.Core.Path.{◌≡◌, refl, sym, ap, ◌∙◌}
use mathlib.Core.Bool.{Bool, true, false, ◌&&◌, ◌||◌}
use mathlib.Core.Option.{Option, none, some, some_inj}
use mathlib.Core.List.{List, [], ◌∷◌}
use mathlib.Core.Logic.{inl, inr, ◌⊎◌, ◌≢◌}
use native.Mathlib.Omega.{arith}
use text.Mathlib.Text.{◌==◌}
use text.Mathlib.TextEquality.{eq_iff}
use text.Mathlib.TextPositions.{eq_refl}
use openclawapp.Base.{
  if◌then◌else◌, Bool-cases, Option-cases, All, trim, is_empty, lookup, keys, contains, find,
}
use openclawapp.Base.Maps.{lookup-absent}
use openclawapp.Crdt.Ids.{IsId}
use openclawapp.Peer.{Channel}
use openclawapp.Mobile.{SessionItem}
use openclawapp.Mobile.Sessions.{Store, without, update_peer_state}
use openclawapp.Mobile.Sessions.Peers.{
  close_peer, bindings, is_active, is_stale, close_stale_from, close_stale_peers,
}

module _ {V : Type 0} where
  pub lookup-without : (key : String) (m : List (String × V)) → lookup key (without key m) ≡ none
  unfolding lookup
  lookup-without key [] = refl
  lookup-without key ((k, v) ∷ m) = elim (Bool-cases (k == key)) [
    | inl e ↦ rw e (lookup-without key m)
    | inr e ↦ rw (e, e) (lookup-without key m)
  ]

  lookup-without-other :
      (key other : String) (m : List (String × V))
      → (other == key) ≡ false
      → lookup other (without key m) ≡ lookup other m
  unfolding lookup
  lookup-without-other key other [] h = refl
  lookup-without-other key other ((k, v) ∷ m) h = elim (Bool-cases (k == key)) [
    | inl e ↦ rw e (
        lookup-without-other key other m h
        ∙ ap (λ b. if b then some v else lookup other m) (not_other ((eq_iff k key).0 e)))
    | inr e ↦ rw e (ap (λ o. if k == other then some v else o) (lookup-without-other key other m h))
  ]
    where
      not_other : k ≡ key → false ≡ (k == other)
      not_other p = ground (arith, eq_iff k other, eq_iff other key)

  without-absent : (key : String) (m : List (String × V)) → lookup key m ≡ none → without key m ≡ m
  unfolding lookup
  without-absent key [] h = refl
  without-absent key ((k, v) ∷ m) h = elim (Bool-cases (k == key)) [
    | inl e ↦ absurd (cc (rw e at h))
    | inr e ↦ rw e (ap (λ t. (k, v) ∷ t) (without-absent key m (rw e at h)))
  ]

update_peer_state-peers :
    (binding_id state detail : String) (store : Store)
    → (update_peer_state binding_id state detail store).peers ≡ store.peers
unfolding update_peer_state
update_peer_state-peers binding_id state detail store =
    elim (Bool-cases (is_empty (trim binding_id))) [
      | inl e ↦ rw (update_peer_state, e) refl
      | inr e ↦ rw (update_peer_state, e) refl
    ]

-- Closing a peer removes its channel alone.
pub close_peer-peers :
    (binding_id detail : String) (store : Store)
    → IsId binding_id
    → (close_peer binding_id detail store).peers ≡ without binding_id store.peers
unfolding close_peer
close_peer-peers binding_id detail store (t, n) =
    elim (Option-cases (lookup binding_id store.peers)) [
      | inl e ↦ rw (close_peer, t, n, e) (sym (without-absent binding_id store.peers e))
      | inr (c, e) ↦
          rw (close_peer, t, n, e)
            (update_peer_state-peers (trim binding_id) "disconnected" detail _
              ∙ ap (λ b. without b store.peers) t)
    ]

close_if-lookup :
    (stale : Bool) (k b : String) (store : Store)
    → IsId b
    → lookup k (if stale then close_peer b "session removed" store else store).peers
      ≡ (if b == k && stale then none else lookup k store.peers)
close_if-lookup false k b store i = elim (Bool-cases (b == k)) [
  | inl e ↦ rw e refl
  | inr e ↦ rw e refl
]
close_if-lookup true k b store i =
    ap (lookup k) (close_peer-peers b "session removed" store i) ∙ elim (Bool-cases (b == k)) [
      | inl e ↦ rw ((eq_iff b k).0 e, eq_refl k) (lookup-without k store.peers)
      | inr e ↦ rw e (lookup-without-other b k store.peers (ground (arith, eq_iff b k, eq_iff k b)))
    ]

close_stale_from-lookup :
    (sessions : List SessionItem) (k : String) (bs : List String) (store : Store)
    → All IsId bs
    → lookup k (close_stale_from sessions bs store).peers
      ≡ (if contains k bs && is_stale sessions k then none else lookup k store.peers)
unfolding close_stale_from contains
close_stale_from-lookup sessions k [] store h = refl
close_stale_from-lookup sessions k (b ∷ bs) store (i, h) =
    close_stale_from-lookup sessions k bs
      (if is_stale sessions b then close_peer b "session removed" store else store) h
    ∙ ap (λ o. if contains k bs && is_stale sessions k then none else o)
        (close_if-lookup (is_stale sessions b) k b store i)
    ∙ joined (b == k) (contains k bs) (is_stale sessions b) (is_stale sessions k)
        (lookup k store.peers) (λ e. ap (is_stale sessions) ((eq_iff b k).0 e))
  where
    joined :
        (same later stale stale_k : Bool) (o : Option Channel)
        → (same ≡ true → stale ≡ stale_k)
        → (if later && stale_k then none else if same && stale then none else o)
          ≡ (if (same || later) && stale_k then none else o)
    joined same later stale stale_k o h = ground arith

close_stale_peers-lookup :
    (sessions : List SessionItem) (store : Store) (k : String)
    → All IsId (keys store.peers)
    → lookup k (close_stale_peers sessions store).peers
      ≡ (if is_stale sessions k then none else lookup k store.peers)
unfolding close_stale_peers
close_stale_peers-lookup sessions store k h =
    close_stale_from-lookup sessions k (keys store.peers) store h
    ∙ ground (arith, lookup-absent k store.peers)

-- The first session of the binding, if there is one.
abbrev pub first_of : String → List SessionItem → Option SessionItem
first_of k sessions = find (λ s. s.binding_id == k) sessions

-- The first session of the binding is active.
abbrev pub IsLinked : String → List SessionItem → Type 0
IsLinked k sessions =
    (s : SessionItem) × (first_of k sessions ≡ some s) × (s.trust_state ≡ some "active")

contains-bindings :
    (k : String) (sessions : List SessionItem) (s : SessionItem)
    → IsId k
    → first_of k sessions ≡ some s
    → contains k (bindings sessions) ≡ true
unfolding contains
contains-bindings k [] s i h = absurd (cc h)
contains-bindings k (x ∷ xs) s (t, n) h = elim (Bool-cases (x.binding_id == k)) [
  | inl e ↦ rw ((eq_iff x.binding_id k).0 e, t, n, eq_refl k) refl
  | inr e ↦
      let later = contains-bindings k xs s (t, n) (rw e at h) in
      elim (Bool-cases (is_empty (trim x.binding_id))) [
        | inl f ↦ rw f later
        | inr f ↦ rw f (ground (arith, later))
      ]
]

is_active-active : (o : Option String) → is_active o ≡ true → o ≡ some "active"
is_active-active none h = absurd (cc h)
is_active-active (some state) h = ap some ((eq_iff state "active").0 h)

inactive :
    (s t : SessionItem)
    → is_active s.trust_state ≡ false
    → some s ≡ some t
    → t.trust_state ≢ some "active"
inactive s t a e b =
    let same : s ≡ t = some_inj.0 e in
    let yes : is_active s.trust_state ≡ true = rw (same, b) (eq_refl "active") in cc

is_stale-cases :
    (k : String) (sessions : List SessionItem)
    → IsId k
    → ((is_stale sessions k ≡ false) × IsLinked k sessions)
      ⊎ ((is_stale sessions k ≡ true) × ¬ IsLinked k sessions)
unfolding is_stale
is_stale-cases k sessions i = elim (Option-cases (first_of k sessions)) [
  | inl e ↦ inr (ground arith, λ (s, f, a). cc)
  | inr (s, e) ↦ elim (Bool-cases (is_active s.trust_state)) [
    | inl a ↦ inl (
      rw (contains-bindings k sessions s i e, e, a) refl,
      (s, e, is_active-active s.trust_state a),
    )
    | inr a ↦ inr (rw (e, a) (ground arith), λ (t, f, b). inactive s t a (sym e ∙ f) b)
  ]
]

-- Once stale peers are closed, a binding has the channel that it had, if its first session is
-- active, and no channel otherwise. The bindings are not empty and without spaces around them.
pub close_stale_peers-IsLinked :
    (sessions : List SessionItem) (store : Store) (k : String)
    → All IsId (keys store.peers)
    → IsId k
    → (IsLinked k sessions
        × (lookup k (close_stale_peers sessions store).peers ≡ lookup k store.peers))
      ⊎ ((¬ IsLinked k sessions) × (lookup k (close_stale_peers sessions store).peers ≡ none))
close_stale_peers-IsLinked sessions store k h i =
    let closed = close_stale_peers-lookup sessions store k h in
    elim (is_stale-cases k sessions i) [
      | inl (e, l) ↦ inl (l, closed ∙ rw e refl)
      | inr (e, l) ↦ inr (l, closed ∙ rw e refl)
    ]
