-- ===== src/Mobile/Sessions/Timers.antt =====
-- Every recorded ping has a timer that is still to fire.
use Prim.Native.Nat.{ℕ}
use Prim.Native.String.{String}
use mathlib.Core.Path.{◌≡◌, refl, sym, ap, ◌∙◌}
use mathlib.Core.Bool.{Bool, true, false, not, ◌&&◌}
use mathlib.Core.Option.{Option, none, some}
use mathlib.Core.List.{List, [], ◌∷◌}
use mathlib.Core.Logic.{inl, inr}
use native.Mathlib.Omega.{arith}
use text.Mathlib.Text.{◌==◌}
use text.Mathlib.TextEquality.{eq_iff}
use text.Mathlib.TextPositions.{eq_refl}
use openclawapp.Base.{if◌then◌else◌, Bool-cases, trim, lookup, insert}
use openclawapp.Base.Maps.{lookup-insert}
use openclawapp.Base.Values.{finite, Runtime, Result, ok, err}
use openclawapp.Mobile.{SessionItem, Transport}
use openclawapp.Mobile.Sessions.{Store, Pending, without, patch_by_id}
use openclawapp.Mobile.Sessions.Stale.{lookup-without}
use openclawapp.Mobile.Sessions.Pings.{
  Within, lookup-keep, keep-Within, Within-refl, same-Within, deliver-pending, close_peer-Within,
  clear_pending_ping-Within, apply_link_pong-Within, prune_link_probes-Within,
}
use openclawapp.Mobile.Sessions.Probes.{
  Timer, Probing, armed, disarm, start_probe, finish_probe, expire_probe, unmeasured, ProbeEvent,
  started, delivering, finished, answered, fired, closed, cleared, pruned, handle_probe, run_probes,
}

armed-disarm :
    (b id c other : String) (ts : List Timer)
    → (c == b && other == id) ≡ false
    → armed b id ts ≡ true
    → armed b id (disarm c other ts) ≡ true
unfolding armed disarm
armed-disarm b id c other [] n h = h
armed-disarm b id c other (t ∷ ts) n h =
    elim (Bool-cases (t.binding_id == c && t.ping_id == other)) [
      | inl e ↦ rw e (
          ground (
            arith,
            h,
            elsewhere ((eq_iff t.binding_id c).0 (ground arith))
                ((eq_iff t.ping_id other).0 (ground arith)),
          ))
      | inr e ↦ rw e (ground (arith, armed-disarm b id c other ts n))
    ]
  where
    elsewhere :
        t.binding_id ≡ c → t.ping_id ≡ other → (t.binding_id == b && t.ping_id == id) ≡ false
    elsewhere p q = rw (p, q) n

-- Every recorded ping has a timer.
pub IsTimed : Probing → Type 0
IsTimed w =
    (b : String) (p : Pending) → lookup b w.store.pending ≡ some p → armed b p.id w.timers ≡ true

-- Fewer pings with the same timers.
Within-IsTimed :
    (w : Probing) (store : Store)
    → Within store.pending w.store.pending
    → IsTimed w
    → IsTimed (record w { store = store })
unfolding IsTimed Within
Within-IsTimed w store h t b p e = t b p (h b p e)

some-id : (p q : Pending) → some p ≡ some q → p.id ≡ q.id
some-id p q h = ap (λ o. elim o [ none ↦ "" | some r ↦ r.id ]) h

finish_probe-IsTimed :
    (rt : Runtime) (s : SessionItem) (id : String) (now : ℕ) (r : Result Transport) (w : Probing)
    → IsTimed w
    → IsTimed (handle_probe rt (finished s id now r) w)
unfolding handle_probe IsTimed finish_probe armed Within
finish_probe-IsTimed rt s id now (err _) w t b p e =
    t b p (keep-Within (λ k. not (k == trim s.binding_id)) w.store.pending b p e)
finish_probe-IsTimed rt s id now (ok transport) w t b p e =
    elim (Bool-cases (trim s.binding_id == b)) [
      | inl f ↦ rw f (ground (arith, eq_iff id p.id, some-id ping p (sym (found ∙ rw f refl) ∙ e)))
      | inr f ↦ rw f (t b p (sym (found ∙ rw f refl) ∙ e))
    ]
  where
    ping : Pending
    ping = record {
      id = id;
      sent_at = finite false now 0;
      transport = transport;
      session_id = s.id;
    }

    found :
        lookup b (insert (trim s.binding_id) ping w.store.pending)
        ≡ (if trim s.binding_id == b then some ping else lookup b w.store.pending)
    found = lookup-insert (trim s.binding_id) b ping w.store.pending

-- The timer of a ping ends that ping, and no other.
expire_probe-lookup :
    (f : Timer) (store : Store) (b : String) (p : Pending)
    → lookup b (expire_probe f store).pending ≡ some p
    → ((f.binding_id == b && f.ping_id == p.id) ≡ false) × (lookup b store.pending ≡ some p)
unfolding expire_probe Within patch_by_id
expire_probe-lookup f store b p h = expired (lookup f.binding_id store.pending) refl h
  where
    at_timer :
        lookup b store.pending ≡ some p
        → f.binding_id ≡ b
        → lookup f.binding_id store.pending ≡ some p
    at_timer g e = rw e g

    apart :
        (q : Pending)
        → lookup f.binding_id store.pending ≡ some q
        → (q.id == f.ping_id) ≡ false
        → lookup b store.pending ≡ some p
        → (f.binding_id == b && f.ping_id == p.id) ≡ false
    apart q e d g = elim (Bool-cases (f.binding_id == b)) [
      | inl same ↦ ground (
        arith,
        eq_iff f.ping_id p.id,
        eq_iff q.id f.ping_id,
        some-id q p (sym e ∙ at_timer g ((eq_iff f.binding_id b).0 same)),
      )
      | inr other ↦ rw other refl
    ]

    unlisted :
        lookup f.binding_id store.pending ≡ none
        → lookup b store.pending ≡ some p
        → (f.binding_id == b && f.ping_id == p.id) ≡ false
    unlisted e g = elim (Bool-cases (f.binding_id == b)) [
      | inl same ↦ absurd (cc (e, at_timer g ((eq_iff f.binding_id b).0 same)))
      | inr other ↦ rw other refl
    ]

    ended :
        (q : Pending) (same : Bool)
        → lookup f.binding_id store.pending ≡ some q
        → (q.id == f.ping_id) ≡ same
        → lookup b
            (if same
              then patch_by_id q.session_id unmeasured
                  (record store { pending = without f.binding_id store.pending })
              else store).pending
          ≡ some p
        → ((f.binding_id == b && f.ping_id == p.id) ≡ false) × (lookup b store.pending ≡ some p)
    ended q true e d h = (
      ground (
        arith,
        eq_iff f.binding_id b,
        eq_iff b f.binding_id,
        lookup-keep (λ k. not (k == f.binding_id)) b store.pending,
      ),
      keep-Within (λ k. not (k == f.binding_id)) store.pending b p h,
    )
    ended q false e d h = (apart q e d h, h)

    expired :
        (o : Option Pending)
        → lookup f.binding_id store.pending ≡ o
        → lookup b
            (elim o as (λ _. Store) [
              | none ↦ store
              | some q ↦
                  if q.id == f.ping_id
                  then patch_by_id q.session_id unmeasured
                      (record store { pending = without f.binding_id store.pending })
                  else store
            ]).pending
          ≡ some p
        → ((f.binding_id == b && f.ping_id == p.id) ≡ false) × (lookup b store.pending ≡ some p)
    expired none e h = (unlisted e h, h)
    expired (some q) e h = ended q (q.id == f.ping_id) e refl h

expire_probe-IsTimed :
    (rt : Runtime) (f : Timer) (w : Probing) → IsTimed w → IsTimed (handle_probe rt (fired f) w)
unfolding handle_probe IsTimed
expire_probe-IsTimed rt f w t = elim (Bool-cases (armed f.binding_id f.ping_id w.timers)) [
  | inl e ↦
      rw (handle_probe, e)
        (λ b p h.
          let (n, g) = expire_probe-lookup f w.store b p h in
          armed-disarm b p.id f.binding_id f.ping_id w.timers n (t b p g))
  | inr e ↦ rw (handle_probe, e) t
]

run_probes-IsTimed :
    (rt : Runtime) (events : List ProbeEvent) (w : Probing)
    → IsTimed w
    → IsTimed (run_probes rt events w)
unfolding handle_probe start_probe
run_probes-IsTimed rt [] w t = t
run_probes-IsTimed rt (e ∷ es) w t = run_probes-IsTimed rt es (handle_probe rt e w) (step e)
  where
    step : (e : ProbeEvent) → IsTimed (handle_probe rt e w)
    step (started s) = Within-IsTimed w (start_probe s w.store) (Within-refl w.store.pending) t
    step (delivering s d a first second) =
        Within-IsTimed w _ (same-Within (deliver-pending s d a first second w.store)) t
    step (finished s id now r) = finish_probe-IsTimed rt s id now r w t
    step (answered s id n transport) =
        Within-IsTimed w _ (apply_link_pong-Within rt s id n transport w.store) t
    step (fired f) = expire_probe-IsTimed rt f w t
    step (closed b detail) = Within-IsTimed w _ (close_peer-Within b detail w.store) t
    step (cleared s) = Within-IsTimed w _ (clear_pending_ping-Within s w.store) t
    step (pruned ss) = Within-IsTimed w _ (prune_link_probes-Within ss w.store) t

-- A set timer that fires ends the ping that is recorded with its id.
fired-lookup :
    (rt : Runtime) (w : Probing) (b : String) (p : Pending)
    → lookup b w.store.pending ≡ some p
    → armed b p.id w.timers ≡ true
    → lookup b (handle_probe rt (fired (record { binding_id = b; ping_id = p.id })) w).store.pending
      ≡ none
unfolding handle_probe expire_probe patch_by_id
fired-lookup rt w b p e a =
    rw (handle_probe, a, expire_probe, e, eq_refl p.id) (lookup-without b w.store.pending)

-- In a run that starts without recorded pings, whatever the order of its probes, deliveries, pongs,
-- timers and closed peers: the timer of every ping recorded at its end is set, and no ping of the
-- binding is recorded once that timer fires.
pub run_probes-ends :
    (rt : Runtime) (events : List ProbeEvent) (w : Probing) (b : String) (p : Pending)
    → w.store.pending ≡ []
    → lookup b (run_probes rt events w).store.pending ≡ some p
    → (armed b p.id (run_probes rt events w).timers ≡ true)
      × (lookup b
            (handle_probe rt
              (fired (record { binding_id = b; ping_id = p.id }))
              (run_probes rt events w)).store.pending
          ≡ none)
unfolding IsTimed lookup
run_probes-ends rt events w b p h e =
    let a = run_probes-IsTimed rt events w (λ c q f. absurd (cc (rw h at f))) b p e in
    (a, fired-lookup rt (run_probes rt events w) b p e a)
