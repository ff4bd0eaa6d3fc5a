-- ===== src/Tests/ProbeTests.antt =====
-- The link probes of the mobile app on sample values.
use mathlib.Core.Path.{◌≡◌, refl}
use mathlib.Core.Bool.{true, false}
use mathlib.Core.Option.{none, some}
use mathlib.Core.List.{List, [], ◌∷◌}
use openclawapp.Base.{trim, lookup, insert}
use openclawapp.Base.Values.{finite, ok}
use openclawapp.Mobile.{p2p, relay}
use openclawapp.Mobile.Sessions.{Pending, find_by_id}
use openclawapp.Mobile.Sessions.Peers.{not_ready}
use openclawapp.Mobile.Sessions.Probes.{
  Probing, ProbeEvent, started, finished, answered, fired, closed, armed, handle_probe,
  probe_session_link, respond_to_link_ping, run_probes,
}
use openclawapp.Mobile.Sessions.Timers.{run_probes-ends}
use openclawapp.Tests.{sample}
use openclawapp.Tests.MobileTests.{session, store}

abbrev idle : Probing
idle = record { store = store; timers = [] }

-- The first ping gets its pong; the second is delivered by the relay, and another binding's peer is
-- closed while it waits.
abbrev events : List ProbeEvent
events =
    started session
    ∷ finished session "p1" 5 (ok p2p)
    ∷ answered session "p1" (finite false 5 0) p2p
    ∷ started session
    ∷ closed "gone" "session removed"
    ∷ finished session "p2" 9 (ok relay)
    ∷ []

abbrev second_ping : Pending
second_ping = record { id = "p2"; sent_at = finite false 9 0; transport = relay; session_id = "s1" }

second_recorded : lookup "bind" (run_probes sample events idle).store.pending ≡ some second_ping
unfolding handle_probe lookup insert trim
second_recorded = refl

run_probes-ends_example :
    (armed "bind" "p2" (run_probes sample events idle).timers ≡ true)
    × (lookup "bind"
          (handle_probe sample
            (fired (record { binding_id = "bind"; ping_id = "p2" }))
            (run_probes sample events idle)).store.pending
        ≡ none)
run_probes-ends_example = run_probes-ends sample events idle "bind" second_ping refl second_recorded

-- A second probe within the interval is not made.
throttled :
    (let first = probe_session_link session 10 50 "p1" true not_ready (ok tt) (ok tt) store in
      probe_session_link session 10 55 "p2" true not_ready (ok tt) (ok tt) first.0)
    ≡ ((probe_session_link session 10 50 "p1" true not_ready (ok tt) (ok tt) store).0, false)
unfolding probe_session_link find_by_id lookup insert trim
throttled = refl

-- A pong that comes before its ping is recorded does not end it.
early_pong :
    lookup "bind"
      (run_probes sample
        (started session
          ∷ answered session "p1" (finite false 5 0) relay
          ∷ finished session "p1" 5 (ok relay)
          ∷ [])
        idle).store.pending
    ≡ some (record second_ping { id = "p1"; sent_at = finite false 5 0 })
unfolding handle_probe lookup insert trim
early_pong = refl

-- A ping without an id gets no pong.
unanswered : (respond_to_link_ping session " " false not_ready (ok tt) (ok tt) store).1 ≡ ok none
unfolding respond_to_link_ping trim
unanswered = refl
