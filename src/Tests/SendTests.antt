-- ===== src/Tests/SendTests.antt =====
-- Sent and retried messages of the mobile app on sample values.
use mathlib.Core.Path.{◌≡◌, refl}
use mathlib.Core.Bool.{true, false}
use mathlib.Core.Option.{none, some}
use mathlib.Core.List.{[]}
use openclawapp.Base.{All, trim, lookup}
use openclawapp.Base.Values.{finite, ok, err}
use openclawapp.Mobile.{sent}
use openclawapp.Mobile.Sessions.{find_by_id}
use openclawapp.Mobile.Sessions.Peers.{not_ready}
use openclawapp.Mobile.Sessions.Sending.{
  Outcome, refusal, send_message, retry_message, remove_session, deliver_local, deliver_or_fail,
}
use openclawapp.Mobile.Sessions.Statuses.{HasStatus, send_message-All}
use openclawapp.Tests.{sample}
use openclawapp.Tests.MobileTests.{session, store}

abbrev relayed : Outcome
relayed = record { connected = ok true; attempt = not_ready; first = ok tt; second = ok tt }

not_refused : refusal sample (λ n. "now") " hello " session ≡ none
unfolding refusal trim
not_refused = refl

send_message-All_example :
    All
      (HasStatus "s1" "m9" sent)
      (send_message sample
        (λ n. "now")
        "s1"
        " hello "
        (some "m9")
        (some (finite false 7 0))
        relayed
        store).0.sessions
unfolding find_by_id trim send_message deliver_or_fail deliver_local
send_message-All_example =
    send_message-All sample (λ n. "now") "s1" " hello " (some "m9") (some (finite false 7 0))
      relayed store session refl not_refused (refl, refl) (refl, refl)

-- A message of the other side is not sent again.
not_own : retry_message sample "s1" "m2" relayed store ≡ (store, err "该消息无法重发")
unfolding retry_message find_by_id trim
not_own = refl

-- The desktop is told when an active session is removed, and its channel is dropped.
removed :
    ((remove_session "s1" store).0.sessions ≡ [])
    × (lookup "bind" (remove_session "s1" store).0.peers ≡ none)
unfolding remove_session find_by_id lookup trim
removed = (refl, refl)
