-- ===== src/Tests/MobileTests.antt =====
-- The sessions of the mobile app on sample values.
use Prim.Native.Nat.{ℕ, ◌+◌, ◌≤◌, ◌<◌}
use mathlib.Core.Path.{◌≡◌, refl}
use mathlib.Core.Bool.{true, false}
use mathlib.Core.Option.{none, some}
use mathlib.Core.List.{[], ◌∷◌}
use mathlib.Core.Logic.{inl, ◌⊎◌}
use native.Mathlib.Omega.{arith}
use openclawapp.Base.{All, trim, is_empty, lookup}
use openclawapp.Base.Occurrences.{In}
use openclawapp.Base.Values.{finite, str, end, field, whole, ok, clamp, trimmed_text}
use openclawapp.Chat.{host, mobile_side}
use openclawapp.Mobile.{
  ChatMessage, from_self, from_host, chat, sent, SessionItem, connected, relay,
}
use openclawapp.Mobile.ChatGraph.{
  describe_session_chat_state, extract_chat_messages, normalize_origin_seq,
}
use openclawapp.Mobile.ChatGraph.Laws.{side_seq, sends, describe-sends}
use openclawapp.Mobile.Sessions.{Store, find_by_id}
use openclawapp.Mobile.Sessions.Merge.{
  exact_numbers, succ_double, counts_for, next_origin_seq, merge_refreshed_sessions,
}
use openclawapp.Mobile.Sessions.Peers.{Delivery, not_ready, deliver_app_message, close_stale_peers}
use openclawapp.Mobile.Sessions.Events.{SignalEvent, is_known, handle_signal_event}
use openclawapp.Mobile.Sessions.Laws.{next_origin_seq-above, SharesId, merge-IsKept}
use openclawapp.Mobile.Sessions.Routes.{IsRouted, deliver-IsRouted}
use openclawapp.Mobile.Sessions.Revocation.{IsCut, handle-revoked}
use openclawapp.Mobile.Sessions.Stale.{IsLinked, close_stale_peers-IsLinked}
use openclawapp.Tests.{sample}
use openclawapp.Tests.PeerTests.{opened}

abbrev own : ChatMessage
own = record {
  id = "m1";
  from = from_self;
  text = "hi";
  created_at = "now";
  ts = finite false 5 0;
  kind = some chat;
  origin = some mobile_side;
  origin_seq = some (finite false 1 0);
  after = some [];
  missing_after = none;
  delivery_status = some sent;
  delivery_error = none;
}

abbrev reply : ChatMessage
reply = record own {
  id = "m2";
  from = from_host;
  text = "hello";
  origin = some host;
  after = some ("m1" ∷ []);
}

abbrev pub session : SessionItem
session = record {
  id = "s1";
  status = connected;
  is_replying = false;
  preview = "";
  messages = own ∷ reply ∷ [];
  server_base_url = "https://pair";
  device_id = "pc";
  binding_id = "bind";
  trust_state = some "active";
  transport_ready = some true;
  peer_state = some "failed";
  peer_detail = none;
  peer_capabilities = none;
  missing_message_ids = none;
  link_transport = none;
  link_rtt_ms = none;
  link_rtt_at = none;
  link_probe_pending = none;
  other = end;
}

abbrev pub store : Store
store = record {
  sessions = session ∷ [];
  peers = ("bind", opened) ∷ ("gone", opened) ∷ [];
  peer_connecting = [];
  last_presence = [];
  last_sync = [];
  last_ping = [];
  pending = [];
}

describe-sends_example :
    (n : ℕ) × (side_seq mobile_side (describe_session_chat_state sample (own ∷ reply ∷ []))
      ≡ whole n)
    × ((k : ℕ)
        → 1 ≤ k
        → k ≤ n
        → sends sample mobile_side k (extract_chat_messages sample (own ∷ reply ∷ [])) ≡ true)
    × (sends sample mobile_side (n + 1) (extract_chat_messages sample (own ∷ reply ∷ [])) ≡ false)
describe-sends_example = describe-sends sample mobile_side (own ∷ reply ∷ [])

next_two : next_origin_seq sample mobile_side (own ∷ reply ∷ []) ≡ whole 2
unfolding next_origin_seq clamp
next_two = refl

own_counts : counts_for mobile_side own ≡ true
unfolding counts_for
own_counts = refl

next_origin_seq-above_example : (k : ℕ) × (normalize_origin_seq sample own ≡ whole k) × (k < 2)
next_origin_seq-above_example =
    next_origin_seq-above sample mobile_side (own ∷ reply ∷ []) 2 next_two (omega arith) own
      (inl refl) own_counts

merge-IsKept_example :
    In session (merge_refreshed_sessions sample (session ∷ []) (session ∷ []))
    ⊎ ((x : SessionItem) × In x (merge_refreshed_sessions sample (session ∷ []) (session ∷ []))
        × SharesId x session)
merge-IsKept_example = merge-IsKept sample (session ∷ []) (session ∷ []) session (inl refl)

abbrev plain : Delivery
plain = record { prefer_relay = false; force_peer_attempt = false }

relayed : (deliver_app_message session plain not_ready (ok tt) (ok tt) store).1 ≡ ok relay
unfolding deliver_app_message trim find_by_id
relayed = refl

deliver-IsRouted_example :
    IsRouted session plain not_ready
      (ok tt)
      (ok tt)
      (deliver_app_message session plain not_ready (ok tt) (ok tt) store).0.sessions
      relay
unfolding find_by_id
deliver-IsRouted_example =
    deliver-IsRouted session plain not_ready (ok tt) (ok tt) store relay relayed

abbrev revocation : SignalEvent
revocation = record {
  type = str "pair.revoked";
  from_id = str "pc";
  payload = field "bindingId" (str "bind") end;
}

is_revocation : trimmed_text sample revocation.type ≡ "pair.revoked"
unfolding trimmed_text trim
is_revocation = refl

handle-revoked_example :
    All
      (λ s. (is_known "bind" "pc" s ≡ false) ⊎ IsCut s)
      (handle_signal_event sample (λ n. "now") revocation store).0.sessions
    × ((is_empty "bind" ≡ true)
        ⊎ (lookup "bind" (handle_signal_event sample (λ n. "now") revocation store).0.peers ≡ none))
unfolding trimmed_text trim lookup
handle-revoked_example = handle-revoked sample (λ n. "now") revocation store is_revocation

close_stale_peers-IsLinked_example :
    (IsLinked "bind" (session ∷ [])
      × (lookup "bind" (close_stale_peers (session ∷ []) store).peers ≡ lookup "bind" store.peers))
    ⊎ ((¬ IsLinked "bind" (session ∷ []))
        × (lookup "bind" (close_stale_peers (session ∷ []) store).peers ≡ none))
unfolding trim
close_stale_peers-IsLinked_example =
    close_stale_peers-IsLinked (session ∷ []) store "bind" ((refl, refl), ((refl, refl), tt))
      (refl, refl)

-- The double after 2 ^ 53 is not reached by adding 1.
stuck : succ_double exact_numbers ≡ exact_numbers
unfolding succ_double
stuck = refl
