-- ===== src/Tests/PeerRunTests.antt =====
-- A run of a peer channel: it connects, greets, and verifies the peer's hello.
use Prim.Native.String.{String}
use mathlib.Core.Path.{◌≡◌, refl}
use mathlib.Core.Bool.{Bool, true, false}
use mathlib.Core.Option.{none, some}
use mathlib.Core.Logic.{inl, ◌⊎◌}
use openclawapp.Base.{lookup, trim}
use openclawapp.Base.Values.{finite, num, null, Fields, field, end, Value, str, obj, Runtime, ok}
use openclawapp.Chat.Codec.{is_text}
use openclawapp.Peer.{is_open, is_ready, is_app_type, starts_with, trusted_remote_role}
use openclawapp.Peer.Messages.{hello_fields, send_app_message, supports_remote_message}
use openclawapp.Peer.Signals.{Browser}
use openclawapp.Peer.Secrecy.{HasHello}
use openclawapp.Peer.Worlds.{
  World, asked_connect, ready_state, channel_opened, channel_message, settle_auth, start, Reach,
  started, stepped, handle,
}
use openclawapp.Peer.Greeting.{accepted, settle_all, IsGreeted, greet-IsGreeted}
use openclawapp.Peer.Events.{is_current_channel}
use openclawapp.Peer.Sends.{IsAdvertised, Reach-send}
use openclawapp.Peer.Runs.{Reach-HasHello, Reach-order}
use openclawapp.Tests.{sample}
use openclawapp.Tests.PeerTests.{desktop_side, mobile_side, opened, sides-IsMutual}

-- The text that arrives is the hello of the mobile side.
abbrev receiving : Runtime
receiving = record sample {
  json_parse = λ s. ok (obj (hello_fields sample mobile_side "n" (str "s")));
}

abbrev browser : Browser
browser = record {
  has_webrtc = true;
  peer_state = "new";
  ice_state = "new";
  channel_state = "connecting";
}

-- The peer's key accepts the signature "s".
abbrev verify : String → String → Value → Bool
verify key text signature = is_text signature "s"

abbrev connecting_world : World
connecting_world = handle receiving browser verify desktop_side asked_connect start

abbrev open_world : World
open_world =
    handle receiving browser verify desktop_side (channel_opened 1 0)
      (handle receiving browser verify desktop_side (ready_state 1 "open") connecting_world)

abbrev greeted_world : World
greeted_world = handle receiving browser verify desktop_side (settle_auth 0 accepted) open_world

abbrev final_world : World
final_world =
    handle receiving browser verify desktop_side (settle_auth 0 accepted)
      (handle receiving browser verify desktop_side (channel_message 1 0 "hello") greeted_world)

reached : Reach receiving browser verify desktop_side final_world
reached =
    stepped
      (stepped
        (stepped
          (stepped (stepped (stepped started asked_connect) (ready_state 1 "open"))
            (channel_opened 1 0))
          (settle_auth 0 accepted))
        (channel_message 1 0 "hello"))
      (settle_auth 0 accepted)

final_verified : final_world.channel.remote_verified ≡ true
unfolding handle hello_fields start lookup trusted_remote_role
final_verified = refl

Reach-HasHello_example : HasHello receiving verify desktop_side final_world.received
Reach-HasHello_example =
    Reach-HasHello receiving browser verify desktop_side final_world reached (inl final_verified)

Reach-order_example :
    ((final_world.channel.capabilities_sent ≡ false)
      ⊎ ((final_world.channel.hello_sent ≡ true) × (final_world.channel.remote_verified ≡ true)))
    × ((final_world.channel.remote_verified ≡ true)
        ⊎ (final_world.channel.remote_capabilities ≡ none))
Reach-order_example = Reach-order receiving browser verify desktop_side final_world reached

-- A world whose data channel is open, and whose connection is the current one.
abbrev ready_world : World
ready_world = record start {
  channel = record opened {
    peer = some (record {
      id = 0;
      connection_state = "new";
      ice_connection_state = "new";
      remote_description = none;
      local_description = none;
    });
  };
}

greet-IsGreeted_example : IsGreeted receiving browser verify desktop_side ready_world (
    settle_all receiving browser verify desktop_side
      (handle receiving browser verify desktop_side (channel_message 1 0 "hello") ready_world))
unfolding is_open is_current_channel start hello_fields
greet-IsGreeted_example =
    greet-IsGreeted receiving browser verify desktop_side mobile_side "n" "hello" (str "s") 1 0
      ready_world sides-IsMutual refl refl refl refl refl

abbrev notes : Fields
notes = field "type" (str "app.note") (
    field "payload" (obj end)
      (field "ts" (num (finite false 1000 0)) (field "from" (str "desktop") end)))

final_sends : send_app_message receiving desktop_side final_world.channel "app.note" null ≡ ok notes
unfolding send_app_message handle hello_fields start lookup trusted_remote_role is_open is_ready
    is_app_type starts_with supports_remote_message trim
final_sends = refl

Reach-send_example :
    HasHello receiving verify desktop_side final_world.received
    × IsAdvertised final_world.channel "app.note"
unfolding trim
Reach-send_example =
    Reach-send receiving browser verify desktop_side final_world "app.note" null notes reached
      final_sends
