-- ===== src/Tests/PeerTests.antt =====
-- The peer channel, the registry of app modules, and message envelopes on sample values.
use mathlib.Core.Path.{◌≡◌, refl}
use mathlib.Core.Bool.{true, false}
use mathlib.Core.Option.{none, some}
use mathlib.Core.List.{List, [], ◌∷◌}
use mathlib.Core.Logic.{◌≢◌}
use openclawapp.Base.{trim}
use openclawapp.Base.Values.{
  null, str, obj, arr, nil, cons, Fields, end, field, ok, finite, num, Value,
}
use openclawapp.Crdt.Ids.{IsId}
use openclawapp.Chat.{desktop, mobile, PeerMessage}
use openclawapp.Peer.{
  idle, connected, is_open, Options, Channel, Capabilities, hello_text, is_ready, is_app_type,
  starts_with, trusted_remote_role,
}
use openclawapp.Peer.Messages.{
  delivered, learned, react, verify_hello, hello_fields, supports_remote_message, send_app_message,
}
use openclawapp.Peer.Trust.{IsMutual, react-unverified, react-hello_fields}
use openclawapp.Peer.Sends.{send-react}
use openclawapp.Apps.{AppModule, dispatch, lists_type, supports, dispatch-supports}
use openclawapp.Message.{Envelope, ack, parse_envelope, envelope_fields, parse-envelope_fields}
use openclawapp.Tests.{sample}

abbrev pub desktop_side : Options
desktop_side = record {
  role = desktop;
  self_id = "pc";
  self_public_key = "pc-key";
  trusted_peer_id = "phone";
  trusted_peer_public_key = "phone-key";
  binding_id = "bind";
  capabilities = end;
}

abbrev pub mobile_side : Options
mobile_side = record {
  role = mobile;
  self_id = "phone";
  self_public_key = "phone-key";
  trusted_peer_id = "pc";
  trusted_peer_public_key = "pc-key";
  binding_id = "bind";
  capabilities = end;
}

-- A channel whose data channel has just opened.
abbrev pub opened : Channel
opened = record {
  fresh = 2;
  peer = none;
  data_channel = some (record { id = 1; ready_state = "open" });
  state = idle;
  pending_remote_candidates = [];
  hello_sent = false;
  capabilities_sent = false;
  remote_verified = false;
  remote_capabilities = none;
  closed_by_user = false;
}

abbrev ready : Channel
ready = record opened { state = connected; remote_verified = true }

abbrev app_value : Value
app_value = obj (field "type" (str "app.note") end)

pub sides-IsMutual : IsMutual desktop_side mobile_side
unfolding trusted_remote_role
sides-IsMutual = record { binding = refl; role = refl; id = refl; key = refl }

react-unverified_example :
    ((m : PeerMessage) → react sample desktop_side opened app_value ≢ delivered m)
    × ((k : Capabilities) → react sample desktop_side opened app_value ≢ learned k)
react-unverified_example = react-unverified sample desktop_side opened app_value refl

react-hello_fields_example :
    react sample desktop_side opened (obj (hello_fields sample mobile_side "n" (str "s")))
    ≡ verify_hello (hello_text "bind" mobile "phone" "phone-key" "n") (str "s")
react-hello_fields_example =
    react-hello_fields sample desktop_side mobile_side opened "n" (str "s") sides-IsMutual

abbrev note : Fields
note = field "type" (str "app.note") (
    field "payload" (obj end)
      (field "ts" (num (finite false 1000 0)) (field "from" (str "desktop") end)))

note_sent : send_app_message sample desktop_side ready "app.note" null ≡ ok note
unfolding send_app_message is_open is_ready is_app_type supports_remote_message starts_with trim
note_sent = refl

send-react_example :
    react sample mobile_side ready (obj note)
    ≡ delivered (record {
      type = trim "app.note";
      payload = obj end;
      ts = num (finite false 1000 0);
      from = desktop;
    })
send-react_example =
    send-react sample desktop_side mobile_side ready ready "app.note" null note note_sent refl

abbrev modules : List AppModule
modules =
    record {
      id = "notes";
      feature = str "notes";
      supported_messages = arr (cons (str "app.note") nil);
    }
    ∷ []

type-IsId : IsId "app.note"
unfolding trim
type-IsId = (refl, refl)

note_handled : (dispatch modules "app.note").1 ≡ true
unfolding dispatch lists_type
note_handled = refl

dispatch-supports_example : supports sample modules "app.note" ≡ true
dispatch-supports_example = dispatch-supports sample modules "app.note" type-IsId note_handled

abbrev acknowledgement : Envelope
acknowledgement = record {
  message_id = "m1";
  type = ack;
  payload = obj end;
  session_id = none;
  task_id = some "t1";
  device_id = none;
  user_id = none;
  target_device_id = none;
  target_user_id = none;
  timestamp = "now";
}

texts-IsId : IsId "m1" × IsId "t1" × IsId "now"
unfolding trim
texts-IsId = ((refl, refl), (refl, refl), (refl, refl))

parse-envelope_fields_example :
    parse_envelope sample "made" (obj (envelope_fields acknowledgement)) ≡ ok acknowledgement
parse-envelope_fields_example =
    parse-envelope_fields sample "made" acknowledgement end texts-IsId.0 refl tt texts-IsId.1 tt tt
      tt tt texts-IsId.2
