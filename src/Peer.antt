-- ===== src/Peer.antt =====
-- packages/pair-sdk/src/peer.ts: the data of a peer channel, and what `disposePeer` leaves of it.
-- Child modules: Messages (what it sends and how it answers a message), Trust (theorems about
-- these), Signals (descriptions, candidates, `connect` and the signal handlers), Events (the
-- callbacks of the connection and of the data channel), Worlds (a run of callbacks and awaits),
-- Flags, Secrecy, Turns, Runs, Greeting and Sends (theorems about runs).
pub mod Messages
pub mod Descriptions
pub mod Signals
pub mod Events
pub mod Worlds
pub mod Flags
pub mod Secrecy
pub mod Turns
pub mod Runs
pub mod Sends
pub mod Greeting
pub mod Trust
use Prim.Native.Nat.{ℕ}
use Prim.Native.Char.{code}
use Prim.Native.String.{String, ◌++◌}
use mathlib.Core.Bool.{Bool, true, false, not, ◌&&◌, ◌||◌}
use mathlib.Core.Option.{Option, none, some}
use mathlib.Core.List
use mathlib.Core.List.{List, [], ◌∷◌}
use text.Mathlib.Text.{◌==◌}
use openclawapp.Base.{if◌then◌else◌, eqb, is_empty, contains, set_of, trim}
use openclawapp.Base.Values.{
  finite, Value, undefined, null, bool, num, str, arr, obj, elems, Elems, nil, Fields, end, field,
  Runtime, Result, ok, err, member, trimmed_text, text_of, truthy,
}
use openclawapp.Crdt.Envelope.{or_text, ◌>>=◌, ◌>>◌, require}
use openclawapp.Crdt.Wire.{array_or_empty}
use openclawapp.Chat.{EntityType, desktop, mobile, PeerMessage, trimmed_texts}
use openclawapp.Chat.Codec.{is_text, number_or_now}

pub data PeerState : Type 0 where
  idle connecting channel_open verifying connected disconnected failed : PeerState

pub record Capabilities : Type 0 where
  pub protocol_version : String
  pub supported_messages : List String
  pub features : List String
  pub app_id : Option String
  pub app_version : Option String

pub record Options : Type 0 where
  pub role : EntityType
  pub self_id : String
  pub self_public_key : String
  pub trusted_peer_id : String
  pub trusted_peer_public_key : String
  pub binding_id : String
  pub capabilities : Fields

-- A session description of the browser.
pub record Description : Type 0 where
  pub type : String
  pub sdp : String

-- What the code reads of an `RTCPeerConnection`. Objects are told apart by their number.
pub record PeerConnection : Type 0 where
  pub id : ℕ
  pub connection_state : String
  pub ice_connection_state : String
  pub remote_description : Option Description
  pub local_description : Option Description

-- What the code reads of an `RTCDataChannel`.
pub record DataChannel : Type 0 where
  pub id : ℕ
  pub ready_state : String

-- The fields of `PairV2PeerChannel`; `fresh` is the number of the next object that the browser makes.
pub record Channel : Type 0 where
  pub fresh : ℕ
  pub peer : Option PeerConnection
  pub data_channel : Option DataChannel
  pub state : PeerState
  pub pending_remote_candidates : List Value
  pub hello_sent : Bool
  pub capabilities_sent : Bool
  pub remote_verified : Bool
  pub remote_capabilities : Option Capabilities
  pub closed_by_user : Bool

abbrev pub hello_type : String
hello_type = "sys.auth.hello"

abbrev pub capabilities_type : String
capabilities_type = "sys.capabilities"

abbrev pub entity_text : EntityType → String
entity_text desktop = "desktop"
entity_text mobile = "mobile"

unfoldable pub trusted_remote_role : EntityType → EntityType
trusted_remote_role desktop = mobile
trusted_remote_role mobile = desktop

-- `text.startsWith(prefix)`
unfoldable pub starts_with : String → String → Bool
starts_with String.[] s = true
starts_with (String.◌∷◌ c p) String.[] = false
starts_with (String.◌∷◌ c p) (String.◌∷◌ d s) = eqb (code c) (code d) && starts_with p s

unfoldable pub is_app_type : String → Bool
unfolding starts_with
is_app_type type = starts_with "app." (trim type)

unfoldable pub hello_text : String → EntityType → String → String → String → String
hello_text binding_id entity_type entity_id public_key nonce =
    "openclaw-v2-peer-hello\n"
    ++ (binding_id
        ++ ("\n"
            ++ (entity_text entity_type
                ++ ("\n" ++ (entity_id ++ ("\n" ++ (public_key ++ ("\n" ++ nonce))))))))

-- `this.dataChannel?.readyState === 'open'`
unfoldable pub is_open : Option DataChannel → Bool
is_open none = false
is_open (some d) = d.ready_state == "open"

unfoldable pub is_ready : Channel → Bool
is_ready c = is_connected c.state && (is_open c.data_channel && c.remote_verified)
  where
    is_connected : PeerState → Bool
    is_connected connected = true
    is_connected _ = false

-- What `disposePeer` leaves of the channel.
unfoldable pub dispose : PeerState → Channel → Channel
dispose state c = record {
  fresh = c.fresh;
  peer = none;
  data_channel = none;
  state = state;
  pending_remote_candidates = [];
  hello_sent = false;
  capabilities_sent = false;
  remote_verified = false;
  remote_capabilities = none;
  closed_by_user = c.closed_by_user;
}
