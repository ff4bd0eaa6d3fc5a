-- ===== src/Mobile.antt =====
-- mobile/src/types/session.ts: the sessions of the mobile app and their messages. A field that the
-- type leaves optional is an `Option`; the fields of a session that the modelled code only copies
-- stand in `other`.
pub mod ChatGraph
pub mod Sessions
use Prim.Native.String.{String}
use mathlib.Core.Bool.{Bool}
use mathlib.Core.Option.{Option}
use mathlib.Core.List.{List}
use openclawapp.Base.Values.{Num, Fields, Value}
use openclawapp.Chat.{Origin}

pub data ConnectionStatus : Type 0 where
  connected waiting offline : ConnectionStatus

pub data From : Type 0 where
  from_self from_host : From

pub data Kind : Type 0 where
  chat system : Kind

pub data DeliveryStatus : Type 0 where
  sending sent failed : DeliveryStatus

pub record ChatMessage : Type 0 where
  pub id : String
  pub from : From
  pub text : String
  pub created_at : String
  pub ts : Num
  pub kind : Option Kind
  pub origin : Option Origin
  pub origin_seq : Option Num
  pub after : Option (List String)
  pub missing_after : Option (List String)
  pub delivery_status : Option DeliveryStatus
  pub delivery_error : Option String

pub data Transport : Type 0 where
  p2p relay : Transport

pub record SessionItem : Type 0 where
  pub id : String
  pub status : ConnectionStatus
  pub is_replying : Bool
  pub preview : String
  pub messages : List ChatMessage
  pub server_base_url : String
  pub device_id : String
  pub binding_id : String
  pub trust_state : Option String
  pub transport_ready : Option Bool
  pub peer_state : Option String
  pub peer_detail : Option String
  pub peer_capabilities : Option Value
  pub missing_message_ids : Option (List String)
  pub link_transport : Option Transport
  pub link_rtt_ms : Option Num
  pub link_rtt_at : Option Num
  pub link_probe_pending : Option Bool
  pub other : Fields
