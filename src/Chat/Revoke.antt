-- ===== src/Chat/Revoke.antt =====
-- packages/message-sdk/src/openclaw-channel.ts: the message that a channel is revoked.
use Prim.Native.String.{String}
use mathlib.Core.Option.{Option, none, some}
use openclawapp.Base.{if◌then◌else◌}
use openclawapp.Base.Values.{Value, Runtime, Count, member, truthy, trimmed_text, count_or_now}
use openclawapp.Chat.{EntityType, desktop, mobile, PeerMessage}
use openclawapp.Chat.Codec.{is_text, typed_payload}

abbrev pub revoke_type : String
revoke_type = "app.openclaw.channel.revoke"

pub record Revoke : Type 0 where
  pub channel_id : String
  pub binding_id : String
  pub session_id : String
  pub revoked_by : EntityType
  pub revoked_at : Count

module _ (rt : Runtime) where
  unfoldable pub build_revoke_payload : Value → Value → Value → Value → Value → Revoke
  build_revoke_payload channel_id binding_id session_id revoked_by revoked_at = record {
    channel_id = trimmed_text rt channel_id;
    binding_id = trimmed_text rt binding_id;
    session_id = trimmed_text rt session_id;
    revoked_by = if is_text revoked_by "desktop" then desktop else mobile;
    revoked_at = count_or_now rt 0 revoked_at;
  }

  unfoldable pub parse_revoke : PeerMessage → Option Revoke
  parse_revoke message = elim (typed_payload rt revoke_type message) [
    | none ↦ none
    | some payload ↦ some (record {
      channel_id = trimmed_text rt (member "channelId" payload);
      binding_id = trimmed_text rt (member "bindingId" payload);
      session_id = trimmed_text rt (member "sessionId" payload);
      revoked_by = message.from;
      revoked_at =
          count_or_now rt 0 (
            if truthy (member "revokedAt" payload) then member "revokedAt" payload else message.ts);
    })
  ]
