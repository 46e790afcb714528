-- ===== src/Ports.antt =====
-- internal/ports: the values that pass between the parts, and their validation.
use nexus_services.Shared.{
  ℕ, Bool, true, not, ◌||◌, ◌&&◌, List, [], ◌∷◌, Result, is_ok, reject_if, ◌>>◌, Time, is_zero, leb,
  ◌==◌, length,
}
use nexus_services.Shared.Int.{ℤ, pos, leb_ℤ, ltb_ℤ}
use nexus_services.Text.{Text, bytes, is_empty, text_eq, trim_space}
use nexus_services.Domain.Timeline.{restore_content, parse_client_message_id, max_sequence}

-- The sentinel errors of the ports that the modelled parts tell apart, and every other error.
pub data PortError : Type 0 where
  user_not_found email_already_exists session_not_found session_conflict invalid_token
        expired_token :
      PortError
  chat_not_found message_idempotency_conflict image_unavailable : PortError
  invalid_outbox_event invalid_message_created_event : PortError
  other : PortError

abbrev pub message_created_event_type_v1 : Text
message_created_event_type_v1 = bytes "chat.message.created.v1"

pub record OutboxContent : Type 0 where
  pub content_type : Text
  pub value : Text
  pub image_id : Text
  pub caption : Text

unfoldable pub valid_message_content : OutboxContent → Bool
valid_message_content content =
    is_ok (restore_content content.content_type content.value content.image_id content.caption)

pub record MessageCreatedPayload : Type 0 where
  pub message_id : Text
  pub client_message_id : Text
  pub chat_id : Text
  pub sequence : ℤ
  pub sender_id : Text
  pub content : OutboxContent
  pub created_at : Time

pub record OutboxEvent : Type 0 where
  pub id : Text
  pub aggregate_type : Text
  pub aggregate_id : Text
  pub event_type : Text
  pub payload : MessageCreatedPayload
  pub attempts : ℤ
  pub lease_id : Text

pub record PublishReceipt : Type 0 where
  pub stream : Text
  pub sequence : ℕ

pub record MessageCreatedEvent : Type 0 where
  pub event_id : Text
  pub event_type : Text
  pub aggregate_type : Text
  pub aggregate_id : Text
  pub occurred_at : Time
  pub payload : MessageCreatedPayload

abbrev pub realtime_protocol_version : ℕ
realtime_protocol_version = 1

abbrev pub realtime_message_created_type : Text
realtime_message_created_type = bytes "message.created"

pub record RealtimeMessageData : Type 0 where
  pub id : Text
  pub client_message_id : Text
  pub chat_id : Text
  pub sequence : ℤ
  pub sender_id : Text
  pub content : OutboxContent
  pub created_at : Time

pub record RealtimeMessageCreated : Type 0 where
  pub version : ℕ
  pub event_type : Text
  pub event_id : Text
  pub occurred_at : Time
  pub message : RealtimeMessageData

-- The characters that `IndexFunc` looks for are ASCII, so the bytes can be looked at.
is_forbidden : ℕ → Bool
is_forbidden b = leb b 32 || b == 127 || b == b'.' || b == b'*' || b == b'>'

no_forbidden : List ℕ → Bool
unfolding is_forbidden
no_forbidden [] = true
no_forbidden (b ∷ s) = not (is_forbidden b) && no_forbidden s

unfoldable pub valid_realtime_user_id : Text → Bool
unfolding no_forbidden
valid_realtime_user_id id = not (is_empty id) && leb (length id) 256 && no_forbidden id

unfoldable pub validate_realtime_message : RealtimeMessageCreated → Result PortError (Unit {0})
validate_realtime_message event = do
  let message = event.message
  reject_if
      (not (event.version == realtime_protocol_version)
        || not (text_eq event.event_type realtime_message_created_type)
        || is_empty (trim_space event.event_id)
        || is_zero event.occurred_at
        || is_empty (trim_space message.id)
        || is_empty (trim_space message.chat_id)
        || not (valid_realtime_user_id message.sender_id)
        || leb_ℤ message.sequence (pos 0)
        || ltb_ℤ (pos max_sequence) message.sequence
        || is_zero message.created_at
        || not (valid_message_content message.content))
      invalid_message_created_event
  reject_if
      (not (is_empty message.client_message_id)
        && not (is_ok (parse_client_message_id message.client_message_id)))
      invalid_message_created_event
