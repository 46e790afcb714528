-- ===== src/Delivery/Dispatch.antt =====
-- internal/application/delivery/dispatch.go, over ports with a world of their own.
use nexus_services.Shared.{
  Bool, not, ◌||◌, ◌&&◌, Option, none, some, Result, ok, err, reject_if, is_ok, is_zero,
  if◌then◌else◌,
}
use nexus_services.Shared.Actions.{Action, ◌>>=◌, ◌>>◌, lift}
use nexus_services.Shared.Int.{pos, leb_ℤ, ltb_ℤ}
use nexus_services.Text.{Text, bytes, is_empty, text_eq, trim_space}
use nexus_services.Domain.User
use nexus_services.Domain.User.{UserId}
use nexus_services.Domain.Chat
use nexus_services.Domain.Chat.{ChatId, Chat, ChatError, user_not_participant, related_user_id}
use nexus_services.Domain.Timeline.{max_sequence, parse_client_message_id}
use nexus_services.Ports.{
  PortError, chat_not_found, invalid_message_created_event, other, MessageCreatedEvent,
  RealtimeMessageCreated, valid_message_content, message_created_event_type_v1,
  realtime_protocol_version, realtime_message_created_type,
}

pub record DispatchPorts (W : Type 0) : Type 0 where
  -- `ctx.Err() != nil`
  pub done : W → Bool
  pub find_by_id : ChatId → Action W PortError (Option Chat)
  pub publish_message_created : UserId → RealtimeMessageCreated → Action W PortError (Unit {0})

abbrev pub aggregate_type_chat : Text
aggregate_type_chat = bytes "CHAT"

unfoldable pub validate_message_created : MessageCreatedEvent → Result PortError (Unit {0})
validate_message_created event =
    let payload = event.payload in
    if is_empty (trim_space event.event_id)
      || not (text_eq event.event_type message_created_event_type_v1)
      || not (text_eq event.aggregate_type aggregate_type_chat)
      || is_empty (trim_space event.aggregate_id)
      || not (text_eq event.aggregate_id payload.chat_id)
      || is_zero event.occurred_at
      || is_empty (trim_space payload.message_id)
      || is_empty (trim_space payload.sender_id)
      || leb_ℤ payload.sequence (pos 0)
      || ltb_ℤ (pos max_sequence) payload.sequence
      || is_zero payload.created_at
      || not (valid_message_content payload.content)
    then err invalid_message_created_event
    else reject_if
        (not (is_empty payload.client_message_id)
          && not (is_ok (parse_client_message_id payload.client_message_id)))
        invalid_message_created_event

unfoldable pub public_event : MessageCreatedEvent → RealtimeMessageCreated
public_event event =
    let payload = event.payload in
    record {
      version = realtime_protocol_version;
      event_type = realtime_message_created_type;
      event_id = event.event_id;
      occurred_at = event.occurred_at;
      message = record {
        id = payload.message_id;
        client_message_id = payload.client_message_id;
        chat_id = payload.chat_id;
        sequence = payload.sequence;
        sender_id = payload.sender_id;
        content = payload.content;
        created_at = payload.created_at;
      };
    }

-- An id that does not parse.
abbrev pub parsed : {E A : Type 0} → Result E A → Result PortError A
parsed (ok a) = ok a
parsed (err _) = err invalid_message_created_event

unfoldable pub conversation_found : Result PortError (Option Chat) → Result PortError Chat
conversation_found (ok (some chat)) = ok chat
conversation_found (ok none) = err other
conversation_found (err chat_not_found) = err invalid_message_created_event
conversation_found (err e) = err e

unfoldable pub recipient_of : Result ChatError UserId → Result PortError UserId
recipient_of (ok user) = ok user
recipient_of (err user_not_participant) = err invalid_message_created_event
recipient_of (err _) = err other

module _ {W : Type 0} (ports : DispatchPorts W) where
  open ports use {done, find_by_id, publish_message_created}

  unfoldable pub find_chat : ChatId → Action W PortError Chat
  find_chat chat_id w = let (reply, v) = find_by_id chat_id w in (conversation_found reply, v)

  unfoldable pub notify : UserId → UserId → RealtimeMessageCreated → Action W PortError (Unit {0})
  notify recipient sender event = do
    publish_message_created recipient event
    publish_message_created sender event

  unfoldable pub dispatch_live : MessageCreatedEvent → Action W PortError (Unit {0})
  dispatch_live event = do
    lift (validate_message_created event)
    chat_id ← lift (parsed (Chat.parse_id event.payload.chat_id))
    sender_id ← lift (parsed (User.parse_id event.payload.sender_id))
    conversation ← find_chat chat_id
    recipient_id ← lift (recipient_of (related_user_id conversation sender_id))
    notify recipient_id sender_id (public_event event)

  -- `Dispatch`
  unfoldable pub dispatch : MessageCreatedEvent → Action W PortError (Unit {0})
  dispatch event w = if done w then (err other, w) else dispatch_live event w
