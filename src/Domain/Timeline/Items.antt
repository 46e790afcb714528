-- ===== src/Domain/Timeline/Items.antt =====
-- item.go: messages and timeline items.
use nexus_services.Shared.{not, ◌||◌, Result, ok, reject_if, ◌>>◌, ◌==◌, Time, is_zero, before}
use nexus_services.Text.{is_empty}
use nexus_services.Domain.User.{UserId}
use nexus_services.Domain.Chat.{ChatId}
use nexus_services.Domain.Timeline.Content.{
  TimelineError, invalid_id, invalid_chat_id, invalid_created_at, invalid_updated_at,
  invalid_sender_id, invalid_client_message_id, invalid_sequence, invalid_content, ItemId, Kind,
  kind_message, MessageContent, valid,
}
use nexus_services.Domain.Timeline.Identity.{ClientMessageId, Sequence}

pub record Message : Type 0 where
  pub client_message_id : ClientMessageId
  pub sender_id : UserId
  pub content : MessageContent

unfoldable pub new_message :
    ClientMessageId → UserId → MessageContent → Result TimelineError Message
new_message client_message_id sender_id content = do
  reject_if (is_empty client_message_id) invalid_client_message_id
  reject_if (is_empty sender_id) invalid_sender_id
  reject_if (not (valid content)) invalid_content
  ok (record { client_message_id = client_message_id; sender_id = sender_id; content = content })

pub record Item : Type 0 where
  pub id : ItemId
  pub chat_id : ChatId
  pub sequence : Sequence
  pub kind : Kind
  pub created_at : Time
  pub updated_at : Time
  pub message : Message

unfoldable pub restore_message :
    ItemId → ChatId → Sequence → Time → Time → Message → Result TimelineError Item
restore_message id chat_id sequence created_at updated_at message = do
  reject_if (is_empty id) invalid_id
  reject_if (is_empty chat_id) invalid_chat_id
  reject_if (sequence == 0) invalid_sequence
  reject_if (is_zero created_at) invalid_created_at
  reject_if (is_zero updated_at || before updated_at created_at) invalid_updated_at
  reject_if (is_empty message.client_message_id) invalid_client_message_id
  reject_if (is_empty message.sender_id) invalid_sender_id
  reject_if (not (valid message.content)) invalid_content
  ok (record {
    id = id;
    chat_id = chat_id;
    sequence = sequence;
    kind = kind_message;
    created_at = created_at;
    updated_at = updated_at;
    message = message;
  })
