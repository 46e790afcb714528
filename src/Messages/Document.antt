-- ===== src/Messages/Document.antt =====
-- message_store/document.go: the documents that a new message is written as, and a timeline
-- document read back. The payload of the outbox document has the fields that the outbox
-- repository reads.
use nexus_services.Shared.{not, none, Result, map_err, reject_if, ◌>>=◌, ◌>>◌, Time}
use nexus_services.Shared.Int.{ℤ, pos}
use nexus_services.Text.{Text, bytes, text_eq}
use nexus_services.Domain.User
use nexus_services.Domain.Chat
use nexus_services.Domain.Chat.{ChatId}
use nexus_services.Domain.Timeline
use nexus_services.Domain.Timeline.{
  ItemId, Sequence, Message, Item, kind_message, parse_sequence, parse_kind, parse_content_type,
  parse_client_message_id, restore_content, new_message, restore_message,
}
use nexus_services.Ports.{message_created_event_type_v1}
use nexus_services.Mongo.{DbError}
use nexus_services.Outbox.Document.{OutboxDocument, pending}

-- ports.CreateMessageParams
pub record CreateMessageParams : Type 0 where
  pub message_id : ItemId
  pub event_id : Text
  pub chat_id : ChatId
  pub message : Message
  pub created_at : Time

-- The errors of the store that its callers or its own branches tell apart.
pub data StoreError : Type 0 where
  invalid_create_params invalid_stored_document : StoreError
  chat_not_found image_unavailable message_idempotency_conflict : StoreError
  invalid_allocated_sequence images_required no_sequence : StoreError
  database : DbError → StoreError

pub record MessageContentDocument : Type 0 where
  pub content_type : Text
  pub value : Text
  pub image_id : Text
  pub caption : Text

pub record MessageDocument : Type 0 where
  pub client_message_id : Text
  pub sender_id : Text
  pub content : MessageContentDocument

pub record TimelineDocument : Type 0 where
  pub id : Text
  pub chat_id : Text
  pub sequence : ℤ
  pub kind : Text
  pub created_at : Time
  pub updated_at : Time
  pub message : MessageDocument

unfoldable pub new_timeline_document : CreateMessageParams → Sequence → TimelineDocument
new_timeline_document params sequence =
    let message = params.message in
    let content = message.content in
    record {
      id = params.message_id;
      chat_id = params.chat_id;
      sequence = pos sequence;
      kind = kind_message;
      created_at = params.created_at;
      updated_at = params.created_at;
      message = record {
        client_message_id = message.client_message_id;
        sender_id = message.sender_id;
        content = record {
          content_type = content.content_type;
          value = content.value;
          image_id = content.image_id;
          caption = content.caption;
        };
      };
    }

abbrev pub aggregate_type_chat : Text
aggregate_type_chat = bytes "CHAT"

unfoldable pub new_outbox_document : CreateMessageParams → Sequence → OutboxDocument
new_outbox_document params sequence =
    let message = params.message in
    let content = message.content in
    record {
      id = params.event_id;
      aggregate_type = aggregate_type_chat;
      aggregate_id = params.chat_id;
      event_type = message_created_event_type_v1;
      payload = record {
        message_id = params.message_id;
        client_message_id = message.client_message_id;
        chat_id = params.chat_id;
        sequence = pos sequence;
        sender_id = message.sender_id;
        content = record {
          content_type = content.content_type;
          value = content.value;
          image_id = content.image_id;
          caption = content.caption;
        };
        created_at = params.created_at;
      };
      status = pending;
      attempts = 0;
      next_attempt_at = params.created_at;
      locked_by = none;
      locked_until = none;
      lease_id = none;
      published_at = none;
      failed_at = none;
      last_error = none;
      jetstream = none;
      created_at = params.created_at;
    }

abbrev pub stored : {E : Type 0} {A : Type 0} → Result E A → Result StoreError A
stored = map_err (λ _. invalid_stored_document)

-- `timelineItemDocument.toDomain`
unfoldable pub to_domain : TimelineDocument → Result StoreError Item
to_domain document = do
  let content = document.message.content
  item_id ← stored (Timeline.parse_id document.id)
  chat_id ← stored (Chat.parse_id document.chat_id)
  sequence ← stored (parse_sequence document.sequence)
  kind ← stored (parse_kind document.kind)
  reject_if (not (text_eq kind kind_message)) invalid_stored_document
  client_message_id ← stored (parse_client_message_id document.message.client_message_id)
  sender_id ← stored (User.parse_id document.message.sender_id)
  content_type ← stored (parse_content_type content.content_type)
  content ← stored (restore_content content_type content.value content.image_id content.caption)
  message ← stored (new_message client_message_id sender_id content)
  stored (restore_message item_id chat_id sequence document.created_at document.updated_at message)
