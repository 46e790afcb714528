-- ===== src/Messages/Request.antt =====
-- internal/application/messages/create.go: the request, its content, and its answer.
use nexus_services.Shared.{
  ℕ, Bool, not, ◌||◌, Result, ok, err, map_err, ltb, ◌==◌, Option, none, some, Time, if◌then◌else◌,
}
use nexus_services.Text.{Text, is_empty, text_eq, rune_count, valid_string}
use nexus_services.Domain.Chat.{ChatId}
use nexus_services.Domain.Timeline.{
  TimelineError, ContentType, MessageContent, Message, Item, content_type_image, parse_content_type,
  new_image_content, new_message_content,
}

pub data CreateError : Type 0 where
  invalid_current_user_id invalid_chat_id invalid_client_message_id : CreateError
  invalid_content_type invalid_content content_too_long : CreateError
  chat_not_found idempotency_conflict : CreateError
  -- The errors without a name of their own.
  failed : CreateError

pub record CreateContentInput : Type 0 where
  pub content_type : Text
  pub value : Text
  pub image_id : Text
  pub caption : Text

pub record CreateInput : Type 0 where
  pub current_user_id : Text
  pub chat_id : Text
  pub client_message_id : Text
  pub content : CreateContentInput

pub record CreatedContent : Type 0 where
  pub content_type : Text
  pub value : Text
  pub image_id : Text
  pub caption : Text

pub record CreateOutput : Type 0 where
  pub id : Text
  pub client_message_id : Text
  pub chat_id : Text
  pub sequence : ℕ
  pub sender_id : Text
  pub content : CreatedContent
  pub created_at : Time
  pub created : Bool

abbrev pub max_text_message_characters : ℕ
max_text_message_characters = 4000

abbrev pub as_content : Result TimelineError MessageContent → Result CreateError MessageContent
as_content = map_err (λ _. invalid_content)

unfoldable pub parse_typed : ContentType → CreateContentInput → Result CreateError MessageContent
parse_typed content_type input =
    if not (valid_string input.value)
    then err invalid_content
    else if text_eq content_type content_type_image
    then if not (is_empty input.value)
      then err invalid_content
      else as_content (new_image_content input.image_id input.caption)
    else if not (is_empty input.image_id) || not (is_empty input.caption)
    then err invalid_content
    else if ltb max_text_message_characters (rune_count input.value)
    then err content_too_long
    else as_content (new_message_content content_type input.value)

unfoldable pub parse_content : CreateContentInput → Result CreateError MessageContent
parse_content input = elim (parse_content_type input.content_type) [
  | err _ ↦ err invalid_content_type
  | ok content_type ↦ parse_typed content_type input
]

unfoldable pub validate_stored_item : Option Item → ChatId → Message → Result CreateError Item
validate_stored_item none chat_id message = err failed
validate_stored_item (some item) chat_id message =
    let stored = item.message in
    if not (text_eq item.chat_id chat_id)
      || item.sequence == 0
      || not (text_eq stored.client_message_id message.client_message_id)
      || not (text_eq stored.sender_id message.sender_id)
      || not (text_eq stored.content.content_type message.content.content_type)
      || not (text_eq stored.content.value message.content.value)
      || not (text_eq stored.content.image_id message.content.image_id)
      || not (text_eq stored.content.caption message.content.caption)
    then err failed
    else ok item

unfoldable pub map_create_output : Item → Bool → CreateOutput
map_create_output item created =
    let message = item.message in
    let content = message.content in
    record {
      id = item.id;
      client_message_id = message.client_message_id;
      chat_id = item.chat_id;
      sequence = item.sequence;
      sender_id = message.sender_id;
      content = record {
        content_type = content.content_type;
        value = content.value;
        image_id = content.image_id;
        caption = content.caption;
      };
      created_at = item.created_at;
      created = created;
    }
