-- ===== src/Domain/Timeline/Content.antt =====
-- item.go: the errors of the package, ids, kinds and message contents. `ContentType` is a string
-- type, so its values are texts of any kind until they are parsed.
use nexus_services.Shared.{
  Bool, not, ◌||◌, ◌&&◌, Result, ok, err, is_ok, reject_if, ◌>>◌, ltb, length, if◌then◌else◌, [],
}
use nexus_services.Text.{
  Text, bytes, is_empty, text_eq, trim_space, to_upper, valid_string, rune_count,
}

pub data TimelineError : Type 0 where
  invalid_id invalid_chat_id invalid_kind invalid_created_at invalid_updated_at : TimelineError
  invalid_sender_id invalid_client_message_id invalid_sequence : TimelineError
  invalid_content_type invalid_content : TimelineError

abbrev pub ItemId : Type 0
ItemId = Text

unfoldable pub parse_id : Text → Result TimelineError ItemId
parse_id raw_id =
    let normalized_id = trim_space raw_id in
    if is_empty normalized_id then err invalid_id else ok normalized_id

abbrev pub Kind : Type 0
Kind = Text

abbrev pub kind_message : Kind
kind_message = bytes "MESSAGE"

unfoldable pub parse_kind : Text → Result TimelineError Kind
parse_kind raw_kind =
    let kind = to_upper (trim_space raw_kind) in
    if not (text_eq kind kind_message) then err invalid_kind else ok kind

abbrev pub ContentType : Type 0
ContentType = Text

abbrev pub content_type_text : ContentType
content_type_text = bytes "TEXT"

abbrev pub content_type_image : ContentType
content_type_image = bytes "IMAGE"

unfoldable pub parse_content_type : Text → Result TimelineError ContentType
parse_content_type raw_type =
    let content_type = to_upper (trim_space raw_type) in
    if not (text_eq content_type content_type_text) && not (text_eq content_type content_type_image)
    then err invalid_content_type
    else ok content_type

pub record MessageContent : Type 0 where
  pub content_type : ContentType
  pub value : Text
  pub image_id : Text
  pub caption : Text

unfoldable pub new_image_content : Text → Text → Result TimelineError MessageContent
new_image_content image_id caption =
    if is_empty (trim_space image_id)
      || not (text_eq (trim_space image_id) image_id)
      || ltb 128 (length image_id)
      || not (valid_string caption)
      || ltb 4000 (rune_count caption)
    then err invalid_content
    else ok (record {
      content_type = content_type_image;
      value = [];
      image_id = image_id;
      caption = caption;
    })

unfoldable pub new_message_content : ContentType → Text → Result TimelineError MessageContent
new_message_content content_type value = do
  reject_if (not (text_eq content_type content_type_text)) invalid_content_type
  reject_if (is_empty (trim_space value)) invalid_content
  ok (record { content_type = content_type; value = value; image_id = []; caption = [] })

unfoldable pub restore_content :
    ContentType → Text → Text → Text → Result TimelineError MessageContent
unfolding new_image_content new_message_content
restore_content kind value image_id caption =
    if text_eq kind content_type_text
    then if not (is_empty image_id) || not (is_empty caption)
      then err invalid_content
      else new_message_content kind value
    else if text_eq kind content_type_image
    then if not (is_empty value) then err invalid_content else new_image_content image_id caption
    else err invalid_content_type

-- `MessageContent.Valid`
unfoldable pub valid : MessageContent → Bool
valid content =
    is_ok (restore_content content.content_type content.value content.image_id content.caption)
