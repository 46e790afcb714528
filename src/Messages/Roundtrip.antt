-- ===== src/Messages/Roundtrip.antt =====
-- What is written for a new message is read back as that message, at its place in the chat.
use nexus_services.Shared.{◌≤◌, ◌<◌, ◌≡◌, ◌≢◌, true, [], ok, arith, refl, inl, inr, Result-cases}
use nexus_services.Shared.Int.{pos}
use nexus_services.Text.{Text, trim_space, text_eq, text_eq_refl, to_upper}
use nexus_services.Domain.User
use nexus_services.Domain.Chat
use nexus_services.Domain.Timeline
use nexus_services.Domain.Timeline.{
  Sequence, Item, Message, MessageContent, ContentType, content_type_text, content_type_image,
  kind_message, max_sequence, parse_kind, parse_sequence, parse_content_type,
  parse_client_message_id, restore_content, valid, new_message, restore_message,
}
use nexus_services.Domain.Timeline.Contents.{restore_content_decides}
use nexus_services.Domain.Timeline.Identities.{parse_sequence_iff}
use nexus_services.Messages.Document.{CreateMessageParams, new_timeline_document, to_domain}

-- What the types of the parameters and `validateCreateParams` ensure: the ids came from their
-- parsers, the content is valid, and there is a time.
pub record IsParsed (params : CreateMessageParams) : Type 0 where
  pub id_named : params.message_id ≢ []
  pub id_trimmed : trim_space params.message_id ≡ params.message_id
  pub chat_named : params.chat_id ≢ []
  pub chat_trimmed : trim_space params.chat_id ≡ params.chat_id
  pub client_named : params.message.client_message_id ≢ []
  pub client_parsed :
      parse_client_message_id params.message.client_message_id ≡ ok params.message.client_message_id
  pub sender_named : params.message.sender_id ≢ []
  pub sender_trimmed : trim_space params.message.sender_id ≡ params.message.sender_id
  pub content_valid : valid params.message.content ≡ true
  pub created : 0 < params.created_at

parse_item_trimmed : (id : Text) → trim_space id ≡ id → id ≢ [] → Timeline.parse_id id ≡ ok id
unfolding Timeline.parse_id
parse_item_trimmed id t n = ground arith

parse_chat_trimmed : (id : Text) → trim_space id ≡ id → id ≢ [] → Chat.parse_id id ≡ ok id
unfolding Chat.parse_id
parse_chat_trimmed id t n = ground arith

parse_user_trimmed : (id : Text) → trim_space id ≡ id → id ≢ [] → User.parse_id id ≡ ok id
unfolding User.parse_id
parse_user_trimmed id t n = ground arith

kind_parsed : parse_kind kind_message ≡ ok kind_message
unfolding parse_kind trim_space to_upper text_eq
kind_parsed = refl

text_parsed : parse_content_type content_type_text ≡ ok content_type_text
unfolding parse_content_type trim_space to_upper text_eq
text_parsed = refl

image_parsed : parse_content_type content_type_image ≡ ok content_type_image
unfolding parse_content_type trim_space to_upper text_eq
image_parsed = refl

-- A valid content has one of the two types, which parse to themselves, and is restored as it is.
valid_restored :
    (c : MessageContent)
    → valid c ≡ true
    → (restore_content c.content_type c.value c.image_id c.caption ≡ ok c)
      × (parse_content_type c.content_type ≡ ok c.content_type)
unfolding valid
valid_restored c h =
    let shape = restore_content_decides c.content_type c.value c.image_id c.caption in
    elim (Result-cases (restore_content c.content_type c.value c.image_id c.caption)) [
      | inl (x, e) ↦
          let kind = shape.1 x e in
          (
            shape.0 kind,
            elim kind [ inl t ↦ rw t.kind_text text_parsed | inr i ↦ rw i.kind_image image_parsed ],
          )
      | inr (x, e) ↦ absurd (ground arith)
    ]

message_restored :
    (m : Message)
    → m.client_message_id ≢ []
    → m.sender_id ≢ []
    → valid m.content ≡ true
    → new_message m.client_message_id m.sender_id m.content ≡ ok m
unfolding new_message
message_restored m c s v = ground arith

-- The item that a creation returns, which a later read of its document gives again.
abbrev pub created_item : CreateMessageParams → Sequence → Item
created_item params sequence = record {
  id = params.message_id;
  chat_id = params.chat_id;
  sequence = sequence;
  kind = kind_message;
  created_at = params.created_at;
  updated_at = params.created_at;
  message = params.message;
}

item_restored :
    (p : CreateMessageParams) (n : Sequence)
    → IsParsed p
    → 1 ≤ n
    → restore_message p.message_id p.chat_id n p.created_at p.created_at p.message
      ≡ ok (created_item p n)
unfolding restore_message
item_restored p n h k = ground arith

-- The timeline document of a message with parsed parts and a sequence in range is read back as
-- the item with exactly these parts.
pub to_domain-new_timeline_document :
    (params : CreateMessageParams) (sequence : Sequence)
    → IsParsed params
    → 1 ≤ sequence
    → sequence ≤ max_sequence
    → to_domain (new_timeline_document params sequence) ≡ ok (created_item params sequence)
unfolding to_domain new_timeline_document
to_domain-new_timeline_document p n h low high =
    let content = valid_restored p.message.content h.content_valid in
    rw (
      parse_item_trimmed p.message_id h.id_trimmed h.id_named,
      parse_chat_trimmed p.chat_id h.chat_trimmed h.chat_named,
      (parse_sequence_iff (pos n) n).1 (refl, low, high),
      kind_parsed,
      text_eq_refl,
      h.client_parsed,
      parse_user_trimmed p.message.sender_id h.sender_trimmed h.sender_named,
      content.1,
      content.0,
      message_restored p.message h.client_named h.sender_named h.content_valid,
      item_restored p n h low,
    )
