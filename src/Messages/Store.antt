-- ===== src/Messages/Store.antt =====
-- message_store/create.go: a message is created together with its outbox event.
use nexus_services.Shared.{
  ℕ, ◌+◌, Bool, false, not, ◌||◌, ◌&&◌, Option, none, some, List, [], ◌∷◌, Result, ok, err, ◌==◌,
  ltb, is_zero, if◌then◌else◌, map_err,
}
use nexus_services.Shared.Actions.{Action, ◌>>=◌, ◌>>◌}
use nexus_services.Shared.Int.{pos}
use nexus_services.Text.{Text, text_eq, is_empty, trim_space}
use nexus_services.Domain.Timeline.{Sequence, Item, content_type_image, parse_sequence, valid}
use nexus_services.Mongo.{DbError}
use nexus_services.Chats.Document.{ChatDocument}
use nexus_services.Images.Document.{ImageDocument, attached, is_ready}
use nexus_services.Outbox.Document.{OutboxDocument}
use nexus_services.Messages.Document.{
  CreateMessageParams, TimelineDocument, StoreError, chat_not_found, image_unavailable,
  message_idempotency_conflict, invalid_allocated_sequence, images_required, database,
  new_timeline_document, new_outbox_document,
}
use nexus_services.Messages.Database.{Database, Db}

pub record CreateMessageResult : Type 0 where
  pub item : Item
  pub created : Bool

unfoldable pub validate_create_params : CreateMessageParams → Bool
validate_create_params params =
    let message = params.message in
    not (is_empty params.message_id)
    && not (is_empty params.chat_id)
    && not (is_empty (trim_space params.event_id))
    && text_eq (trim_space params.event_id) params.event_id
    && not (is_zero params.created_at)
    && not (is_empty message.client_message_id)
    && not (is_empty message.sender_id)
    && valid message.content

-- The filter of `findExistingMessage`.
unfoldable pub same_identity : CreateMessageParams → TimelineDocument → Bool
same_identity params d =
    text_eq d.message.sender_id params.message.sender_id
    && text_eq d.message.client_message_id params.message.client_message_id

unfoldable pub same_logical_message : Item → CreateMessageParams → Bool
same_logical_message existing params =
    text_eq existing.chat_id params.chat_id
    && text_eq existing.message.client_message_id params.message.client_message_id
    && text_eq existing.message.sender_id params.message.sender_id
    && text_eq existing.message.content.content_type params.message.content.content_type
    && text_eq existing.message.content.value params.message.content.value
    && text_eq existing.message.content.image_id params.message.content.image_id
    && text_eq existing.message.content.caption params.message.content.caption

unfoldable pub resolve_existing_message :
    Item → CreateMessageParams → Result StoreError CreateMessageResult
resolve_existing_message existing params =
    if not (same_logical_message existing params)
    then err message_idempotency_conflict
    else ok (record { item = existing; created = false })

-- The filter and the update of `allocateSequence`.
contains : List Text → Text → Bool
contains [] a = false
contains (x ∷ xs) a = text_eq x a || contains xs a

unfoldable pub chat_of : CreateMessageParams → ChatDocument → Bool
unfolding contains
chat_of params c =
    text_eq c.id params.chat_id && contains c.participant_ids params.message.sender_id

unfoldable pub advance : CreateMessageParams → ChatDocument → ChatDocument
advance params c = record c {
  last_sequence = c.last_sequence + 1;
  summary_sort_at =
      if ltb c.summary_sort_at params.created_at then params.created_at else c.summary_sort_at;
}

unfoldable pub is_image : CreateMessageParams → Bool
is_image params = text_eq params.message.content.content_type content_type_image

-- The filter and the update of the image of an image message.
unfoldable pub attachable : CreateMessageParams → ImageDocument → Bool
attachable params d =
    text_eq d.id params.message.content.image_id
    && text_eq d.uploaded_by params.message.sender_id
    && text_eq d.chat_id params.chat_id
    && is_ready d.status
    && ltb params.created_at d.expires_at

unfoldable pub attach : CreateMessageParams → ImageDocument → ImageDocument
attach params d = record d { status = attached; message_id = params.message_id }

module _ (b : Database) where
  -- A document that matches is changed by the update, so it counts as modified.
  unfoldable pub one_modified : Result DbError ℕ → Result StoreError (Unit {0})
  one_modified (ok n) = if n == 1 then ok tt else err image_unavailable
  one_modified (err e) = err (database e)

  unfoldable pub attach_image : CreateMessageParams → Action (Db b) StoreError (Unit {0})
  unfolding one_modified
  attach_image params s =
      if not (is_image params)
      then (ok tt, s)
      else if not b.has_images
      then (err images_required, s)
      else let (r, images) = b.images.update_one (attachable params) (attach params) s.images in
        (one_modified r, record s { images = images })

  unfoldable pub allocated : Result DbError (Option ChatDocument) → Result StoreError Sequence
  allocated (ok none) = err chat_not_found
  allocated (ok (some c)) =
      map_err (λ _. invalid_allocated_sequence) (parse_sequence (pos c.last_sequence))
  allocated (err e) = err (database e)

  unfoldable pub allocate_sequence : CreateMessageParams → Action (Db b) StoreError Sequence
  unfolding allocated
  allocate_sequence params s =
      let (r, chats) =
        b.chats.find_one_and_update (chat_of params) (λ x y. false) (advance params) s.chats in
      (allocated r, record s { chats = chats })

  unfoldable pub insert_timeline : TimelineDocument → Action (Db b) StoreError (Unit {0})
  insert_timeline d s =
      let (r, timeline) = b.timeline.insert_one d s.timeline in
      (map_err database r, record s { timeline = timeline })

  unfoldable pub insert_outbox : OutboxDocument → Action (Db b) StoreError (Unit {0})
  insert_outbox d s =
      let (r, outbox) = b.outbox.insert_one d s.outbox in
      (map_err database r, record s { outbox = outbox })

  -- The function that runs in the transaction of `createTransaction`.
  unfoldable pub create_operation : CreateMessageParams → Action (Db b) StoreError Sequence
  create_operation params = do
    attach_image params
    sequence ← allocate_sequence params
    insert_timeline (new_timeline_document params sequence)
    insert_outbox (new_outbox_document params sequence)
    λ s. (ok sequence, s)
