-- ===== src/Chats/Repository.antt =====
-- get_or_create.go and find.go, each operation on the collection of chats, and errors.go.
use nexus_services.Shared.{
  Bool, true, false, ◌||◌, ◌&&◌, Option, none, some, Result, ok, err, map_err, ◌>>=◌, if◌then◌else◌,
}
use nexus_services.Text.{text_eq, is_empty}
use nexus_services.Mongo.{DbError, duplicate_key, failure, Collection, Upserts}
use nexus_services.Domain.User.{UserId}
use nexus_services.Domain.Chat.{Chat, ChatId}
use nexus_services.Chats.Document.{ChatDocument, new_chat_document, to_domain}

-- The errors of errors.go that these operations return, the sentinel of the ports, the driver's
-- `ErrNoDocuments` where it is wrapped, and its other errors.
pub data ChatStoreError : Type 0 where
  invalid_document invalid_chat_id chat_not_found no_documents : ChatStoreError
  database : DbError → ChatStoreError

-- `directParticipantsFilter`
unfoldable pub of_participants : UserId → UserId → ChatDocument → Bool
of_participants one two d = text_eq d.participant_one_id one && text_eq d.participant_two_id two

-- The unique indexes: of the ids, and `chats_participants_unique`.
unfoldable pub same_chat : ChatDocument → ChatDocument → Bool
same_chat x y = text_eq x.id y.id || of_participants y.participant_one_id y.participant_two_id x

unfoldable pub has_chat_id : ChatId → ChatDocument → Bool
has_chat_id id d = text_eq d.id id

unfoldable pub stored_chat : ChatDocument → Result ChatStoreError Chat
stored_chat d = map_err (λ _. invalid_document) (to_domain d)

-- `convertStoredChat`
unfoldable pub convert_stored_chat : ChatDocument → Result ChatStoreError (Chat × Bool)
convert_stored_chat d = do conversation ← stored_chat d; ok (conversation, false)

-- `findDirectByParticipants` and its caller's result.
unfoldable pub recovered :
    Result DbError (Option ChatDocument) → Result ChatStoreError (Chat × Bool)
recovered (ok none) = err no_documents
recovered (ok (some d)) = convert_stored_chat d
recovered (err e) = err (database e)

unfoldable pub chat_found : Result DbError (Option ChatDocument) → Result ChatStoreError Chat
chat_found (ok none) = err chat_not_found
chat_found (ok (some d)) = stored_chat d
chat_found (err e) = err (database e)

module _ (collection : Collection ChatDocument same_chat) (upserts : Upserts collection) where
  open collection use {State, find_one}
  open upserts use {find_or_insert}

  -- The reply of the server, where a duplicate key may be one of the participants' index.
  unfoldable pub answered :
      Bool
      → Chat
      → Result DbError (Option ChatDocument)
      → State
      → Result ChatStoreError (Chat × Bool) × State
  answered by_participants candidate (ok (some d)) s = (convert_stored_chat d, s)
  answered by_participants candidate (ok none) s = (ok (candidate, true), s)
  answered by_participants candidate (err failure) s = (err (database failure), s)
  answered by_participants candidate (err duplicate_key) s =
      if by_participants
      then (let pair = of_participants candidate.participant_one_id candidate.participant_two_id in
          let (r, t) = find_one pair s in (recovered r, t))
      else (err (database duplicate_key), s)

  unfoldable pub get_or_create_direct :
      Bool → Chat → State → Result ChatStoreError (Chat × Bool) × State
  get_or_create_direct by_participants candidate s =
      let pair = of_participants candidate.participant_one_id candidate.participant_two_id in
      let (r, t) = find_or_insert pair (new_chat_document candidate) s in
      answered by_participants candidate r t

  unfoldable pub find_by_id : ChatId → State → Result ChatStoreError Chat × State
  find_by_id id s =
      if is_empty id
      then (err invalid_chat_id, s)
      else let (r, t) = find_one (has_chat_id id) s in (chat_found r, t)
