-- ===== src/Messages/UseCase.antt =====
-- internal/application/messages/create.go: `Execute`, over ports with a world of their own.
use nexus_services.Shared.{
  Bool, not, Option, none, some, Result, ok, err, map_err, reject_if, Time, is_zero, if◌then◌else◌,
}
use nexus_services.Shared.Actions.{Action, ◌>>=◌, ◌>>◌, lift}
use nexus_services.Text.{Text, is_empty, trim_space}
use nexus_services.Domain.User
use nexus_services.Domain.User.{UserId}
use nexus_services.Domain.Chat
use nexus_services.Domain.Chat.{ChatId, Chat, has_participant}
use nexus_services.Domain.Timeline
use nexus_services.Domain.Timeline.{ItemId, Item, Message, new_message, parse_client_message_id}
use nexus_services.Ports.{PortError}
use nexus_services.Ports
use nexus_services.Messages.Document.{CreateMessageParams}
use nexus_services.Messages.Request.{
  CreateError, invalid_current_user_id, invalid_chat_id, invalid_client_message_id, chat_not_found,
  idempotency_conflict, failed, CreateInput, CreateOutput, parse_content, validate_stored_item,
  map_create_output,
}

-- ports.CreateMessageResult, whose item is a pointer.
pub record StoreReply : Type 0 where
  pub item : Option Item
  pub created : Bool

pub record CreatePorts (W : Type 0) : Type 0 where
  -- The chat is a pointer too.
  pub find_by_id : ChatId → Action W PortError (Option Chat)
  pub new_id : Action W PortError Text
  pub now : W → Time × W
  pub create_with_outbox : CreateMessageParams → Action W PortError StoreReply

-- `FindByID`: the errors, the nil chat and the foreign chat.
unfoldable pub conversation_of :
    UserId → Result PortError (Option Chat) → Result CreateError (Unit {0})
conversation_of user (err Ports.chat_not_found) = err chat_not_found
conversation_of user (err _) = err failed
conversation_of user (ok none) = err failed
conversation_of user (ok (some chat)) = reject_if (not (has_participant chat user)) chat_not_found

unfoldable pub store_reply : Result PortError StoreReply → Result CreateError StoreReply
store_reply (ok reply) = ok reply
store_reply (err Ports.message_idempotency_conflict) = err idempotency_conflict
store_reply (err Ports.chat_not_found) = err chat_not_found
store_reply (err _) = err failed

unfoldable pub event_id_of : Text → Result CreateError Text
event_id_of raw =
    let event_id = trim_space raw in if is_empty event_id then err failed else ok event_id

abbrev pub or_else : {E A : Type 0} → CreateError → Result E A → Result CreateError A
or_else e = map_err (λ _. e)

module _ {W : Type 0} (ports : CreatePorts W) where
  open ports use {find_by_id, new_id, now, create_with_outbox}

  unfoldable pub find_conversation : UserId → ChatId → Action W CreateError (Unit {0})
  find_conversation user chat_id w =
      let (reply, v) = find_by_id chat_id w in (conversation_of user reply, v)

  unfoldable pub generated : Action W CreateError Text
  generated w = let (raw, v) = new_id w in (or_else failed raw, v)

  unfoldable pub generate_message_id : Action W CreateError ItemId
  generate_message_id = do raw ← generated; lift (or_else failed (Timeline.parse_id raw))

  unfoldable pub generate_event_id : Action W CreateError Text
  generate_event_id = do raw ← generated; lift (event_id_of raw)

  unfoldable pub creation_time : Action W CreateError Time
  creation_time w = let (at, v) = now w in (if is_zero at then err failed else ok at, v)

  -- `Execute` up to the call of the store.
  unfoldable pub prepare : CreateInput → Action W CreateError CreateMessageParams
  prepare input = do
    current_user_id ← lift (or_else invalid_current_user_id (User.parse_id input.current_user_id))
    chat_id ← lift (or_else invalid_chat_id (Chat.parse_id input.chat_id))
    client_message_id ←
        lift (or_else invalid_client_message_id (parse_client_message_id input.client_message_id))
    content ← lift (parse_content input.content)
    find_conversation current_user_id chat_id
    message ← lift (or_else failed (new_message client_message_id current_user_id content))
    message_id ← generate_message_id
    event_id ← generate_event_id
    created_at ← creation_time
    lift (
        ok (record {
          message_id = message_id;
          event_id = event_id;
          chat_id = chat_id;
          message = message;
          created_at = created_at;
        }))

  unfoldable pub store : CreateMessageParams → Action W CreateError StoreReply
  store params w = let (reply, v) = create_with_outbox params w in (store_reply reply, v)

  -- `Execute` from there.
  unfoldable pub persist : CreateMessageParams → Action W CreateError CreateOutput
  persist params = do
    reply ← store params
    item ← lift (validate_stored_item reply.item params.chat_id params.message)
    lift (ok (map_create_output item reply.created))

  unfoldable pub execute : CreateInput → Action W CreateError CreateOutput
  execute input = do params ← prepare input; persist params
