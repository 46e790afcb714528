-- ===== src/Tests/Requests.antt =====
-- A request of a user, with ports that count their calls.
use nexus_services.Shared.{ℕ, suc, ◌≡◌, refl, true, some, [], ok}
use nexus_services.Text.{bytes, text_eq, trim_space, to_lower, to_upper, valid_string, rune_count}
use nexus_services.Domain.User
use nexus_services.Domain.Chat
use nexus_services.Domain.Chat.{Chat, ChatId, has_participant}
use nexus_services.Domain.Timeline
use nexus_services.Domain.Timeline.{
  Item, MessageContent, content_type_text, kind_message, parse_client_message_id, matches, is_hex,
  is_dash, is_version, is_variant, parse_content_type, new_message_content, new_message,
}
use nexus_services.Messages.Document.{CreateMessageParams}
use nexus_services.Messages.Request.{
  CreateInput, CreateOutput, parse_content, parse_typed, validate_stored_item, map_create_output,
}
use nexus_services.Messages.UseCase.{
  CreatePorts, conversation_of, store_reply, event_id_of, find_conversation, generated,
  generate_message_id, generate_event_id, creation_time, prepare, store, persist, execute,
}
use nexus_services.Messages.Requests.{
  IsAccepted, IsPrepared, IsAnswer, parse_content-IsAccepted, prepare-IsPrepared, execute-IsAnswer,
}

abbrev request : CreateInput
request = record {
  current_user_id = bytes " ann ";
  chat_id = bytes "c1";
  client_message_id = bytes "0F8FAD5B-d9cb-469f-a165-70867728950e";
  content = record { content_type = bytes "text"; value = bytes "hi"; image_id = []; caption = [] };
}

abbrev hi : MessageContent
hi = record { content_type = content_type_text; value = bytes "hi"; image_id = []; caption = [] }

hi_parsed : parse_content request.content ≡ ok hi
unfolding parse_content parse_typed parse_content_type valid_string rune_count text_eq trim_space
    to_upper new_message_content
hi_parsed = refl

parse_content-IsAccepted_example : IsAccepted request.content hi
parse_content-IsAccepted_example = parse_content-IsAccepted request.content hi hi_parsed

abbrev pair : Chat
pair = record {
  id = bytes "c1";
  participant_one_id = bytes "ann";
  participant_two_id = bytes "bob";
  created_at = 5;
  updated_at = 5;
  summary_sort_at = 5;
  last_sequence = 0;
}

-- A store that keeps nothing and gives every message the sequence 1.
abbrev stored_item : CreateMessageParams → Item
stored_item params = record {
  id = params.message_id;
  chat_id = params.chat_id;
  sequence = 1;
  kind = kind_message;
  created_at = params.created_at;
  updated_at = params.created_at;
  message = params.message;
}

abbrev counting : CreatePorts ℕ
counting = record {
  find_by_id = λ id n. (ok (some pair), suc n);
  new_id = λ n. (ok (bytes "x"), suc n);
  now = λ n. (n, suc n);
  create_with_outbox =
      λ params n. (ok (record { item = some (stored_item params); created = true }), suc n);
}

abbrev request_params : CreateMessageParams
request_params = record {
  message_id = bytes "x";
  event_id = bytes "x";
  chat_id = bytes "c1";
  message = record {
    client_message_id = bytes "0f8fad5b-d9cb-469f-a165-70867728950e";
    sender_id = bytes "ann";
    content = hi;
  };
  created_at = 4;
}

request_prepared : (prepare counting request 1).0 ≡ ok request_params
unfolding prepare User.parse_id Chat.parse_id Timeline.parse_id parse_client_message_id to_lower
    trim_space text_eq matches is_hex is_dash is_version is_variant parse_content parse_typed
    parse_content_type valid_string rune_count to_upper new_message_content find_conversation
    conversation_of has_participant new_message generate_message_id generate_event_id generated
    event_id_of creation_time Timeline.valid Timeline.restore_content
request_prepared = refl

prepare-IsPrepared_example : IsPrepared request request_params
prepare-IsPrepared_example = prepare-IsPrepared counting request 1 request_params request_prepared

abbrev request_output : CreateOutput
request_output = record {
  id = bytes "x";
  client_message_id = bytes "0f8fad5b-d9cb-469f-a165-70867728950e";
  chat_id = bytes "c1";
  sequence = 1;
  sender_id = bytes "ann";
  content = record {
    content_type = content_type_text;
    value = bytes "hi";
    image_id = [];
    caption = [];
  };
  created_at = 4;
  created = true;
}

request_answered : (execute counting request 1).0 ≡ ok request_output
unfolding execute persist store store_reply validate_stored_item map_create_output prepare
    User.parse_id Chat.parse_id Timeline.parse_id parse_client_message_id to_lower trim_space
    text_eq matches is_hex is_dash is_version is_variant parse_content parse_typed
    parse_content_type valid_string rune_count to_upper new_message_content find_conversation
    conversation_of has_participant new_message generate_message_id generate_event_id generated
    event_id_of creation_time Timeline.valid Timeline.restore_content
request_answered = refl

execute-IsAnswer_example : IsAnswer request request_output
execute-IsAnswer_example = execute-IsAnswer counting request 1 request_output request_answered
