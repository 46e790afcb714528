-- ===== src/Tests/Chats.antt =====
-- A chat that is stored and read back.
use mathlib.Core.List.{Memᴰ}
use nexus_services.Shared.{◌≡◌, refl, some, none, true, false, [], ◌∷◌, ok, All}
use nexus_services.Shared.Int.{pos}
use nexus_services.Text.{bytes, text_eq, text_lt, trim_space}
use nexus_services.Domain.User
use nexus_services.Domain.Chat
use nexus_services.Domain.Chat.{
  Chat, restore_direct, order_participants, new_direct, related_user_id,
}
use nexus_services.Domain.Chat.Laws.{IsValid, restore_direct-IsValid}
use nexus_services.Mongo.{Collection, Distinct, Upserts, memory, memory_upserts}
use nexus_services.Chats.Document.{
  ChatDocument, new_chat_document, to_domain, has_consistent_participant_ids,
}
use nexus_services.Chats.Repository
use nexus_services.Chats.Repository.{
  same_chat, of_participants, convert_stored_chat, answered, get_or_create_direct,
}
use nexus_services.Chats.Listing.{
  ListChatsParams, list_by_participant, list_counted, chats_found, chats_of, list_result,
  last_cursor, list_filter, of_participant, among, after_cursor, invalid_cursor, listed_before,
  newer,
}
use nexus_services.Chats.Pairs.{IsDirect, get_or_create_direct-IsDirect, one_chat}
use nexus_services.Chats.Roundtrip.{IsParsed, to_domain-new_chat_document}

abbrev stored_chat : Chat
stored_chat = record {
  id = bytes "c1";
  participant_one_id = bytes "ann";
  participant_two_id = bytes "bob";
  created_at = 5;
  updated_at = 6;
  summary_sort_at = 7;
  last_sequence = 3;
}

chat_restored :
    restore_direct (bytes "c1") (bytes "bob") (bytes "ann") 5 6 7 (pos 3 ∷ []) ≡ ok stored_chat
unfolding restore_direct order_participants text_eq text_lt
chat_restored = refl

chat-IsValid : IsValid stored_chat
chat-IsValid =
    restore_direct-IsValid (bytes "c1") (bytes "bob") (bytes "ann") 5 6 7 (pos 3 ∷ []) chat_restored

chat-IsParsed : IsParsed stored_chat
unfolding trim_space
chat-IsParsed = record { id_trimmed = refl; one_trimmed = refl; two_trimmed = refl }

to_domain-new_chat_document_example : to_domain (new_chat_document stored_chat) ≡ ok stored_chat
to_domain-new_chat_document_example =
    to_domain-new_chat_document stored_chat chat-IsValid chat-IsParsed

abbrev store : Collection ChatDocument same_chat
store = memory same_chat

abbrev upserts : Upserts store
unfolding memory
upserts = memory_upserts same_chat

-- The chat of the same two users, with another id.
abbrev other_chat : Chat
other_chat = record stored_chat { id = bytes "c2"; created_at = 8 }

abbrev no_chats : store.State
unfolding memory
no_chats = []

abbrev one_stored : store.State
unfolding memory
one_stored = new_chat_document stored_chat ∷ []

get_or_create_direct-IsDirect_example :
    let (r, t) = get_or_create_direct store upserts true other_chat one_stored in
    IsDirect other_chat (store.docs one_stored) r (store.docs t)
get_or_create_direct-IsDirect_example =
    get_or_create_direct-IsDirect store upserts true other_chat one_stored

first_created :
    (get_or_create_direct store upserts true stored_chat no_chats).0 ≡ ok (stored_chat, true)
unfolding get_or_create_direct answered memory memory_upserts no_chats
first_created = refl

later_found :
    (get_or_create_direct store upserts true other_chat one_stored).0 ≡ ok (stored_chat, false)
unfolding get_or_create_direct answered memory memory_upserts one_stored of_participants
    convert_stored_chat new_chat_document text_eq Repository.stored_chat to_domain Chat.parse_id
    trim_space User.parse_id text_lt has_consistent_participant_ids restore_direct
    order_participants
later_found = refl

one_stored-Distinct : Distinct same_chat (store.docs one_stored)
unfolding memory one_stored
one_stored-Distinct = (tt, tt)

first_kept :
    All
      (λ d. Memᴰ d (store.docs one_stored))
      (store.docs (get_or_create_direct store upserts true stored_chat no_chats).1)
unfolding get_or_create_direct answered memory memory_upserts no_chats one_stored
first_kept = (Memᴰ.head refl, tt)

one_chat_example : (false ≡ false) × (stored_chat ≡ stored_chat)
one_chat_example =
    one_chat store upserts true true stored_chat other_chat no_chats one_stored chat-IsValid
      chat-IsParsed refl refl first_created first_kept one_stored-Distinct later_found

abbrev newest_chat : Chat
newest_chat = record stored_chat { id = bytes "c3"; summary_sort_at = 9 }

abbrev two_chats : store.State
unfolding memory
two_chats = new_chat_document stored_chat ∷ new_chat_document newest_chat ∷ []

abbrev one_page : ListChatsParams
one_page = record { participant_id = bytes "ann"; limit = 1; after = none }

-- The newest of the two chats of a user, and the cursor of the next page.
newest_listed :
    (list_by_participant store one_page two_chats).0
    ≡ ok (record {
      chats = newest_chat ∷ [];
      has_next = true;
      next_cursor = some (record { chat_id = bytes "c3"; summary_sort_at = 9 });
      total_items = 2;
    })
unfolding list_by_participant list_counted chats_found chats_of list_result last_cursor list_filter
    of_participant among after_cursor invalid_cursor listed_before newer memory two_chats
    Repository.stored_chat new_chat_document to_domain Chat.parse_id User.parse_id trim_space
    text_eq text_lt has_consistent_participant_ids restore_direct order_participants
newest_listed = refl
