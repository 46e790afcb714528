-- ===== src/Chats/Listing.antt =====
-- list.go: `ListByParticipant` on the collection of chats, the newest summary first.
use nexus_services.Shared.{
  ℕ, ◌+◌, Bool, true, false, ◌&&◌, ◌||◌, Option, none, some, List, [], ◌∷◌, length, take, Result,
  ok, err, map_err, ◌>>=◌, ltb, ◌==◌, Time, is_zero, if◌then◌else◌,
}
use nexus_services.Text.{Text, text_eq, text_lt, is_empty}
use nexus_services.Mongo.{DbError, Collection}
use nexus_services.Domain.User.{UserId}
use nexus_services.Domain.Chat.{Chat, ChatId}
use nexus_services.Chats.Document.{ChatDocument}
use nexus_services.Chats.Repository.{ChatStoreError, database, same_chat, stored_chat}

pub data ChatListError : Type 0 where
  invalid_list_participant invalid_list_limit invalid_list_cursor : ChatListError
  store_error : ChatStoreError → ChatListError

pub record ChatListCursor : Type 0 where
  pub chat_id : ChatId
  pub summary_sort_at : Time

pub record ListChatsParams : Type 0 where
  pub participant_id : UserId
  pub limit : ℕ
  pub after : Option ChatListCursor

pub record ListChatsResult : Type 0 where
  pub chats : List Chat
  pub has_next : Bool
  pub next_cursor : Option ChatListCursor
  pub total_items : ℕ

unfoldable pub among : UserId → List Text → Bool
among id [] = false
among id (x ∷ xs) = text_eq x id || among id xs

-- `participant_ids: id`
unfoldable pub of_participant : UserId → ChatDocument → Bool
of_participant id d = among id d.participant_ids

-- A later summary comes first, and the greater id among equal ones.
unfoldable pub newer : Time → ChatId → Time → ChatId → Bool
newer t i u j = ltb u t || (t == u && text_lt j i)

unfoldable pub listed_before : ChatDocument → ChatDocument → Bool
listed_before x y = newer x.summary_sort_at x.id y.summary_sort_at y.id

-- The part of `buildListChatsFilter` that the cursor adds.
unfoldable pub after_cursor : Option ChatListCursor → ChatDocument → Bool
after_cursor none d = true
after_cursor (some c) d = newer c.summary_sort_at c.chat_id d.summary_sort_at d.id

unfoldable pub list_filter : ListChatsParams → ChatDocument → Bool
list_filter params d = of_participant params.participant_id d && after_cursor params.after d

unfoldable pub invalid_cursor : Option ChatListCursor → Bool
invalid_cursor none = false
invalid_cursor (some c) = is_empty c.chat_id || is_zero c.summary_sort_at

-- Every document that the cursor brings, up to the first that is invalid.
unfoldable pub chats_of : List ChatDocument → Result ChatStoreError (List Chat)
chats_of [] = ok []
chats_of (d ∷ ds) = do conversation ← stored_chat d; rest ← chats_of ds; ok (conversation ∷ rest)

-- `conversations[len(conversations)-1]`, as a cursor.
unfoldable pub last_cursor : List Chat → Option ChatListCursor
last_cursor [] = none
last_cursor (c ∷ []) = some (record { chat_id = c.id; summary_sort_at = c.summary_sort_at })
last_cursor (_ ∷ c ∷ cs) = last_cursor (c ∷ cs)

-- `buildListChatResult`
unfoldable pub list_result : List Chat → ℕ → ℕ → ListChatsResult
list_result conversations limit total_items =
    if ltb limit (length conversations)
    then record {
      chats = take limit conversations;
      has_next = true;
      next_cursor = last_cursor (take limit conversations);
      total_items = total_items;
    }
    else record {
      chats = conversations;
      has_next = false;
      next_cursor = none;
      total_items = total_items;
    }

-- The reply to `Find`, read to its end.
unfoldable pub chats_found :
    ℕ → ℕ → Result DbError (List ChatDocument) → Result ChatListError ListChatsResult
chats_found limit total (err e) = err (store_error (database e))
chats_found limit total (ok ds) = do
  conversations ← map_err store_error (chats_of ds)
  ok (list_result conversations limit total)

module _ (collection : Collection ChatDocument same_chat) where
  open collection use {State, find, count_documents}

  unfoldable pub list_counted :
      ListChatsParams → Result DbError ℕ → State → Result ChatListError ListChatsResult × State
  list_counted params (err e) s = (err (store_error (database e)), s)
  list_counted params (ok total) s =
      let (r, t) = find (list_filter params) listed_before (params.limit + 1) s in
      (chats_found params.limit total r, t)

  unfoldable pub list_by_participant :
      ListChatsParams → State → Result ChatListError ListChatsResult × State
  list_by_participant params s =
      if is_empty params.participant_id
      then (err invalid_list_participant, s)
      else if params.limit == 0
      then (err invalid_list_limit, s)
      else if invalid_cursor params.after
      then (err invalid_list_cursor, s)
      else let (r, t) = count_documents (of_participant params.participant_id) s in
        list_counted params r t
