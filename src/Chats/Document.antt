-- ===== src/Chats/Document.antt =====
-- document.go: a chat as it is stored, and back. A stored sequence is not negative: it is written
-- by `newChatDocument` from a chat's and grows by one from there.
use nexus_services.Shared.{
  ℕ, Bool, false, not, ◌&&◌, List, [], ◌∷◌, Result, map_err, reject_if, ◌>>=◌, ◌>>◌, Time,
}
use nexus_services.Shared.Int.{pos}
use nexus_services.Text.{Text, text_eq, text_lt}
use nexus_services.Domain.User
use nexus_services.Domain.User.{UserId}
use nexus_services.Domain.Chat
use nexus_services.Domain.Chat.{Chat, restore_direct}

pub data DocumentError : Type 0 where
  invalid_document : DocumentError

pub record ChatDocument : Type 0 where
  pub id : Text
  pub participant_one_id : Text
  pub participant_two_id : Text
  pub participant_ids : List Text
  pub created_at : Time
  pub updated_at : Time
  pub summary_sort_at : Time
  pub last_sequence : ℕ

unfoldable pub new_chat_document : Chat → ChatDocument
new_chat_document conversation = record {
  id = conversation.id;
  participant_one_id = conversation.participant_one_id;
  participant_two_id = conversation.participant_two_id;
  participant_ids = conversation.participant_one_id ∷ conversation.participant_two_id ∷ [];
  created_at = conversation.created_at;
  updated_at = conversation.updated_at;
  summary_sort_at = conversation.summary_sort_at;
  last_sequence = conversation.last_sequence;
}

-- `hasConsistentParticipantIDs`, on the ids.
unfoldable pub has_consistent_participant_ids : List Text → UserId → UserId → Bool
has_consistent_participant_ids (a ∷ b ∷ []) one two = text_eq a one && text_eq b two
has_consistent_participant_ids _ one two = false

abbrev pub checked : {E : Type 0} {A : Type 0} → Result E A → Result DocumentError A
checked = map_err (λ _. invalid_document)

unfoldable pub to_domain : ChatDocument → Result DocumentError Chat
to_domain document = do
  chat_id ← checked (Chat.parse_id document.id)
  one ← checked (User.parse_id document.participant_one_id)
  two ← checked (User.parse_id document.participant_two_id)
  reject_if (not (text_lt one two)) invalid_document
  reject_if (not (has_consistent_participant_ids document.participant_ids one two)) invalid_document
  checked (
      restore_direct chat_id one two document.created_at document.updated_at
        document.summary_sort_at (pos document.last_sequence ∷ []))
