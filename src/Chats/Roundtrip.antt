-- ===== src/Chats/Roundtrip.antt =====
-- A chat survives its storage.
use nexus_services.Shared.{◌≡◌, ◌≢◌, [], ◌∷◌, ok, arith}
use nexus_services.Shared.Int.{pos}
use nexus_services.Text.{Text, trim_space, text_eq_iff, text_lt_asymm, text_eq_refl}
use nexus_services.Domain.User
use nexus_services.Domain.Chat
use nexus_services.Domain.Chat.{Chat, restore_direct, order_participants, given_sequence}
use nexus_services.Domain.Chat.Laws.{IsValid}
use nexus_services.Chats.Document.{new_chat_document, has_consistent_participant_ids, to_domain}

-- Ids that came from `ParseID`, here and in the user package.
pub record IsParsed (chat : Chat) : Type 0 where
  pub id_trimmed : trim_space chat.id ≡ chat.id
  pub one_trimmed : trim_space chat.participant_one_id ≡ chat.participant_one_id
  pub two_trimmed : trim_space chat.participant_two_id ≡ chat.participant_two_id

parse_id_trimmed : (id : Text) → trim_space id ≡ id → id ≢ [] → Chat.parse_id id ≡ ok id
unfolding Chat.parse_id
parse_id_trimmed id t n = ground arith

parse_user_trimmed : (id : Text) → trim_space id ≡ id → id ≢ [] → User.parse_id id ≡ ok id
unfolding User.parse_id
parse_user_trimmed id t n = ground arith

restored :
    (chat : Chat)
    → IsValid chat
    → restore_direct chat.id chat.participant_one_id chat.participant_two_id chat.created_at
        chat.updated_at chat.summary_sort_at
        (pos chat.last_sequence ∷ [])
      ≡ ok chat
unfolding restore_direct order_participants
restored chat v = ground (
  arith,
  text_lt_asymm chat.participant_one_id chat.participant_two_id,
  text_eq_iff chat.participant_one_id chat.participant_two_id,
)

-- A valid chat with parsed ids is read back from the document that was written for it.
pub to_domain-new_chat_document :
    (chat : Chat) → IsValid chat → IsParsed chat → to_domain (new_chat_document chat) ≡ ok chat
unfolding to_domain new_chat_document has_consistent_participant_ids
to_domain-new_chat_document chat v p = rw (
  parse_id_trimmed chat.id p.id_trimmed v.named,
  parse_user_trimmed chat.participant_one_id p.one_trimmed v.one_named,
  parse_user_trimmed chat.participant_two_id p.two_trimmed v.two_named,
  v.ordered,
  text_eq_refl,
  text_eq_refl,
  restored chat v,
)
