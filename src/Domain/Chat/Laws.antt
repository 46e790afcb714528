-- ===== src/Domain/Chat/Laws.antt =====
-- What a chat that was restored or created satisfies, and who talks to whom.
use nexus_services.Shared.{◌≤◌, ◌<◌, ◌≡◌, ◌≢◌, true, false, List, [], ok, is_ok, arith, Time}
use nexus_services.Shared.Int.{ℤ}
use nexus_services.Text.{text_eq, text_lt, text_eq_iff, text_lt_asymm, text_lt_total}
use nexus_services.Domain.User.{UserId}
use nexus_services.Domain.Chat.{
  Chat, ChatId, max_sequence, order_participants, restore_direct, has_participant, related_user_id,
}

pub record IsValid (chat : Chat) : Type 0 where
  pub named : chat.id ≢ []
  pub one_named : chat.participant_one_id ≢ []
  pub two_named : chat.participant_two_id ≢ []
  pub ordered : text_lt chat.participant_one_id chat.participant_two_id ≡ true
  pub created : 0 < chat.created_at
  pub updated : chat.created_at ≤ chat.updated_at
  pub sorted : chat.created_at ≤ chat.summary_sort_at
  pub sequence_capped : chat.last_sequence ≤ max_sequence

pub order_participants_comm : (a b : UserId) → order_participants a b ≡ order_participants b a
unfolding order_participants
order_participants_comm a b =
    ground (arith, text_lt_asymm a b, text_lt_asymm b a, text_lt_total a b)

-- Where the participants are named in either order, the same chat or the same error comes back.
pub restore_direct_comm :
    (id : ChatId) (a b : UserId) (created updated sorted : Time) (persisted : List ℤ)
    → restore_direct id a b created updated sorted persisted
      ≡ restore_direct id b a created updated sorted persisted
unfolding restore_direct
restore_direct_comm id a b created updated sorted persisted =
    ground (arith, order_participants_comm a b, text_eq_iff a b, text_eq_iff b a)

order_participants-IsOrdered :
    (a b : UserId)
    → a ≢ []
    → b ≢ []
    → text_eq a b ≡ false
    → let (one, two) = order_participants a b in (one ≢ []) × (two ≢ []) × (text_lt one two ≡ true)
unfolding order_participants
order_participants-IsOrdered a b na nb ne = ground (arith, text_eq_iff a b, text_lt_total a b)

-- Every chat that `RestoreDirect` accepts is well formed.
pub restore_direct-IsValid :
    (id : ChatId) (a b : UserId) (created updated sorted : Time) (persisted : List ℤ) {chat : Chat}
    → restore_direct id a b created updated sorted persisted ≡ ok chat
    → IsValid chat
unfolding restore_direct
restore_direct-IsValid id a b created updated sorted persisted h =
    ground (arith, order_participants-IsOrdered a b)

-- A user is a participant exactly when the chat has a user related to him.
pub has_participant-related_user_id :
    (chat : Chat) (user : UserId) → has_participant chat user ≡ is_ok (related_user_id chat user)
unfolding has_participant related_user_id
has_participant-related_user_id chat user = ground (
  arith,
  text_eq_iff user chat.participant_one_id,
  text_eq_iff chat.participant_one_id user,
  text_eq_iff user chat.participant_two_id,
  text_eq_iff chat.participant_two_id user,
)

-- In a valid chat the related user is another participant, and is related back.
pub related_user_id_involutive :
    (chat : Chat) (user other : UserId)
    → IsValid chat
    → related_user_id chat user ≡ ok other
    → (user ≢ other) × (related_user_id chat other ≡ ok user)
unfolding related_user_id
related_user_id_involutive chat user other v h = ground (
  arith,
  text_lt_asymm chat.participant_one_id chat.participant_two_id,
  text_eq_iff user chat.participant_one_id,
  text_eq_iff user chat.participant_two_id,
  text_eq_iff other chat.participant_one_id,
  text_eq_iff other chat.participant_two_id,
)
