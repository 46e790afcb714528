-- ===== src/Domain/Chat.antt =====
-- internal/domain/chat: a direct chat of two users.
pub mod Laws
use nexus_services.Shared.{
  ℕ, ◌-◌, Bool, ◌||◌, List, [], ◌∷◌, Result, ok, err, reject_if, ◌>>=◌, ◌>>◌, Time, is_zero, before,
  if◌then◌else◌,
}
use nexus_services.Shared.Int.{ℤ, pos, ltb_ℤ, pos_part}
use nexus_services.Text.{Text, is_empty, text_eq, text_lt, trim_space}
use nexus_services.Domain.User.{UserId}

pub data ChatError : Type 0 where
  invalid_sequence invalid_id invalid_participant same_participant : ChatError
  invalid_created_at invalid_updated_at invalid_summary_sort_at : ChatError
  user_not_participant : ChatError

abbrev pub ChatId : Type 0
ChatId = Text

unfoldable pub parse_id : Text → Result ChatError ChatId
parse_id raw_id =
    let normalized_id = trim_space raw_id in
    if is_empty normalized_id then err invalid_id else ok normalized_id

pub record Chat : Type 0 where
  pub id : ChatId
  pub participant_one_id : UserId
  pub participant_two_id : UserId
  pub created_at : Time
  pub updated_at : Time
  pub summary_sort_at : Time
  pub last_sequence : ℕ

-- 1<<53 - 1
abbrev pub max_sequence : ℕ
max_sequence = 9_007_199_254_740_991

unfoldable pub order_participants : UserId → UserId → UserId × UserId
order_participants first second = if text_lt first second then (first, second) else (second, first)

-- The optional last argument of `RestoreDirect`: `persistedSequence ...int64`.
unfoldable pub given_sequence : List ℤ → Result ChatError ℤ
given_sequence [] = ok (pos 0)
given_sequence (n ∷ []) = ok n
given_sequence (_ ∷ _ ∷ _) = err invalid_sequence

unfoldable pub restore_direct :
    ChatId → UserId → UserId → Time → Time → Time → List ℤ → Result ChatError Chat
unfolding given_sequence
restore_direct id first second created_at updated_at summary_sort_at persisted = do
  last_sequence ← given_sequence persisted
  reject_if (ltb_ℤ last_sequence (pos 0) || ltb_ℤ (pos max_sequence) last_sequence) invalid_sequence
  reject_if (is_empty id) invalid_id
  reject_if (is_empty first || is_empty second) invalid_participant
  reject_if (text_eq first second) same_participant
  reject_if (is_zero created_at) invalid_created_at
  reject_if (is_zero updated_at || before updated_at created_at) invalid_updated_at
  reject_if (is_zero summary_sort_at || before summary_sort_at created_at) invalid_summary_sort_at
  let ordered = order_participants first second
  ok (record {
    id = id;
    participant_one_id = ordered.0;
    participant_two_id = ordered.1;
    created_at = created_at;
    updated_at = updated_at;
    summary_sort_at = summary_sort_at;
    last_sequence = pos_part last_sequence;
  })

unfoldable pub new_direct : ChatId → UserId → UserId → Time → Result ChatError Chat
new_direct id first second now = restore_direct id first second now now now []

unfoldable pub has_participant : Chat → UserId → Bool
has_participant chat user_id =
    text_eq chat.participant_one_id user_id || text_eq chat.participant_two_id user_id

unfoldable pub related_user_id : Chat → UserId → Result ChatError UserId
related_user_id chat current =
    if text_eq current chat.participant_one_id
    then ok chat.participant_two_id
    else if text_eq current chat.participant_two_id
    then ok chat.participant_one_id
    else err user_not_participant
