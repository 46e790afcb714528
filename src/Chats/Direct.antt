-- ===== src/Chats/Direct.antt =====
-- internal/application/chats/create_direct.go: its output, the sentinels of errors.go that it returns,
-- and its steps that call no port. A repository's pointer may be nil.
use nexus_services.Shared.{
  Bool, Option, none, some, Result, ok, err, map_err, reject_if, ◌>>=◌, ◌>>◌, Time,
}
use nexus_services.Text.{Text, text_eq}
use nexus_services.Ports.{PortError, user_not_found}
use nexus_services.Domain.User
use nexus_services.Domain.User.{UserId, Account}
use nexus_services.Domain.Chat.{Chat, ChatError, related_user_id}

pub data CreateDirectError : Type 0 where
  invalid_current_user_id invalid_related_user_id self_direct_chat : CreateDirectError
  related_user_not_found nil_pointer : CreateDirectError
  chat_error : ChatError → CreateDirectError
  port_error : PortError → CreateDirectError

pub record CreateDirectOutput : Type 0 where
  pub id : Text
  pub related_user : Text
  pub created_at : Time
  pub updated_at : Time
  pub summary_sort_at : Time
  pub created : Bool

-- The two ids, of different users.
unfoldable pub parse_users : Text → Text → Result CreateDirectError (UserId × UserId)
parse_users current_user_id related_user_id = do
  current ← map_err (λ _. invalid_current_user_id) (User.parse_id current_user_id)
  related ← map_err (λ _. invalid_related_user_id) (User.parse_id related_user_id)
  reject_if (text_eq current related) self_direct_chat
  ok (current, related)

-- The reply of the user repository: no error is enough, the account itself is not looked at.
unfoldable pub related_found :
    Result PortError (Option Account) → Result CreateDirectError (Unit {0})
related_found (ok _) = ok tt
related_found (err user_not_found) = err related_user_not_found
related_found (err e) = err (port_error e)

-- The output of the chat that the repository returned.
unfoldable pub direct_output :
    UserId → Option Chat × Bool → Result CreateDirectError CreateDirectOutput
direct_output current (none, created) = err nil_pointer
direct_output current (some stored, created) = do
  related ← map_err chat_error (related_user_id stored current)
  ok (record {
    id = stored.id;
    related_user = related;
    created_at = stored.created_at;
    updated_at = stored.updated_at;
    summary_sort_at = stored.summary_sort_at;
    created = created;
  })
