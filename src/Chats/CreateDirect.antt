-- ===== src/Chats/CreateDirect.antt =====
-- internal/application/chats/create_direct.go: `Execute`, over ports with a world of their own.
use nexus_services.Shared.{Bool, Option, map_err, Time}
use nexus_services.Shared.Actions.{Action, ◌>>=◌, ◌>>◌, lift}
use nexus_services.Text.{Text}
use nexus_services.Ports.{PortError}
use nexus_services.Domain.User.{UserId, Account}
use nexus_services.Domain.Chat
use nexus_services.Domain.Chat.{Chat, new_direct}
use nexus_services.Chats.Direct.{
  CreateDirectError, chat_error, port_error, CreateDirectOutput, parse_users, related_found,
  direct_output,
}

pub record CreateDirectDependencies (W : Type 0) : Type 0 where
  pub get_or_create_direct : Chat → Action W PortError (Option Chat × Bool)
  pub find_user_by_id : UserId → Action W PortError (Option Account)
  pub new_id : Action W PortError Text
  pub now : W → Time × W

abbrev pub port : {W A : Type 0} → Action W PortError A → Action W CreateDirectError A
port call w = let (reply, v) = call w in (map_err port_error reply, v)

module _ {W : Type 0} (deps : CreateDirectDependencies W) where
  open deps use {get_or_create_direct, find_user_by_id, new_id, now}

  unfoldable pub find_related : UserId → Action W CreateDirectError (Unit {0})
  find_related related w = let (reply, v) = find_user_by_id related w in (related_found reply, v)

  -- The new chat of the two users.
  unfoldable pub candidate : UserId → UserId → Action W CreateDirectError Chat
  candidate current related = do
    raw_chat_id ← port new_id
    chat_id ← lift (map_err chat_error (Chat.parse_id raw_chat_id))
    λ w. let (at, v) = now w in (map_err chat_error (new_direct chat_id current related at), v)

  unfoldable pub create_direct : Text → Text → Action W CreateDirectError CreateDirectOutput
  unfolding find_related
  create_direct current_user_id related_user_id = do
    users ← lift (parse_users current_user_id related_user_id)
    find_related users.1
    fresh ← candidate users.0 users.1
    stored ← port (get_or_create_direct fresh)
    lift (direct_output users.0 stored)
