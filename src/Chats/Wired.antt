-- ===== src/Chats/Wired.antt =====
-- cmd/api/bootstrap.go: the use case of create_direct.go over the repositories of chats and users.
use nexus_services.Shared.{Bool, Option, some, Result, ok, err, Time}
use nexus_services.Shared.Actions.{Action}
use nexus_services.Text.{Text}
use nexus_services.Mongo.{Collection, Upserts}
use nexus_services.Ports.{PortError, user_not_found, other}
use nexus_services.Domain.User.{Account, MailSyntax}
use nexus_services.Domain.Chat.{Chat}
use nexus_services.Users.Document.{UserDocument, UserStoreError}
use nexus_services.Users.Repository
use nexus_services.Users.Repository.{same_user}
use nexus_services.Chats.Document.{ChatDocument}
use nexus_services.Chats.Repository.{ChatStoreError, same_chat, get_or_create_direct}
use nexus_services.Chats.CreateDirect.{CreateDirectDependencies}

-- The replies of the repositories, as the use case tells them apart.
unfoldable pub user_reply : Result UserStoreError Account → Result PortError (Option Account)
user_reply (ok account) = ok (some account)
user_reply (err UserStoreError.user_not_found) = err user_not_found
user_reply (err _) = err other

unfoldable pub chat_reply :
    Result ChatStoreError (Chat × Bool) → Result PortError (Option Chat × Bool)
chat_reply (ok (chat, created)) = ok (some chat, created)
chat_reply (err _) = err other

module _ (syntax : MailSyntax) (users : Collection UserDocument same_user)
    (chats : Collection ChatDocument same_chat) (upserts : Upserts chats) where
  -- The users, the chats, and the world of the clock and of the ids.
  pub record World (V : Type 0) : Type 0 where
    pub user_state : users.State
    pub chat_state : chats.State
    pub rest : V

  -- A duplicate key may be one of the participants' index.
  unfoldable pub wired :
      {V : Type 0}
      → Bool
      → Action V PortError Text
      → (V → Time × V)
      → CreateDirectDependencies (World V)
  wired by_participants new_id now = record {
    get_or_create_direct = λ chat w.
        let (r, s) = get_or_create_direct chats upserts by_participants chat w.chat_state in
        (chat_reply r, record w { chat_state = s });
    find_user_by_id = λ id w.
        let (r, s) = Repository.find_by_id syntax users id w.user_state in
        (user_reply r, record w { user_state = s });
    new_id = λ w. let (r, v) = new_id w.rest in (r, record w { rest = v });
    now = λ w. let (at, v) = now w.rest in (at, record w { rest = v });
  }
