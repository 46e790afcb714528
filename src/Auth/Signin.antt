-- ===== src/Auth/Signin.antt =====
-- internal/application/auth/signin.go and signup.go: `Execute` of each.
pub mod Openings
pub mod Signins
use nexus_services.Shared.{
  Bool, true, false, Option, none, some, Result, ok, err, map_err, Time, if◌then◌else◌,
}
use nexus_services.Shared.Actions.{Action, ◌>>=◌, ◌>>◌, lift}
use nexus_services.Text.{Text}
use nexus_services.Domain.User
use nexus_services.Domain.User.{
  UserId, UserError, MailSyntax, Email, Account, parse_email, validate_plain_password,
}
use nexus_services.Domain.Session
use nexus_services.Domain.Session.{SessionId, Session}
use nexus_services.Ports.{PortError, user_not_found, email_already_exists}
use nexus_services.Auth.Ports.{
  AuthError, email_already_registered, invalid_credentials, nil_pointer, user_error, session_error,
  port_error, UserRepository, SessionRepository, PasswordHasher, Dependencies, port,
}
use nexus_services.Auth.Tokens.{Config, Tokens, token_ids, sign_tokens}

pub record SigninOutput : Type 0 where
  pub user_id : UserId
  pub email : Email
  pub tokens : Tokens

pub record SignupOutput : Type 0 where
  pub user_id : UserId
  pub email : Email
  pub created_at : Time

-- `ParseEmail` and `ValidatePlainPassword`, whose errors a sign-in does not tell.
with_password : Result UserError (Unit {0}) → Email → Result UserError Email
with_password (ok _) email = ok email
with_password (err e) email = err e

with_email : Text → Result UserError Email → Result UserError Email
unfolding with_password
with_email password (ok email) = with_password (validate_plain_password password) email
with_email password (err e) = err e

unfoldable pub credentials : MailSyntax → Text → Text → Result UserError Email
unfolding with_email
credentials syntax raw_email password = with_email password (parse_email syntax raw_email)

abbrev pub is_user_not_found : PortError → Bool
is_user_not_found user_not_found = true
is_user_not_found _ = false

module _ {W : Type 0} (deps : Dependencies W) (config : Config) (syntax : MailSyntax) where
  open deps use {users, sessions, hasher, digest, new_id, now}

  consume_password_hash_cost : Text → Action W AuthError (Unit {0})
  consume_password_hash_cost password = do port (PasswordHasher.hash hasher password); lift (ok tt)

  -- The reply to `FindByEmail`: for an unknown user the password is hashed all the same.
  found_account : Text → Result PortError (Option Account) → Action W AuthError Account
  unfolding consume_password_hash_cost
  found_account password (err e) =
      if is_user_not_found e
      then (do consume_password_hash_cost password; lift (err invalid_credentials))
      else lift (err (port_error e))
  found_account password (ok none) = lift (err nil_pointer)
  found_account password (ok (some account)) = lift (ok account)

  find_account : Text → Email → Action W AuthError Account
  unfolding found_account
  find_account password email w =
      let (reply, v) = UserRepository.find_by_email users email w in found_account password reply v

  -- The account, if the password is its own.
  unfoldable pub checked_account : Email → Text → Action W AuthError Account
  unfolding find_account
  checked_account email password = do
    account ← find_account password email
    same ← port (PasswordHasher.matches hasher password account.password_hash)
    lift (if same then ok account else err invalid_credentials)

  unfoldable pub generate_session_id : Action W AuthError SessionId
  generate_session_id = do raw ← port new_id; lift (map_err session_error (Session.parse_id raw))

  clock : Action W AuthError Time
  clock w = let (at, v) = now w in (ok at, v)

  -- The new session and its tokens.
  unfoldable pub open_session : Account → Action W AuthError (Tokens × Session)
  unfolding clock
  open_session account = do
    id ← generate_session_id
    ids ← token_ids deps config
    at ← clock
    issued ← sign_tokens deps config ids.0 ids.1 account.id id at
    refresh_digest ← port (digest issued.refresh)
    session ← lift (
        map_err session_error
          (Session.new id account.id refresh_digest at issued.refresh_expires_at))
    lift (ok (issued, session))

  unfoldable pub store_session : Account → Tokens → Session → Action W AuthError SigninOutput
  store_session account issued session = do
    port (SessionRepository.create sessions session)
    lift (ok (record { user_id = account.id; email = account.email; tokens = issued }))

  unfoldable pub signin : Text → Text → Action W AuthError SigninOutput
  signin raw_email password = do
    email ← lift (map_err (λ _. invalid_credentials) (credentials syntax raw_email password))
    account ← checked_account email password
    opened ← open_session account
    store_session account opened.0 opened.1

  -- The reply to `Create`.
  unfoldable pub registered : Result PortError (Unit {0}) → Result AuthError (Unit {0})
  registered (ok _) = ok tt
  registered (err email_already_exists) = err email_already_registered
  registered (err e) = err (port_error e)

  register : Account → Action W AuthError (Unit {0})
  register account w =
      let (reply, v) = UserRepository.create users account w in (registered reply, v)

  -- The account to be, from valid credentials.
  unfoldable pub new_account : Email → Text → Action W AuthError Account
  unfolding clock
  new_account email password = do
    password_hash ← port (PasswordHasher.hash hasher password)
    raw_id ← port new_id
    id ← lift (map_err user_error (User.parse_id raw_id))
    created_at ← clock
    lift (map_err user_error (User.new id email password_hash created_at))

  unfoldable pub signup : Text → Text → Action W AuthError SignupOutput
  unfolding register
  signup raw_email password = do
    email ← lift (map_err user_error (credentials syntax raw_email password))
    account ← new_account email password
    register account
    lift (
        ok
          (record { user_id = account.id; email = account.email; created_at = account.created_at }))
