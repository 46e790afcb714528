-- ===== src/Auth/Authenticate.antt =====
-- internal/application/auth/authenticate.go and session.go: the check of an access token, and the
-- account behind an authenticated request.
pub mod Accesses
use nexus_services.Shared.{
  Bool, not, Option, none, some, Result, ok, err, reject_if, Time, after, if◌then◌else◌,
}
use nexus_services.Shared.Actions.{Action, ◌>>=◌, ◌>>◌, lift}
use nexus_services.Text.{Text, is_empty, text_eq, trim_space}
use nexus_services.Domain.User
use nexus_services.Domain.User.{UserId, UserError, Email, Account}
use nexus_services.Domain.Session.{
  SessionId, Session, SessionError, expired, revoked, ensure_active,
}
use nexus_services.Ports.{PortError, session_not_found, user_not_found}
use nexus_services.Auth.Ports.{
  AuthError, unauthenticated, session_error, port_error, TokenClaims, Dependencies,
}
use nexus_services.Auth.Tokens.{claims_of}

pub record AuthenticateOutput : Type 0 where
  pub user_id : UserId
  pub session_id : SessionId
  pub access_expires_at : Time
  pub session_expires_at : Time

-- The replies to `FindByID` and, with its nil session and the foreign session, to `EnsureActive`.
unfoldable pub session_for :
    TokenClaims → Result PortError (Option Session) → Result AuthError Session
session_for claims (err session_not_found) = err unauthenticated
session_for claims (err e) = err (port_error e)
session_for claims (ok none) = err unauthenticated
session_for claims (ok (some session)) =
    if not (text_eq session.user_id claims.user_id) then err unauthenticated else ok session

unfoldable pub activity : Result SessionError (Unit {0}) → Result AuthError (Unit {0})
activity (ok _) = ok tt
activity (err expired) = err unauthenticated
activity (err revoked) = err unauthenticated
activity (err e) = err (session_error e)

module _ {W : Type 0} (deps : Dependencies W) where
  open deps use {sessions, tokens, now}
  open sessions use {find_by_id}
  open tokens use {verify_access_token}

  verified_access : Text → Action W AuthError TokenClaims
  verified_access raw w =
      let (reply, v) = verify_access_token raw w in (claims_of unauthenticated reply, v)

  stored_session : TokenClaims → Action W AuthError Session
  stored_session claims w =
      let (reply, v) = find_by_id claims.session_id w in (session_for claims reply, v)

  unexpired : TokenClaims → Action W AuthError (Unit {0})
  unexpired claims w =
      let (at, v) = now w in (reject_if (not (after claims.expires_at at)) unauthenticated, v)

  still_active : Session → Action W AuthError (Unit {0})
  still_active session w = let (at, v) = now w in (activity (ensure_active session at), v)

  unfoldable pub authenticate : Text → Action W AuthError AuthenticateOutput
  unfolding verified_access stored_session unexpired still_active
  authenticate raw w =
      if is_empty (trim_space raw)
      then (err unauthenticated, w)
      else (do
        claims ← verified_access raw
        session ← stored_session claims
        unexpired claims
        still_active session
        lift (
            ok (record {
              user_id = claims.user_id;
              session_id = claims.session_id;
              access_expires_at = claims.expires_at;
              session_expires_at = session.expires_at;
            })))
          w

pub record SessionOutput : Type 0 where
  pub user_id : UserId
  pub email : Email
  pub access_expires_at : Time

unfoldable pub account_reply : Result PortError (Option Account) → Result AuthError Account
account_reply (err user_not_found) = err unauthenticated
account_reply (ok none) = err unauthenticated
account_reply (err e) = err (port_error e)
account_reply (ok (some account)) = ok account

module _ {W : Type 0} (deps : Dependencies W) where
  open deps use {users, now}
  open users use {find_by_id}

  session_account : Time → Result UserError UserId → W → Result AuthError SessionOutput × W
  session_account access_expires_at (err _) w = (err unauthenticated, w)
  session_account access_expires_at (ok id) w =
      let (at, v) = now w in
      if not (after access_expires_at at)
      then (err unauthenticated, v)
      else (do
        account ← λ u. let (reply, t) = find_by_id id u in (account_reply reply, t)
        lift (
            ok (record {
              user_id = account.id;
              email = account.email;
              access_expires_at = access_expires_at;
            })))
          v

  -- `SessionUseCase.Execute`
  unfoldable pub current_session : Text → Time → Action W AuthError SessionOutput
  unfolding session_account
  current_session user_id access_expires_at =
      session_account access_expires_at (User.parse_id user_id)
