-- ===== src/Auth/Ports.antt =====
-- The ports of the authentication use cases, each an interface over a world of its own; a call takes
-- the world and returns its reply with the next world. A repository's pointer may be nil.
use nexus_services.Shared.{Bool, Option, map_err, Time}
use nexus_services.Shared.Actions.{Action}
use nexus_services.Text.{Text}
use nexus_services.Domain.User.{UserId, UserError, Email, Account}
use nexus_services.Domain.Session.{SessionId, Session, SessionError}
use nexus_services.Ports.{PortError}

-- The sentinels of errors.go, the errors that a use case wraps, and a nil pointer that is used.
pub data AuthError : Type 0 where
  email_already_registered invalid_credentials invalid_refresh_token : AuthError
  invalid_configuration unauthenticated nil_pointer : AuthError
  user_error : UserError → AuthError
  session_error : SessionError → AuthError
  port_error : PortError → AuthError

pub record TokenClaims : Type 0 where
  pub token_id : Text
  pub user_id : UserId
  pub session_id : SessionId
  pub issued_at : Time
  pub expires_at : Time

pub record SessionRepository (W : Type 0) : Type 0 where
  pub create : Session → Action W PortError (Unit {0})
  pub find_by_id : SessionId → Action W PortError (Option Session)
  pub rotate : Session → Text → Time → Action W PortError (Unit {0})
  pub revoke : SessionId → Time → Action W PortError (Unit {0})

pub record UserRepository (W : Type 0) : Type 0 where
  pub create : Account → Action W PortError (Unit {0})
  pub find_by_email : Email → Action W PortError (Option Account)
  pub find_by_id : UserId → Action W PortError (Option Account)

pub record TokenManager (W : Type 0) : Type 0 where
  pub sign_access_token : TokenClaims → Action W PortError Text
  pub sign_refresh_token : TokenClaims → Action W PortError Text
  pub verify_access_token : Text → Action W PortError TokenClaims
  pub verify_refresh_token : Text → Action W PortError TokenClaims

pub record PasswordHasher (W : Type 0) : Type 0 where
  pub hash : Text → Action W PortError Text
  pub matches : Text → Text → Action W PortError Bool

-- The rest of the dependencies are single functions: `TokenDigester.Digest`, `IDGenerator.New` and
-- `Clock.Now`.
pub record Dependencies (W : Type 0) : Type 0 where
  pub users : UserRepository W
  pub sessions : SessionRepository W
  pub hasher : PasswordHasher W
  pub tokens : TokenManager W
  pub digest : Text → Action W PortError Text
  pub new_id : Action W PortError Text
  pub now : W → Time × W

-- `fmt.Errorf("...: %w", err)`
abbrev pub port : {W A : Type 0} → Action W PortError A → Action W AuthError A
port call w = let (reply, v) = call w in (map_err port_error reply, v)
