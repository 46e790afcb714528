-- ===== src/Auth/Refresh.antt =====
-- internal/application/auth/refresh.go: `Execute`. A refresh token is rotated once; one that was
-- rotated before, or that loses the race for its rotation, has its session revoked.
pub mod Renewals
pub mod Outcomes
pub mod Runs
use nexus_services.Shared.{
  Bool, true, false, not, Option, none, some, Result, ok, err, map_err, Time, if◌then◌else◌,
}
use nexus_services.Shared.Actions.{Action, ◌>>=◌, ◌>>◌, lift}
use nexus_services.Text.{Text, is_empty, text_eq}
use nexus_services.Domain.Session.{
  SessionId, Session, SessionError, refresh_token_mismatch, ensure_active,
  validate_refresh_token_digest, rotate_refresh_token,
}
use nexus_services.Ports.{PortError, session_not_found, session_conflict}
use nexus_services.Auth.Ports.{
  AuthError, invalid_refresh_token, nil_pointer, session_error, port_error, TokenClaims,
  Dependencies, port,
}
use nexus_services.Auth.Tokens.{Config, claims_of, Tokens, token_ids, sign_tokens}

-- The session of the claims, if it is theirs.
unfoldable pub session_of :
    TokenClaims → Result PortError (Option Session) → Result AuthError Session
session_of claims (err session_not_found) = err invalid_refresh_token
session_of claims (err e) = err (port_error e)
session_of claims (ok none) = err nil_pointer
session_of claims (ok (some session)) =
    if not (text_eq session.user_id claims.user_id) then err invalid_refresh_token else ok session

-- Every error of `EnsureActive` is reported as an invalid token.
abbrev pub if_active :
    Session → Time → Result SessionError (Unit {0}) → Result AuthError (Session × Time)
if_active session at (ok _) = ok (session, at)
if_active session at (err _) = err invalid_refresh_token

abbrev pub is_session_conflict : PortError → Bool
is_session_conflict session_conflict = true
is_session_conflict _ = false

abbrev pub is_mismatch : SessionError → Bool
is_mismatch refresh_token_mismatch = true
is_mismatch _ = false

module _ {W : Type 0} (deps : Dependencies W) (config : Config) where
  open deps use {sessions, tokens, digest, now}
  open sessions use {find_by_id, rotate, revoke}
  open tokens use {verify_refresh_token}

  unfoldable pub reject_reused_token : {A : Type 0} → SessionId → Time → Action W AuthError A
  reject_reused_token id at = do port (revoke id at); lift (err invalid_refresh_token)

  verified : Text → Action W AuthError TokenClaims
  verified raw w =
      let (reply, v) = verify_refresh_token raw w in (claims_of invalid_refresh_token reply, v)

  claimed_session : TokenClaims → Action W AuthError Session
  claimed_session claims w =
      let (reply, v) = find_by_id claims.session_id w in (session_of claims reply, v)

  -- The session of the token, active at the time of the clock.
  unfoldable pub active_session : Text → Action W AuthError (Session × Time)
  unfolding verified claimed_session
  active_session raw = do
    claims ← verified raw
    session ← claimed_session claims
    λ w. let (at, v) = now w in (if_active session at (ensure_active session at), v)

  -- The tokens and the session with its new digest.
  unfoldable pub renew : Session → Time → Action W AuthError (Tokens × Session)
  renew session at = do
    ids ← token_ids deps config
    issued ← sign_tokens deps config ids.0 ids.1 session.user_id session.id at
    new_digest ← port (digest issued.refresh)
    renewed ← lift (
        map_err session_error
          (rotate_refresh_token session new_digest issued.refresh_expires_at at))
    lift (ok (issued, renewed))

  -- The reply to `Rotate`.
  unfoldable pub persisted :
      Tokens → SessionId → Time → Result PortError (Unit {0}) → Action W AuthError Tokens
  persisted issued id at (ok _) = lift (ok issued)
  persisted issued id at (err e) =
      if is_session_conflict e then reject_reused_token id at else lift (err (port_error e))

  unfoldable pub persist : Tokens → Session → Text → Time → Action W AuthError Tokens
  persist issued renewed expected_digest at w =
      let (reply, v) = rotate renewed expected_digest at w in persisted issued renewed.id at reply v

  -- `Execute` from the check of the presented digest on.
  unfoldable pub exchange :
      Session → Time → Result SessionError (Unit {0}) → Action W AuthError Tokens
  exchange session at (err e) =
      if is_mismatch e then reject_reused_token session.id at else lift (err (session_error e))
  exchange session at (ok _) = do
    result ← renew session at
    persist result.0 result.1 session.refresh_token_digest at

  unfoldable pub refresh : Text → Action W AuthError Tokens
  refresh raw w =
      if is_empty raw
      then (err invalid_refresh_token, w)
      else (do
        found ← active_session raw
        presented ← port (digest raw)
        exchange found.0 found.1 (validate_refresh_token_digest found.0 presented))
          w
