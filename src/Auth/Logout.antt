-- ===== src/Auth/Logout.antt =====
-- internal/application/auth/logout.go: `Execute`. A token that is no good, or whose session is gone
-- or another user's, needs no logout.
pub mod Endings
use nexus_services.Shared.{not, ◌||◌, Option, none, some, Result, ok, err, if◌then◌else◌}
use nexus_services.Shared.Actions.{Action}
use nexus_services.Text.{Text, is_empty, text_eq}
use nexus_services.Domain.Session.{Session}
use nexus_services.Ports.{PortError, invalid_token, expired_token, session_not_found}
use nexus_services.Auth.Ports.{AuthError, nil_pointer, port_error, TokenClaims, Dependencies}

-- The reply to `Revoke`.
unfoldable pub logged_out : Result PortError (Unit {0}) → Result AuthError (Unit {0})
logged_out (ok _) = ok tt
logged_out (err session_not_found) = ok tt
logged_out (err e) = err (port_error e)

module _ {W : Type 0} (deps : Dependencies W) where
  open deps use {sessions, tokens, now}
  open sessions use {find_by_id, revoke}
  open tokens use {verify_refresh_token}

  unfoldable pub logout_session :
      TokenClaims → Result PortError (Option Session) → W → Result AuthError (Unit {0}) × W
  logout_session claims (err session_not_found) w = (ok tt, w)
  logout_session claims (err e) w = (err (port_error e), w)
  logout_session claims (ok none) w = (err nil_pointer, w)
  logout_session claims (ok (some session)) w =
      if not (text_eq session.user_id claims.user_id)
      then (ok tt, w)
      else let (at, v) = now w in let (reply, u) = revoke session.id at v in (logged_out reply, u)

  unfoldable pub logout_claims : Result PortError TokenClaims → W → Result AuthError (Unit {0}) × W
  unfolding logout_session
  logout_claims (err invalid_token) w = (ok tt, w)
  logout_claims (err expired_token) w = (ok tt, w)
  logout_claims (err e) w = (err (port_error e), w)
  logout_claims (ok claims) w =
      if is_empty claims.user_id || is_empty claims.session_id
      then (ok tt, w)
      else let (reply, v) = find_by_id claims.session_id w in logout_session claims reply v

  unfoldable pub logout : Text → Action W AuthError (Unit {0})
  unfolding logout_claims
  logout raw w =
      if is_empty raw
      then (ok tt, w)
      else let (reply, v) = verify_refresh_token raw w in logout_claims reply v
