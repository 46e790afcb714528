-- ===== src/Auth/Tokens.antt =====
-- The steps that the use cases share: the claims of a presented token, and the issue of new tokens.
use nexus_services.Shared.{◌+◌, ◌||◌, Result, ok, err, Time, Duration, leb, if◌then◌else◌}
use nexus_services.Shared.Actions.{Action, ◌>>=◌, lift}
use nexus_services.Text.{Text, is_empty}
use nexus_services.Domain.User.{UserId}
use nexus_services.Domain.Session.{SessionId}
use nexus_services.Ports.{PortError, invalid_token, expired_token}
use nexus_services.Auth.Ports.{
  AuthError, invalid_configuration, port_error, TokenClaims, Dependencies, port,
}

-- RefreshConfig and SigninConfig.
pub record Config : Type 0 where
  pub access_token_ttl : Duration
  pub refresh_token_ttl : Duration

-- `NewRefreshUseCase` and `NewSigninUseCase`, given their dependencies. A duration is not negative
-- here, so `<= 0` is 0.
unfoldable pub new_config : Config → Result AuthError Config
new_config config =
    if leb config.access_token_ttl 0 || leb config.refresh_token_ttl config.access_token_ttl
    then err invalid_configuration
    else ok config

-- The reply of the token manager, where a token that is no good is reported as `rejected`.
unfoldable pub claims_of : AuthError → Result PortError TokenClaims → Result AuthError TokenClaims
claims_of rejected (ok claims) =
    if is_empty claims.user_id || is_empty claims.session_id then err rejected else ok claims
claims_of rejected (err invalid_token) = err rejected
claims_of rejected (err expired_token) = err rejected
claims_of rejected (err e) = err (port_error e)

abbrev pub token_claims : Text → UserId → SessionId → Time → Time → TokenClaims
token_claims token_id user_id session_id issued_at expires_at = record {
  token_id = token_id;
  user_id = user_id;
  session_id = session_id;
  issued_at = issued_at;
  expires_at = expires_at;
}

pub record Tokens : Type 0 where
  pub access : Text
  pub access_expires_at : Time
  pub refresh : Text
  pub refresh_expires_at : Time

module _ {W : Type 0} (deps : Dependencies W) (config : Config) where
  open deps use {tokens, new_id}
  open tokens use {sign_access_token, sign_refresh_token}

  -- The ids of the access token and of the refresh token.
  unfoldable pub token_ids : Action W AuthError (Text × Text)
  token_ids = do
    access_token_id ← port new_id
    refresh_token_id ← port new_id
    lift (ok (access_token_id, refresh_token_id))

  unfoldable pub sign_tokens : Text → Text → UserId → SessionId → Time → Action W AuthError Tokens
  sign_tokens access_token_id refresh_token_id user_id session_id now = do
    let access_expires_at = now + config.access_token_ttl
    let refresh_expires_at = now + config.refresh_token_ttl
    access ←
        port (
          sign_access_token (token_claims access_token_id user_id session_id now access_expires_at))
    refresh ← port (
        sign_refresh_token
          (token_claims refresh_token_id user_id session_id now refresh_expires_at))
    lift (
        ok (record {
          access = access;
          access_expires_at = access_expires_at;
          refresh = refresh;
          refresh_expires_at = refresh_expires_at;
        }))
