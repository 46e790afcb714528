-- ===== src/Auth/Claims.antt =====
-- What accepted claims say.
use nexus_services.Shared.{◌≡◌, false, Result, ok, err, arith}
use nexus_services.Text.{is_empty}
use nexus_services.Ports.{PortError}
use nexus_services.Auth.Ports.{AuthError, TokenClaims}
use nexus_services.Auth.Tokens.{claims_of}

pub claims_of_ok :
    (rejected : AuthError) (r : Result PortError TokenClaims) (claims : TokenClaims)
    → claims_of rejected r ≡ ok claims
    → (r ≡ ok claims) × (is_empty claims.user_id ≡ false) × (is_empty claims.session_id ≡ false)
unfolding claims_of
claims_of_ok rejected (ok c) claims h = ground arith
claims_of_ok rejected (err e) claims h = ground arith

pub claims_of_full :
    (rejected : AuthError) (r : Result PortError TokenClaims) (claims : TokenClaims)
    → r ≡ ok claims
    → is_empty claims.user_id ≡ false
    → is_empty claims.session_id ≡ false
    → claims_of rejected r ≡ ok claims
unfolding claims_of
claims_of_full rejected (ok c) claims h user session = ground arith
claims_of_full rejected (err e) claims h user session = absurd (cc)
