-- ===== src/Auth/Logout/Endings.antt =====
-- What a logout does to the session of the token.
use nexus_services.Shared.{
  ◌≡◌, ◌≢◌, ◌⊎◌, true, false, ◌||◌, none, some, List, [], ◌∷◌, Result, ok, err, Time,
}
use nexus_services.Text.{Text, is_empty}
use nexus_services.Domain.Session.{Session}
use nexus_services.Ports.{PortError, invalid_token, expired_token, session_not_found}
use nexus_services.Auth.Ports.{AuthError, nil_pointer, port_error, TokenClaims, Dependencies}
use nexus_services.Auth.Log.{Call, revoked}

-- How the reply to `Revoke` ends a logout: any error but a missing session is passed on.
abbrev pub EndedBy : Result PortError (Unit {0}) → Result AuthError (Unit {0}) → Type 0
EndedBy reply r =
    ((r ≡ ok tt) × ((reply ≡ ok tt) ⊎ (reply ≡ err session_not_found)))
    ⊎ ((e : PortError) × (e ≢ session_not_found) × (reply ≡ err e) × (r ≡ err (port_error e)))

module _ {W : Type 0} (D : Dependencies W) where
  -- The token is verified, its claims are complete, and their session is the user's own.
  abbrev pub Owns : Result PortError TokenClaims × W → Session → Type 0
  Owns (verified, w) session =
      (claims : TokenClaims) × (verified ≡ ok claims)
      × (is_empty claims.user_id || is_empty claims.session_id ≡ false)
      × ((D.sessions.find_by_id claims.session_id w).0 ≡ ok (some session))
      × (session.user_id ≡ claims.user_id)

  -- A port has failed: the verifier, for another reason than the token, or the repository, for
  -- another reason than a missing session.
  abbrev pub FailedPort : Result PortError TokenClaims × W → PortError → Type 0
  FailedPort (verified, w) e =
      ((verified ≡ err e) × (e ≢ invalid_token) × (e ≢ expired_token))
      ⊎ ((claims : TokenClaims) × (verified ≡ ok claims)
          × (is_empty claims.user_id || is_empty claims.session_id ≡ false)
          × ((D.sessions.find_by_id claims.session_id w).0 ≡ err e)
          × (e ≢ session_not_found))

  -- The repository has returned neither a session nor an error.
  abbrev pub FoundNil : Result PortError TokenClaims × W → Type 0
  FoundNil (verified, w) =
      (claims : TokenClaims) × (verified ≡ ok claims)
      × (is_empty claims.user_id || is_empty claims.session_id ≡ false)
      × ((D.sessions.find_by_id claims.session_id w).0 ≡ ok none)

  -- A logout without a call: the error of a port, a nil session, or no session to end.
  abbrev pub Untouched :
      Result PortError TokenClaims × W → Result AuthError (Unit {0}) → List Call → Type 0
  Untouched v r log =
      (log ≡ [])
      × (((e : PortError) × (r ≡ err (port_error e)) × FailedPort v e)
          ⊎ ((r ≡ err nil_pointer) × FoundNil v)
          ⊎ ((r ≡ ok tt) × ((s : Session) → ¬ Owns v s)))

  abbrev pub IsLogout :
      Result PortError TokenClaims × W → Result AuthError (Unit {0}) → List Call → Type 0
  IsLogout v r log =
      Untouched v r log
      ⊎ ((session : Session) × (at : Time) × (reply : Result PortError (Unit {0})) × Owns v session
          × (log ≡ revoked session.id at reply ∷ [])
          × EndedBy reply r)

  abbrev Ends :
      Result PortError TokenClaims × W → Result AuthError (Unit {0}) × (W × List Call) → Type 0
  Ends v (r, (_, log)) = IsLogout v r log

  -- Without a token there is nothing to do.
  abbrev pub IsOutcome : Text → W → Result AuthError (Unit {0}) × (W × List Call) → Type 0
  IsOutcome raw w (r, (_, log)) =
      ((is_empty raw ≡ true) × (log ≡ []) × (r ≡ ok tt))
      ⊎ ((is_empty raw ≡ false) × IsLogout (D.tokens.verify_refresh_token raw w) r log)
