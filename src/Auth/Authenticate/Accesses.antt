-- ===== src/Auth/Authenticate/Accesses.antt =====
-- What an accepted access token says.
use nexus_services.Shared.{
  ◌≡◌, ◌<◌, refl, inl, inr, not, Option, none, some, List, [], Result, ok, err, arith, Bool-cases,
  after, reject_if,
}
use nexus_services.Shared.Actions.{ends_rule}
use nexus_services.Text.{Text, is_empty, text_eq_iff, trim_space}
use nexus_services.Domain.Session.{Session, SessionError, ensure_active}
use nexus_services.Ports.{PortError}
use nexus_services.Auth.Ports.{AuthError, unauthenticated, TokenClaims, Dependencies}
use nexus_services.Auth.Log.{Call, logged}
use nexus_services.Auth.Tokens.{claims_of}
use nexus_services.Auth.Claims.{claims_of_ok}
use nexus_services.Auth.Authenticate.{
  AuthenticateOutput, session_for, activity, verified_access, stored_session, unexpired,
  still_active, authenticate,
}

session_for_ok :
    (claims : TokenClaims) (r : Result PortError (Option Session)) (session : Session)
    → session_for claims r ≡ ok session
    → (r ≡ ok (some session)) × (session.user_id ≡ claims.user_id)
unfolding session_for
session_for_ok claims (ok none) session h = absurd (cc)
session_for_ok claims (ok (some s)) session h = ground (arith, text_eq_iff s.user_id claims.user_id)
session_for_ok claims (err e) session h = ground arith

activity_ok : (r : Result SessionError (Unit {0})) → activity r ≡ ok tt → r ≡ ok tt
unfolding activity
activity_ok (ok _) h = refl
activity_ok (err e) h = ground arith

module _ {W : Type 0} (D : Dependencies W) where
  -- The claims of the token and the session found for them, with the two readings of the clock.
  abbrev pub Granted : Text → W → AuthenticateOutput → Type 0
  Granted raw w o =
      let (verified, w₁) = D.tokens.verify_access_token raw w in
      (claims : TokenClaims) × (session : Session) × let (found, w₂) =
          D.sessions.find_by_id claims.session_id w₁ in
        let (at, w₃) = D.now w₂ in
        (verified ≡ ok claims)
        × (found ≡ ok (some session))
        × (o.user_id ≡ claims.user_id)
        × (o.session_id ≡ claims.session_id)
        × (session.user_id ≡ claims.user_id)
        × (at < claims.expires_at)
        × (ensure_active session (D.now w₃).0 ≡ ok tt)
        × (o.session_expires_at ≡ session.expires_at)

  abbrev pub IsAccess : Text → W → Result AuthError AuthenticateOutput × (W × List Call) → Type 0
  IsAccess raw w (r, (_, log)) =
      (log ≡ []) × ((o : AuthenticateOutput) → r ≡ ok o → Granted raw w o)

  -- An authentication writes nothing; and one that succeeds has a verified token with the claims it
  -- returns, which expire later than now, and the session of the claims, which is the user's own
  -- and is active.
  pub authenticate-IsAccess :
      (raw : Text) (w : W) → IsAccess raw w (authenticate (logged D) raw (w, []))
  unfolding authenticate verified_access stored_session unexpired still_active
  authenticate-IsAccess raw w = elim (Bool-cases (is_empty (trim_space raw))) [
    | inl b ↦ rw b (refl, λ o h. absurd (cc))
    | inr b ↦ rw b (
        let verified = D.tokens.verify_access_token raw w in
        ends_rule (IsAccess raw w) (claims_of unauthenticated verified.0)
          (λ claims c.
            let found = D.sessions.find_by_id claims.session_id verified.1 in
            ends_rule (IsAccess raw w) (session_for claims found.0)
              (λ session s.
                let clock = D.now found.1 in
                ends_rule (IsAccess raw w)
                  (reject_if (not (after claims.expires_at clock.0)) unauthenticated)
                  (λ _ fresh.
                    ends_rule (IsAccess raw w) (activity (ensure_active session (D.now clock.1).0))
                      (λ _ active. (
                        refl,
                        λ o h.
                            let owned = (session_for_ok claims found.0 session s).1 in
                            (
                              claims,
                              session,
                              (
                                (claims_of_ok unauthenticated verified.0 claims c).0,
                                (session_for_ok claims found.0 session s).0,
                                ground arith,
                                ground arith,
                                owned,
                                ground arith,
                                activity_ok _ active,
                                ground arith,
                              ),
                            ),
                      ))
                      (λ e _. (refl, λ o h. absurd (cc))))
                  (λ e _. (refl, λ o h. absurd (cc))))
              (λ e _. (refl, λ o h. absurd (cc))))
          (λ e _. (refl, λ o h. absurd (cc))))
  ]
