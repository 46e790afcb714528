-- ===== src/Auth/Refresh/Outcomes.antt =====
-- The logs that a refresh may leave, each with the result that goes with it.
use nexus_services.Shared.{
  ◌+◌, ◌≡◌, ◌≢◌, refl, ◌⊎◌, true, false, List, [], ◌∷◌, Result, ok, err, map_err, Time,
}
use nexus_services.Text.{Text, is_empty, trim_space}
use nexus_services.Domain.Session.{Session, rotate_refresh_token}
use nexus_services.Ports.{PortError}
use nexus_services.Auth.Ports.{AuthError, invalid_refresh_token, port_error}
use nexus_services.Auth.Log.{Call, digested, rotated, revoked, is_failure}
use nexus_services.Auth.Tokens.{Config, Tokens}
use nexus_services.Auth.Refresh.{is_session_conflict}

-- How a rejection ends, by the reply to its revocation.
abbrev pub rejection : {A : Type 0} → Result PortError (Unit {0}) → Result AuthError A
rejection (ok _) = err invalid_refresh_token
rejection (err e) = err (port_error e)

module _ (config : Config) (raw : Text) (Current : Session → Time → Type 0) where
  -- `renewed` is the current session, whose digest is the presented one, rotated to the digest `new`.
  abbrev pub IsRotation : Text → Text → Session → Text → Time → Type 0
  IsRotation presented new renewed expected at =
      (session : Session) × Current session at
      × (session.refresh_token_digest ≡ presented)
      × (expected ≡ presented)
      × (rotate_refresh_token session new (at + config.refresh_token_ttl) at ≡ ok renewed)

  -- How a refresh ends that has rotated and not revoked, by the reply to its rotation.
  abbrev pub EndsBy : Text → Time → Result PortError (Unit {0}) → Result AuthError Tokens → Type 0
  EndsBy issued at (ok _) r =
      (t : Tokens) × (r ≡ ok t)
      × (t.refresh ≡ issued)
      × (t.access_expires_at ≡ at + config.access_token_ttl)
      × (t.refresh_expires_at ≡ at + config.refresh_token_ttl)
  EndsBy issued at (err e) r = (is_session_conflict e ≡ false) × (r ≡ err (port_error e))

  -- The logs that a refresh leaves, with its result.
  abbrev pub IsRefresh : List Call → Result AuthError Tokens → Type 0
  IsRefresh [] r =
      (is_failure r ≡ true)
      × ((is_empty raw ≡ true) ⊎ ((session : Session) (at : Time) → ¬ Current session at))
  IsRefresh (digested x (err _) ∷ []) r = (x ≡ raw) × (is_failure r ≡ true)
  IsRefresh (digested x (ok presented) ∷ []) r =
      (x ≡ raw)
      × (is_failure r ≡ true)
      × ((session : Session) × (at : Time) × Current session at
          × ((session.refresh_token_digest ≡ presented) ⊎ (is_empty (trim_space presented) ≡ true)))
  IsRefresh (revoked id at reply ∷ digested x (ok presented) ∷ []) r =
      (x ≡ raw)
      × (r ≡ rejection reply)
      × ((session : Session) × (session.id ≡ id)
          × Current session at
          × (session.refresh_token_digest ≢ presented))
  IsRefresh (digested issued _ ∷ digested x (ok presented) ∷ []) r =
      (x ≡ raw)
      × (is_failure r ≡ true)
      × ((session : Session) × (at : Time) × Current session at
          × (session.refresh_token_digest ≡ presented))
  IsRefresh
        (rotated s expected at reply ∷ digested issued (ok new) ∷ digested x (ok presented) ∷ [])
        r =
      (x ≡ raw) × IsRotation presented new s expected at × EndsBy issued at reply r
  IsRefresh
        (revoked id at' reply'
          ∷ rotated s expected at (err e)
          ∷ digested issued (ok new)
          ∷ digested x (ok presented)
          ∷ [])
        r =
      (x ≡ raw)
      × IsRotation presented new s expected at
      × (is_session_conflict e ≡ true)
      × (id ≡ s.id)
      × (at' ≡ at)
      × (r ≡ rejection reply')
  IsRefresh _ r = ⊥

  pub digest_failed :
      (reply : Result PortError Text) {e : AuthError}
      → map_err port_error reply ≡ err e
      → IsRefresh (digested raw reply ∷ []) (err e)
  digest_failed (ok _) h = absurd (cc)
  digest_failed (err _) h = (refl, refl)

  pub renewal_failed :
      (t : Text) (reply : Result PortError Text) (presented : Text) (s : Session) (at : Time)
      (e : AuthError)
      → Current s at
      → s.refresh_token_digest ≡ presented
      → IsRefresh (digested t reply ∷ digested raw (ok presented) ∷ []) (err e)
  renewal_failed t (ok _) presented s at e c h = (refl, refl, (s, at, c, h))
  renewal_failed t (err _) presented s at e c h = (refl, refl, (s, at, c, h))
