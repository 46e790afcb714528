-- ===== src/Domain/Session/Laws.antt =====
-- The life of a session: created, rotated, revoked.
use nexus_services.Shared.{◌≤◌, ◌<◌, ◌≡◌, ◌≢◌, false, Option, none, some, ok, err, [], arith, Time}
use nexus_services.Text.{Text, is_empty, trim_space, text_eq_iff}
use nexus_services.Domain.User.{UserId}
use nexus_services.Domain.Session.{
  revoked, refresh_token_mismatch, SessionId, Session, restore, ensure_active,
  validate_refresh_token_digest, rotate_refresh_token, revoke,
}

-- A revocation, if any, is no earlier than `t`.
abbrev pub IsFrom : Time → Option Time → Type 0
IsFrom t none = Unit
IsFrom t (some at) = t ≤ at

pub record IsValid (session : Session) : Type 0 where
  pub named : session.id ≢ []
  pub owned : session.user_id ≢ []
  pub digested : is_empty (trim_space session.refresh_token_digest) ≡ false
  pub begun : 0 < session.created_at
  pub lasting : session.created_at < session.expires_at
  pub revoked_later : IsFrom session.created_at session.revoked_at

-- What `New` and `Restore` accept is well formed.
pub restore-IsValid :
    (id : SessionId) (user : UserId) (digest : Text) (created expires : Time) (at : Option Time)
    {session : Session}
    → restore id user digest created expires at ≡ ok session
    → IsValid session
unfolding restore
restore-IsValid id user digest created expires none h = ground arith
restore-IsValid id user digest created expires (some at) h = ground arith

-- A rotation at or after the creation keeps the session well formed; at the new expiry's eve the
-- session is active, the new digest is accepted and every other digest is a mismatch.
pub rotate_refresh_token_lem :
    (session : Session) (digest : Text) (expires at : Time) {rotated : Session}
    → IsValid session
    → session.created_at ≤ at
    → rotate_refresh_token session digest expires at ≡ ok rotated
    → IsValid rotated
      × ((t : Time) → t < expires → ensure_active rotated t ≡ ok tt)
      × (validate_refresh_token_digest rotated digest ≡ ok tt)
      × ((other : Text)
          → is_empty (trim_space other) ≡ false
          → other ≢ digest
          → validate_refresh_token_digest rotated other ≡ err refresh_token_mismatch)
unfolding rotate_refresh_token ensure_active validate_refresh_token_digest
rotate_refresh_token_lem session digest expires at {rotated} v c h = (
  ground arith,
  λ t lt. ground arith,
  ground (arith, text_eq_iff digest digest),
  λ other full ne. ground (arith, text_eq_iff digest other),
)

-- A revoked session stays as it is: it is active at no time, rotates no token, and revoking it
-- again changes nothing.
pub revoked_absorbs :
    (session : Session) (at t : Time) (digest : Text) (expires : Time) {session' : Session}
    → revoke session at ≡ ok session'
    → (ensure_active session' t ≡ err revoked)
      × (rotate_refresh_token session' digest expires t ≡ err revoked)
      × (revoke session' t ≡ ok session')
unfolding revoke rotate_refresh_token ensure_active
revoked_absorbs session at t digest expires h = (ground arith, ground arith, ground arith)

-- Revoking keeps the session well formed.
pub revoke-IsValid :
    (session : Session) (at : Time) {session' : Session}
    → IsValid session
    → revoke session at ≡ ok session'
    → IsValid session'
unfolding revoke
revoke-IsValid session at v h = ground arith
