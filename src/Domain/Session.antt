-- ===== src/Domain/Session.antt =====
-- internal/domain/session: a login session and the digest of its current refresh token. The
-- methods that change the session through its pointer change it only where they return no error;
-- they return the changed session.
pub mod Laws
use nexus_services.Shared.{
  Bool, true, false, not, ◌||◌, Option, none, some, Result, ok, err, reject_if, ◌>>=◌, ◌>>◌, Time,
  is_zero, before, after, if◌then◌else◌,
}
use nexus_services.Text.{Text, is_empty, text_eq, trim_space}
use nexus_services.Domain.User.{UserId}

pub data SessionError : Type 0 where
  invalid_id invalid_user_id invalid_token_digest invalid_period : SessionError
  expired revoked refresh_token_mismatch : SessionError

abbrev pub SessionId : Type 0
SessionId = Text

unfoldable pub parse_id : Text → Result SessionError SessionId
parse_id raw_id =
    let normalized_id = trim_space raw_id in
    if is_empty normalized_id then err invalid_id else ok normalized_id

pub record Session : Type 0 where
  pub id : SessionId
  pub user_id : UserId
  pub refresh_token_digest : Text
  pub created_at : Time
  pub expires_at : Time
  pub revoked_at : Option Time

unfoldable pub new : SessionId → UserId → Text → Time → Time → Result SessionError Session
new id user_id digest created_at expires_at = do
  reject_if (is_empty id) invalid_id
  reject_if (is_empty user_id) invalid_user_id
  reject_if (is_empty (trim_space digest)) invalid_token_digest
  reject_if (is_zero created_at || is_zero expires_at || not (after expires_at created_at))
      invalid_period
  ok (record {
    id = id;
    user_id = user_id;
    refresh_token_digest = digest;
    created_at = created_at;
    expires_at = expires_at;
    revoked_at = none;
  })

restore_revocation : Option Time → Session → Result SessionError Session
restore_revocation none session = ok session
restore_revocation (some at) session =
    if before at session.created_at
    then err invalid_period
    else ok (record session { revoked_at = some at })

unfoldable pub restore :
    SessionId → UserId → Text → Time → Time → Option Time → Result SessionError Session
unfolding new restore_revocation
restore id user_id digest created_at expires_at revoked_at = do
  session ← new id user_id digest created_at expires_at
  restore_revocation revoked_at session

unfoldable pub is_revoked : Session → Bool
is_revoked session = elim session.revoked_at [ none ↦ false | some _ ↦ true ]

unfoldable pub is_expired : Session → Time → Bool
is_expired session at = not (before at session.expires_at)

unfoldable pub ensure_active : Session → Time → Result SessionError (Unit {0})
unfolding is_revoked is_expired
ensure_active session at = do
  reject_if (is_revoked session) revoked
  reject_if (is_expired session at) expired

unfoldable pub validate_refresh_token_digest : Session → Text → Result SessionError (Unit {0})
validate_refresh_token_digest session presented = do
  reject_if (is_empty (trim_space presented)) invalid_token_digest
  reject_if (not (text_eq session.refresh_token_digest presented)) refresh_token_mismatch

unfoldable pub rotate_refresh_token : Session → Text → Time → Time → Result SessionError Session
unfolding ensure_active
rotate_refresh_token session new_digest new_expires_at rotated_at = do
  ensure_active session rotated_at
  reject_if (is_empty (trim_space new_digest)) invalid_token_digest
  reject_if (is_zero new_expires_at || not (after new_expires_at rotated_at)) invalid_period
  ok (record session { refresh_token_digest = new_digest; expires_at = new_expires_at })

unfoldable pub revoke : Session → Time → Result SessionError Session
unfolding is_revoked
revoke session revoked_at =
    if is_revoked session
    then ok session
    else if is_zero revoked_at || before revoked_at session.created_at
    then err invalid_period
    else ok (record session { revoked_at = some revoked_at })
