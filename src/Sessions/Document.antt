-- ===== src/Sessions/Document.antt =====
-- document.go: a session as it is stored, and back. A missing revocation is null.
use nexus_services.Shared.{Bool, true, false, Option, none, some, Result, map_err, ◌>>=◌, Time}
use nexus_services.Text.{Text}
use nexus_services.Mongo.{DbError}
use nexus_services.Domain.User
use nexus_services.Domain.User.{UserId}
use nexus_services.Domain.Session
use nexus_services.Domain.Session.{Session, SessionId, restore}

-- The errors of errors.go, the sentinels of the ports that the repository returns, the invalid id
-- of the session package, and the errors of the driver.
pub data SessionStoreError : Type 0 where
  nil_session invalid_document invalid_expected_digest invalid_rotation_time : SessionStoreError
  invalid_id session_not_found session_conflict : SessionStoreError
  database : DbError → SessionStoreError

pub record SessionDocument : Type 0 where
  pub id : Text
  pub user_id : Text
  pub refresh_token_digest : Text
  pub created_at : Time
  pub expires_at : Time
  pub revoked_at : Option Time

unfoldable pub new_session_document : Session → SessionDocument
new_session_document session = record {
  id = session.id;
  user_id = session.user_id;
  refresh_token_digest = session.refresh_token_digest;
  created_at = session.created_at;
  expires_at = session.expires_at;
  revoked_at = session.revoked_at;
}

abbrev pub or_error : {E A : Type 0} → SessionStoreError → Result E A → Result SessionStoreError A
or_error e = map_err (λ _. e)

-- An id that does not parse is reported as a nil session.
unfoldable pub to_domain : SessionDocument → Result SessionStoreError Session
to_domain document = do
  session_id ← or_error nil_session (Session.parse_id document.id)
  user_id ← or_error invalid_document (User.parse_id document.user_id)
  or_error invalid_document (
      restore session_id user_id document.refresh_token_digest document.created_at
        document.expires_at document.revoked_at)

abbrev pub is_unrevoked : Option Time → Bool
is_unrevoked none = true
is_unrevoked (some _) = false
