-- ===== src/Users/Document.antt =====
-- documento.go: an account as it is stored, and back.
use nexus_services.Shared.{Result, map_err, ◌>>=◌, Time}
use nexus_services.Text.{Text}
use nexus_services.Mongo.{DbError}
use nexus_services.Domain.User
use nexus_services.Domain.User.{UserError, Account, MailSyntax, parse_email, new_password_hash}

-- The repository's errors, the sentinels of the ports and of the user package that it returns, and
-- the errors of the driver.
pub data UserStoreError : Type 0 where
  invalid_document user_not_found email_already_exists : UserStoreError
  invalid_id invalid_email invalid_list_limit invalid_list_cursor : UserStoreError
  database : DbError → UserStoreError

pub record UserDocument : Type 0 where
  pub id : Text
  pub email : Text
  pub password_hash : Text
  pub created_at : Time

unfoldable pub new_user_document : Account → UserDocument
new_user_document account = record {
  id = account.id;
  email = account.email;
  password_hash = account.password_hash;
  created_at = account.created_at;
}

abbrev pub or_invalid : {E A : Type 0} → Result E A → Result UserStoreError A
or_invalid = map_err (λ _. invalid_document)

unfoldable pub to_domain : MailSyntax → UserDocument → Result UserStoreError Account
to_domain syntax document = do
  user_id ← or_invalid (User.parse_id document.id)
  email ← or_invalid (parse_email syntax document.email)
  password_hash ← or_invalid (new_password_hash document.password_hash)
  or_invalid (User.new user_id email password_hash document.created_at)
