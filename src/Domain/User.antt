-- ===== src/Domain/User.antt =====
-- internal/domain/user: accounts, their ids and email addresses, and the rules for passwords. An
-- id, an address and a hash are structs with one private string; the zero value of each is the
-- empty text.
use nexus_services.Shared.{
  ℕ, ◌||◌, not, ltb, length, Result, ok, err, Option, none, some, Time, is_zero, if◌then◌else◌,
}
use nexus_services.Text.{Text, is_empty, text_eq, trim_space, rune_count}

pub data UserError : Type 0 where
  invalid_id invalid_email invalid_password invalid_password_hash invalid_created_at : UserError

abbrev pub UserId : Type 0
UserId = Text

unfoldable pub parse_id : Text → Result UserError UserId
parse_id raw_id =
    let normalized_id = trim_space raw_id in
    if is_empty normalized_id then err invalid_id else ok normalized_id

abbrev pub min_password_length : ℕ
min_password_length = 12

abbrev pub max_password_length : ℕ
max_password_length = 128

unfoldable pub validate_plain_password : Text → Result UserError (Unit {0})
validate_plain_password password =
    let length = rune_count password in
    if ltb length min_password_length || ltb max_password_length length
    then err invalid_password
    else ok tt

unfoldable pub new_password_hash : Text → Result UserError Text
new_password_hash encoded =
    if is_empty (trim_space encoded) then err invalid_password_hash else ok encoded

-- `strings.ToLower`, and `net/mail`'s `ParseAddress` as far as the address goes.
pub record MailSyntax : Type 0 where
  pub to_lower : Text → Text
  pub parse_address : Text → Option Text

abbrev pub Email : Type 0
Email = Text

abbrev pub max_email_length : ℕ
max_email_length = 254

accepted_address : Text → Option Text → Result UserError Email
accepted_address normalized none = err invalid_email
accepted_address normalized (some address) =
    if not (text_eq address normalized) then err invalid_email else ok normalized

unfoldable pub parse_email : MailSyntax → Text → Result UserError Email
unfolding accepted_address
parse_email syntax raw_email =
    let normalized = MailSyntax.to_lower syntax (trim_space raw_email) in
    if is_empty normalized || ltb max_email_length (length normalized)
    then err invalid_email
    else accepted_address normalized (MailSyntax.parse_address syntax normalized)

pub record Account : Type 0 where
  pub id : UserId
  pub email : Email
  pub password_hash : Text
  pub created_at : Time

unfoldable pub new : UserId → Email → Text → Time → Result UserError Account
new id email password_hash created_at =
    if is_zero created_at
    then err invalid_created_at
    else ok
        (record { id = id; email = email; password_hash = password_hash; created_at = created_at })
