-- ===== src/Tests/Users.antt =====
-- Two stored users, listed one at a time.
use nexus_services.Shared.{◌≡◌, ◌≤◌, ◌<◌, ◌*◌, ◌+◌, refl, none, some, [], ◌∷◌, ok, arith, All, true}
use nexus_services.Text.{bytes, text_eq, text_lt, trim_space}
use nexus_services.Mongo.{Collection, memory, Distinct}
use nexus_services.Domain.User
use nexus_services.Domain.User.{MailSyntax, parse_email, new_password_hash}
use nexus_services.Users.Document.{UserDocument, to_domain}
use nexus_services.Users.Repository.{
  same_user, ListUsersParams, ListUsersResult, list, list_counted, invalid_cursor, page_found,
  accounts_of, page_of, last_of, after_cursor, listed_before, key_before,
}
use nexus_services.Users.Pages.{HasParsedId, IsPage, list-IsPage}
use nexus_services.Users.Listing.{total_pages, total_pages_lem}

abbrev ann : UserDocument
ann = record {
  id = bytes "u1";
  email = bytes "a@b.example";
  password_hash = bytes "hash";
  created_at = 5;
}

abbrev bob : UserDocument
bob = record {
  id = bytes "u2";
  email = bytes "c@d.example";
  password_hash = bytes "hash";
  created_at = 5;
}

abbrev plain : MailSyntax
plain = record { to_lower = λ t. t; parse_address = λ t. some t }

abbrev registry : Collection UserDocument same_user
registry = memory same_user

two_users : registry.State
unfolding memory
two_users = bob ∷ ann ∷ []

abbrev first_page : ListUsersParams
first_page = record { limit = 1; after = none }

abbrev only_ann : ListUsersResult
only_ann = record {
  users =
      record {
        id = bytes "u1";
        email = bytes "a@b.example";
        password_hash = bytes "hash";
        created_at = 5;
      }
      ∷ [];
  has_next = true;
  next_cursor = some (record { id = bytes "u1"; created_at = 5 });
  total_items = 2;
}

two_users-Parsed : All HasParsedId (registry.docs two_users)
unfolding memory two_users trim_space
two_users-Parsed = (refl, (refl, tt))

two_users-Distinct : Distinct same_user (registry.docs two_users)
unfolding memory two_users text_eq
two_users-Distinct = ((refl, tt), (tt, tt))

ann_listed : (list plain registry first_page two_users).0 ≡ ok only_ann
unfolding list list_counted invalid_cursor page_found accounts_of page_of last_of after_cursor
    listed_before key_before to_domain parse_email new_password_hash User.parse_id User.new memory
    two_users trim_space text_eq text_lt
ann_listed = refl

list-IsPage_example : IsPage (registry.docs two_users) none 1 only_ann
list-IsPage_example =
    list-IsPage plain registry first_page two_users two_users-Parsed two_users-Distinct ann_listed

total_pages_lem_example : (31 ≤ total_pages 31 30 * 30) × (total_pages 31 30 * 30 < 31 + 30)
total_pages_lem_example = total_pages_lem 31 30 (omega arith)
