-- ===== src/Users/Repository.antt =====
-- repository.go, each operation on the collection of users, whose emails are unique.
use nexus_services.Shared.{
  ℕ, ◌+◌, Bool, true, false, ◌||◌, ◌&&◌, Option, none, some, List, [], ◌∷◌, length, take, Result,
  ok, err, ◌>>=◌, ltb, ◌==◌, Time, is_zero, if◌then◌else◌,
}
use nexus_services.Text.{text_eq, text_lt, is_empty}
use nexus_services.Mongo.{DbError, duplicate_key, Collection}
use nexus_services.Domain.User.{UserId, Email, Account, MailSyntax}
use nexus_services.Users.Document.{
  UserStoreError, user_not_found, email_already_exists, invalid_id, invalid_email,
  invalid_list_limit, invalid_list_cursor, database, UserDocument, new_user_document, to_domain,
}

-- The indexes on `_id` and on `email`.
abbrev pub same_user : UserDocument → UserDocument → Bool
same_user x y = text_eq x.id y.id || text_eq x.email y.email

pub record UserCursor : Type 0 where
  pub id : UserId
  pub created_at : Time

pub record ListUsersParams : Type 0 where
  pub limit : ℕ
  pub after : Option UserCursor

pub record ListUsersResult : Type 0 where
  pub users : List Account
  pub has_next : Bool
  pub next_cursor : Option UserCursor
  pub total_items : ℕ

unfoldable pub account_found :
    MailSyntax → Result DbError (Option UserDocument) → Result UserStoreError Account
account_found syntax (ok none) = err user_not_found
account_found syntax (ok (some d)) = to_domain syntax d
account_found syntax (err e) = err (database e)

-- `isEmailDuplicateError` looks for the name of the email index: `by_email` says that it is there.
unfoldable pub created : Bool → Result DbError (Unit {0}) → Result UserStoreError (Unit {0})
created by_email (ok _) = ok tt
created by_email (err duplicate_key) =
    if by_email then err email_already_exists else err (database duplicate_key)
created by_email (err e) = err (database e)

unfoldable pub has_email : Email → UserDocument → Bool
has_email email d = text_eq d.email email

unfoldable pub has_user_id : UserId → UserDocument → Bool
has_user_id id d = text_eq d.id id

unfoldable pub is_any_of : List UserId → UserDocument → Bool
is_any_of [] d = false
is_any_of (id ∷ ids) d = text_eq d.id id || is_any_of ids d

any_without_id : List UserId → Bool
any_without_id [] = false
any_without_id (id ∷ ids) = is_empty id || any_without_id ids

-- The sort by creation time and id.
unfoldable pub key_before : Time → UserId → Time → UserId → Bool
key_before t i u j = ltb t u || (t == u && text_lt i j)

unfoldable pub listed_before : UserDocument → UserDocument → Bool
listed_before x y = key_before x.created_at x.id y.created_at y.id

-- The filter of a page.
unfoldable pub after_cursor : Option UserCursor → UserDocument → Bool
after_cursor none d = true
after_cursor (some c) d = key_before c.created_at c.id d.created_at d.id

unfoldable pub invalid_cursor : Option UserCursor → Bool
invalid_cursor none = false
invalid_cursor (some c) = is_empty c.id || is_zero c.created_at

-- Every document that the cursor brings, up to the first that is invalid.
unfoldable pub accounts_of : MailSyntax → List UserDocument → Result UserStoreError (List Account)
accounts_of syntax [] = ok []
accounts_of syntax (d ∷ ds) = do
  account ← to_domain syntax d
  rest ← accounts_of syntax ds
  ok (account ∷ rest)

-- `accounts[len(accounts)-1]`
unfoldable pub last_of : {A : Type 0} → List A → Option A
last_of [] = none
last_of (a ∷ []) = some a
last_of (a ∷ b ∷ rest) = last_of (b ∷ rest)

abbrev pub cursor_of : Option Account → Option UserCursor
cursor_of none = none
cursor_of (some a) = some (record { id = a.id; created_at = a.created_at })

-- The page of the accounts read, which may be one more than the limit.
unfoldable pub page_of : ℕ → ℕ → List Account → ListUsersResult
page_of limit total accounts =
    if ltb limit (length accounts)
    then record {
      users = take limit accounts;
      has_next = true;
      next_cursor = cursor_of (last_of (take limit accounts));
      total_items = total;
    }
    else record { users = accounts; has_next = false; next_cursor = none; total_items = total }

unfoldable pub page_found :
    MailSyntax → ℕ → ℕ → Result DbError (List UserDocument) → Result UserStoreError ListUsersResult
page_found syntax limit total (err e) = err (database e)
page_found syntax limit total (ok ds) = do
  accounts ← accounts_of syntax ds
  ok (page_of limit total accounts)

unfoldable pub users_found :
    MailSyntax → Result DbError (List UserDocument) → Result UserStoreError (List Account)
users_found syntax (err e) = err (database e)
users_found syntax (ok ds) = accounts_of syntax ds

module _ (syntax : MailSyntax) (collection : Collection UserDocument same_user) where
  open collection use {State, find_one, find, count_documents, insert_one}

  unfoldable pub create : Bool → Account → State → Result UserStoreError (Unit {0}) × State
  create by_email account s =
      let (r, t) = insert_one (new_user_document account) s in (created by_email r, t)

  unfoldable pub find_by_email : Email → State → Result UserStoreError Account × State
  find_by_email email s =
      if is_empty email
      then (err invalid_email, s)
      else let (r, t) = find_one (has_email email) s in (account_found syntax r, t)

  unfoldable pub find_by_id : UserId → State → Result UserStoreError Account × State
  find_by_id id s =
      if is_empty id
      then (err invalid_id, s)
      else let (r, t) = find_one (has_user_id id) s in (account_found syntax r, t)

  -- No sort order; the ids bound the number of documents.
  unfoldable pub find_by_ids : List UserId → State → Result UserStoreError (List Account) × State
  unfolding any_without_id
  find_by_ids [] s = (ok [], s)
  find_by_ids (id ∷ ids) s =
      if any_without_id (id ∷ ids)
      then (err invalid_id, s)
      else let (r, t) = find (is_any_of (id ∷ ids)) (λ x y. false) (length (id ∷ ids)) s in
        (users_found syntax r, t)

  unfoldable pub list_counted :
      ListUsersParams → Result DbError ℕ → State → Result UserStoreError ListUsersResult × State
  list_counted params (err e) s = (err (database e), s)
  list_counted params (ok total) s =
      let (r, t) = find (after_cursor params.after) listed_before (params.limit + 1) s in
      (page_found syntax params.limit total r, t)

  unfoldable pub list : ListUsersParams → State → Result UserStoreError ListUsersResult × State
  list params s =
      if ltb params.limit 1 || ltb 100 params.limit
      then (err invalid_list_limit, s)
      else if invalid_cursor params.after
      then (err invalid_list_cursor, s)
      else let (r, t) = count_documents (λ _. true) s in list_counted params r t
