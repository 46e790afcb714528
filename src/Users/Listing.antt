-- ===== src/Users/Listing.antt =====
-- internal/application/users/list.go: `Execute`, over the reply of the repository.
use nexus_services.Shared.{
  ℕ, ◌+◌, ◌-◌, ◌*◌, ◌/◌, ◌≤◌, ◌<◌, ◌≡◌, refl, Bool, true, false, not, ◌||◌, ◌&&◌, Option, none,
  some, List, [], ◌∷◌, Result, ok, err, map_err, reject_if, ◌>>=◌, ◌>>◌, arith, ltb, ◌==◌, Time,
  if◌then◌else◌,
}
use native.Mathlib.Nat.{div-add-mod', mod-lt}
use nexus_services.Shared.Int.{ℤ, pos, negsuc}
use nexus_services.Text.{Text, trim_space}
use nexus_services.Domain.User
use nexus_services.Domain.User.{UserId, Email, Account}
use nexus_services.Users.Repository.{UserCursor, ListUsersParams}

pub data ListError : Type 0 where
  invalid_page invalid_page_size invalid_cursor inconsistent_pagination : ListError
  list_failed nil_user missing_cursor : ListError

abbrev pub default_page_size : ℕ
default_page_size = 30

abbrev pub max_page_size : ℕ
max_page_size = 100

pub record ListCursorInput : Type 0 where
  pub id : Text
  pub created_at : Text

-- Go's `int`s, and a cursor that may be nil.
pub record ListInput : Type 0 where
  pub page : ℤ
  pub page_size : ℤ
  pub cursor : Option ListCursorInput

pub record ListedUser : Type 0 where
  pub id : UserId
  pub email : Email
  pub created_at : Time

pub record ListPagination : Type 0 where
  pub has_next : Bool
  pub next_cursor : Option UserCursor
  pub page : ℕ
  pub page_size : ℕ
  pub total_items : ℕ
  pub total_pages : ℕ

pub record ListOutput : Type 0 where
  pub users : List ListedUser
  pub pagination : ListPagination

-- ports.ListUsersResult, whose users are pointers.
pub record ListReply : Type 0 where
  pub users : List (Option Account)
  pub has_next : Bool
  pub next_cursor : Option UserCursor
  pub total_items : ℕ

unfoldable pub page_of : ℤ → Result ListError ℕ
page_of (negsuc _) = err invalid_page
page_of (pos n) = ok (if n == 0 then 1 else n)

unfoldable pub page_size_of : ℤ → Result ListError ℕ
page_size_of (negsuc _) = err invalid_page_size
page_size_of (pos n) =
    if n == 0
    then ok default_page_size
    else if ltb max_page_size n
    then err invalid_page_size
    else ok n

-- The parsed time, `none` where `time.Parse` fails.
timed_cursor : UserId → Option Time → Result ListError UserCursor
timed_cursor id none = err invalid_cursor
timed_cursor id (some at) = ok (record { id = id; created_at = at })

-- `parse_time` is `time.Parse(time.RFC3339Nano, ...)`.
unfoldable pub cursor_of :
    (Text → Option Time) → Option ListCursorInput → Result ListError (Option UserCursor)
unfolding timed_cursor
cursor_of parse_time none = ok none
cursor_of parse_time (some input) = do
  id ← map_err (λ _. invalid_cursor) (User.parse_id input.id)
  cursor ← timed_cursor id (parse_time (trim_space input.created_at))
  ok (some cursor)

abbrev pub is_some : {A : Type 0} → Option A → Bool
is_some none = false
is_some (some _) = true

-- What is asked of the repository: the page, its size and the cursor.
unfoldable pub request : (Text → Option Time) → ListInput → Result ListError (ℕ × ListUsersParams)
request parse_time input = do
  page ← page_of input.page
  page_size ← page_size_of input.page_size
  cursor ← cursor_of parse_time input.cursor
  reject_if ((page == 1 && is_some cursor) || (ltb 1 page && not (is_some cursor)))
      inconsistent_pagination
  ok (page, record { limit = page_size; after = cursor })

unfoldable pub listed_users : List (Option Account) → Result ListError (List ListedUser)
listed_users [] = ok []
listed_users (none ∷ _) = err nil_user
listed_users (some a ∷ rest) = do
  others ← listed_users rest
  ok (record { id = a.id; email = a.email; created_at = a.created_at } ∷ others)

next_of : Bool → Option UserCursor → Result ListError (Option UserCursor)
next_of false cursor = ok none
next_of true none = err missing_cursor
next_of true (some cursor) = ok (some cursor)

unfoldable pub total_pages : ℕ → ℕ → ℕ
total_pages total page_size = if total == 0 then 0 else (total + page_size - 1) / page_size

unfoldable pub output_of : ℕ → ℕ → ListReply → Result ListError ListOutput
unfolding next_of
output_of page page_size reply = do
  users ← listed_users reply.users
  next ← next_of reply.has_next reply.next_cursor
  ok (record {
    users = users;
    pagination = record {
      has_next = reply.has_next;
      next_cursor = next;
      page = page;
      page_size = page_size;
      total_items = reply.total_items;
      total_pages = total_pages reply.total_items page_size;
    };
  })

answered : ℕ → ℕ → Option ListReply → Result ListError ListOutput
answered page page_size none = err list_failed
answered page page_size (some reply) = output_of page page_size reply

-- `Execute`: the repository is asked with the parameters, and may fail.
unfoldable pub execute :
    (Text → Option Time)
    → (ListUsersParams → Option ListReply)
    → ListInput
    → Result ListError ListOutput
unfolding answered
execute parse_time list input = do
  asked ← request parse_time input
  answered asked.0 (ListUsersParams.limit asked.1) (list asked.1)

page_of_lem : (p : ℤ) {n : ℕ} → page_of p ≡ ok n → 1 ≤ n
unfolding page_of
page_of_lem (negsuc m) h = absurd (cc)
page_of_lem (pos m) h = ground arith

page_size_of_lem : (p : ℤ) {n : ℕ} → page_size_of p ≡ ok n → (1 ≤ n) × (n ≤ 100)
unfolding page_size_of
page_size_of_lem (negsuc m) h = absurd (cc)
page_size_of_lem (pos m) h = ground arith

-- The repository is asked for between one and a hundred accounts, for the first page exactly when
-- there is no cursor.
pub request_lem :
    (parse_time : Text → Option Time) (input : ListInput) {asked : ℕ × ListUsersParams}
    → request parse_time input ≡ ok asked
    → (1 ≤ asked.0)
      × (1 ≤ ListUsersParams.limit asked.1)
      × (ListUsersParams.limit asked.1 ≤ 100)
      × ((asked.0 == 1) ≡ not (is_some (ListUsersParams.after asked.1)))
unfolding request
request_lem parse_time input {asked} =
    go (page_of input.page) (λ n e. page_of_lem input.page e) (page_size_of input.page_size)
      (λ n e. page_size_of_lem input.page_size e) (cursor_of parse_time input.cursor)
  where
    go :
        (p : Result ListError ℕ)
        → ((n : ℕ) → p ≡ ok n → 1 ≤ n)
        → (s : Result ListError ℕ) → ((n : ℕ) → s ≡ ok n → (1 ≤ n) × (n ≤ 100))
        → (c : Result ListError (Option UserCursor))
        → (do
          page ← p
          page_size ← s
          cursor ← c
          reject_if
              ((page == 1 && is_some cursor) || (ltb 1 page && not (is_some cursor)))
              inconsistent_pagination
          ok (page, record { limit = page_size; after = cursor }))
          ≡ ok asked
        → (1 ≤ asked.0)
          × (1 ≤ ListUsersParams.limit asked.1)
          × (ListUsersParams.limit asked.1 ≤ 100)
          × ((asked.0 == 1) ≡ not (is_some (ListUsersParams.after asked.1)))
    go (err e) f s g c h = absurd (cc)
    go (ok n) f (err e) g c h = absurd (cc)
    go (ok n) f (ok m) g (err e) h = absurd (cc)
    go (ok n) f (ok m) g (ok none) h = let one = f n refl in let size = g m refl in ground arith
    go (ok n) f (ok m) g (ok (some c)) h = let one = f n refl in let size = g m refl in ground arith

-- The pages hold every account, and none of the pages is empty.
pub total_pages_lem :
    (total page_size : ℕ)
    → 0 < page_size
    → (total ≤ total_pages total page_size * page_size)
      × (total_pages total page_size * page_size < total + page_size)
unfolding total_pages
total_pages_lem total page_size h = go (total == 0) refl
  where
    go :
        (b : Bool)
        → (total == 0) ≡ b
        → let pages = if b then 0 else (total + page_size - 1) / page_size in
          (total ≤ pages * page_size) × (pages * page_size < total + page_size)
    go true e = ground arith
    go false e =
        let n = total + page_size - 1 in
        let whole = div-add-mod' n page_size in
        let rest = mod-lt n h in
        let some_total : 0 < total = ground arith in
        let split : n + 1 ≡ total + page_size = omega arith in (omega arith, omega arith)
