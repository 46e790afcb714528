-- ===== src/Users/Pages.antt =====
-- A page of users and the next one.
use mathlib.Core.List.{Memᴰ}
use nexus_services.Shared.{
  ℕ, zero, suc, ◌+◌, ◌≤◌, ◌<◌, ◌≡◌, ◌⊎◌, refl, sym, ap, ◌∙◌, subst, inl, inr, Bool, true, false,
  ◌||◌, Option, none, some, List, [], ◌∷◌, length, take, All, All-map, Result, ok, err, ok_inj,
  ◌>>=◌, arith, ltb, if◌then◌else◌,
}
use nexus_services.Text.{trim_space}
use nexus_services.Mongo.{DbError, Collection, Listed, IsSortedBy, All-member, Distinct}
use nexus_services.Domain.User
use nexus_services.Domain.User.{UserId, Account, MailSyntax, parse_email, new_password_hash}
use nexus_services.Users.Document.{
  UserDocument, UserStoreError, invalid_list_limit, invalid_list_cursor, to_domain,
}
use nexus_services.Users.Repository.{
  same_user, UserCursor, ListUsersParams, ListUsersResult, listed_before, after_cursor, accounts_of,
  last_of, cursor_of, page_of, page_found, invalid_cursor, list_counted, list,
}
use nexus_services.Users.Order.{
  listed_before_irrefl, take-All, take-IsSortedBy, take-member, last_of-sorted, page_or_after,
}

-- Ids as their parser returns them.
abbrev pub HasParsedId : UserDocument → Type 0
HasParsedId d = trim_space d.id ≡ d.id

abbrev pub IsOf : Account → UserDocument → Type 0
IsOf a d = (a.id ≡ d.id) × (a.created_at ≡ d.created_at)

some_inj : {A : Type 0} {x y : A} → some x ≡ some y → x ≡ y
some_inj h = ground arith

-- Accounts and the documents they were made from.
abbrev Pairs : List Account → List UserDocument → Type 0
Pairs [] [] = Unit
Pairs [] (_ ∷ _) = ⊥
Pairs (_ ∷ _) [] = ⊥
Pairs (a ∷ accs) (d ∷ ds) = IsOf a d × Pairs accs ds

to_domain-IsOf :
    (syntax : MailSyntax) (d : UserDocument) (a : Account)
    → HasParsedId d
    → to_domain syntax d ≡ ok a
    → IsOf a d
unfolding to_domain User.parse_id User.new
to_domain-IsOf syntax d a p h = ground arith

accounts_of-Pairs :
    (syntax : MailSyntax) (ds : List UserDocument) (accs : List Account)
    → All HasParsedId ds
    → accounts_of syntax ds ≡ ok accs
    → Pairs accs ds
unfolding accounts_of
accounts_of-Pairs syntax [] accs p = λ h. subst (λ l. Pairs l []) (ok_inj h) tt
accounts_of-Pairs syntax (d ∷ ds) accs p =
    go (to_domain syntax d) refl (accounts_of syntax ds)
      (λ rest e. accounts_of-Pairs syntax ds rest p.1 e)
  where
    go :
        (r : Result UserStoreError Account)
        → to_domain syntax d ≡ r
        → (q : Result UserStoreError (List Account))
        → ((rest : List Account) → q ≡ ok rest → Pairs rest ds)
        → (r >>= λ a. q >>= λ rest. ok (a ∷ rest)) ≡ ok accs
        → Pairs accs (d ∷ ds)
    go (ok a) e (ok rest) ih h =
        subst (λ l. Pairs l (d ∷ ds)) (ok_inj h) (to_domain-IsOf syntax d a p.0 e, ih rest refl)
    go (ok a) e (err x) ih h = absurd (cc)
    go (err x) e q ih h = absurd (cc)

Pairs-take :
    (n : ℕ) (accs : List Account) (ds : List UserDocument)
    → Pairs accs ds
    → Pairs (take n accs) (take n ds)
Pairs-take zero accs ds p = tt
Pairs-take (suc n) [] [] p = tt
Pairs-take (suc n) [] (d ∷ ds) p = absurd p
Pairs-take (suc n) (a ∷ accs) [] p = absurd p
Pairs-take (suc n) (a ∷ accs) (d ∷ ds) p = (p.0, Pairs-take n accs ds p.1)

Pairs-length :
    (accs : List Account) (ds : List UserDocument) → Pairs accs ds → length accs ≡ length ds
Pairs-length [] [] p = refl
Pairs-length [] (d ∷ ds) p = absurd p
Pairs-length (a ∷ accs) [] p = absurd p
Pairs-length (a ∷ accs) (d ∷ ds) p = ap suc (Pairs-length accs ds p.1)

Pairs-member :
    (accs : List Account) (ds : List UserDocument) (d : UserDocument)
    → Pairs accs ds
    → Memᴰ d ds
    → (a : Account) × Memᴰ a accs × IsOf a d
Pairs-member accs [] d p m = elim m [ ]
Pairs-member [] (x ∷ ds) d p m = absurd p
Pairs-member (a ∷ accs) (x ∷ ds) d p (Memᴰ.head e) =
    (a, Memᴰ.head refl, subst (λ z. IsOf a z) (sym e) p.0)
Pairs-member (a ∷ accs) (x ∷ ds) d p (Memᴰ.tail m) =
    let (b, k, o) = Pairs-member accs ds d p.1 m in (b, Memᴰ.tail k, o)

Pairs-IsOf :
    (accs : List Account) (ds : List UserDocument) (a : Account)
    → Pairs accs ds
    → Memᴰ a accs
    → (d : UserDocument) × Memᴰ d ds × IsOf a d
Pairs-IsOf [] ds a p m = elim m [ ]
Pairs-IsOf (x ∷ accs) [] a p m = absurd p
Pairs-IsOf (x ∷ accs) (d ∷ ds) a p (Memᴰ.head e) =
    (d, Memᴰ.head refl, subst (λ z. IsOf z d) (sym e) p.0)
Pairs-IsOf (x ∷ accs) (d ∷ ds) a p (Memᴰ.tail m) =
    let (b, k, o) = Pairs-IsOf accs ds a p.1 m in (b, Memᴰ.tail k, o)

-- The last account is of the last document.
Pairs-last :
    (accs : List Account) (ds : List UserDocument) (a : Account)
    → Pairs accs ds
    → last_of accs ≡ some a
    → (d : UserDocument) × (last_of ds ≡ some d) × IsOf a d
unfolding last_of
Pairs-last [] ds a p h = absurd (cc)
Pairs-last (x ∷ accs) [] a p h = absurd p
Pairs-last (x ∷ []) (d ∷ []) a p h = (d, refl, subst (λ z. IsOf z d) (some_inj h) p.0)
Pairs-last (x ∷ []) (d ∷ e ∷ ds) a p h = absurd p.1
Pairs-last (x ∷ y ∷ accs) (d ∷ []) a p h = absurd p.1
Pairs-last (x ∷ y ∷ accs) (d ∷ e ∷ ds) a p h = Pairs-last (y ∷ accs) (e ∷ ds) a p.1 h

take-all : (n : ℕ) (xs : List UserDocument) → length (take (suc n) xs) ≤ n → take (suc n) xs ≡ xs
take-all n [] h = refl
take-all zero (x ∷ xs) h = absurd (omega arith)
take-all (suc n) (x ∷ xs) h = ap (λ l. x ∷ l) (take-all n xs (omega arith))

take-take : (n : ℕ) (xs : List UserDocument) → take n (take (suc n) xs) ≡ take n xs
take-take zero xs = refl
take-take (suc n) [] = refl
take-take (suc n) (x ∷ xs) = ap (λ l. x ∷ l) (take-take n xs)

last_of-some : (accs : List Account) → 0 < length accs → (a : Account) × (last_of accs ≡ some a)
unfolding last_of
last_of-some [] h = absurd (omega arith)
last_of-some (a ∷ []) h = (a, refl)
last_of-some (a ∷ b ∷ accs) h = last_of-some (b ∷ accs) (omega arith)

length-take_lt : (n : ℕ) (accs : List Account) → n < length accs → length (take n accs) ≡ n
length-take_lt zero accs h = refl
length-take_lt (suc n) [] h = absurd (omega arith)
length-take_lt (suc n) (a ∷ accs) h = ap suc (length-take_lt n accs (omega arith))

-- A page of at most `limit` accounts. Every document after the cursor is on the page or after the
-- next cursor; every account of the page is of a document after the cursor and not after the next
-- one.
pub record IsPage (docs : List UserDocument) (cursor : Option UserCursor) (limit : ℕ)
    (result : ListUsersResult) : Type 0 where
  pub complete :
      (d : UserDocument)
      → Memᴰ d docs
      → after_cursor cursor d ≡ true
      → ((a : Account) × Memᴰ a result.users × IsOf a d)
        ⊎ ((c : UserCursor) × (result.next_cursor ≡ some c) × (after_cursor (some c) d ≡ true))
  pub sound :
      (a : Account)
      → Memᴰ a result.users
      → (d : UserDocument) × Memᴰ d docs
        × IsOf a d
        × (after_cursor cursor d ≡ true)
        × ((c : UserCursor) → result.next_cursor ≡ some c → after_cursor (some c) d ≡ false)
  pub short : length result.users ≤ limit

-- The cursor made of an account is the place of its document.
cursor_lem :
    (a : Account) (l d : UserDocument)
    → IsOf a l
    → after_cursor (some (record { id = a.id; created_at = a.created_at })) d ≡ listed_before l d
unfolding after_cursor listed_before
cursor_lem a l d (id, time) = rw (id, time) refl

page_of-IsPage :
    (docs whole : List UserDocument) (cursor : Option UserCursor) (limit total : ℕ)
    (accs : List Account)
    → 0 < limit
    → IsSortedBy listed_before whole
    → All (λ d. Memᴰ d docs × (after_cursor cursor d ≡ true)) whole
    → All (λ d. after_cursor cursor d ≡ true → Memᴰ d whole) docs
    → Distinct same_user docs
    → Pairs accs (take (suc limit) whole)
    → IsPage docs cursor limit (page_of limit total accs)
unfolding page_of
page_of-IsPage docs whole cursor limit total accs positive sorted kept full apart pairs =
    go (ltb limit (length accs)) refl
  where
    Kept : UserDocument → Type 0
    Kept d = Memᴰ d docs × (after_cursor cursor d ≡ true)

    Full : UserDocument → Type 0
    Full d = after_cursor cursor d ≡ true → Memᴰ d whole

    in_docs : (d : UserDocument) → Memᴰ d whole → Kept d
    in_docs d m = All-member Kept whole d kept m

    in_whole : (d : UserDocument) → Memᴰ d docs → Full d
    in_whole d m = All-member Full docs d full m

    go :
        (b : Bool)
        → ltb limit (length accs) ≡ b
        → IsPage docs cursor limit (
            if b
            then record {
              users = take limit accs;
              has_next = true;
              next_cursor = cursor_of (last_of (take limit accs));
              total_items = total;
            }
            else record { users = accs; has_next = false; next_cursor = none; total_items = total })
    go false e =
        let few = Pairs-length accs (take (suc limit) whole) pairs in
        let all = take-all limit whole (ground arith) in
        let pairs' = subst (Pairs accs) all pairs in
        record {
          complete = λ d m h. inl (Pairs-member accs whole d pairs' (in_whole d m h));
          sound = λ a m.
              let (d, k, o) = Pairs-IsOf accs whole a pairs' m in
              (d, (in_docs d k).0, o, (in_docs d k).1, λ c q. absurd (cc));
          short = ground arith;
        }
    go true e =
        let page = take limit whole in
        let pairs' =
          subst (Pairs (take limit accs)) (take-take limit whole)
            (Pairs-take limit accs (take (suc limit) whole) pairs) in
        let long = length-take_lt limit accs (ground arith) in
        let (a, is_last) = last_of-some (take limit accs) (omega arith) in
        let (l, last, of_l) = Pairs-last (take limit accs) page a pairs' is_last in
        rw is_last (record {
          complete = λ d m h.
              elim (page_or_after limit whole docs d l sorted
                (All-map Kept (λ x. Memᴰ x docs) (λ x k. k.0) whole kept) apart last
                (in_whole d m h)) [
                  | inl i ↦ inl (Pairs-member (take limit accs) page d pairs' i)
                  | inr k ↦ inr (_, refl, cursor_lem a l d of_l ∙ k)
                ];
          sound = λ b m.
              let (d, k, o) = Pairs-IsOf (take limit accs) page b pairs' m in
              let inside = in_docs d (take-member listed_before limit whole d k) in
              (
                d,
                inside.0,
                o,
                inside.1,
                λ c q.
                    subst (λ z. after_cursor (some z) d ≡ false) (some_inj q)
                      (cursor_lem a l d of_l
                        ∙ last_of-sorted listed_before listed_before_irrefl page l d
                            (take-IsSortedBy listed_before limit whole sorted) last k),
              );
          short = omega arith;
        })

module _ (syntax : MailSyntax) (collection : Collection UserDocument same_user) where
  open collection use {State, docs, find, find_law, count_documents, count_documents_law}

  page_found-IsPage :
      (limit total : ℕ) (cursor : Option UserCursor) (s : State)
      (r : Result DbError (List UserDocument)) {result : ListUsersResult}
      → 0 < limit
      → All HasParsedId (docs s)
      → Distinct same_user (docs s)
      → Listed (after_cursor cursor) listed_before (limit + 1) (docs s) r
      → page_found syntax limit total r ≡ ok result
      → IsPage (docs s) cursor limit result
  unfolding page_found
  page_found-IsPage limit total cursor s (err e) {result} positive parsed apart law =
      λ h. absurd (cc)
  page_found-IsPage limit total cursor s (ok ds) {result} positive parsed apart
        (whole, sorted, kept, full, first) =
      go (accounts_of syntax ds) refl
    where
      parsed_page : (n : ℕ) → All HasParsedId (take n whole)
      parsed_page n = take-All listed_before HasParsedId n whole (
          All-map (λ d. Memᴰ d (docs s) × (after_cursor cursor d ≡ true)) HasParsedId
            (λ d k. All-member HasParsedId (docs s) d parsed k.0) whole kept)

      one_more : ds ≡ take (suc limit) whole
      one_more =
          let more : limit + 1 ≡ suc limit = omega arith in first ∙ ap (λ n. take n whole) more

      go :
          (r : Result UserStoreError (List Account))
          → accounts_of syntax ds ≡ r
          → (r >>= λ accounts. ok (page_of limit total accounts)) ≡ ok result
          → IsPage (docs s) cursor limit result
      go (ok accs) e h = subst (IsPage (docs s) cursor limit) (ok_inj h) (
          page_of-IsPage (docs s) whole cursor limit total accs positive sorted kept full apart (
            subst (Pairs accs) one_more (
              accounts_of-Pairs syntax ds accs
                (subst (All HasParsedId) (sym one_more) (parsed_page (suc limit))) e)))
      go (err x) e h = absurd (cc)

  list_counted-IsPage :
      (params : ListUsersParams) (s t : State) (r : Result DbError ℕ) {result : ListUsersResult}
      → 0 < params.limit
      → All HasParsedId (docs s)
      → Distinct same_user (docs s)
      → docs t ≡ docs s
      → (list_counted syntax collection params r t).0 ≡ ok result
      → IsPage (docs s) params.after params.limit result
  unfolding list_counted
  list_counted-IsPage params s t (err e) positive parsed apart same h = absurd (cc)
  list_counted-IsPage params s t (ok total) {result} positive parsed apart same h =
      let law = (find_law (after_cursor params.after) listed_before (params.limit + 1) t).0 in
      subst (λ xs. IsPage xs params.after params.limit result) same
        (page_found-IsPage params.limit total params.after t _ positive
          (subst (All HasParsedId) (sym same) parsed) (subst (Distinct same_user) (sym same) apart)
          law h)

  -- A page of users that is returned has at most the number of accounts asked for. Where the stored
  -- ids are as their parser returns them, and no two documents have the same id or email: every
  -- document after the cursor of the page is on the page or after the next cursor, so that no
  -- account is skipped; and every account of the page is of a document after the cursor and not
  -- after the next one, so that none comes twice.
  pub list-IsPage :
      (params : ListUsersParams) (s : State) {result : ListUsersResult}
      → All HasParsedId (docs s)
      → Distinct same_user (docs s)
      → (list syntax collection params s).0 ≡ ok result
      → IsPage (docs s) params.after params.limit result
  unfolding list
  list-IsPage params s {result} parsed apart =
      go (ltb params.limit 1 || ltb 100 params.limit) refl (invalid_cursor params.after)
    where
      t : Result DbError ℕ × State
      t = count_documents (λ _. true) s

      go :
          (a : Bool)
          → (ltb params.limit 1 || ltb 100 params.limit) ≡ a
          → (b : Bool)
          → let out : Result UserStoreError ListUsersResult × State =
              if a
              then (err invalid_list_limit, s)
              else if b
              then (err invalid_list_cursor, s)
              else list_counted syntax collection params t.0 t.1 in
            out.0 ≡ ok result → IsPage (docs s) params.after params.limit result
      go true e b h = absurd (cc)
      go false e true h = absurd (cc)
      go false e false h =
          list_counted-IsPage params s t.1 t.0 (ground arith) parsed apart
            (count_documents_law (λ _. true) s).1 h
