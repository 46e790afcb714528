-- ===== src/Chats/Partners.antt =====
-- A direct chat from the request to the stored documents.
use mathlib.Core.List.{Memᴰ}
use nexus_services.Shared.{
  ◌≡◌, ◌≢◌, refl, ap, sym, subst, ◌∙◌, ◌⊎◌, inl, inr, false, true, is_ok, Bool, Bool-cases, Option,
  none, some, Result, ok, ok_inj, err, arith, Time, if◌then◌else◌,
}
use nexus_services.Shared.Actions.{Action}
use nexus_services.Text.{Text, trim_space, trim_space_idem, is_empty, text_lt, text_eq_iff}
use nexus_services.Mongo.{DbError, Collection, Upserts, Found}
use nexus_services.Ports.{PortError}
use nexus_services.Domain.User
use nexus_services.Domain.User.{UserId, Account, MailSyntax}
use nexus_services.Domain.Chat
use nexus_services.Domain.Chat.{
  ChatId, Chat, order_participants, restore_direct, new_direct, related_user_id,
}
use nexus_services.Domain.Chat.Laws.{IsValid, restore_direct-IsValid}
use nexus_services.Users.Document.{UserDocument, UserStoreError}
use nexus_services.Users.Repository
use nexus_services.Users.Repository.{same_user, has_user_id, account_found}
use nexus_services.Chats.Document.{ChatDocument, to_domain}
use nexus_services.Chats.Roundtrip.{IsParsed}
use nexus_services.Chats.Repository.{ChatStoreError, same_chat}
use nexus_services.Chats.Pairs.{pair_of_iff, returned-IsKept}
use nexus_services.Chats.Direct.{CreateDirectOutput}
use nexus_services.Chats.CreateDirect.{create_direct}
use nexus_services.Chats.Addressed.{new_direct_participants, related_to, create_direct-IsDirectCall}
use nexus_services.Chats.Wired.{World, wired, user_reply, chat_reply}

user_trimmed : (raw id : Text) → User.parse_id raw ≡ ok id → trim_space id ≡ id
unfolding User.parse_id
user_trimmed raw id h = ground (arith, trim_space_idem raw)

chat_trimmed : (raw id : Text) → Chat.parse_id raw ≡ ok id → trim_space id ≡ id
unfolding Chat.parse_id
chat_trimmed raw id h = ground (arith, trim_space_idem raw)

-- The two users are the participants, in one order or the other.
abbrev pub AreParticipants : UserId → UserId → UserId → UserId → Type 0
AreParticipants a b one two = ((one ≡ a) × (two ≡ b)) ⊎ ((one ≡ b) × (two ≡ a))

ordered_cases :
    (a b one two : UserId) → (one, two) ≡ order_participants a b → AreParticipants a b one two
unfolding order_participants
ordered_cases a b one two h = go (text_lt a b) h
  where
    go :
        (t : Bool)
        → ◌≡◌ {A = UserId × UserId} (one, two) (if t then (a, b) else (b, a))
        → AreParticipants a b one two
    go true h = inl (ap (λ x. x.0) h, ap (λ x. x.1) h)
    go false h = inr (ap (λ x. x.0) h, ap (λ x. x.1) h)

new_direct-id :
    (id : ChatId) (a b : UserId) (now : Time) {chat : Chat}
    → new_direct id a b now ≡ ok chat
    → chat.id ≡ id
unfolding new_direct restore_direct
new_direct-id id a b now h = ground arith

new_direct-IsValid :
    (id : ChatId) (a b : UserId) (now : Time) {chat : Chat}
    → new_direct id a b now ≡ ok chat
    → IsValid chat
unfolding new_direct
new_direct-IsValid id a b now h = restore_direct-IsValid id a b now now now _ h

new_direct-IsParsed :
    (id : ChatId) (a b : UserId) (now : Time) {chat : Chat}
    → trim_space id ≡ id
    → trim_space a ≡ a
    → trim_space b ≡ b
    → new_direct id a b now ≡ ok chat
    → IsParsed chat
new_direct-IsParsed id a b now {chat} t ta tb h =
    let same = new_direct-id id a b now h in
    let members =
      ordered_cases a b chat.participant_one_id chat.participant_two_id
        (new_direct_participants id a b now h) in
    record {
      id_trimmed = cc;
      one_trimmed = elim members [ inl (p, q) ↦ cc | inr (p, q) ↦ cc ];
      two_trimmed = elim members [ inl (p, q) ↦ cc | inr (p, q) ↦ cc ];
    }

-- A chat that is read back has the participants and the id of its document.
to_domain_parts :
    (d : ChatDocument) (c : Chat)
    → to_domain d ≡ ok c
    → trim_space d.participant_one_id ≡ d.participant_one_id
    → trim_space d.participant_two_id ≡ d.participant_two_id
    → (c.participant_one_id ≡ d.participant_one_id)
      × (c.participant_two_id ≡ d.participant_two_id)
      × (Chat.parse_id d.id ≡ ok c.id)
unfolding to_domain restore_direct order_participants User.parse_id Chat.parse_id
to_domain_parts d c h one two = ground arith

same_pair : (x y x' y' : UserId) {r : UserId × UserId} → x ≡ x' → y ≡ y' → (x', y') ≡ r → (x, y) ≡ r
same_pair x y x' y' p q e = cc

-- The reply of the wired repository is that of the chat repository.
chat_reply_ok :
    (r : Result ChatStoreError (Chat × Bool)) (c : Chat) (created : Bool)
    → chat_reply r ≡ ok (some c, created)
    → r ≡ ok (c, created)
unfolding chat_reply
chat_reply_ok (ok (c', b)) c created h = cc
chat_reply_ok (err e) c created h = cc

user_reply_ok : (r : Result UserStoreError Account) → is_ok (user_reply r) ≡ true → is_ok r ≡ true
unfolding user_reply
user_reply_ok (ok a) h = refl
user_reply_ok (err UserStoreError.user_not_found) h = cc
user_reply_ok (err e) h = cc

module _ (syntax : MailSyntax) (users : Collection UserDocument same_user)
    (chats : Collection ChatDocument same_chat) (upserts : Upserts chats) (V : Type 0)
    (by_participants : Bool) (new_id : Action V PortError Text) (now : V → Time × V) where
  -- A user with the id is stored.
  abbrev pub IsUser : UserId → users.State → Type 0
  IsUser id s = (u : UserDocument) × Memᴰ u (users.docs s) × (u.id ≡ id)

  found-IsUser :
      (id : UserId) (s : users.State)
      → is_ok (Repository.find_by_id syntax users id s).0 ≡ true
      → IsUser id s
  unfolding Repository.find_by_id account_found has_user_id
  found-IsUser id s h = elim (Bool-cases (is_empty id)) [
    | inl e ↦ absurd (ground arith)
    | inr e ↦
        go (users.find_one (has_user_id id) s).0 (users.find_one_law (has_user_id id) s).0
          (ground arith)
  ]
    where
      go :
          (r : Result DbError (Option UserDocument))
          → Found (has_user_id id) (users.docs s) r
          → is_ok (account_found syntax r) ≡ true
          → IsUser id s
      go (ok none) f k = cc
      go (ok (some u)) f k = (u, f.0, (text_eq_iff u.id id).0 f.1)
      go (err e) f k = cc

  -- The output's user is the one that was asked for, another one than the caller, and is stored; a
  -- chat of the two is stored, under the output's id.
  abbrev pub IsChatWith : Text → Text → users.State → chats.State → CreateDirectOutput → Type 0
  IsChatWith current_id related_id us cs o =
      (current : UserId) × (related : UserId) × (d : ChatDocument) × (User.parse_id current_id
        ≡ ok current)
      × (User.parse_id related_id ≡ ok related)
      × (current ≢ related)
      × IsUser related us
      × (o.related_user ≡ related)
      × Memᴰ d (chats.docs cs)
      × AreParticipants current related d.participant_one_id d.participant_two_id
      × (Chat.parse_id d.id ≡ ok o.id)

  -- A direct chat that is created or found, over the repositories of chats and of users, is with
  -- the user that was asked for: both ids are valid and of two users, the other user was stored
  -- before the call, and after it a chat of the two is stored, with the id that is returned.
  pub create_direct-IsChatWith :
      (current_id related_id : Text) (w : World syntax users chats upserts V)
      {o : CreateDirectOutput}
      → let (r, w') =
          create_direct
            (wired syntax users chats upserts by_participants new_id now)
            current_id
            related_id
            w in
        r ≡ ok o → IsChatWith current_id related_id w.user_state w'.chat_state o
  unfolding wired
  create_direct-IsChatWith current_id related_id w {o} h =
      let deps = wired syntax users chats upserts by_participants new_id now in
      let (
        a,
        b,
        chat,
        v,
        c,
        pa,
        pb,
        apart,
        found,
        (raw, id, at, named, made),
        got,
        end,
        of,
        related,
      ) =
        create_direct-IsDirectCall deps current_id related_id w h in
      let ta = user_trimmed current_id a pa in
      let tb = user_trimmed related_id b pb in
      let valid = new_direct-IsValid id a b at made in
      let parsed = new_direct-IsParsed id a b at (chat_trimmed raw id named) ta tb made in
      let pair = new_direct_participants id a b at made in
      let (d, m, of_pair, read) =
        returned-IsKept chats upserts by_participants chat v.chat_state c o.created valid parsed
          (chat_reply_ok _ c o.created got) in
      let (one, two) = (pair_of_iff chat d).0 of_pair in
      let (c_one, c_two, c_id) =
        to_domain_parts d c read (subst (λ t. trim_space t ≡ t) (sym one) parsed.one_trimmed)
          (subst (λ t. trim_space t ≡ t) (sym two) parsed.two_trimmed) in
      let d_pair = same_pair _ _ _ _ one two pair in
      let c_pair = same_pair _ _ _ _ c_one c_two d_pair in
      (
        a,
        b,
        d,
        pa,
        pb,
        (λ e. (let same = (text_eq_iff a b).1 e in absurd (cc))),
        found-IsUser b w.user_state (user_reply_ok _ found),
        ok_inj (sym related ∙ related_to c a b c_pair apart),
        subst (λ (t : World syntax users chats upserts V). Memᴰ d (chats.docs t.chat_state))
            (sym end) m,
        ordered_cases a b d.participant_one_id d.participant_two_id d_pair,
        c_id ∙ ap ok (sym of),
      )
