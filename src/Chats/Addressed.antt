-- ===== src/Chats/Addressed.antt =====
-- Whom a direct chat is with.
use nexus_services.Shared.{
  ◌≡◌, refl, ap, sym, ◌∙◌, false, true, is_ok, Bool, Option, none, some, Result, ok, ok_inj, err,
  map_err, map_err_ok, reject_if, ◌>>=◌, ◌>>◌, arith, Time,
}
use nexus_services.Shared.Actions.{ends_ok}
use nexus_services.Text.{Text, text_eq, text_eq_iff}
use nexus_services.Ports.{PortError}
use nexus_services.Domain.User
use nexus_services.Domain.User.{UserId, UserError, Account}
use nexus_services.Domain.Chat
use nexus_services.Domain.Chat.{
  ChatId, Chat, ChatError, order_participants, restore_direct, new_direct, related_user_id,
}
use nexus_services.Chats.Direct.{
  invalid_current_user_id, invalid_related_user_id, self_direct_chat, chat_error, port_error,
  CreateDirectOutput, parse_users, related_found, direct_output,
}
use nexus_services.Chats.CreateDirect.{
  CreateDirectDependencies, port, find_related, candidate, create_direct,
}

parse_users_ok :
    (a b : Text) (users : UserId × UserId)
    → parse_users a b ≡ ok users
    → (User.parse_id a ≡ ok users.0)
      × (User.parse_id b ≡ ok users.1)
      × (text_eq users.0 users.1 ≡ false)
unfolding parse_users
parse_users_ok a b users h = go (User.parse_id a) (User.parse_id b) h
  where
    go :
        (r t : Result UserError UserId)
        → (do
          current ← map_err (λ _. invalid_current_user_id) r
          related ← map_err (λ _. invalid_related_user_id) t
          reject_if (text_eq current related) self_direct_chat
          ok (current, related))
          ≡ ok users
        → (r ≡ ok users.0) × (t ≡ ok users.1) × (text_eq users.0 users.1 ≡ false)
    go (ok x) (ok y) h = ground arith
    go (ok x) (err e) h = ground arith
    go (err e) t h = ground arith

pub new_direct_participants :
    (id : ChatId) (a b : UserId) (now : Time) {chat : Chat}
    → new_direct id a b now ≡ ok chat
    → (chat.participant_one_id, chat.participant_two_id) ≡ order_participants a b
unfolding new_direct restore_direct
new_direct_participants id a b now h = ground arith

pub related_to :
    (chat : Chat) (a b : UserId)
    → (chat.participant_one_id, chat.participant_two_id) ≡ order_participants a b
    → text_eq a b ≡ false
    → related_user_id chat a ≡ ok b
unfolding order_participants related_user_id
related_to chat a b h apart = ground (
  arith,
  text_eq_iff a chat.participant_one_id,
  text_eq_iff a chat.participant_two_id,
  text_eq_iff a b,
)

related_found_ok :
    (r : Result PortError (Option Account)) → related_found r ≡ ok tt → is_ok r ≡ true
unfolding related_found
related_found_ok (ok a) h = refl
related_found_ok (err e) h = ground arith

module _ {W : Type 0} (deps : CreateDirectDependencies W) where
  open deps use {get_or_create_direct, find_user_by_id, new_id, now}

  -- The candidate is a new chat of the two users, under a parsed id.
  abbrev pub IsCandidate : UserId → UserId → Chat → Type 0
  IsCandidate current related chat =
      (raw : Text) × (id : ChatId) × (at : Time) × (Chat.parse_id raw ≡ ok id)
      × (new_direct id current related at ≡ ok chat)

  candidate_ok :
      (current related : UserId) (w : W) {chat : Chat}
      → (candidate deps current related w).0 ≡ ok chat
      → IsCandidate current related chat
  unfolding candidate
  candidate_ok current related w h =
      let generated = port new_id w in
      let (raw, _, h₁, _) = ends_ok generated.0 _ _ h in
      let (id, parsed, h₂, _) = ends_ok (map_err chat_error (Chat.parse_id raw)) _ _ h₁ in
      (raw, id, (now generated.1).0, map_err_ok chat_error _ parsed, map_err_ok chat_error _ h₂)

  -- The chat repository was given a candidate of the two users, who are different, in a world `v`,
  -- and has returned the chat of the output; the user repository had answered the look-up of the
  -- other user without an error.
  abbrev pub IsDirectCall : Text → Text → W → CreateDirectOutput → W → Type 0
  IsDirectCall current_id related_id w o w' =
      (current : UserId) × (related : UserId) × (chat : Chat) × (v : W) × (c : Chat)
      × (User.parse_id current_id ≡ ok current)
      × (User.parse_id related_id ≡ ok related)
      × (text_eq current related ≡ false)
      × (is_ok (find_user_by_id related w).0 ≡ true)
      × IsCandidate current related chat
      × ((get_or_create_direct chat v).0 ≡ ok (some c, o.created))
      × (w' ≡ (get_or_create_direct chat v).1)
      × (o.id ≡ c.id)
      × (related_user_id c current ≡ ok o.related_user)

  output_lem :
      (current : UserId) (reply : Option Chat × Bool) {o : CreateDirectOutput}
      → direct_output current reply ≡ ok o
      → (c : Chat) × (reply ≡ (some c, o.created))
        × (o.id ≡ c.id)
        × (related_user_id c current ≡ ok o.related_user)
  unfolding direct_output
  output_lem current (none, created) h = absurd (cc)
  output_lem current (some stored, created) {o} h = go (related_user_id stored current) refl h
    where
      go :
          (r : Result ChatError UserId)
          → related_user_id stored current ≡ r
          → (do
            related ← map_err chat_error r
            ok (record {
              id = stored.id;
              related_user = related;
              created_at = stored.created_at;
              updated_at = stored.updated_at;
              summary_sort_at = stored.summary_sort_at;
              created = created;
            }))
            ≡ ok o
          → (c : Chat) × (◌≡◌ {A = Option Chat × Bool} (some stored, created) (some c, o.created))
            × (o.id ≡ c.id)
            × (related_user_id c current ≡ ok o.related_user)
      go (err e) q k = absurd (cc)
      go (ok related) q k =
          let same = ok_inj k in
          (
            stored,
            ap (λ (x : CreateDirectOutput). (some stored, x.created)) same,
            sym (ap (λ (x : CreateDirectOutput). x.id) same),
            q ∙ ap (λ (x : CreateDirectOutput). ok x.related_user) same,
          )

  pub create_direct-IsDirectCall :
      (current_id related_id : Text) (w : W) {o : CreateDirectOutput}
      → (create_direct deps current_id related_id w).0 ≡ ok o
      → IsDirectCall current_id related_id w o (create_direct deps current_id related_id w).1
  unfolding create_direct find_related
  create_direct-IsDirectCall a b w {o} h =
      let (users, parsed, h₁, e₁) = ends_ok (parse_users a b) _ _ h in
      let lookup = find_related deps users.1 w in
      let (_, found, h₂, e₂) = ends_ok lookup.0 _ _ h₁ in
      let fresh = candidate deps users.0 users.1 lookup.1 in
      let (chat, made, h₃, e₃) = ends_ok fresh.0 _ _ h₂ in
      let stored = port (get_or_create_direct chat) fresh.1 in
      let (reply, got, h₄, e₄) = ends_ok stored.0 _ _ h₃ in
      let (one, two, apart) = parse_users_ok a b users parsed in
      let (c, whole, of, related) = output_lem users.0 reply h₄ in
      (
        users.0,
        users.1,
        chat,
        fresh.1,
        c,
        one,
        two,
        apart,
        related_found_ok _ found,
        candidate_ok users.0 users.1 lookup.1 made,
        map_err_ok port_error _ got ∙ ap ok whole,
        ap (λ x. x.1) (e₁ ∙ e₂ ∙ e₃ ∙ e₄),
        of,
        related,
      )
