-- ===== src/Sessions/Refinement.antt =====
-- The stored updates do what the methods of the entity do.
use nexus_services.Shared.{◌≡◌, true, false, Option, none, some, ok, arith, Time, ◌⊎◌, ◌↔◌}
use nexus_services.Text.{Text, trim_space}
use nexus_services.Domain.User
use nexus_services.Domain.Session
use nexus_services.Domain.Session.{
  Session, SessionError, restore, new, ensure_active, rotate_refresh_token, revoke,
}
use nexus_services.Domain.Session.Laws.{IsValid, IsFrom}
use nexus_services.Sessions.Document.{new_session_document, to_domain}
use nexus_services.Sessions.Repository.{may_rotate, rotate_to, may_revoke, revoke_at}

-- Ids that their parsers return.
pub record IsParsed (session : Session) : Type 0 where
  pub id_trimmed : trim_space session.id ≡ session.id
  pub user_trimmed : trim_space session.user_id ≡ session.user_id

restored :
    (s : Session)
    → IsValid s
    → restore s.id s.user_id s.refresh_token_digest s.created_at s.expires_at s.revoked_at ≡ ok s
unfolding restore
restored s v = go s.revoked_at v.revoked_later
  where
    go :
        (at : Option Time)
        → IsFrom s.created_at at
        → restore s.id s.user_id s.refresh_token_digest s.created_at s.expires_at at
          ≡ ok (record s { revoked_at = at })
    go none h = ground arith
    go (some at) h = ground arith

-- A well-formed session with parsed ids is read back from the document that was written for it.
pub to_domain-new_session_document :
    (s : Session) → IsValid s → IsParsed s → to_domain (new_session_document s) ≡ ok s
unfolding to_domain new_session_document Session.parse_id User.parse_id
to_domain-new_session_document s v p = let back = restored s v in ground arith

-- How the filters and the updates of the repository act on the document of a session.
abbrev pub UpdatesRefine : Session → Text → Text → Time → Time → Type 0
UpdatesRefine s expected digest expires at =
    let d = new_session_document s in
    ((may_rotate s.id expected at d ≡ true)
      ↔ ((s.refresh_token_digest ≡ expected) × (ensure_active s at ≡ ok tt)))
    × ((s' : Session)
        → rotate_refresh_token s digest expires at ≡ ok s'
        → rotate_to s' d ≡ new_session_document s')
    × ((s' : Session)
        → revoke s at ≡ ok s'
        → ((may_revoke s.id d ≡ true) × (revoke_at at d ≡ new_session_document s'))
          ⊎ ((may_revoke s.id d ≡ false) × (s' ≡ s)))
