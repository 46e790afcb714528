-- ===== src/Sessions/Repository.antt =====
-- repository.go and batch.go, each operation on the collection of sessions. The server removes a
-- session some time after it expired, by the index sessions_expiration_ttl; here none goes away.
use nexus_services.Shared.{
  ℕ, zero, suc, Bool, false, ◌||◌, ◌&&◌, Option, none, some, List, [], ◌∷◌, length, Result, ok, err,
  ◌>>=◌, ltb, ◌==◌, Time, is_zero, if◌then◌else◌,
}
use nexus_services.Text.{Text, text_eq, is_empty, trim_space}
use nexus_services.Mongo.{DbError, Collection}
use nexus_services.Domain.Session.{Session, SessionId}
use nexus_services.Sessions.Document.{
  SessionStoreError, invalid_expected_digest, invalid_rotation_time, invalid_id, session_not_found,
  session_conflict, database, SessionDocument, new_session_document, to_domain, is_unrevoked,
}

abbrev pub same_session_id : SessionDocument → SessionDocument → Bool
same_session_id x y = text_eq x.id y.id

-- `_id: id`
unfoldable pub has_id : SessionId → SessionDocument → Bool
has_id id d = text_eq d.id id

-- The filter and the update of `Rotate`.
unfoldable pub may_rotate : SessionId → Text → Time → SessionDocument → Bool
may_rotate id expected_digest rotated_at d =
    text_eq d.id id
    && text_eq d.refresh_token_digest expected_digest
    && is_unrevoked d.revoked_at
    && ltb rotated_at d.expires_at

unfoldable pub rotate_to : Session → SessionDocument → SessionDocument
rotate_to session d = record d {
  refresh_token_digest = session.refresh_token_digest;
  expires_at = session.expires_at;
}

-- The filter and the update of `Revoke`.
unfoldable pub may_revoke : SessionId → SessionDocument → Bool
may_revoke id d = text_eq d.id id && is_unrevoked d.revoked_at

unfoldable pub revoke_at : Time → SessionDocument → SessionDocument
revoke_at revoked_at d = record d { revoked_at = some revoked_at }

unfoldable pub is_one_of : List SessionId → SessionDocument → Bool
is_one_of [] d = false
is_one_of (id ∷ ids) d = text_eq d.id id || is_one_of ids d

any_empty : List SessionId → Bool
any_empty [] = false
any_empty (id ∷ ids) = is_empty id || any_empty ids

unfoldable pub session_found :
    Result DbError (Option SessionDocument) → Result SessionStoreError Session
session_found (ok none) = err session_not_found
session_found (ok (some d)) = to_domain d
session_found (err e) = err (database e)

-- Every document that the cursor brings, up to the first that is invalid.
unfoldable pub sessions_of : List SessionDocument → Result SessionStoreError (List Session)
sessions_of [] = ok []
sessions_of (d ∷ ds) = do stored ← to_domain d; rest ← sessions_of ds; ok (stored ∷ rest)

unfoldable pub sessions_found :
    Result DbError (List SessionDocument) → Result SessionStoreError (List Session)
sessions_found (ok ds) = sessions_of ds
sessions_found (err e) = err (database e)

unfoldable pub rotated : Result DbError ℕ → Result SessionStoreError (Unit {0})
rotated (ok n) = if n == 0 then err session_conflict else ok tt
rotated (err e) = err (database e)

-- `existsByID`, and its caller's error.
unfoldable pub existing :
    Result DbError (Option SessionDocument) → Result SessionStoreError (Unit {0})
existing (ok none) = err session_not_found
existing (ok (some _)) = ok tt
existing (err e) = err (database e)

module _ (collection : Collection SessionDocument same_session_id) where
  open collection use {State, find_one, find, update_one, insert_one}

  inserted : Result DbError (Unit {0}) → Result SessionStoreError (Unit {0})
  inserted (ok _) = ok tt
  inserted (err e) = err (database e)

  unfoldable pub create : Session → State → Result SessionStoreError (Unit {0}) × State
  unfolding inserted
  create session s = let (r, t) = insert_one (new_session_document session) s in (inserted r, t)

  unfoldable pub find_by_id : SessionId → State → Result SessionStoreError Session × State
  find_by_id id s =
      if is_empty id
      then (err invalid_id, s)
      else let (r, t) = find_one (has_id id) s in (session_found r, t)

  -- No sort order; the batch of ids bounds the number of documents.
  unfoldable pub find_by_ids :
      List SessionId → State → Result SessionStoreError (List Session) × State
  unfolding any_empty
  find_by_ids [] s = (ok [], s)
  find_by_ids (id ∷ ids) s =
      if any_empty (id ∷ ids)
      then (err invalid_id, s)
      else let (r, t) = find (is_one_of (id ∷ ids)) (λ x y. false) (length (id ∷ ids)) s in
        (sessions_found r, t)

  unfoldable pub rotate :
      Session → Text → Time → State → Result SessionStoreError (Unit {0}) × State
  rotate session expected_digest rotated_at s =
      if is_empty (trim_space expected_digest)
      then (err invalid_expected_digest, s)
      else if is_zero rotated_at
      then (err invalid_rotation_time, s)
      else let (r, t) =
          update_one (may_rotate session.id expected_digest rotated_at) (rotate_to session) s in
        (rotated r, t)

  -- After no document matched, the session is revoked already or is not there.
  unfoldable pub revoked :
      SessionId → Result DbError ℕ → State → Result SessionStoreError (Unit {0}) × State
  revoked id (err e) s = (err (database e), s)
  revoked id (ok (suc n)) s = (ok tt, s)
  revoked id (ok zero) s = let (r, t) = find_one (has_id id) s in (existing r, t)

  unfoldable pub revoke : SessionId → Time → State → Result SessionStoreError (Unit {0}) × State
  revoke id at s =
      if is_empty id
      then (err invalid_id, s)
      else if is_zero at
      then (err invalid_rotation_time, s)
      else let (r, t) = update_one (may_revoke id) (revoke_at at) s in revoked id r t
