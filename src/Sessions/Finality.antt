-- ===== src/Sessions/Finality.antt =====
-- A revocation is final, whatever calls of the repository follow it.
use nexus_services.Shared.{
  ℕ, zero, suc, ◌≡◌, refl, sym, subst, inl, inr, Bool, true, false, Option, none, some, List, [],
  ◌∷◌, Result, ok, err, arith, All-map, Bool-cases, Time, is_zero, if◌then◌else◌,
}
use nexus_services.Text.{Text, text_eq, text_eq_iff, is_empty, trim_space}
use nexus_services.Mongo.{
  DbError, Collection, NoMatch, Found, Updated, Distinct, All-member, Replaced-new, Replaced-passes,
  Updated-Each,
}
use nexus_services.Domain.Session.{Session, SessionId, revoked, ensure_active}
use nexus_services.Sessions.Document.{
  SessionDocument, SessionStoreError, invalid_id, invalid_rotation_time, new_session_document,
}
use nexus_services.Sessions.Repository
use nexus_services.Sessions.Repository.{
  same_session_id, has_id, may_rotate, rotate_to, rotated, may_revoke, revoke_at, existing,
  session_found, create, find_by_id, rotate, revoke,
}
use nexus_services.Sessions.Rotations.{ended, rotate-ended, IsRefused, unmatched-IsRefused}
use nexus_services.Sessions.Revocations.{
  IsRevokedAs, IsRevokedIn, Keeps, Keeps-IsRevokedIn, rotate_to-Keeps, revoke_at-Keeps,
  Inserted-IsRevokedIn, unmatched-IsRevokedAs, marked-All, to_domain-revoked, may_revoke-id,
}

-- The calls that write.
pub data Call : Type 0 where
  creates : Session → Call
  rotates : Session → Text → Time → Call
  revokes : SessionId → Time → Call

module _ (collection : Collection SessionDocument same_session_id) where
  open collection use {
    State, docs, find_one, find_one_law, update_one, update_one_law, insert_one, insert_one_law,
  }

  abbrev pub Revoked : SessionId → State → Type 0
  Revoked id st = IsRevokedIn id (docs st)

  create-Revoked :
      (id : SessionId) (s : Session) (st : State)
      → Revoked id st
      → Revoked id (create collection s st).1
  unfolding create
  create-Revoked id s st =
      Inserted-IsRevokedIn id (new_session_document s) (docs st) _ _
        (insert_one_law (new_session_document s) st)

  ended-Revoked :
      (id : SessionId) (p q : Bool) (r : Result DbError ℕ) (st t : State)
      → Revoked id st
      → Revoked id t
      → Revoked id (ended collection p q r st t).1
  ended-Revoked id true q r st t h k = h
  ended-Revoked id false true r st t h k = h
  ended-Revoked id false false r st t h k = k

  rotate-Revoked :
      (id : SessionId) (s : Session) (expected : Text) (at : Time) (st : State)
      → Revoked id st
      → Revoked id (rotate collection s expected at st).1
  rotate-Revoked id s expected at st h =
      let p = may_rotate s.id expected at in
      let r = update_one p (rotate_to s) st in
      let kept =
        Keeps-IsRevokedIn id (docs st) (docs r.1)
          (Updated-Each Keeps (λ x. (refl, λ k. k)) p (rotate_to s) (docs st) r.0 (docs r.1)
            (λ x _. rotate_to-Keeps s x) (update_one_law p (rotate_to s) st))
          h in
      rw (rotate-ended collection s expected at st)
        (ended-Revoked id (is_empty (trim_space expected)) (is_zero at) r.0 st r.1 h kept)

  -- `Revoke` by its guards.
  abbrev revoke_ended :
      SessionId
      → Bool
      → Bool
      → Result DbError ℕ
      → State
      → State
      → Result SessionStoreError (Unit {0}) × State
  revoke_ended id true q r st t = (err invalid_id, st)
  revoke_ended id false true r st t = (err invalid_rotation_time, st)
  revoke_ended id false false r st t = Repository.revoked collection id r t

  revoke-ended :
      (id : SessionId) (at : Time) (st : State)
      → let (r, t) = update_one (may_revoke id) (revoke_at at) st in
        revoke collection id at st ≡ revoke_ended id (is_empty id) (is_zero at) r st t
  unfolding revoke
  revoke-ended id at st = go (is_empty id) (is_zero at) _ _
    where
      go :
          (p q : Bool) (r : Result DbError ℕ) (t : State)
          → (if p
              then (err invalid_id, st)
              else if q
              then (err invalid_rotation_time, st)
              else Repository.revoked collection id r t)
            ≡ revoke_ended id p q r st t
      go true q r t = refl
      go false true r t = refl
      go false false r t = refl

  revoked-docs :
      (id : SessionId) (r : Result DbError ℕ) (t : State)
      → docs (Repository.revoked collection id r t).1 ≡ docs t
  unfolding Repository.revoked
  revoked-docs id (err e) t = refl
  revoked-docs id (ok zero) t = (find_one_law (has_id id) t).1
  revoked-docs id (ok (suc n)) t = refl

  revoke_ended-Revoked :
      (kept id : SessionId) (p q : Bool) (r : Result DbError ℕ) (st t : State)
      → Revoked kept st
      → Revoked kept t
      → Revoked kept (revoke_ended id p q r st t).1
  revoke_ended-Revoked kept id true q r st t h k = h
  revoke_ended-Revoked kept id false true r st t h k = h
  revoke_ended-Revoked kept id false false r st t h k =
      subst (IsRevokedIn kept) (sym (revoked-docs id r t)) k

  revoke-Revoked :
      (kept id : SessionId) (at : Time) (st : State)
      → Revoked kept st
      → Revoked kept (revoke collection id at st).1
  revoke-Revoked kept id at st h =
      let p = may_revoke id in
      let r = update_one p (revoke_at at) st in
      let after =
        Keeps-IsRevokedIn kept (docs st) (docs r.1)
          (Updated-Each Keeps (λ x. (refl, λ k. k)) p (revoke_at at) (docs st) r.0 (docs r.1)
            (λ x _. revoke_at-Keeps at x) (update_one_law p (revoke_at at) st))
          h in
      rw (revoke-ended id at st)
        (revoke_ended-Revoked kept id (is_empty id) (is_zero at) r.0 st r.1 h after)

  -- The look-up after an update that matched nothing.
  Found-Revoked :
      (id : SessionId) (xs : List SessionDocument) (r : Result DbError (Option SessionDocument))
      → NoMatch (may_revoke id) xs
      → Found (has_id id) xs r
      → existing r ≡ ok tt
      → IsRevokedIn id xs
  unfolding existing has_id
  Found-Revoked id xs (ok none) n f e = absurd (cc)
  Found-Revoked id xs (ok (some d)) n (m, h) e = (
    All-map (λ x. may_revoke id x ≡ false) (IsRevokedAs id) (λ x q. unmatched-IsRevokedAs id x q) xs
        n,
    (d, m, ground (arith, text_eq_iff d.id id)),
  )
  Found-Revoked id xs (err x) n f e = absurd (cc)

  revoked-Revoked :
      (id : SessionId) (at : Time) (st : State) (r : Result DbError ℕ) (t : State)
      → Distinct same_session_id (docs st)
      → Updated (may_revoke id) (revoke_at at) (docs st) r (docs t)
      → (Repository.revoked collection id r t).0 ≡ ok tt
      → Revoked id (Repository.revoked collection id r t).1
  unfolding Repository.revoked revoke_at
  revoked-Revoked id at st (err e) t apart u h = absurd (cc)
  revoked-Revoked id at st (ok zero) t apart (inl (one, _)) h = absurd (ground arith)
  revoked-Revoked id at st (ok zero) t apart (inr (_, n, e)) h =
      let (found, same) = find_one_law (has_id id) t in
      subst (IsRevokedIn id) (sym same) (
        Found-Revoked id (docs t) (find_one (has_id id) t).0
          (subst (NoMatch (may_revoke id)) (sym e) n) found h)
  revoked-Revoked id at st (ok (suc n)) t apart (inl (_, (d, r))) h = (
    marked-All id at (docs st) (docs t) apart r,
    (revoke_at at d, Replaced-new r, may_revoke-id id d (Replaced-passes r)),
  )
  revoked-Revoked id at st (ok (suc n)) t apart (inr (z, _, _)) h = absurd (ground arith)

  revoke-makes_Revoked :
      (id : SessionId) (at : Time) (st : State)
      → Distinct same_session_id (docs st)
      → (revoke collection id at st).0 ≡ ok tt
      → Revoked id (revoke collection id at st).1
  revoke-makes_Revoked id at st apart = rw (revoke-ended id at st) (go (is_empty id) (is_zero at))
    where
      r : Result DbError ℕ × State
      r = update_one (may_revoke id) (revoke_at at) st

      go :
          (p q : Bool)
          → (revoke_ended id p q r.0 st r.1).0 ≡ ok tt
          → Revoked id (revoke_ended id p q r.0 st r.1).1
      go true q h = absurd (cc)
      go false true h = absurd (cc)
      go false false h =
          revoked-Revoked id at st r.0 r.1 apart (update_one_law (may_revoke id) (revoke_at at) st)
            h

  unfoldable pub after_call : Call → State → State
  after_call (creates s) st = (create collection s st).1
  after_call (rotates s expected at) st = (rotate collection s expected at st).1
  after_call (revokes id at) st = (revoke collection id at st).1

  unfoldable pub after_calls : List Call → State → State
  unfolding after_call
  after_calls [] st = st
  after_calls (c ∷ cs) st = after_calls cs (after_call c st)

  after_calls-Revoked :
      (id : SessionId) (cs : List Call) (st : State)
      → Revoked id st
      → Revoked id (after_calls cs st)
  unfolding after_calls after_call
  after_calls-Revoked id [] st h = h
  after_calls-Revoked id (creates s ∷ cs) st h =
      after_calls-Revoked id cs _ (create-Revoked id s st h)
  after_calls-Revoked id (rotates s expected at ∷ cs) st h =
      after_calls-Revoked id cs _ (rotate-Revoked id s expected at st h)
  after_calls-Revoked id (revokes other at ∷ cs) st h =
      after_calls-Revoked id cs _ (revoke-Revoked id other at st h)

  Revoked-unrotatable :
      (id : SessionId) (expected : Text) (at : Time) (st : State)
      → Revoked id st
      → NoMatch (may_rotate id expected at) (docs st)
  unfolding may_rotate
  Revoked-unrotatable id expected at st h =
      All-map (IsRevokedAs id) (λ d. may_rotate id expected at d ≡ false)
        (λ d q. elim (Bool-cases (text_eq d.id id)) [
          | inl e ↦ let marked = q e in ground arith
          | inr e ↦ ground arith
        ])
        (docs st) h.0

  found-revoked :
      (id : SessionId) (s : Session) (at : Time) (st : State)
      → Revoked id st
      → (find_by_id collection id st).0 ≡ ok s
      → ensure_active s at ≡ err revoked
  unfolding find_by_id session_found has_id
  found-revoked id s at st (marked, _) h = go (is_empty id) _ (find_one_law (has_id id) st).0 h
    where
      go :
          (p : Bool) (r : Result DbError (Option SessionDocument))
          → Found (has_id id) (docs st) r
          → let out : Result SessionStoreError Session × State =
              if p then (err invalid_id, st) else (session_found r, (find_one (has_id id) st).1) in
            out.0 ≡ ok s → ensure_active s at ≡ err revoked
      go true r f e = absurd (cc)
      go false (ok none) f e = absurd (cc)
      go false (err x) f e = absurd (cc)
      go false (ok (some d)) (m, named) e =
          to_domain-revoked d s at (All-member (IsRevokedAs id) (docs st) d marked m named) e

  -- Whatever is found under the id is revoked, and no rotation of it is accepted.
  abbrev pub IsGone : SessionId → State → Type 0
  IsGone id t =
      ((s : Session) (later : Time)
        → (find_by_id collection id t).0 ≡ ok s
        → ensure_active s later ≡ err revoked)
      × ((s : Session) (expected : Text) (later : Time)
          → s.id ≡ id
          → IsRefused collection t (rotate collection s expected later t))

  -- Once a session is revoked, by a call that reports success on documents with different ids, then
  -- after every further sequence of calls of the repository: whatever is found under its id is
  -- revoked, at any time, and no rotation of it is accepted or changes a document.
  pub revocation_is_final :
      (id : SessionId) (at : Time) (st : State) (cs : List Call)
      → Distinct same_session_id (docs st)
      → (revoke collection id at st).0 ≡ ok tt
      → IsGone id (after_calls cs (revoke collection id at st).1)
  revocation_is_final id at st cs apart h =
      let t = after_calls cs (revoke collection id at st).1 in
      let gone = after_calls-Revoked id cs _ (revoke-makes_Revoked id at st apart h) in
      (
        λ s later e. found-revoked id s later t gone e,
        λ s expected later e. unmatched-IsRefused collection s expected later t (
            subst (λ i. NoMatch (may_rotate i expected later) (docs t)) (sym e)
              (Revoked-unrotatable id expected later t gone)),
      )
