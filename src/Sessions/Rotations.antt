-- ===== src/Sessions/Rotations.antt =====
-- `Rotate` as a compare-and-swap on the digest of the refresh token.
use nexus_services.Shared.{
  ℕ, ◌≡◌, ◌≢◌, refl, sym, subst, inl, inr, Bool, true, false, List, [], ◌∷◌, Result, ok, err, arith,
  All-map, Time, is_zero, if◌then◌else◌,
}
use nexus_services.Text.{Text, text_eq, text_eq_iff, is_empty, trim_space}
use nexus_services.Mongo.{
  DbError, Collection, Replaced, here, there, NoMatch, Updated, Distinct, All-member, Replaced-old,
  Replaced-passes, Updated-NoMatch,
}
use nexus_services.Domain.Session.{Session, SessionId}
use nexus_services.Sessions.Document.{
  SessionDocument, SessionStoreError, invalid_expected_digest, invalid_rotation_time,
}
use nexus_services.Sessions.Repository.{same_session_id, may_rotate, rotate_to, rotate, rotated}

-- Another session's document does not pass.
other-may_rotate :
    (id : SessionId) (expected : Text) (at : Time) (d : SessionDocument)
    → text_eq d.id id ≡ false
    → may_rotate id expected at d ≡ false
unfolding may_rotate
other-may_rotate id expected at d h = ground arith

may_rotate-id :
    (id : SessionId) (expected : Text) (at : Time) (d : SessionDocument)
    → may_rotate id expected at d ≡ true
    → d.id ≡ id
unfolding may_rotate
may_rotate-id id expected at d h = ground (arith, text_eq_iff d.id id)

swapped-may_rotate :
    (s : Session) (id : SessionId) (expected : Text) (at : Time) (d : SessionDocument)
    → s.refresh_token_digest ≢ expected
    → may_rotate id expected at (rotate_to s d) ≡ false
unfolding may_rotate rotate_to
swapped-may_rotate s id expected at d ne =
    ground (arith, text_eq_iff s.refresh_token_digest expected)

-- After a swap no document of the session has the digest that was expected.
swapped-NoMatch :
    (s : Session) (id : SessionId) (expected : Text) (at later : Time) {d : SessionDocument}
    (xs ys : List SessionDocument)
    → s.refresh_token_digest ≢ expected
    → Distinct same_session_id xs
    → Replaced (may_rotate id expected at) (rotate_to s) d xs ys
    → NoMatch (may_rotate id expected later) ys
swapped-NoMatch s id expected at later [] ys ne apart r = elim r [ ]
swapped-NoMatch s id expected at later (x ∷ xs) [] ne apart r = elim r [ ]
swapped-NoMatch s id expected at later (x ∷ xs) (y ∷ ys) ne apart (here e h k) = (
  rw k (swapped-may_rotate s id expected later x ne),
  All-map (λ z. same_session_id z x ≡ false) (λ z. may_rotate id expected later z ≡ false)
      (λ z q.
        other-may_rotate id expected later z
          (subst (λ i. text_eq z.id i ≡ false) (may_rotate-id id expected at x h) q))
      xs apart.0,
)
swapped-NoMatch s id expected at later {d} (x ∷ xs) (y ∷ ys) ne apart (there r) = (
  (let same_id = may_rotate-id id expected at d (Replaced-passes r) in
      let foreign = All-member (λ z. same_session_id z x ≡ false) xs d apart.0 (Replaced-old r) in
      other-may_rotate id expected later x
        (ground (arith, text_eq_iff d.id x.id, text_eq_iff x.id id))),
  swapped-NoMatch s id expected at later xs ys ne apart.1 r,
)

module _ (collection : Collection SessionDocument same_session_id) where
  open collection use {State, docs, update_one, update_one_law}

  -- How a rotation ends, by its two guards and the reply to its update.
  abbrev pub ended :
      Bool → Bool → Result DbError ℕ → State → State → Result SessionStoreError (Unit {0}) × State
  ended true q r st t = (err invalid_expected_digest, st)
  ended false true r st t = (err invalid_rotation_time, st)
  ended false false r st t = (rotated r, t)

  pub rotate-ended :
      (s : Session) (expected : Text) (at : Time) (st : State)
      → let (r, t) = update_one (may_rotate s.id expected at) (rotate_to s) st in
        rotate collection s expected at st
        ≡ ended (is_empty (trim_space expected)) (is_zero at) r st t
  unfolding rotate
  rotate-ended s expected at st = go (is_empty (trim_space expected)) (is_zero at) _ _
    where
      go :
          (p q : Bool) (r : Result DbError ℕ) (t : State)
          → (if p
              then (err invalid_expected_digest, st)
              else if q
              then (err invalid_rotation_time, st)
              else (rotated r, t))
            ≡ ended p q r st t
      go true q r t = refl
      go false true r t = refl
      go false false r t = refl

  -- A rotation that succeeds has changed the document of its session.
  ended-Replaced :
      (p : SessionDocument → Bool) (u : SessionDocument → SessionDocument) (a b : Bool)
      (r : Result DbError ℕ) (st t : State)
      → Updated p u (docs st) r (docs t)
      → (ended a b r st t).0 ≡ ok tt
      → (d : SessionDocument) × Replaced p u d (docs st) (docs (ended a b r st t).1)
  unfolding rotated
  ended-Replaced p u true b r st t h e = absurd (cc)
  ended-Replaced p u false true r st t h e = absurd (cc)
  ended-Replaced p u false false (ok n) st t (inl (_, found)) e = found
  ended-Replaced p u false false (ok n) st t (inr (z, _, _)) e = absurd (ground arith)
  ended-Replaced p u false false (err x) st t h e = absurd (cc)

  -- The call reports an error and leaves every document as it was.
  abbrev pub IsRefused : State → Result SessionStoreError (Unit {0}) × State → Type 0
  IsRefused st r = (r.0 ≢ ok tt) × (docs r.1 ≡ docs st)

  ended-IsRefused :
      (p : SessionDocument → Bool) (u : SessionDocument → SessionDocument) (a b : Bool)
      (r : Result DbError ℕ) (st t : State)
      → NoMatch p (docs st)
      → Updated p u (docs st) r (docs t)
      → IsRefused st (ended a b r st t)
  unfolding rotated
  ended-IsRefused p u true b r st t n h = (λ e. cc, refl)
  ended-IsRefused p u false true r st t n h = (λ e. cc, refl)
  ended-IsRefused p u false false r st t n h =
      let (same, uncounted) = Updated-NoMatch p u (docs st) (docs t) r n h in (go r uncounted, same)
    where
      go : (r : Result DbError ℕ) → ((n : ℕ) → r ≡ ok n → n ≡ 0) → rotated r ≢ ok tt
      go (ok n) h e = let z = h n refl in ground arith
      go (err x) h e = cc

  rotate-Replaced :
      (s : Session) (expected : Text) (at : Time) (st : State)
      → let out = rotate collection s expected at st in
        out.0 ≡ ok tt
        → (d : SessionDocument) × Replaced
            (may_rotate s.id expected at)
            (rotate_to s)
            d
            (docs st)
            (docs out.1)
  rotate-Replaced s expected at st = rw (rotate-ended s expected at st) (
      ended-Replaced (may_rotate s.id expected at) (rotate_to s) (is_empty (trim_space expected))
        (is_zero at) _ st _ (update_one_law (may_rotate s.id expected at) (rotate_to s) st))

  pub unmatched-IsRefused :
      (s : Session) (expected : Text) (at : Time) (st : State)
      → NoMatch (may_rotate s.id expected at) (docs st)
      → IsRefused st (rotate collection s expected at st)
  unmatched-IsRefused s expected at st n = rw (rotate-ended s expected at st) (
      ended-IsRefused (may_rotate s.id expected at) (rotate_to s) (is_empty (trim_space expected))
        (is_zero at) _ st _ n (update_one_law (may_rotate s.id expected at) (rotate_to s) st))

  -- A digest is spent once: after a rotation that succeeded and put another digest in its place,
  -- a rotation of the same session that expects the spent digest is refused, whatever it would
  -- write and whenever it comes.
  pub rotate_once :
      (s s' : Session) (expected : Text) (at later : Time) (st : State)
      → Distinct same_session_id (docs st)
      → s.refresh_token_digest ≢ expected
      → s'.id ≡ s.id
      → (rotate collection s expected at st).0 ≡ ok tt
      → let t = (rotate collection s expected at st).1 in
        IsRefused t (rotate collection s' expected later t)
  rotate_once s s' expected at later st apart ne same h =
      let t = (rotate collection s expected at st).1 in
      let (d, swapped) = rotate-Replaced s expected at st h in
      unmatched-IsRefused s' expected later t (
        subst (λ i. NoMatch (may_rotate i expected later) (docs t)) (sym same)
          (swapped-NoMatch s s.id expected at later (docs st) (docs t) ne apart swapped))
