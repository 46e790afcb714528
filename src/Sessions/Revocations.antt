-- ===== src/Sessions/Revocations.antt =====
-- Documents of revoked sessions, before and after the updates of the repository.
use mathlib.Core.List.{Memᴰ}
use nexus_services.Shared.{
  ◌≡◌, refl, sym, ap, ◌∙◌, subst, inl, inr, true, false, Option, none, some, List, [], ◌∷◌, Result,
  ok, err, arith, All, All-map, Time,
}
use nexus_services.Text.{text_eq, text_eq_iff}
use nexus_services.Mongo.{
  DbError, duplicate_key, failure, Replaced, here, there, Inserted, Distinct, All-member,
  Replaced-old, Replaced-passes, Each,
}
use nexus_services.Domain.Session.{Session, SessionId, revoked, ensure_active, restore}
use nexus_services.Sessions.Document.{SessionDocument, is_unrevoked, to_domain}
use nexus_services.Sessions.Repository.{same_session_id, rotate_to, may_revoke, revoke_at}

abbrev pub IsRevokedAs : SessionId → SessionDocument → Type 0
IsRevokedAs id d = text_eq d.id id ≡ true → is_unrevoked d.revoked_at ≡ false

-- The session has a document, and each of its documents is revoked.
abbrev pub IsRevokedIn : SessionId → List SessionDocument → Type 0
IsRevokedIn id xs = All (IsRevokedAs id) xs × ((d : SessionDocument) × Memᴰ d xs × (d.id ≡ id))

-- An update keeps the id and a revocation.
abbrev pub Keeps : SessionDocument → SessionDocument → Type 0
Keeps x y = (y.id ≡ x.id) × (is_unrevoked x.revoked_at ≡ false → is_unrevoked y.revoked_at ≡ false)

Keeps-All :
    (id : SessionId) (xs ys : List SessionDocument)
    → Each Keeps xs ys
    → All (IsRevokedAs id) xs
    → All (IsRevokedAs id) ys
Keeps-All id [] [] e a = tt
Keeps-All id [] (y ∷ ys) e a = absurd e
Keeps-All id (x ∷ xs) [] e a = absurd e
Keeps-All id (x ∷ xs) (y ∷ ys) (k, e) (a, rest) =
    (λ h. k.1 (a (subst (λ i. text_eq i id ≡ true) k.0 h)), Keeps-All id xs ys e rest)

Keeps-member :
    (id : SessionId) (xs ys : List SessionDocument) (d : SessionDocument)
    → Each Keeps xs ys
    → Memᴰ d xs
    → d.id ≡ id
    → (d' : SessionDocument) × Memᴰ d' ys × (d'.id ≡ id)
Keeps-member id [] ys d e m q = elim m [ ]
Keeps-member id (x ∷ xs) [] d e m q = absurd e
Keeps-member id (x ∷ xs) (y ∷ ys) d (k, e) (Memᴰ.head h) q =
    (y, Memᴰ.head refl, k.0 ∙ (sym (ap SessionDocument.id h) ∙ q))
Keeps-member id (x ∷ xs) (y ∷ ys) d (k, e) (Memᴰ.tail m) q =
    let (d', m', q') = Keeps-member id xs ys d e m q in (d', Memᴰ.tail m', q')

pub Keeps-IsRevokedIn :
    (id : SessionId) (xs ys : List SessionDocument)
    → Each Keeps xs ys
    → IsRevokedIn id xs
    → IsRevokedIn id ys
Keeps-IsRevokedIn id xs ys e (a, (d, m, q)) =
    (Keeps-All id xs ys e a, Keeps-member id xs ys d e m q)

pub rotate_to-Keeps : (s : Session) (x : SessionDocument) → Keeps x (rotate_to s x)
unfolding rotate_to
rotate_to-Keeps s x = (refl, λ h. h)

pub revoke_at-Keeps : (at : Time) (x : SessionDocument) → Keeps x (revoke_at at x)
unfolding revoke_at
revoke_at-Keeps at x = (refl, λ h. refl)

inserted-IsRevokedIn :
    (id : SessionId) (d : SessionDocument) (xs : List SessionDocument)
    → All (λ x. same_session_id x d ≡ false) xs
    → IsRevokedIn id xs
    → IsRevokedIn id (d ∷ xs)
inserted-IsRevokedIn id d xs new (a, (x, m, q)) = (
  (
    λ h. absurd (
        let apart = All-member (λ z. same_session_id z d ≡ false) xs x new m in
        ground (arith, text_eq_iff d.id id, text_eq_iff x.id d.id)),
    a,
  ),
  (x, Memᴰ.tail m, q),
)

pub Inserted-IsRevokedIn :
    (id : SessionId) (d : SessionDocument) (xs : List SessionDocument)
    (r : Result DbError (Unit {0})) (ys : List SessionDocument)
    → Inserted same_session_id d xs r ys
    → IsRevokedIn id xs
    → IsRevokedIn id ys
Inserted-IsRevokedIn id d xs (ok _) ys (new, e) h = rw e (inserted-IsRevokedIn id d xs new h)
Inserted-IsRevokedIn id d xs (err duplicate_key) ys (e, _) h = rw e h
Inserted-IsRevokedIn id d xs (err failure) ys (inl e) h = rw e h
Inserted-IsRevokedIn id d xs (err failure) ys (inr (new, e)) h =
    rw e (inserted-IsRevokedIn id d xs new h)

pub may_revoke-id : (id : SessionId) (d : SessionDocument) → may_revoke id d ≡ true → d.id ≡ id
unfolding may_revoke
may_revoke-id id d h = ground (arith, text_eq_iff d.id id)

pub unmatched-IsRevokedAs :
    (id : SessionId) (d : SessionDocument) → may_revoke id d ≡ false → IsRevokedAs id d
unfolding may_revoke
unmatched-IsRevokedAs id d h e = ground arith

marked-IsRevokedAs :
    (id : SessionId) (at : Time) (d : SessionDocument) → IsRevokedAs id (revoke_at at d)
unfolding revoke_at
marked-IsRevokedAs id at d e = refl

-- After the update of `Revoke`.
pub marked-All :
    (id : SessionId) (at : Time) {d : SessionDocument} (xs ys : List SessionDocument)
    → Distinct same_session_id xs
    → Replaced (may_revoke id) (revoke_at at) d xs ys
    → All (IsRevokedAs id) ys
marked-All id at [] ys apart r = elim r [ ]
marked-All id at (x ∷ xs) [] apart r = elim r [ ]
marked-All id at (x ∷ xs) (y ∷ ys) apart (here e h k) = (
  subst (IsRevokedAs id) (sym k) (marked-IsRevokedAs id at x),
  All-map (λ z. same_session_id z x ≡ false) (IsRevokedAs id)
      (λ z q t. absurd (
        let named = may_revoke-id id x h in
        ground (arith, text_eq_iff z.id id, text_eq_iff z.id x.id)))
      xs apart.0,
)
marked-All id at {d} (x ∷ xs) (y ∷ ys) apart (there r) = (
  λ t. absurd (
      let named = may_revoke-id id d (Replaced-passes r) in
      let foreign = All-member (λ z. same_session_id z x ≡ false) xs d apart.0 (Replaced-old r) in
      ground (arith, text_eq_iff d.id x.id, text_eq_iff x.id id)),
  marked-All id at xs ys apart.1 r,
)

-- What `Restore` makes of a revoked document is a revoked session.
pub to_domain-revoked :
    (d : SessionDocument) (s : Session) (at : Time)
    → is_unrevoked d.revoked_at ≡ false
    → to_domain d ≡ ok s
    → ensure_active s at ≡ err revoked
unfolding to_domain restore ensure_active
to_domain-revoked d s at h e = go d.revoked_at h e
  where
    go :
        (r : Option Time)
        → is_unrevoked r ≡ false
        → to_domain (record d { revoked_at = r }) ≡ ok s
        → ensure_active s at ≡ err revoked
    go none q e = absurd (cc)
    go (some t) q e = ground arith
