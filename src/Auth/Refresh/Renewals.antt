-- ===== src/Auth/Refresh/Renewals.antt =====
-- The steps of a refresh up to the rotation: what each leaves in the log, and what it returns.
use nexus_services.Shared.{
  ◌+◌, ◌≡◌, ◌≢◌, ok_inj, false, ◌⊎◌, refl, inl, inr, true, List, ◌∷◌, Result, ok, err, arith,
  map_err, map_err_ok, ap, sym, Option, none, some, ◌∙◌, subst, Time,
}
use nexus_services.Shared.Actions.{ends_rule}
use nexus_services.Text.{Text, is_empty, text_eq_iff}
use nexus_services.Domain.Session.{Session, SessionError, ensure_active, rotate_refresh_token}
use nexus_services.Ports.{PortError, session_not_found}
use nexus_services.Auth.Ports.{
  AuthError, invalid_refresh_token, TokenClaims, port_error, session_error, Dependencies, port,
}
use nexus_services.Auth.Log.{Call, digested, logged, is_failure}
use nexus_services.Auth.Claims.{claims_of_ok, claims_of_full}
use nexus_services.Auth.Issue.{token_ids_lem, sign_tokens_lem, IsIssued-log, IsIssued-expires}
use nexus_services.Auth.Tokens.{claims_of, Config, Tokens, token_ids, sign_tokens}
use nexus_services.Auth.Refresh.{
  session_of, if_active, verified, claimed_session, active_session, renew,
}

session_of_ok :
    (claims : TokenClaims) (r : Result PortError (Option Session)) (session : Session)
    → session_of claims r ≡ ok session
    → (r ≡ ok (some session)) × (session.user_id ≡ claims.user_id)
unfolding session_of
session_of_ok claims (ok none) session h = absurd (cc)
session_of_ok claims (ok (some s)) session h = ground (arith, text_eq_iff s.user_id claims.user_id)
session_of_ok claims (err session_not_found) session h = absurd (cc)
session_of_ok claims (err e) session h = absurd (cc)

if_active_ok :
    (session s : Session) (now at : Time) (reply : Result SessionError (Unit {0}))
    → if_active session now reply ≡ ok (s, at)
    → (session ≡ s) × (now ≡ at) × (reply ≡ ok tt)
if_active_ok session s now at (ok _) e = ground arith
if_active_ok session s now at (err _) e = absurd (cc)

if_active_err :
    (session : Session) (now : Time) (reply : Result SessionError (Unit {0})) {e : AuthError}
    → if_active session now reply ≡ err e
    → reply ≢ ok tt
if_active_err session now (ok _) h = absurd (cc)
if_active_err session now (err _) h = λ q. cc

session_of_own :
    (claims : TokenClaims) (r : Result PortError (Option Session)) (session : Session)
    → r ≡ ok (some session)
    → session.user_id ≡ claims.user_id
    → session_of claims r ≡ ok session
unfolding session_of
session_of_own claims r session h owner =
    rw h (ground (arith, text_eq_iff session.user_id claims.user_id))

some_inj : {A : Type 0} {x y : A} → some x ≡ some y → x ≡ y
some_inj h = cc

module _ {W : Type 0} (D : Dependencies W) (config : Config) where
  -- The session that is stored for the claims of the token: the user's own, and active when the
  -- clock is read after the look-up.
  abbrev pub IsCurrent : Text → W → Session → Time → Type 0
  IsCurrent raw w session at =
      let (verified, w₁) = D.tokens.verify_refresh_token raw w in
      (claims : TokenClaims) × let (found, w₂) = D.sessions.find_by_id claims.session_id w₁ in
        (verified ≡ ok claims)
        × (found ≡ ok (some session))
        × (is_empty claims.user_id ≡ false)
        × (is_empty claims.session_id ≡ false)
        × (session.user_id ≡ claims.user_id)
        × (at ≡ (D.now w₂).0)
        × (ensure_active session at ≡ ok tt)

  -- The same, where the claims are known.
  IsCurrent-claims :
      (raw : Text) (w : W) (s : Session) (at : Time) (claims : TokenClaims)
      → (D.tokens.verify_refresh_token raw w).0 ≡ ok claims
      → IsCurrent raw w s at
      → let (found, w₂) =
          D.sessions.find_by_id claims.session_id (D.tokens.verify_refresh_token raw w).1 in
        (found ≡ ok (some s))
        × (s.user_id ≡ claims.user_id)
        × (at ≡ (D.now w₂).0)
        × (ensure_active s at ≡ ok tt)
  IsCurrent-claims raw w s at claims h (c, (v, found, _, _, owner, now, active)) =
      let same : c ≡ claims = cc in rw (sym same) (found, owner, now, active)

  -- The log is as before; a session that is returned is the current one, and after an error there
  -- is none.
  abbrev pub IsFound :
      Text → W → List Call → Result AuthError (Session × Time) × (W × List Call) → Type 0
  IsFound raw w log (r, (_, log')) =
      (log' ≡ log)
      × ((s : Session) (at : Time) → r ≡ ok (s, at) → IsCurrent raw w s at)
      × ((e : AuthError) → r ≡ err e → (s : Session) (at : Time) → ¬ IsCurrent raw w s at)

  pub active_session_lem :
      (raw : Text) (w : W) (log : List Call)
      → IsFound raw w log (active_session (logged D) config raw (w, log))
  unfolding active_session verified claimed_session
  active_session_lem raw w log =
      let reply = D.tokens.verify_refresh_token raw w in
      ends_rule (IsFound raw w log) (claims_of invalid_refresh_token reply.0)
        (λ claims c.
          let found = D.sessions.find_by_id claims.session_id reply.1 in
          ends_rule (IsFound raw w log) (session_of claims found.0)
            (λ session k.
              let (of, owner) = session_of_ok claims found.0 session k in
              let (verified, full, full') = claims_of_ok invalid_refresh_token reply.0 claims c in
              (
                refl,
                λ s at e.
                    let (same, now, active) = if_active_ok session s _ at _ e in
                    (
                      claims,
                      (
                        verified,
                        of ∙ ap (λ x. ok (some x)) same,
                        full,
                        full',
                        sym (ap (λ x. x.user_id) same) ∙ owner,
                        sym now,
                        subst (λ x. ensure_active x at ≡ ok tt) same
                            (subst (λ t. ensure_active session t ≡ ok tt) now active),
                      ),
                    ),
                λ e h s at current.
                    let (of', _, now, active) =
                      IsCurrent-claims raw w s at claims verified current in
                    let same : session ≡ s = some_inj (ok_inj (sym of ∙ of')) in
                    let active' =
                      subst (λ x. ensure_active x (D.now found.1).0 ≡ ok tt) (sym same)
                        (subst (λ t. ensure_active s t ≡ ok tt) now active) in
                    if_active_err session _ _ h active',
              ))
            (λ e h. (
              refl,
              (λ s at q. absurd (cc)),
              λ e' q s at current.
                  let verified = (claims_of_ok invalid_refresh_token reply.0 claims c).0 in
                  let (found', owner, _, _) = IsCurrent-claims raw w s at claims verified current in
                  let accepted = session_of_own claims found.0 s found' owner in absurd (cc),
            )))
        (λ e h. (
          refl,
          (λ s at q. absurd (cc)),
          λ e' q s at (claims, (v, _, full, full', _, _, _)).
              let accepted = claims_of_full invalid_refresh_token reply.0 claims v full full' in
              absurd (cc),
        ))

  -- What a renewal that reached the digester has done.
  abbrev pub Renewed :
      Session → Time → Text → Result PortError Text → Result AuthError (Tokens × Session) → Type 0
  Renewed s at t reply (err _) = Unit
  Renewed s at t reply (ok (issued, renewed)) =
      (new : Text) × (reply ≡ ok new)
      × (t ≡ issued.refresh)
      × (issued.access_expires_at ≡ at + config.access_token_ttl)
      × (issued.refresh_expires_at ≡ at + config.refresh_token_ttl)
      × (rotate_refresh_token s new (at + config.refresh_token_ttl) at ≡ ok renewed)

  abbrev pub IsRenewal :
      Session → Time → List Call → Result AuthError (Tokens × Session) × (W × List Call) → Type 0
  IsRenewal s at log (r, (_, log')) =
      ((log' ≡ log) × (is_failure r ≡ true))
      ⊎ ((t : Text) × (reply : Result PortError Text) × (log' ≡ digested t reply ∷ log)
          × Renewed s at t reply r)

  pub renew_lem :
      (s : Session) (at : Time) (v : W × List Call)
      → IsRenewal s at v.1 (renew (logged D) config s at v)
  unfolding renew
  renew_lem s at v =
      let target = IsRenewal s at v.1 in
      let ids_log = token_ids_lem D config v in
      let v₁ = (token_ids (logged D) config v).1 in
      ends_rule target (token_ids (logged D) config v).0
        (λ ids _.
          let out = sign_tokens (logged D) config ids.0 ids.1 s.user_id s.id at v₁ in
          let signed = sign_tokens_lem D config ids.0 ids.1 s.user_id s.id at v₁ in
          let same = IsIssued-log D config at v₁.1 out signed ∙ ids_log in
          ends_rule target out.0
            (λ issued e.
              let (access, fresh) = IsIssued-expires D config at v₁.1 out issued signed e in
              let reply = (D.digest issued.refresh out.1.0).0 in
              let noted : digested issued.refresh reply ∷ out.1.1
                  ≡ digested issued.refresh reply ∷ v.1 =
                ap (λ l. digested issued.refresh reply ∷ l) same in
              ends_rule target (port ((logged D).digest issued.refresh) out.1).0
                (λ new h.
                  ends_rule target
                    (map_err session_error
                      (rotate_refresh_token s new issued.refresh_expires_at at))
                    (λ renewed q. inr (
                      issued.refresh,
                      reply,
                      noted,
                      (
                        new,
                        map_err_ok port_error reply h,
                        refl,
                        access,
                        fresh,
                        subst (λ x. rotate_refresh_token s new x at ≡ ok renewed) fresh
                            (map_err_ok session_error _ q),
                      ),
                    ))
                    (λ x _. inr (issued.refresh, reply, noted, tt)))
                (λ x _. inr (issued.refresh, reply, noted, tt)))
            (λ e h. inl (same, refl)))
        (λ e _. inl (ids_log, refl))
