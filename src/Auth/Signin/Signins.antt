-- ===== src/Auth/Signin/Signins.antt =====
-- Every sign-in, seen through the log of its calls of the digester and of the session repository.
use nexus_services.Shared.{
  ◌+◌, ◌≡◌, refl, sym, subst, inl, inr, true, List, [], ◌∷◌, Result, ok, err, arith, map_err,
  map_err_ok, Time,
}
use nexus_services.Shared.Actions.{ends_rule}
use nexus_services.Text.{Text}
use nexus_services.Domain.User.{MailSyntax, Email, Account}
use nexus_services.Domain.Session
use nexus_services.Domain.Session.{SessionId, Session, SessionError}
use nexus_services.Ports.{PortError}
use nexus_services.Auth.Ports.{AuthError, invalid_credentials, port_error, Dependencies}
use nexus_services.Auth.Log.{Call, digested, created, logged, is_failure}
use nexus_services.Auth.Tokens.{Config, Tokens}
use nexus_services.Auth.Signin.Openings.{
  Checked, checked_account_lem, Opened, IsOpening, open_session_lem,
}
use nexus_services.Auth.Signin.{
  SigninOutput, credentials, checked_account, open_session, store_session, signin,
}

module _ {W : Type 0} (D : Dependencies W) (config : Config) (syntax : MailSyntax) where
  -- How a sign-in ends that has stored a session, by the reply of the store.
  abbrev pub SigninEnds :
      Account
      → Text
      → Time
      → Time
      → Result PortError (Unit {0})
      → Result AuthError SigninOutput
      → Type 0
  SigninEnds account t access_expires refresh_expires (ok _) r =
      (o : SigninOutput) × (r ≡ ok o)
      × (o.user_id ≡ account.id)
      × (o.email ≡ account.email)
      × (o.tokens.refresh ≡ t)
      × (o.tokens.access_expires_at ≡ access_expires)
      × (o.tokens.refresh_expires_at ≡ refresh_expires)
  SigninEnds account t access_expires refresh_expires (err e) r = r ≡ err (port_error e)

  -- The logs that a sign-in leaves, with its result.
  abbrev pub IsSignin : Text → Text → List Call → Result AuthError SigninOutput → Type 0
  IsSignin raw_email password [] r = is_failure r ≡ true
  IsSignin raw_email password (digested _ _ ∷ []) r = is_failure r ≡ true
  IsSignin raw_email password (created s reply ∷ digested t (ok new) ∷ []) r =
      (email : Email) × (account : Account) × (id : SessionId) × (at : Time) × (credentials syntax
          raw_email password
        ≡ ok email)
      × Checked D config syntax email password account
      × (Session.new id account.id new at (at + config.refresh_token_ttl) ≡ ok s)
      × SigninEnds account t (at + config.access_token_ttl) (at + config.refresh_token_ttl) reply r
  IsSignin raw_email password _ r = ⊥

  abbrev pub IsSigninEnd : Text → Text → Result AuthError SigninOutput × (W × List Call) → Type 0
  IsSigninEnd raw_email password (r, (_, log)) = IsSignin raw_email password log r

  stored_session_lem :
      (raw_email password : Text) (email : Email) (account : Account) (issued : Tokens)
      (s : Session) (out : Result AuthError (Tokens × Session) × (W × List Call))
      → credentials syntax raw_email password ≡ ok email
      → Checked D config syntax email password account
      → out.0 ≡ ok (issued, s)
      → IsOpening D config syntax account [] out
      → IsSigninEnd raw_email password
          (store_session (logged D) config syntax account issued s out.1)
  unfolding store_session
  stored_session_lem raw_email password email account issued s out valid checked e
        (inl (_, failed)) =
      absurd (ground arith)
  stored_session_lem raw_email password email account issued s out valid checked e
        (inr (t, reply, same, done)) =
      let (id, new, at, replied, is_refresh, access, fresh, opened) =
        subst (Opened D config syntax account t reply) e done in
      let (stored, u) = D.sessions.create s out.1.0 in
      go id new at (rw (same, replied) refl) is_refresh access fresh opened stored u
    where
      go :
          {t : Text} (id : SessionId) (new : Text) (at : Time)
          → out.1.1 ≡ digested t (ok new) ∷ []
          → t ≡ issued.refresh
          → issued.access_expires_at ≡ at + config.access_token_ttl
          → issued.refresh_expires_at ≡ at + config.refresh_token_ttl
          → Session.new id account.id new at (at + config.refresh_token_ttl) ≡ ok s
          → (r : Result PortError (Unit {0})) (u : W)
          → let end : Result AuthError SigninOutput × (W × List Call) =
              elim (map_err port_error r) [
                | ok _ ↦ (
                  ok (record { user_id = account.id; email = account.email; tokens = issued }),
                  (u, created s r ∷ out.1.1),
                )
                | err x ↦ (err x, (u, created s r ∷ out.1.1))
              ] in
            IsSigninEnd raw_email password end
      go id new at begun is_refresh access fresh opened (ok _) u = rw begun (
        email,
        account,
        id,
        at,
        valid,
        checked,
        opened,
        (_, refl, refl, refl, sym is_refresh, access, fresh),
      )
      go id new at begun is_refresh access fresh opened (err x) u =
          rw begun (email, account, id, at, valid, checked, opened, refl)

  -- A sign-in that succeeds has found the account of valid credentials, whose hash the hasher matched
  -- with the password, and has stored one new session of this account, with the digest of the refresh
  -- token that it returns and the expiry of the configuration. A sign-in that fails has stored none,
  -- or the store has refused it.
  pub signin-IsSignin :
      (raw_email password : Text) (w : W)
      → let (r, (w', log)) = signin (logged D) config syntax raw_email password (w, []) in
        IsSignin raw_email password log r
  unfolding signin
  signin-IsSignin raw_email password w =
      let target = IsSigninEnd raw_email password in
      ends_rule target (map_err (λ _. invalid_credentials) (credentials syntax raw_email password))
        (λ email valid.
          let found = checked_account (logged D) config syntax email password (w, []) in
          let (same, checked) = checked_account_lem D config syntax email password (w, []) in
          ends_rule target found.0
            (λ account h.
              let opened = open_session (logged D) config syntax account found.1 in
              let opening =
                subst (λ log. IsOpening D config syntax account log opened) same
                  (open_session_lem D config syntax account found.1) in
              ends_rule target opened.0
                (λ result e.
                  stored_session_lem raw_email password email account result.0 result.1 opened
                    (map_err_ok _ _ valid) (checked account h) e opening)
                (λ x e. elim opening [
                  | inl (log, _) ↦ rw log refl
                  | inr (t, reply, log, _) ↦ rw log refl
                ]))
            (λ x e. rw same refl))
        (λ x e. refl)
