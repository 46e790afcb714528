-- ===== src/Auth/Signin/Openings.antt =====
-- The steps of a sign-in up to the store: the account, and the session to be.
use nexus_services.Shared.{
  ◌+◌, ◌≡◌, ◌⊎◌, refl, ap, ◌∙◌, subst, inl, inr, Bool, true, false, Option, none, some, List, ◌∷◌,
  Result, ok, err, arith, map_err, map_err_ok, Bool-cases, Time, if◌then◌else◌,
}
use nexus_services.Shared.Actions.{ends_rule}
use nexus_services.Text.{Text}
use nexus_services.Domain.User.{MailSyntax, Email, Account}
use nexus_services.Domain.Session
use nexus_services.Domain.Session.{SessionId, Session, SessionError}
use nexus_services.Ports.{PortError}
use nexus_services.Auth.Ports.{
  AuthError, invalid_credentials, session_error, port_error, Dependencies,
}
use nexus_services.Auth.Log.{Call, digested, logged, is_failure}
use nexus_services.Auth.Tokens.{Config, Tokens, token_ids, sign_tokens}
use nexus_services.Auth.Issue.{token_ids_lem, sign_tokens_lem, IsIssued-log, IsIssued-expires}
use nexus_services.Auth.Signin.{
  is_user_not_found, found_account, find_account, consume_password_hash_cost, checked_account,
  generate_session_id, clock, open_session,
}

accepted_ok :
    (b : Bool) (account a : Account)
    → (if b then ok account else err invalid_credentials) ≡ ok a
    → (b ≡ true) × (account ≡ a)
accepted_ok true account a h = ground arith
accepted_ok false account a h = absurd (cc)

module _ {W : Type 0} (D : Dependencies W) (config : Config) (syntax : MailSyntax) where
  -- The account was found by its address, and the hasher matched the password with its hash.
  abbrev pub Checked : Email → Text → Account → Type 0
  Checked email password account =
      (v : W) × (v' : W) × ((D.users.find_by_email email v).0 ≡ ok (some account))
      × ((D.hasher.matches password account.password_hash v').0 ≡ ok true)

  abbrev pub IsChecked :
      Email → Text → List Call → Result AuthError Account × (W × List Call) → Type 0
  IsChecked email password log (r, (_, log')) =
      (log' ≡ log) × ((account : Account) → r ≡ ok account → Checked email password account)

  abbrev IsQuiet : {A : Type 0} → List Call → Result AuthError A × (W × List Call) → Type 0
  IsQuiet log (_, (_, log')) = log' ≡ log

  cost_lem :
      (password : Text) (v : W × List Call)
      → IsQuiet v.1 (consume_password_hash_cost (logged D) config syntax password v)
  unfolding consume_password_hash_cost
  cost_lem password v =
      ends_rule (IsQuiet v.1) (map_err port_error (D.hasher.hash password v.0).0) (λ _ _. refl)
        (λ _ _. refl)

  -- An account that is found is the reply.
  abbrev IsFound :
      Result PortError (Option Account)
      → List Call
      → Result AuthError Account × (W × List Call)
      → Type 0
  IsFound reply log (r, (_, log')) =
      (log' ≡ log) × ((account : Account) → r ≡ ok account → reply ≡ ok (some account))

  found_account_lem :
      (password : Text) (reply : Result PortError (Option Account)) (v : W × List Call)
      → IsFound reply v.1 (found_account (logged D) config syntax password reply v)
  unfolding found_account
  found_account_lem password (ok none) v = (refl, λ account h. absurd (cc))
  found_account_lem password (ok (some a)) v = (refl, λ account h. ground arith)
  found_account_lem password (err e) v = elim (Bool-cases (is_user_not_found e)) [
    | inl b ↦ rw b (
        let out = consume_password_hash_cost (logged D) config syntax password v in
        let same = cost_lem password v in
        ends_rule (IsFound (err e) v.1) out.0 (λ _ _. (same, λ account h. absurd (cc)))
          (λ _ _. (same, λ account h. absurd (cc))))
    | inr b ↦ rw b (refl, λ account h. absurd (cc))
  ]

  pub checked_account_lem :
      (email password : Text) (v : W × List Call)
      → IsChecked email password v.1 (checked_account (logged D) config syntax email password v)
  unfolding checked_account find_account
  checked_account_lem email password v =
      let reply = D.users.find_by_email email v.0 in
      let target = IsChecked email password v.1 in
      let out = found_account (logged D) config syntax password reply.0 (reply.1, v.1) in
      let (same, found) = found_account_lem password reply.0 (reply.1, v.1) in
      ends_rule target out.0
        (λ account h.
          let matched = D.hasher.matches password account.password_hash out.1.0 in
          ends_rule target (map_err port_error matched.0)
            (λ b m. (
              same,
              λ a e.
                  let (matches, one) = accepted_ok b account a e in
                  subst (λ z. Checked email password z) one
                    (
                      v.0,
                      out.1.0,
                      found account h,
                      subst (λ z. matched.0 ≡ ok z) matches (map_err_ok port_error matched.0 m),
                    ),
            ))
            (λ x _. (same, λ a e. absurd (cc))))
        (λ e h. (same, λ a q. absurd (cc)))

  -- What an opening that reached the digester has done.
  abbrev pub Opened :
      Account → Text → Result PortError Text → Result AuthError (Tokens × Session) → Type 0
  Opened account t reply (err _) = Unit
  Opened account t reply (ok (issued, session)) =
      (id : SessionId) × (new : Text) × (at : Time) × (reply ≡ ok new)
      × (t ≡ issued.refresh)
      × (issued.access_expires_at ≡ at + config.access_token_ttl)
      × (issued.refresh_expires_at ≡ at + config.refresh_token_ttl)
      × (Session.new id account.id new at (at + config.refresh_token_ttl) ≡ ok session)

  abbrev pub IsOpening :
      Account → List Call → Result AuthError (Tokens × Session) × (W × List Call) → Type 0
  IsOpening account log (r, (_, log')) =
      ((log' ≡ log) × (is_failure r ≡ true))
      ⊎ ((t : Text) × (reply : Result PortError Text) × (log' ≡ digested t reply ∷ log)
          × Opened account t reply r)

  session_id_lem :
      (v : W × List Call) → IsQuiet v.1 (generate_session_id (logged D) config syntax v)
  unfolding generate_session_id
  session_id_lem v =
      ends_rule (IsQuiet v.1) (map_err port_error (D.new_id v.0).0) (λ raw _. refl) (λ e _. refl)

  pub open_session_lem :
      (account : Account) (v : W × List Call)
      → IsOpening account v.1 (open_session (logged D) config syntax account v)
  unfolding open_session clock
  open_session_lem account v =
      let target = IsOpening account v.1 in
      let named = generate_session_id (logged D) config syntax v in
      let named_log = session_id_lem v in
      ends_rule target named.0
        (λ id _.
          let numbered = token_ids (logged D) config named.1 in
          let numbered_log = token_ids_lem D config named.1 ∙ named_log in
          ends_rule target numbered.0
            (λ ids _.
              let clock = D.now numbered.1.0 in
              let start : W × List Call = (clock.1, numbered.1.1) in
              let out = sign_tokens (logged D) config ids.0 ids.1 account.id id clock.0 start in
              let signed = sign_tokens_lem D config ids.0 ids.1 account.id id clock.0 start in
              let same = IsIssued-log D config clock.0 start.1 out signed ∙ numbered_log in
              ends_rule target out.0
                (λ issued e.
                  let (access, fresh) =
                    IsIssued-expires D config clock.0 start.1 out issued signed e in
                  let reply = (D.digest issued.refresh out.1.0).0 in
                  let noted : digested issued.refresh reply ∷ out.1.1
                      ≡ digested issued.refresh reply ∷ v.1 =
                    ap (λ l. digested issued.refresh reply ∷ l) same in
                  ends_rule target (map_err port_error reply)
                    (λ new h.
                      ends_rule target
                        (map_err session_error
                          (Session.new id account.id new clock.0 issued.refresh_expires_at))
                        (λ session q. inr (
                          issued.refresh,
                          reply,
                          noted,
                          (
                            id,
                            new,
                            clock.0,
                            map_err_ok port_error reply h,
                            refl,
                            access,
                            fresh,
                            subst (λ x. Session.new id account.id new clock.0 x ≡ ok session) fresh
                                (map_err_ok session_error _ q),
                          ),
                        ))
                        (λ x _. inr (issued.refresh, reply, noted, tt)))
                    (λ x _. inr (issued.refresh, reply, noted, tt)))
                (λ e h. inl (same, refl)))
            (λ e _. inl (numbered_log, refl)))
        (λ e _. inl (named_log, refl))
