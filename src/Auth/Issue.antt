-- ===== src/Auth/Issue.antt =====
-- What the issue of tokens leaves in the log, and when the tokens expire.
use nexus_services.Shared.{◌+◌, ◌≡◌, refl, List, Result, ok, err, arith, Time}
use nexus_services.Shared.Actions.{ends_rule}
use nexus_services.Text.{Text}
use nexus_services.Domain.Session.{SessionId}
use nexus_services.Auth.Ports.{AuthError, Dependencies, port}
use nexus_services.Auth.Log.{Call, logged}
use nexus_services.Auth.Tokens.{Config, Tokens, token_claims, token_ids, sign_tokens}

module _ {W : Type 0} (D : Dependencies W) (config : Config) where
  pub token_ids_lem : (v : W × List Call) → (token_ids (logged D) config v).1.1 ≡ v.1
  unfolding token_ids
  token_ids_lem v =
      let same : Result AuthError (Text × Text) × (W × List Call) → Type 0 = λ out. out.1.1 ≡ v.1 in
      ends_rule same (port (logged D).new_id v).0
        (λ a _.
          ends_rule same (port (logged D).new_id (port (logged D).new_id v).1).0 (λ b _. refl)
            (λ e _. refl))
        (λ e _. refl)

  -- The log is as before, and issued tokens expire when the configuration says.
  abbrev pub IsIssued : Time → List Call → Result AuthError Tokens × (W × List Call) → Type 0
  IsIssued at log (ok t, (_, log')) =
      (log' ≡ log)
      × (t.access_expires_at ≡ at + config.access_token_ttl)
      × (t.refresh_expires_at ≡ at + config.refresh_token_ttl)
  IsIssued at log (err _, (_, log')) = log' ≡ log

  pub sign_tokens_lem :
      (access_id refresh_id user : Text) (session : SessionId) (at : Time) (v : W × List Call)
      → IsIssued at v.1 (sign_tokens (logged D) config access_id refresh_id user session at v)
  unfolding sign_tokens
  sign_tokens_lem access_id refresh_id user session at v =
      let sign : Result AuthError Text × (W × List Call) =
        port
          ((logged D).tokens.sign_access_token
            (token_claims access_id user session at (at + config.access_token_ttl)))
          v in
      ends_rule (IsIssued at v.1) sign.0
        (λ access _.
          ends_rule (IsIssued at v.1)
            (port
              ((logged D).tokens.sign_refresh_token
                (token_claims refresh_id user session at (at + config.refresh_token_ttl)))
              sign.1).0
            (λ fresh _. (refl, refl, refl)) (λ e _. refl))
        (λ e _. refl)

  pub IsIssued-log :
      (at : Time) (log : List Call) (out : Result AuthError Tokens × (W × List Call))
      → IsIssued at log out
      → out.1.1 ≡ log
  IsIssued-log at log (ok t, _) h = h.0
  IsIssued-log at log (err _, _) h = h

  pub IsIssued-expires :
      (at : Time) (log : List Call) (out : Result AuthError Tokens × (W × List Call)) (t : Tokens)
      → IsIssued at log out
      → out.0 ≡ ok t
      → (t.access_expires_at ≡ at + config.access_token_ttl)
        × (t.refresh_expires_at ≡ at + config.refresh_token_ttl)
  IsIssued-expires at log (ok t', _) t h e = ground arith
  IsIssued-expires at log (err _, _) t h e = absurd (cc)
