-- ===== src/Tests/Auth.antt =====
-- One account with one session.
use nexus_services.Shared.{◌≡◌, refl, none, some, [], ◌∷◌, ok, true}
use nexus_services.Text.{bytes, text_eq, trim_space}
use nexus_services.Domain.User.{Account, MailSyntax}
use nexus_services.Domain.Session.{
  Session, ensure_active, validate_refresh_token_digest, rotate_refresh_token,
}
use nexus_services.Auth.Ports.{TokenClaims, Dependencies}
use nexus_services.Auth.Log.{digested, rotated, logged}
use nexus_services.Auth.Tokens.{Config, claims_of, token_ids, sign_tokens}
use nexus_services.Auth.Refresh.{
  refresh, active_session, session_of, renew, persist, persisted, exchange,
}
use nexus_services.Auth.Authenticate.{authenticate}
use nexus_services.Auth.Authenticate.Accesses.{IsAccess, authenticate-IsAccess}
use nexus_services.Auth.Signin.{signin}
use nexus_services.Auth.Signin.Signins.{IsSignin, signin-IsSignin}

abbrev account : Account
account = record {
  id = bytes "u1";
  email = bytes "a@b.example";
  password_hash = bytes "hash";
  created_at = 5;
}

abbrev session : Session
session = record {
  id = bytes "s1";
  user_id = bytes "u1";
  refresh_token_digest = bytes "token";
  created_at = 5;
  expires_at = 100;
  revoked_at = none;
}

abbrev claims : TokenClaims
claims = record {
  token_id = bytes "t1";
  user_id = bytes "u1";
  session_id = bytes "s1";
  issued_at = 5;
  expires_at = 100;
}

-- A token is its own digest, and an id is always the same.
abbrev services : Dependencies (Unit {0})
services = record {
  users = record {
    create = λ a w. (ok tt, w);
    find_by_email = λ e w. (ok (some account), w);
    find_by_id = λ i w. (ok (some account), w);
  };
  sessions = record {
    create = λ s w. (ok tt, w);
    find_by_id = λ i w. (ok (some session), w);
    rotate = λ s d t w. (ok tt, w);
    revoke = λ i t w. (ok tt, w);
  };
  hasher = record { hash = λ p w. (ok p, w); matches = λ p h w. (ok true, w) };
  tokens = record {
    sign_access_token = λ c w. (ok (bytes "access"), w);
    sign_refresh_token = λ c w. (ok (bytes "fresh"), w);
    verify_access_token = λ t w. (ok claims, w);
    verify_refresh_token = λ t w. (ok claims, w);
  };
  digest = λ t w. (ok t, w);
  new_id = λ w. (ok (bytes "id"), w);
  now = λ w. (50, w);
}

abbrev times : Config
times = record { access_token_ttl = 10; refresh_token_ttl = 60 }

abbrev plain_syntax : MailSyntax
plain_syntax = record { to_lower = λ t. t; parse_address = λ t. some t }

-- The calls of a refresh, the last one first.
refreshed_calls :
    (refresh (logged services) times (bytes "token") (tt, [])).1.1
    ≡ rotated
        (record session { refresh_token_digest = bytes "fresh"; expires_at = 110 })
        (bytes "token")
        50
        (ok tt)
      ∷ digested (bytes "fresh") (ok (bytes "fresh"))
      ∷ digested (bytes "token") (ok (bytes "token"))
      ∷ []
unfolding refresh active_session claims_of session_of renew token_ids sign_tokens persist persisted
    exchange text_eq trim_space ensure_active validate_refresh_token_digest rotate_refresh_token
refreshed_calls = refl

authenticate-IsAccess_example :
    IsAccess services (bytes "access") tt (authenticate (logged services) (bytes "access") (tt, []))
authenticate-IsAccess_example = authenticate-IsAccess services (bytes "access") tt

signin-IsSignin_example :
    let (r, (w', log)) =
      signin
        (logged services)
        times
        plain_syntax
        (bytes "a@b.example")
        (bytes "correct horse")
        (tt, []) in
    IsSignin services times plain_syntax (bytes "a@b.example") (bytes "correct horse") log r
signin-IsSignin_example =
    signin-IsSignin services times plain_syntax (bytes "a@b.example") (bytes "correct horse") tt
