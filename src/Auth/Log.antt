-- ===== src/Auth/Log.antt =====
-- The calls of the digester and the writes of the session repository, written down.
use nexus_services.Shared.{◌∷◌, Bool, true, false, List, Result, ok, err, Time}
use nexus_services.Shared.Actions.{Action}
use nexus_services.Text.{Text}
use nexus_services.Domain.Session.{SessionId, Session}
use nexus_services.Ports.{PortError}
use nexus_services.Auth.Ports.{Dependencies}

pub data Call : Type 0 where
  digested : Text → Result PortError Text → Call
  created : Session → Result PortError (Unit {0}) → Call
  rotated : Session → Text → Time → Result PortError (Unit {0}) → Call
  revoked : SessionId → Time → Result PortError (Unit {0}) → Call

module _ {W : Type 0} where
  abbrev pub quiet : {E A : Type 0} → Action W E A → Action (W × List Call) E A
  quiet m w = let (r, v) = m w.0 in (r, (v, w.1))

  abbrev pub noted :
      {E A : Type 0} → (Result E A → Call) → Action W E A → Action (W × List Call) E A
  noted note m w = let (r, v) = m w.0 in (r, (v, note r ∷ w.1))

  -- The same dependencies, with these calls written down, the last one first.
  abbrev pub logged : Dependencies W → Dependencies (W × List Call)
  logged D =
      let U = D.users in
      let S = D.sessions in
      let H = D.hasher in
      let T = D.tokens in
      record {
        users = record {
          create = λ account. quiet (U.create account);
          find_by_email = λ email. quiet (U.find_by_email email);
          find_by_id = λ id. quiet (U.find_by_id id);
        };
        sessions = record {
          create = λ session. noted (created session) (S.create session);
          find_by_id = λ id. quiet (S.find_by_id id);
          rotate = λ session expected at.
              noted (rotated session expected at) (S.rotate session expected at);
          revoke = λ id at. noted (revoked id at) (S.revoke id at);
        };
        hasher = record {
          hash = λ password. quiet (H.hash password);
          matches = λ password hash. quiet (H.matches password hash);
        };
        tokens = record {
          sign_access_token = λ claims. quiet (T.sign_access_token claims);
          sign_refresh_token = λ claims. quiet (T.sign_refresh_token claims);
          verify_access_token = λ raw. quiet (T.verify_access_token raw);
          verify_refresh_token = λ raw. quiet (T.verify_refresh_token raw);
        };
        digest = λ raw. noted (digested raw) (D.digest raw);
        new_id = quiet D.new_id;
        now = λ w. let (at, v) = D.now w.0 in (at, (v, w.1));
      }

abbrev pub is_failure : {E A : Type 0} → Result E A → Bool
is_failure (ok _) = false
is_failure (err _) = true
