-- ===== src/Tests/Sessions.antt =====
-- One stored session, rotated and revoked.
use nexus_services.Shared.{◌≡◌, ◌≢◌, refl, none, [], ◌∷◌, ok, arith}
use nexus_services.Text.{bytes, text_eq, text_eq_iff, trim_space, bytes}
use nexus_services.Mongo.{Collection, memory, Distinct}
use nexus_services.Domain.Session.{Session}
use nexus_services.Domain.Session.Laws.{IsValid}
use nexus_services.Sessions.Document.{SessionDocument, new_session_document, to_domain}
use nexus_services.Sessions.Repository.{
  same_session_id, rotate, revoke, may_rotate, rotate_to, rotated, may_revoke, revoke_at, revoked,
}
use nexus_services.Sessions.Refinement.{IsParsed, to_domain-new_session_document}
use nexus_services.Sessions.Rotations.{IsRefused, rotate_once}
use nexus_services.Sessions.Finality.{creates, rotates, after_calls, IsGone, revocation_is_final}

abbrev first_session : Session
first_session = record {
  id = bytes "s1";
  user_id = bytes "ann";
  refresh_token_digest = bytes "d1";
  created_at = 5;
  expires_at = 100;
  revoked_at = none;
}

abbrev second_session : Session
second_session = record first_session { refresh_token_digest = bytes "d2"; expires_at = 200 }

first_session-IsValid : IsValid first_session
unfolding trim_space
first_session-IsValid = record {
  named = λ h. cc;
  owned = λ h. cc;
  digested = refl;
  begun = omega arith;
  lasting = omega arith;
  revoked_later = tt;
}

first_session-IsParsed : IsParsed first_session
unfolding trim_space
first_session-IsParsed = record { id_trimmed = refl; user_trimmed = refl }

to_domain-new_session_document_example :
    to_domain (new_session_document first_session) ≡ ok first_session
to_domain-new_session_document_example =
    to_domain-new_session_document first_session first_session-IsValid first_session-IsParsed

abbrev stored : Collection SessionDocument same_session_id
stored = memory same_session_id

abbrev one_session : stored.State
unfolding memory
one_session = new_session_document first_session ∷ []

one_session-Distinct : Distinct same_session_id (stored.docs one_session)
unfolding memory one_session
one_session-Distinct = (tt, tt)

first_rotated : (rotate stored second_session (bytes "d1") 50 one_session).0 ≡ ok tt
unfolding rotate rotated may_rotate rotate_to text_eq trim_space memory new_session_document
    one_session
first_rotated = refl

first_revoked : (revoke stored (bytes "s1") 50 one_session).0 ≡ ok tt
unfolding revoke revoked may_revoke revoke_at text_eq memory new_session_document one_session
first_revoked = refl

digests_differ : bytes "d2" ≢ bytes "d1"
unfolding text_eq
digests_differ h = let same = (text_eq_iff (bytes "d2") (bytes "d1")).1 h in cc

rotate_once_example :
    let t = (rotate stored second_session (bytes "d1") 50 one_session).1 in
    IsRefused stored t (rotate stored second_session (bytes "d1") 60 t)
rotate_once_example =
    rotate_once stored second_session second_session (bytes "d1") 50 60 one_session
      one_session-Distinct digests_differ refl first_rotated

revocation_is_final_example : IsGone stored (bytes "s1") (
    after_calls stored
      (rotates second_session (bytes "d1") 60 ∷ creates second_session ∷ [])
      (revoke stored (bytes "s1") 50 one_session).1)
revocation_is_final_example =
    revocation_is_final stored (bytes "s1") 50 one_session
      (rotates second_session (bytes "d1") 60 ∷ creates second_session ∷ []) one_session-Distinct
      first_revoked
