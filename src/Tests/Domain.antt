-- ===== src/Tests/Domain.antt =====
-- A chat, a session and message identities.
use nexus_services.Shared.{◌≡◌, refl, none, some, [], ◌∷◌, ok, length, ◌⊎◌}
use nexus_services.Shared.Int.{pos}
use nexus_services.Text.{Text, bytes, text_eq, text_lt, trim_space, to_lower}
use nexus_services.Domain.Chat.{Chat, restore_direct, related_user_id, order_participants}
use nexus_services.Domain.Chat.Laws.{
  IsValid as IsValidChat, restore_direct-IsValid, restore_direct_comm,
}
use nexus_services.Domain.Session.{Session, restore, rotate_refresh_token, revoke}
use nexus_services.Domain.Session.Laws.{IsValid as IsValidSession, restore-IsValid}
use nexus_services.Domain.Timeline.{
  content_type_image, restore_content, parse_client_message_id, matches, is_hex, is_dash,
  is_version, is_variant, MessageContent,
}
use nexus_services.Domain.Timeline.Contents.{IsText, IsImage, restore_content_decides}
use nexus_services.Domain.Timeline.Identities.{parse_client_message_id_normal}

abbrev ann : Text
ann = bytes "ann"

abbrev bob : Text
bob = bytes "bob"

abbrev talk : Chat
talk = record {
  id = bytes "c1";
  participant_one_id = ann;
  participant_two_id = bob;
  created_at = 5;
  updated_at = 6;
  summary_sort_at = 7;
  last_sequence = 3;
}

talk_restored : restore_direct (bytes "c1") bob ann 5 6 7 (pos 3 ∷ []) ≡ ok talk
unfolding restore_direct order_participants text_lt text_eq
talk_restored = refl

restore_direct-IsValid_example : IsValidChat talk
restore_direct-IsValid_example =
    restore_direct-IsValid (bytes "c1") bob ann 5 6 7 (pos 3 ∷ []) talk_restored

restore_direct_comm_example :
    restore_direct (bytes "c1") bob ann 5 6 7 [] ≡ restore_direct (bytes "c1") ann bob 5 6 7 []
restore_direct_comm_example = restore_direct_comm (bytes "c1") bob ann 5 6 7 []

bob_related : related_user_id talk ann ≡ ok bob
unfolding related_user_id text_eq
bob_related = refl

abbrev login : Session
login = record {
  id = bytes "s1";
  user_id = ann;
  refresh_token_digest = bytes "d1";
  created_at = 10;
  expires_at = 100;
  revoked_at = none;
}

abbrev renewed : Session
renewed = record login { refresh_token_digest = bytes "d2"; expires_at = 150 }

abbrev closed : Session
closed = record renewed { revoked_at = some 70 }

login_restored : restore (bytes "s1") ann (bytes "d1") 10 100 none ≡ ok login
unfolding restore trim_space
login_restored = refl

renewal : rotate_refresh_token login (bytes "d2") 150 50 ≡ ok renewed
unfolding rotate_refresh_token trim_space
renewal = refl

closure : revoke renewed 70 ≡ ok closed
unfolding revoke
closure = refl

restore-IsValid_example : IsValidSession login
restore-IsValid_example = restore-IsValid (bytes "s1") ann (bytes "d1") 10 100 none login_restored

login-IsValid : IsValidSession login
login-IsValid = restore-IsValid (bytes "s1") ann (bytes "d1") 10 100 none login_restored

restore_content_decides_example :
    (IsText content_type_image [] (bytes "i1") [] ⊎ IsImage content_type_image [] (bytes "i1") []
      → restore_content content_type_image [] (bytes "i1") []
        ≡ ok (record {
          content_type = content_type_image;
          value = [];
          image_id = bytes "i1";
          caption = [];
        }))
    × ((content : MessageContent)
        → restore_content content_type_image [] (bytes "i1") [] ≡ ok content
        → IsText content_type_image [] (bytes "i1") []
          ⊎ IsImage content_type_image [] (bytes "i1") [])
restore_content_decides_example = restore_content_decides content_type_image [] (bytes "i1") []

abbrev message_uuid : Text
message_uuid = bytes "0f8fad5b-d9cb-469f-a165-70867728950e"

uuid_parsed :
    parse_client_message_id (bytes " 0F8FAD5B-D9CB-469F-A165-70867728950E") ≡ ok message_uuid
unfolding parse_client_message_id to_lower trim_space text_eq matches is_hex is_dash is_version
    is_variant
uuid_parsed = refl

parse_client_message_id_normal_example :
    (length message_uuid ≡ 36)
    × (trim_space message_uuid ≡ message_uuid)
    × (parse_client_message_id message_uuid ≡ ok message_uuid)
parse_client_message_id_normal_example =
    parse_client_message_id_normal (bytes " 0F8FAD5B-D9CB-469F-A165-70867728950E") uuid_parsed
