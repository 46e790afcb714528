-- ===== src/Domain/Timeline/Identity.antt =====
-- message_identity.go: client message ids and sequence numbers. The pattern of a client message
-- id is the list of the tests that its bytes must pass, one after the other.
use nexus_services.Shared.{
  ℕ, Bool, true, false, not, ◌||◌, ◌&&◌, List, [], ◌∷◌, ◌++◌, Result, ok, err, leb, ◌==◌, replicate,
  if◌then◌else◌,
}
use nexus_services.Shared.Int.{ℤ, pos, leb_ℤ, ltb_ℤ, pos_part}
use nexus_services.Text.{Text, bytes, text_eq, trim_space, to_lower}
use nexus_services.Domain.Timeline.Content.{
  TimelineError, invalid_client_message_id, invalid_sequence,
}

abbrev pub nil_client_message_id : Text
nil_client_message_id = bytes "00000000-0000-0000-0000-000000000000"

-- [0-9a-f]
unfoldable pub is_hex : ℕ → Bool
is_hex b = (leb b'0' b && leb b b'9') || (leb b'a' b && leb b b'f')

-- -
unfoldable pub is_dash : ℕ → Bool
is_dash b = b == b'-'

-- [1-8]
unfoldable pub is_version : ℕ → Bool
is_version b = leb b'1' b && leb b b'8'

-- [89ab]
unfoldable pub is_variant : ℕ → Bool
is_variant b = b == b'8' || b == b'9' || b == b'a' || b == b'b'

abbrev pub client_message_id_pattern : List (ℕ → Bool)
client_message_id_pattern =
    replicate 8 is_hex
    ++ (is_dash ∷ replicate 4 is_hex)
    ++ (is_dash ∷ is_version ∷ replicate 3 is_hex)
    ++ (is_dash ∷ is_variant ∷ replicate 3 is_hex)
    ++ (is_dash ∷ replicate 12 is_hex)

unfoldable pub matches : List (ℕ → Bool) → Text → Bool
matches [] [] = true
matches [] (_ ∷ _) = false
matches (_ ∷ _) [] = false
matches (p ∷ ps) (b ∷ s) = p b && matches ps s

abbrev pub ClientMessageId : Type 0
ClientMessageId = Text

unfoldable pub parse_client_message_id : Text → Result TimelineError ClientMessageId
parse_client_message_id raw_id =
    let normalized_id = to_lower (trim_space raw_id) in
    if text_eq normalized_id nil_client_message_id
      || not (matches client_message_id_pattern normalized_id)
    then err invalid_client_message_id
    else ok normalized_id

abbrev pub max_sequence : ℕ
max_sequence = 9_007_199_254_740_991

-- A sequence that was parsed is positive, so it is a natural number from here on.
abbrev pub Sequence : Type 0
Sequence = ℕ

unfoldable pub parse_sequence : ℤ → Result TimelineError Sequence
parse_sequence raw =
    if leb_ℤ raw (pos 0) || ltb_ℤ (pos max_sequence) raw
    then err invalid_sequence
    else ok (pos_part raw)
