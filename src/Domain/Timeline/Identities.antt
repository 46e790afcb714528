-- ===== src/Domain/Timeline/Identities.antt =====
-- Client message ids in normal form.
use nexus_services.Shared.{
  ℕ, ◌≤◌, ◌≡◌, refl, ◌↔◌, Bool, true, false, List, [], ◌∷◌, ok, arith, All, length, Bool-cases, inl,
  inr,
}
use nexus_services.Shared.Int.{ℤ, pos}
use nexus_services.Text.{Text, text_eq, trim_space, IsPlain, trim_space_plain, to_lower_plain}
use nexus_services.Domain.Timeline.Identity.{
  nil_client_message_id, is_hex, is_dash, is_version, is_variant, client_message_id_pattern,
  matches, parse_client_message_id, parse_sequence, max_sequence,
}

-- A test that only visible lower-case ASCII passes.
abbrev IsPlainTest : (ℕ → Bool) → Type 0
IsPlainTest p = (b : ℕ) → p b ≡ true → IsPlain b

matches-IsPlain :
    (ps : List (ℕ → Bool)) (s : Text)
    → All IsPlainTest ps
    → matches ps s ≡ true
    → All IsPlain s × (length s ≡ length ps)
unfolding matches
matches-IsPlain [] [] h m = (tt, refl)
matches-IsPlain [] (b ∷ s) h m = cc
matches-IsPlain (p ∷ ps) [] h m = cc
matches-IsPlain (p ∷ ps) (b ∷ s) h m = elim (Bool-cases (p b)) [
  | inl e ↦
      let rest : matches ps s ≡ true = rw e at m in
      let (plain, size) = matches-IsPlain ps s h.1 rest in ((h.0 b e, plain), omega arith)
  | inr e ↦ absurd (ground arith)
]

is_hex-IsPlain : IsPlainTest is_hex
unfolding is_hex
is_hex-IsPlain b h = ground arith

is_dash-IsPlain : IsPlainTest is_dash
unfolding is_dash
is_dash-IsPlain b h = ground arith

is_version-IsPlain : IsPlainTest is_version
unfolding is_version
is_version-IsPlain b h = ground arith

is_variant-IsPlain : IsPlainTest is_variant
unfolding is_variant
is_variant-IsPlain b h = ground arith

pattern-IsPlain : All IsPlainTest client_message_id_pattern
pattern-IsPlain =
    assumption (is_hex-IsPlain, is_dash-IsPlain, is_version-IsPlain, is_variant-IsPlain, tt)

parsed_tests :
    (raw : Text) {id : Text}
    → parse_client_message_id raw ≡ ok id
    → (text_eq id nil_client_message_id ≡ false) × (matches client_message_id_pattern id ≡ true)
unfolding parse_client_message_id
parsed_tests raw h = ground arith

-- A parsed client message id has 36 bytes and is in normal form: parsing it again gives it back.
pub parse_client_message_id_normal :
    (raw : Text) {id : Text}
    → parse_client_message_id raw ≡ ok id
    → (length id ≡ 36) × (trim_space id ≡ id) × (parse_client_message_id id ≡ ok id)
unfolding parse_client_message_id
parse_client_message_id_normal raw {id} h =
    let (other, fits) = parsed_tests raw h in
    let (plain, size) = matches-IsPlain client_message_id_pattern id pattern-IsPlain fits in
    let trimmed = trim_space_plain id plain in
    let lowered = to_lower_plain id plain in (size, trimmed, rw (trimmed, lowered, other, fits))

-- A parsed sequence is the number that was given, from 1 to 2^53 - 1; all of these are parsed.
pub parse_sequence_iff :
    (raw : ℤ) (n : ℕ) → (parse_sequence raw ≡ ok n) ↔ ((raw ≡ pos n) × (1 ≤ n) × (n ≤ max_sequence))
unfolding parse_sequence
parse_sequence_iff raw n = (λ h. ground arith, λ h. ground arith)
