-- ===== src/Text/Ascii.antt =====
-- Texts of visible lower-case ASCII: trimming and folding to lower case leave them alone.
use mathlib.Core.List.{reverse-reverse, reverse-cons}
use nexus_services.Shared.{ℕ, ◌≤◌, ◌<◌, ◌≡◌, ◌≢◌, refl, ◌⊎◌, [], ◌∷◌, reverse, arith, All, All-snoc}
use nexus_services.Text.Defs.{
  Text, at0, at1, space_width, space_width_back, trim_from, trim_back, trim_space, to_lower,
}

abbrev pub IsPlain : ℕ → Type 0
IsPlain b = (33 ≤ b) × (b < 128) × ((b < 65) ⊎ (90 < b))

space_width_plain : (a b c : ℕ) → IsPlain a → space_width a b c ≡ 0
unfolding space_width
space_width_plain a b c h = ground arith

space_width_two : (b c : ℕ) → c < 128 → space_width b c 0 ≢ 2
unfolding space_width
space_width_two b c h = ground arith

space_width_three : (a b c : ℕ) → c < 128 → space_width a b c ≢ 3
unfolding space_width
space_width_three a b c h = ground arith

space_width_back_plain : (c b a : ℕ) → IsPlain c → space_width_back c b a ≡ 0
unfolding space_width_back
space_width_back_plain c b a h =
    ground (arith, space_width_plain c 0 0 h, space_width_two b c h.1, space_width_three a b c h.1)

All-reverse : (s : Text) → All IsPlain s → All IsPlain (reverse s)
All-reverse [] h = tt
All-reverse (a ∷ s) h = rw reverse-cons (All-snoc IsPlain (reverse s) a (All-reverse s h.1) h.0)

trim_from_plain : (s : Text) → All IsPlain s → trim_from 0 s ≡ s
unfolding trim_from
trim_from_plain [] h = refl
trim_from_plain (a ∷ s) h = rw (space_width_plain a (at0 s) (at1 s) h.0, trim_from)

trim_back_plain : (s : Text) → All IsPlain s → trim_back 0 s ≡ s
unfolding trim_back
trim_back_plain [] h = refl
trim_back_plain (a ∷ s) h = rw (space_width_back_plain a (at0 s) (at1 s) h.0, trim_back)

pub trim_space_plain : (s : Text) → All IsPlain s → trim_space s ≡ s
unfolding trim_space
trim_space_plain s h =
    rw (trim_from_plain s h, trim_back_plain (reverse s) (All-reverse s h), reverse-reverse)

pub to_lower_plain : (s : Text) → All IsPlain s → to_lower s ≡ s
unfolding to_lower
to_lower_plain [] h = refl
to_lower_plain (a ∷ s) h = ground (arith, to_lower_plain s h.1)
