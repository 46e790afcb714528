-- ===== src/Text/Defs.antt =====
-- The functions of `strings`, `unicode/utf8` and the string operators that the program calls.
use nexus_services.Shared.{
  ℕ, zero, suc, ◌+◌, ◌-◌, Bool, true, false, ◌&&◌, ◌||◌, List, [], ◌∷◌, reverse, ltb, leb, ◌==◌,
  if◌then◌else◌,
}
use Prim.Native.Char.{code}
use Prim.Native.String.{String}

-- A list of bytes.
abbrev pub Text : Type 0
Text = List ℕ

-- An ASCII literal.
abbrev pub bytes : String → Text
bytes String.[] = []
bytes (String.◌∷◌ c s) = code c ∷ bytes s

-- `a == b`
unfoldable pub text_eq : Text → Text → Bool
text_eq [] [] = true
text_eq [] (_ ∷ _) = false
text_eq (_ ∷ _) [] = false
text_eq (a ∷ s) (b ∷ t) = a == b && text_eq s t

-- `a < b`: the order of the bytes.
unfoldable pub text_lt : Text → Text → Bool
text_lt [] [] = false
text_lt [] (_ ∷ _) = true
text_lt (_ ∷ _) [] = false
text_lt (a ∷ s) (b ∷ t) = ltb a b || (a == b && text_lt s t)

-- `s == ""`
abbrev pub is_empty : Text → Bool
is_empty [] = true
is_empty (_ ∷ _) = false

-- The number at a place of a text, 0 past its end (no test below accepts a 0).
unfoldable pub at0 : Text → ℕ
at0 [] = 0
at0 (a ∷ _) = a

unfoldable pub at1 : Text → ℕ
unfolding at0
at1 [] = 0
at1 (_ ∷ s) = at0 s

at2 : Text → ℕ
unfolding at1
at2 [] = 0
at2 (_ ∷ s) = at1 s

between : ℕ → ℕ → ℕ → Bool
between lo hi b = leb lo b && leb b hi

-- `unicode.IsSpace` on the code point that the bytes a, b, c begin with: its width, 0 for others.
-- One byte: tab, line feed, vertical tab, form feed, carriage return, space.
-- Two bytes: U+0085, U+00A0.
-- Three bytes: U+1680, U+2000 to U+200A, U+2028, U+2029, U+202F, U+205F, U+3000.
unfoldable pub space_width : ℕ → ℕ → ℕ → ℕ
unfolding between
space_width a b c =
    if between 9 13 a || a == 32
    then 1
    else if a == 0xC2 && (b == 0x85 || b == 0xA0)
    then 2
    else if (a == 0xE1 && b == 0x9A && c == 0x80)
        || (a == 0xE2 && b == 0x80 && (between 0x80 0x8A c || c == 0xA8 || c == 0xA9 || c == 0xAF))
        || (a == 0xE2 && b == 0x81 && c == 0x9F)
        || (a == 0xE3 && b == 0x80 && c == 0x80)
    then 3
    else 0

-- Skip the bytes left of a space, then the spaces.
unfoldable pub trim_from : ℕ → Text → Text
unfolding at0 at1
trim_from skip [] = []
trim_from (suc k) (a ∷ s) = trim_from k s
trim_from zero (a ∷ s) = elim (space_width a (at0 s) (at1 s)) [
  | zero ↦ a ∷ s
  | suc k ↦ trim_from k s
]

-- The same from the end, on the reversed text: the last byte of a space comes first.
unfoldable pub space_width_back : ℕ → ℕ → ℕ → ℕ
space_width_back c b a =
    if space_width c 0 0 == 1
    then 1
    else if space_width b c 0 == 2
    then 2
    else if space_width a b c == 3
    then 3
    else 0

unfoldable pub trim_back : ℕ → Text → Text
unfolding at0 at1
trim_back skip [] = []
trim_back (suc k) (a ∷ s) = trim_back k s
trim_back zero (a ∷ s) = elim (space_width_back a (at0 s) (at1 s)) [
  | zero ↦ a ∷ s
  | suc k ↦ trim_back k s
]

-- `strings.TrimSpace`
unfoldable pub trim_space : Text → Text
unfolding trim_from trim_back space_width space_width_back
trim_space s = reverse (trim_back 0 (reverse (trim_from 0 s)))

-- How many bytes the code point takes that begins with a, b, c, d; 0 where the encoding is invalid.
unfoldable pub rune_width : ℕ → ℕ → ℕ → ℕ → ℕ
unfolding between
rune_width a b c d =
    if ltb a 0x80
    then 1
    else if between 0xC2 0xDF a && between 0x80 0xBF b
    then 2
    else if ((a == 0xE0 && between 0xA0 0xBF b)
          || (a == 0xED && between 0x80 0x9F b)
          || ((between 0xE1 0xEC a || between 0xEE 0xEF a) && between 0x80 0xBF b))
        && between 0x80 0xBF c
    then 3
    else if ((a == 0xF0 && between 0x90 0xBF b)
          || (between 0xF1 0xF3 a && between 0x80 0xBF b)
          || (a == 0xF4 && between 0x80 0x8F b))
        && between 0x80 0xBF c
        && between 0x80 0xBF d
    then 4
    else 0

-- `utf8.RuneCountInString`: an invalid byte counts as one.
count_from : ℕ → Text → ℕ
unfolding at0 at1 at2
count_from skip [] = 0
count_from (suc k) (a ∷ s) = count_from k s
count_from zero (a ∷ s) = suc (count_from (rune_width a (at0 s) (at1 s) (at2 s) - 1) s)

unfoldable pub rune_count : Text → ℕ
unfolding count_from rune_width
rune_count s = count_from 0 s

-- `utf8.ValidString`
valid_from : ℕ → Text → Bool
unfolding at0 at1 at2
valid_from skip [] = true
valid_from (suc k) (a ∷ s) = valid_from k s
valid_from zero (a ∷ s) = elim (rune_width a (at0 s) (at1 s) (at2 s)) [
  | zero ↦ false
  | suc k ↦ valid_from k s
]

unfoldable pub valid_string : Text → Bool
unfolding valid_from rune_width
valid_string s = valid_from 0 s

-- `strings.ToLower` and `strings.ToUpper`. Their results are only compared with ASCII texts, so
-- beside ASCII these fold the code points alone whose other case is ASCII: U+0130 and U+212A to
-- lower case, U+0131 and U+017F to upper case.
unfoldable pub lower_byte : ℕ → ℕ
unfolding between
lower_byte b = if between b'A' b'Z' b then b + 32 else b

upper_byte : ℕ → ℕ
unfolding between
upper_byte b = if between b'a' b'z' b then b - 32 else b

unfoldable pub lower_from : ℕ → Text → Text
unfolding at0 at1 lower_byte
lower_from skip [] = []
lower_from (suc k) (a ∷ s) = lower_from k s
lower_from zero (a ∷ s) = elim (a == 0xC4 && at0 s == 0xB0) [
  | true ↦ b'i' ∷ lower_from 1 s
  | false ↦ elim (a == 0xE2 && at0 s == 0x84 && at1 s == 0xAA) [
    | true ↦ b'k' ∷ lower_from 2 s
    | false ↦ lower_byte a ∷ lower_from 0 s
  ]
]

unfoldable pub to_lower : Text → Text
unfolding lower_from
to_lower s = lower_from 0 s

upper_from : ℕ → Text → Text
unfolding at0 upper_byte
upper_from skip [] = []
upper_from (suc k) (a ∷ s) = upper_from k s
upper_from zero (a ∷ s) = elim (a == 0xC4 && at0 s == 0xB1) [
  | true ↦ b'I' ∷ upper_from 1 s
  | false ↦ elim (a == 0xC5 && at0 s == 0xBF) [
    | true ↦ b'S' ∷ upper_from 1 s
    | false ↦ upper_byte a ∷ upper_from 0 s
  ]
]

unfoldable pub to_upper : Text → Text
unfolding upper_from
to_upper s = upper_from 0 s
