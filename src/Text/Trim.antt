-- ===== src/Text/Trim.antt =====
-- What `strings.TrimSpace` leaves has no space at either end, so trimming twice is trimming once.
use mathlib.Core.List.{reverse-reverse, reverse-append}
use nexus_services.Shared.{
  ℕ, zero, suc, ◌≡◌, refl, ap, ◌⊎◌, inl, inr, [], ◌∷◌, ◌++◌, reverse, arith,
}
use nexus_services.Text.Defs.{
  Text, at0, at1, space_width, space_width_back, trim_from, trim_back, trim_space,
}

abbrev Front : Text → Type 0
Front [] = Unit
Front (a ∷ s) = space_width a (at0 s) (at1 s) ≡ 0

abbrev Back : Text → Type 0
Back [] = Unit
Back (a ∷ s) = space_width_back a (at0 s) (at1 s) ≡ 0

ℕ-cases : (n : ℕ) → (n ≡ 0) ⊎ ((k : ℕ) × (n ≡ suc k))
ℕ-cases zero = inl refl
ℕ-cases (suc k) = inr (k, refl)

trim_from-Front : (k : ℕ) (s : Text) → Front (trim_from k s)
unfolding trim_from
trim_from-Front k [] = tt
trim_from-Front (suc k) (a ∷ s) = trim_from-Front k s
trim_from-Front zero (a ∷ s) = elim (ℕ-cases (space_width a (at0 s) (at1 s))) [
  | inl e ↦ rw (e, trim_from) e
  | inr (k, e) ↦ rw (e, trim_from) (trim_from-Front k s)
]

trim_from_of_Front : (s : Text) → Front s → trim_from 0 s ≡ s
unfolding trim_from
trim_from_of_Front [] h = refl
trim_from_of_Front (a ∷ s) h = rw (h, trim_from)

trim_back-Back : (k : ℕ) (s : Text) → Back (trim_back k s)
unfolding trim_back
trim_back-Back k [] = tt
trim_back-Back (suc k) (a ∷ s) = trim_back-Back k s
trim_back-Back zero (a ∷ s) = elim (ℕ-cases (space_width_back a (at0 s) (at1 s))) [
  | inl e ↦ rw (e, trim_back) e
  | inr (k, e) ↦ rw (e, trim_back) (trim_back-Back k s)
]

trim_back_of_Back : (s : Text) → Back s → trim_back 0 s ≡ s
unfolding trim_back
trim_back_of_Back [] h = refl
trim_back_of_Back (a ∷ s) h = rw (h, trim_back)

trim_back_suffix : (k : ℕ) (s : Text) → (r : Text) × (s ≡ r ++ trim_back k s)
unfolding trim_back
trim_back_suffix k [] = ([], refl)
trim_back_suffix (suc k) (a ∷ s) = let (r, e) = trim_back_suffix k s in (a ∷ r, ap (λ t. a ∷ t) e)
trim_back_suffix zero (a ∷ s) = elim (ℕ-cases (space_width_back a (at0 s) (at1 s))) [
  | inl e ↦ ([], rw (e, trim_back))
  | inr (k, e) ↦ let (r, f) = trim_back_suffix k s in (a ∷ r, rw (e, trim_back) (ap (λ t. a ∷ t) f))
]

space_width_short :
    (a b c : ℕ) → space_width a b c ≡ 0 → (space_width a 0 0 ≡ 0) × (space_width a b 0 ≡ 0)
unfolding space_width
space_width_short a b c h = (ground arith, ground arith)

Front-append : (t r : Text) → Front (t ++ r) → Front t
unfolding at0 at1
Front-append [] r h = tt
Front-append (a ∷ []) r h = (space_width_short a (at0 r) (at1 r) h).0
Front-append (a ∷ b ∷ []) r h = (space_width_short a b (at0 r) h).1
Front-append (a ∷ b ∷ c ∷ t) r h = h

trim_space-Front : (s : Text) → Front (trim_space s)
unfolding trim_space
trim_space-Front s =
    let f = trim_from 0 s in
    let (r, e) = trim_back_suffix 0 (reverse f) in
    Front-append (reverse (trim_back 0 (reverse f))) (reverse r) (
      rw (← reverse-append r (trim_back 0 (reverse f)), ← e, reverse-reverse) (trim_from-Front 0 s))

-- Trimming twice is trimming once.
pub trim_space_idem : (s : Text) → trim_space (trim_space s) ≡ trim_space s
unfolding trim_space
trim_space_idem s = rw (
  trim_from_of_Front (trim_space s) (trim_space-Front s),
  reverse-reverse,
  trim_back_of_Back _ (trim_back-Back 0 (reverse (trim_from 0 s))),
)
