-- ===== src/Shared/Actions.antt =====
-- Calls that read and change a world and may fail: state passing with errors.
use mathlib.Core.Path.{◌≡◌, refl, sym, ap, ◌∙◌}
use nexus_services.Shared.Results.{Result, ok, err}

abbrev pub Action : Type 0 → Type 0 → Type 0 → Type 0
Action W E A = W → Result E A × W

module _ {W E : Type 0} where
  infixl 5 ◌>>=◌ ◌>>◌
  abbrev pub ◌>>=◌ : {A B : Type 0} → Action W E A → (A → Action W E B) → Action W E B
  (m >>= f) w = let (r, v) = m w in elim r [ ok a ↦ f a v | err e ↦ (err e, v) ]

  abbrev pub ◌>>◌ : {A B : Type 0} → Action W E A → Action W E B → Action W E B
  m >> k = m >>= λ _. k

  abbrev pub lift : {A : Type 0} → Result E A → Action W E A
  lift r w = (r, w)

  -- A sequence that succeeds: its first part did, and the rest went on from there.
  pub bind_ok :
      {A B : Type 0} (m : Action W E A) (f : A → Action W E B) (w : W) {n : B}
      → ((m >>= f) w).0 ≡ ok n
      → (a : A) × ((m w).0 ≡ ok a) × ((m >>= f) w ≡ f a (m w).1)
  bind_ok {A} {B} m f w {n} h = go (m w).0 h
    where
      go :
          (r : Result E A)
          → let done : Result E B × W = elim r [ ok a ↦ f a (m w).1 | err e ↦ (err e, (m w).1) ] in
            done.0 ≡ ok n → (a : A) × (r ≡ ok a) × (done ≡ f a (m w).1)
      go (ok a) k = (a, refl, refl)
      go (err e) k = absurd (cc)

  -- The same, for the result alone.
  pub bind_answer :
      {A B : Type 0} (m : Action W E A) (f : A → Action W E B) (w : W) {n : B}
      → ((m >>= f) w).0 ≡ ok n
      → (a : A) × ((m w).0 ≡ ok a) × ((f a (m w).1).0 ≡ ok n)
  bind_answer m f w h = let (a, e, q) = bind_ok m f w h in (a, e, sym (ap (λ r. r.0) q) ∙ h)

  -- What holds however a sequence ends: of the rest, and after its first part failed.
  pub ends_rule {ℓ} :
      {A B : Type 0} (Q : Result E B × W → Type ℓ) (r : Result E A) {f : A → Result E B × W}
      {g : E → Result E B × W}
      → ((a : A) → r ≡ ok a → Q (f a))
      → ((e : E) → r ≡ err e → Q (g e))
      → Q (elim r [ ok a ↦ f a | err e ↦ g e ])
  ends_rule Q (ok a) h k = h a refl
  ends_rule Q (err e) h k = k e refl

  -- A sequence that succeeds, by the reply to its first part.
  pub ends_ok :
      {A B : Type 0} (r : Result E A) (f : A → Result E B × W) (v : W) {n : B}
      → let out : Result E B × W = elim r [ ok a ↦ f a | err e ↦ (err e, v) ] in
        out.0 ≡ ok n → (a : A) × (r ≡ ok a) × ((f a).0 ≡ ok n) × (out ≡ f a)
  ends_ok (ok a) f v h = (a, refl, h, refl)
  ends_ok (err e) f v h = absurd (cc)
