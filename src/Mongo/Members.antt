-- ===== src/Mongo/Members.antt =====
-- Documents of a collection, before and after an update.
use mathlib.Core.List.{Memᴰ}
use nexus_services.Shared.{
  ℕ, Result, ok, err, arith, ◌≡◌, sym, ap, ◌∙◌, subst, ◌⊎◌, inl, inr, Bool, true, false, List, [],
  ◌∷◌, All,
}
use nexus_services.Mongo.Outcomes.{DbError, Replaced, here, there, NoMatch, Updated}

pub All-member {ℓ} :
    {D : Type 0} (P : D → Type ℓ) (xs : List D) (d : D) → All P xs → Memᴰ d xs → P d
All-member P [] d a m = elim m [ ]
All-member P (x ∷ xs) d a (Memᴰ.head e) = subst P (sym e) a.0
All-member P (x ∷ xs) d a (Memᴰ.tail m) = All-member P xs d a.1 m

-- No two documents of the list conflict.
abbrev pub Distinct : {D : Type 0} → (D → D → Bool) → List D → Type 0
Distinct conflicts [] = Unit
Distinct conflicts (x ∷ xs) = All (λ y. conflicts y x ≡ false) xs × Distinct conflicts xs

module _ {D : Type 0} {p : D → Bool} {u : D → D} {d : D} where
  pub Replaced-passes : {xs ys : List D} → Replaced p u d xs ys → p d ≡ true
  Replaced-passes (here e h k) = subst (λ x. p x ≡ true) e h
  Replaced-passes (there r) = Replaced-passes r

  pub Replaced-old : {xs ys : List D} → Replaced p u d xs ys → Memᴰ d xs
  Replaced-old (here e h k) = Memᴰ.head (sym e)
  Replaced-old (there r) = Memᴰ.tail (Replaced-old r)

  pub Replaced-new : {xs ys : List D} → Replaced p u d xs ys → Memᴰ (u d) ys
  Replaced-new (here e h k) = Memᴰ.head (sym (k ∙ ap u e))
  Replaced-new (there r) = Memᴰ.tail (Replaced-new r)

  -- A document stays, or is the one that is updated.
  pub Replaced-member :
      {xs ys : List D} (x : D) → Replaced p u d xs ys → Memᴰ x xs → Memᴰ x ys ⊎ (x ≡ d)
  Replaced-member x (here e h k) (Memᴰ.head q) = inr (q ∙ e)
  Replaced-member x (here e h k) (Memᴰ.tail m) = inl (Memᴰ.tail m)
  Replaced-member x (there r) (Memᴰ.head q) = inl (Memᴰ.head q)
  Replaced-member x (there r) (Memᴰ.tail m) = elim (Replaced-member x r m) [
    | inl i ↦ inl (Memᴰ.tail i)
    | inr e ↦ inr e
  ]

  pub Replaced-NoMatch : {xs ys : List D} → Replaced p u d xs ys → NoMatch p xs → ⊥
  Replaced-NoMatch (here e h k) n = ground arith
  Replaced-NoMatch (there r) n = Replaced-NoMatch r n.1

-- An update whose filter no document passes: nothing changes, and nothing is counted.
pub Updated-NoMatch :
    {D : Type 0} (p : D → Bool) (u : D → D) (xs ys : List D) (r : Result DbError ℕ)
    → NoMatch p xs
    → Updated p u xs r ys
    → (ys ≡ xs) × ((n : ℕ) → r ≡ ok n → n ≡ 0)
Updated-NoMatch p u xs ys (ok n) none_pass (inl (_, (d, r))) = absurd (Replaced-NoMatch r none_pass)
Updated-NoMatch p u xs ys (ok n) none_pass (inr (z, _, same)) = (same, λ m e. ground arith)
Updated-NoMatch p u xs ys (err x) none_pass (inl same) = (same, λ m e. ground arith)
Updated-NoMatch p u xs ys (err x) none_pass (inr (d, r)) = absurd (Replaced-NoMatch r none_pass)

-- Documents that conflict are the same document, in a list without conflicts.
pub Distinct-same :
    {D : Type 0} (conflicts : D → D → Bool) (xs : List D) (x y : D)
    → Distinct conflicts xs
    → Memᴰ x xs
    → Memᴰ y xs
    → conflicts x y ≡ true
    → conflicts y x ≡ true
    → x ≡ y
Distinct-same conflicts [] x y h m k e q = elim m [ ]
Distinct-same conflicts (z ∷ zs) x y h (Memᴰ.head a) (Memᴰ.head b) e q = a ∙ sym b
Distinct-same conflicts (z ∷ zs) x y h (Memᴰ.head a) (Memᴰ.tail k) e q =
    let apart = All-member (λ d. conflicts d z ≡ false) zs y h.0 k in
    let same : conflicts y z ≡ true = subst (λ d. conflicts y d ≡ true) a q in absurd (ground arith)
Distinct-same conflicts (z ∷ zs) x y h (Memᴰ.tail m) (Memᴰ.head b) e q =
    let apart = All-member (λ d. conflicts d z ≡ false) zs x h.0 m in
    let same : conflicts x z ≡ true = subst (λ d. conflicts x d ≡ true) b e in absurd (ground arith)
Distinct-same conflicts (z ∷ zs) x y h (Memᴰ.tail m) (Memᴰ.tail k) e q =
    Distinct-same conflicts zs x y h.1 m k e q
