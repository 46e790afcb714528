-- ===== src/Mongo/Outcomes.antt =====
-- What a call may do to the documents of a collection.
use mathlib.Core.List.{Memᴰ}
use nexus_services.Shared.{
  ℕ, ◌≡◌, ◌⊎◌, inl, inr, Bool, true, false, Option, none, some, List, [], ◌∷◌, Result, ok, err, All,
}

-- `mongo.IsDuplicateKeyError`, and any other error.
pub data DbError : Type 0 where
  duplicate_key failure : DbError

module _ {D : Type 0} where
  -- One document `d` that passes the filter is updated, where it stands.
  pub data Replaced (p : D → Bool) (u : D → D) (d : D) : List D → List D → Type 0 where
    here : {x y : D} {xs : List D} → x ≡ d → p x ≡ true → y ≡ u x → Replaced p u d (x ∷ xs) (y ∷ xs)
    there : {x : D} {xs ys : List D} → Replaced p u d xs ys → Replaced p u d (x ∷ xs) (x ∷ ys)

  abbrev pub NoMatch : (D → Bool) → List D → Type 0
  NoMatch p xs = All (λ x. p x ≡ false) xs

  -- `FindOne`
  abbrev pub Found : (D → Bool) → List D → Result DbError (Option D) → Type 0
  Found p xs (ok (some d)) = Memᴰ d xs × (p d ≡ true)
  Found p xs (ok none) = NoMatch p xs
  Found p xs (err _) = Unit

  -- A call that failed may have been carried out by the server all the same.
  abbrev pub Unsure : (D → Bool) → (D → D) → List D → List D → Type 0
  Unsure p u xs ys = (ys ≡ xs) ⊎ ((d : D) × Replaced p u d xs ys)

  -- `UpdateOne`, with the number of documents that matched.
  abbrev pub Updated : (D → Bool) → (D → D) → List D → Result DbError ℕ → List D → Type 0
  Updated p u xs (ok n) ys =
      ((n ≡ 1) × ((d : D) × Replaced p u d xs ys)) ⊎ ((n ≡ 0) × NoMatch p xs × (ys ≡ xs))
  Updated p u xs (err _) ys = Unsure p u xs ys

  -- `FindOneAndUpdate` with a sort order, the document after the update returned: no document
  -- that passes the filter comes before the one that is updated.
  abbrev pub FoundUpdated :
      (D → Bool) → (D → D → Bool) → (D → D) → List D → Result DbError (Option D) → List D → Type 0
  FoundUpdated p before u xs (ok (some e)) ys =
      (d : D) × (e ≡ u d) × Replaced p u d xs ys × All (λ x. p x ≡ true → before x d ≡ false) xs
  FoundUpdated p before u xs (ok none) ys = NoMatch p xs × (ys ≡ xs)
  FoundUpdated p before u xs (err _) ys = Unsure p u xs ys

  -- `InsertOne`, under the unique indexes by which two documents conflict.
  abbrev pub Inserted : (D → D → Bool) → D → List D → Result DbError (Unit {0}) → List D → Type 0
  Inserted conflicts d xs (ok _) ys = All (λ x. conflicts x d ≡ false) xs × (ys ≡ d ∷ xs)
  Inserted conflicts d xs (err duplicate_key) ys =
      (ys ≡ xs) × ((x : D) × Memᴰ x xs × (conflicts x d ≡ true))
  Inserted conflicts d xs (err failure) ys =
      (ys ≡ xs) ⊎ (All (λ x. conflicts x d ≡ false) xs × (ys ≡ d ∷ xs))

  -- An unordered `BulkWrite` of update models: single updates, each by a model of the batch.
  pub data BulkUpdated (models : List ((D → Bool) × (D → D))) : List D → List D → Type 0 where
    done : {xs : List D} → BulkUpdated models xs xs
    next :
        {p : D → Bool} {u : D → D} {d : D} {xs ys zs : List D}
        → Memᴰ (p, u) models
        → Replaced p u d xs ys
        → BulkUpdated models ys zs
        → BulkUpdated models xs zs

  -- Every document moved by `R`, where it stands.
  abbrev pub Each : (D → D → Type 0) → List D → List D → Type 0
  Each R [] [] = Unit
  Each R [] (_ ∷ _) = ⊥
  Each R (_ ∷ _) [] = ⊥
  Each R (x ∷ xs) (y ∷ ys) = R x y × Each R xs ys

  pub Each-refl : (R : D → D → Type 0) → ((x : D) → R x x) → (xs : List D) → Each R xs xs
  Each-refl R r [] = tt
  Each-refl R r (x ∷ xs) = (r x, Each-refl R r xs)

  pub Each-trans :
      (R : D → D → Type 0)
      → ((x y z : D) → R x y → R y z → R x z)
      → (xs ys zs : List D) → Each R xs ys
      → Each R ys zs
      → Each R xs zs
  Each-trans R t [] [] [] h k = tt
  Each-trans R t [] [] (z ∷ zs) h k = k
  Each-trans R t [] (y ∷ ys) zs h k = absurd h
  Each-trans R t (x ∷ xs) [] zs h k = absurd h
  Each-trans R t (x ∷ xs) (y ∷ ys) [] h k = absurd k
  Each-trans R t (x ∷ xs) (y ∷ ys) (z ∷ zs) h k = (t x y z h.0 k.0, Each-trans R t xs ys zs h.1 k.1)

  pub Each-map :
      (R Q : D → D → Type 0)
      → ((x y : D) → R x y → Q x y)
      → (xs ys : List D) → Each R xs ys
      → Each Q xs ys
  Each-map R Q f [] [] h = tt
  Each-map R Q f [] (y ∷ ys) h = h
  Each-map R Q f (x ∷ xs) [] h = h
  Each-map R Q f (x ∷ xs) (y ∷ ys) h = (f x y h.0, Each-map R Q f xs ys h.1)

  -- What every move keeps holds of every document.
  pub Each-All :
      (R : D → D → Type 0) (P : D → Type 0)
      → ((x y : D) → R x y → P x → P y)
      → (xs ys : List D) → Each R xs ys
      → All P xs
      → All P ys
  Each-All R P f [] [] h a = tt
  Each-All R P f [] (y ∷ ys) h a = absurd h
  Each-All R P f (x ∷ xs) [] h a = tt
  Each-All R P f (x ∷ xs) (y ∷ ys) h a = (f x y h.0 a.0, Each-All R P f xs ys h.1 a.1)

  module _ (R : D → D → Type 0) (stay : (x : D) → R x x) where
    pub Replaced-Each :
        {p : D → Bool} {u : D → D} {d : D} {xs ys : List D}
        → ((x : D) → p x ≡ true → R x (u x))
        → Replaced p u d xs ys
        → Each R xs ys
    Replaced-Each {p} {u} {d} f (here {x} {y} {xs} e h k) = (rw k (f x h), Each-refl R stay xs)
    Replaced-Each f (there {x} r) = (stay x, Replaced-Each f r)

    pub Unsure-Each :
        {p : D → Bool} {u : D → D} {xs ys : List D}
        → ((x : D) → p x ≡ true → R x (u x))
        → Unsure p u xs ys
        → Each R xs ys
    Unsure-Each {xs} f (inl e) = rw e (Each-refl R stay xs)
    Unsure-Each f (inr (d, r)) = Replaced-Each f r

    pub Updated-Each :
        (p : D → Bool) (u : D → D) (xs : List D) (r : Result DbError ℕ) (ys : List D)
        → ((x : D) → p x ≡ true → R x (u x))
        → Updated p u xs r ys
        → Each R xs ys
    Updated-Each p u xs (ok n) ys f (inl (one, (d, r))) = Replaced-Each f r
    Updated-Each p u xs (ok n) ys f (inr (_, _, e)) = rw e (Each-refl R stay xs)
    Updated-Each p u xs (err e) ys f h = Unsure-Each f h

    pub FoundUpdated-Each :
        (p : D → Bool) (before : D → D → Bool) (u : D → D) (xs : List D)
        (r : Result DbError (Option D)) (ys : List D)
        → ((x : D) → p x ≡ true → R x (u x))
        → FoundUpdated p before u xs r ys
        → Each R xs ys
    FoundUpdated-Each p before u xs (ok (some e)) ys f (d, _, r, _) = Replaced-Each f r
    FoundUpdated-Each p before u xs (ok none) ys f (all, e) = rw e (Each-refl R stay xs)
    FoundUpdated-Each p before u xs (err e) ys f h = Unsure-Each f h

    pub BulkUpdated-Each :
        {models : List ((D → Bool) × (D → D))} {xs ys : List D}
        → ((x y z : D) → R x y → R y z → R x z)
        → ((p : D → Bool) (u : D → D) → Memᴰ (p, u) models → (x : D) → p x ≡ true → R x (u x))
        → BulkUpdated models xs ys
        → Each R xs ys
    BulkUpdated-Each t f (done {xs}) = Each-refl R stay xs
    BulkUpdated-Each t f (next {p} {u} {d} {xs} {ys} {zs} i r b) =
        Each-trans R t xs ys zs (Replaced-Each (f p u i) r) (BulkUpdated-Each t f b)
