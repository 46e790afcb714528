-- ===== src/Mongo/Upserting.antt =====
-- `FindOneAndUpdate` with an upsert whose only operator is `$setOnInsert`, the document before the
-- update returned: a document that passes the filter stays as it is, and without one the new
-- document is inserted, under the unique indexes.
use mathlib.Core.List.{Memᴰ}
use nexus_services.Shared.{
  ◌≡◌, refl, ◌⊎◌, inl, inr, Bool, true, false, Option, none, some, List, ◌∷◌, Result, ok, err, All,
}
use nexus_services.Mongo.Outcomes.{DbError, duplicate_key, failure, NoMatch, Found, Inserted}
use nexus_services.Mongo.Interface.{Collection}
use nexus_services.Mongo.Memory.{
  memory, mem_find_one, mem_find_one_law, mem_insert_one, mem_insert_one_law,
}

module _ {D : Type 0} where
  -- The new document is there, and none that passes the filter or conflicts was.
  abbrev pub Added : (D → D → Bool) → (D → Bool) → D → List D → List D → Type 0
  Added conflicts p d xs ys = NoMatch p xs × All (λ x. conflicts x d ≡ false) xs × (ys ≡ d ∷ xs)

  abbrev pub Upserted :
      (D → D → Bool) → (D → Bool) → D → List D → Result DbError (Option D) → List D → Type 0
  Upserted conflicts p d xs (ok (some e)) ys = Memᴰ e xs × (p e ≡ true) × (ys ≡ xs)
  Upserted conflicts p d xs (ok none) ys = Added conflicts p d xs ys
  Upserted conflicts p d xs (err duplicate_key) ys = ys ≡ xs
  Upserted conflicts p d xs (err failure) ys = (ys ≡ xs) ⊎ Added conflicts p d xs ys

pub record Upserts {D : Type 0} {conflicts : D → D → Bool} (collection : Collection D conflicts)
    : Type 0 where
  pub find_or_insert :
      (D → Bool) → D → collection.State → Result DbError (Option D) × collection.State
  pub find_or_insert_law :
      (p : D → Bool) (d : D) (s : collection.State)
      → Upserted conflicts p d
          (collection.docs s)
          (find_or_insert p d s).0
          (collection.docs (find_or_insert p d s).1)

module _ {D : Type 0} (conflicts : D → D → Bool) where
  -- After the search, the insertion.
  insertion : D → Result DbError (Option D) → List D → Result DbError (Option D) × List D
  insertion d (ok none) xs =
      let (r, ys) = mem_insert_one conflicts d xs in (elim r [ ok _ ↦ ok none | err e ↦ err e ], ys)
  insertion d r xs = (r, xs)

  pub mem_find_or_insert : (D → Bool) → D → List D → Result DbError (Option D) × List D
  unfolding insertion
  mem_find_or_insert p d xs = insertion d (mem_find_one p xs).0 xs

  pub mem_find_or_insert_law :
      (p : D → Bool) (d : D) (xs : List D)
      → Upserted conflicts p d xs (mem_find_or_insert p d xs).0 (mem_find_or_insert p d xs).1
  unfolding mem_find_or_insert insertion
  mem_find_or_insert_law p d xs = go (mem_find_one p xs).0 (mem_find_one_law p xs).0
    where
      inserted :
          (r : Result DbError (Unit {0})) (ys : List D)
          → NoMatch p xs
          → Inserted conflicts d xs r ys
          → Upserted conflicts p d xs (elim r [ ok _ ↦ ok none | err e ↦ err e ]) ys
      inserted (ok _) ys n h = (n, h.0, h.1)
      inserted (err duplicate_key) ys n h = h.0
      inserted (err failure) ys n (inl h) = inl h
      inserted (err failure) ys n (inr h) = inr (n, h.0, h.1)

      go :
          (r : Result DbError (Option D))
          → Found p xs r
          → Upserted conflicts p d xs (insertion d r xs).0 (insertion d r xs).1
      go (ok none) h =
          let out = mem_insert_one conflicts d xs in
          inserted out.0 out.1 h (mem_insert_one_law conflicts d xs)
      go (ok (some e)) h = (h.0, h.1, refl)
      go (err duplicate_key) h = refl
      go (err failure) h = inl refl

  unfoldable pub memory_upserts : Upserts (memory conflicts)
  unfolding memory mem_find_or_insert
  memory_upserts = record {
    find_or_insert = mem_find_or_insert;
    find_or_insert_law = mem_find_or_insert_law;
  }
