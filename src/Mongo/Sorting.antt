-- ===== src/Mongo/Sorting.antt =====
-- Sorted lists of documents, and a sort.
use mathlib.Core.List.{Memᴰ}
use nexus_services.Shared.{
  ◌≡◌, refl, Bool, true, false, not, ◌&&◌, List, [], ◌∷◌, All, All-map, arith, if◌then◌else◌,
}

module _ {D : Type 0} where
  -- No later document comes before an earlier one.
  abbrev pub IsSortedBy : (D → D → Bool) → List D → Type 0
  IsSortedBy before [] = Unit
  IsSortedBy before (x ∷ xs) = All (λ y. before y x ≡ false) xs × IsSortedBy before xs

  unfoldable pub insert_by : (D → D → Bool) → D → List D → List D
  insert_by before x [] = x ∷ []
  insert_by before x (y ∷ ys) =
      let rest = insert_by before x ys in if before x y then x ∷ y ∷ ys else y ∷ rest

  unfoldable pub sort_by : (D → D → Bool) → List D → List D
  sort_by before [] = []
  sort_by before (x ∷ xs) = insert_by before x (sort_by before xs)

  none_before : (D → D → Bool) → D → List D → Bool
  none_before before x [] = true
  none_before before x (y ∷ ys) = not (before y x) && none_before before x ys

  unfoldable pub is_sorted_by : (D → D → Bool) → List D → Bool
  unfolding none_before
  is_sorted_by before [] = true
  is_sorted_by before (x ∷ xs) = none_before before x xs && is_sorted_by before xs

  none_before_lem :
      (before : D → D → Bool) (x : D) (ys : List D)
      → none_before before x ys ≡ true
      → All (λ y. before y x ≡ false) ys
  unfolding none_before
  none_before_lem before x [] h = tt
  none_before_lem before x (y ∷ ys) h = (ground arith, none_before_lem before x ys (ground arith))

  pub is_sorted_by_lem :
      (before : D → D → Bool) (xs : List D) → is_sorted_by before xs ≡ true → IsSortedBy before xs
  unfolding is_sorted_by
  is_sorted_by_lem before [] h = tt
  is_sorted_by_lem before (x ∷ xs) h =
      (none_before_lem before x xs (ground arith), is_sorted_by_lem before xs (ground arith))

  insert_by-All :
      (before : D → D → Bool) (P : D → Type 0) (x : D) (ys : List D)
      → P x
      → All P ys
      → All P (insert_by before x ys)
  unfolding insert_by
  insert_by-All before P x [] p a = (p, tt)
  insert_by-All before P x (y ∷ ys) p a = go (before x y) (insert_by-All before P x ys p a.1)
    where
      go :
          (b : Bool)
          → All P (insert_by before x ys)
          → All P (if b then x ∷ y ∷ ys else y ∷ insert_by before x ys)
      go true h = (p, a)
      go false h = (a.0, h)

  pub sort_by-All :
      (before : D → D → Bool) (P : D → Type 0) (xs : List D) → All P xs → All P (sort_by before xs)
  unfolding sort_by
  sort_by-All before P [] a = tt
  sort_by-All before P (x ∷ xs) a =
      insert_by-All before P x (sort_by before xs) a.0 (sort_by-All before P xs a.1)

  insert_by-new : (before : D → D → Bool) (x : D) (ys : List D) → Memᴰ x (insert_by before x ys)
  unfolding insert_by
  insert_by-new before x [] = Memᴰ.head refl
  insert_by-new before x (y ∷ ys) = go (before x y) (insert_by-new before x ys)
    where
      go :
          (b : Bool)
          → Memᴰ x (insert_by before x ys)
          → Memᴰ x (if b then x ∷ y ∷ ys else y ∷ insert_by before x ys)
      go true h = Memᴰ.head refl
      go false h = Memᴰ.tail h

  insert_by-old :
      (before : D → D → Bool) (x d : D) (ys : List D) → Memᴰ d ys → Memᴰ d (insert_by before x ys)
  unfolding insert_by
  insert_by-old before x d [] m = elim m [ ]
  insert_by-old before x d (y ∷ ys) m = go (before x y) (λ h. insert_by-old before x d ys h) m
    where
      go :
          (b : Bool)
          → (Memᴰ d ys → Memᴰ d (insert_by before x ys))
          → Memᴰ d (y ∷ ys)
          → Memᴰ d (if b then x ∷ y ∷ ys else y ∷ insert_by before x ys)
      go true h m = Memᴰ.tail m
      go false h (Memᴰ.head e) = Memᴰ.head e
      go false h (Memᴰ.tail m) = Memᴰ.tail (h m)

  pub sort_by-member :
      (before : D → D → Bool) (xs : List D) → All (λ d. Memᴰ d (sort_by before xs)) xs
  unfolding sort_by
  sort_by-member before [] = tt
  sort_by-member before (x ∷ xs) = (
    insert_by-new before x (sort_by before xs),
    All-map (λ d. Memᴰ d (sort_by before xs)) (λ d. Memᴰ d (insert_by before x (sort_by before xs)))
        (λ d m. insert_by-old before x d (sort_by before xs) m) xs (sort_by-member before xs),
  )
