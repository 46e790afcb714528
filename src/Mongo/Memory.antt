-- ===== src/Mongo/Memory.antt =====
-- A collection kept in a list, whose calls do not fail: the laws of the interface can be met.
use mathlib.Core.List.{Memᴰ}
use nexus_services.Shared.{
  ℕ, ◌+◌, ◌≡◌, refl, inl, inr, Bool, true, false, not, ◌&&◌, Option, none, some, List, [], ◌∷◌,
  take, Result, ok, err, All, arith, if◌then◌else◌, All-map,
}
use nexus_services.Mongo.Outcomes.{
  DbError, duplicate_key, failure, NoMatch, Replaced, here, there, Found, Updated, FoundUpdated,
  Inserted, BulkUpdated, done, next,
}
use nexus_services.Mongo.Members.{All-member}
use nexus_services.Mongo.Sorting.{
  is_sorted_by, is_sorted_by_lem, sort_by, insert_by, sort_by-All, sort_by-member,
}
use nexus_services.Mongo.Interface.{Collection, Listed, count_of}

module _ {D : Type 0} where
  -- The first document that passes the filter, and the documents with it updated.
  pub pick : (D → Bool) → (D → D) → List D → Option (D × List D)
  pick p u [] = none
  pick p u (x ∷ xs) = elim (p x) [
    | true ↦ some (x, u x ∷ xs)
    | false ↦ elim (pick p u xs) [ none ↦ none | some (d, ys) ↦ some (d, x ∷ ys) ]
  ]

  abbrev Picks : (D → Bool) → (D → D) → List D → Option (D × List D) → Type 0
  Picks p u xs none = NoMatch p xs
  Picks p u xs (some (d, ys)) = Replaced p u d xs ys × Memᴰ d xs × (p d ≡ true)

  pick-Picks : (p : D → Bool) (u : D → D) (xs : List D) → Picks p u xs (pick p u xs)
  unfolding pick
  pick-Picks p u [] = tt
  pick-Picks p u (x ∷ xs) = go (p x) refl (pick p u xs) (pick-Picks p u xs)
    where
      go :
          (b : Bool)
          → p x ≡ b
          → (r : Option (D × List D)) → Picks p u xs r
          → Picks p u (x ∷ xs) (elim b [
            | true ↦ some (x, u x ∷ xs)
            | false ↦ elim r [ none ↦ none | some (d, ys) ↦ some (d, x ∷ ys) ]
          ])
      go true e r h = (here refl e refl, Memᴰ.head refl, e)
      go false e none h = (e, h)
      go false e (some (d, ys)) h = (there h.0, Memᴰ.tail h.1, h.2)

  pub mem_find_one : (D → Bool) → List D → Result DbError (Option D) × List D
  mem_find_one p xs = (ok (elim (pick p (λ d. d) xs) [ none ↦ none | some (d, _) ↦ some d ]), xs)

  pub mem_find_one_law :
      (p : D → Bool) (xs : List D) → Found p xs (mem_find_one p xs).0 × ((mem_find_one p xs).1 ≡ xs)
  unfolding mem_find_one
  mem_find_one_law p xs = (go (pick p (λ d. d) xs) (pick-Picks p (λ d. d) xs), refl)
    where
      go :
          (r : Option (D × List D))
          → Picks p (λ d. d) xs r
          → Found p xs (ok (elim r [ none ↦ none | some (d, _) ↦ some d ]))
      go none h = h
      go (some (d, ys)) h = (h.1, h.2)

  pub mem_update_one : (D → Bool) → (D → D) → List D → Result DbError ℕ × List D
  mem_update_one p u xs = elim (pick p u xs) [ none ↦ (ok 0, xs) | some (_, ys) ↦ (ok 1, ys) ]

  pub mem_update_one_law :
      (p : D → Bool) (u : D → D) (xs : List D)
      → Updated p u xs (mem_update_one p u xs).0 (mem_update_one p u xs).1
  unfolding mem_update_one
  mem_update_one_law p u xs = go (pick p u xs) (pick-Picks p u xs)
    where
      go :
          (r : Option (D × List D))
          → Picks p u xs r
          → let s : Result DbError ℕ × List D = elim r [
            | none ↦ (ok 0, xs)
            | some (_, ys) ↦ (ok 1, ys)
          ] in
            Updated p u xs s.0 s.1
      go none h = inr (refl, h, refl)
      go (some (d, ys)) h = inl (refl, (d, h.0))

  -- No document that passes the filter comes before `d`.
  leads : (D → Bool) → (D → D → Bool) → List D → D → Bool
  leads p before [] d = true
  leads p before (x ∷ xs) d = not (p x && before x d) && leads p before xs d

  leads-All :
      (p : D → Bool) (before : D → D → Bool) (xs : List D) (d : D)
      → leads p before xs d ≡ true
      → All (λ x. p x ≡ true → before x d ≡ false) xs
  unfolding leads
  leads-All p before [] d h = tt
  leads-All p before (x ∷ xs) d h = (λ e. ground arith, leads-All p before xs d (ground arith))

  -- A sort order that leaves no document first is answered by an error.
  pub mem_find_one_and_update :
      (D → Bool) → (D → D → Bool) → (D → D) → List D → Result DbError (Option D) × List D
  mem_find_one_and_update p before u xs = elim (pick (λ d. p d && leads p before xs d) u xs) [
    | some (d, ys) ↦ (ok (some (u d)), ys)
    | none ↦ elim (pick p u xs) [ none ↦ (ok none, xs) | some _ ↦ (err failure, xs) ]
  ]

  weaken-Replaced :
      {p q : D → Bool} {u : D → D} {d : D} {xs ys : List D}
      → ((x : D) → q x ≡ true → p x ≡ true)
      → Replaced q u d xs ys
      → Replaced p u d xs ys
  weaken-Replaced f (here {x} e h k) = here e (f x h) k
  weaken-Replaced f (there r) = there (weaken-Replaced f r)

  pub mem_find_one_and_update_law :
      (p : D → Bool) (before : D → D → Bool) (u : D → D) (xs : List D)
      → FoundUpdated p before u xs
          (mem_find_one_and_update p before u xs).0
          (mem_find_one_and_update p before u xs).1
  unfolding mem_find_one_and_update
  mem_find_one_and_update_law p before u xs =
      go (pick q u xs) (pick-Picks q u xs) (pick p u xs) (pick-Picks p u xs)
    where
      q : D → Bool
      q d = p d && leads p before xs d

      both : (x : D) → q x ≡ true → (p x ≡ true) × (leads p before xs x ≡ true)
      both x h = ground arith

      go :
          (r : Option (D × List D))
          → Picks q u xs r
          → (t : Option (D × List D)) → Picks p u xs t
          → let s : Result DbError (Option D) × List D = elim r [
            | some (d, ys) ↦ (ok (some (u d)), ys)
            | none ↦ elim t [ none ↦ (ok none, xs) | some _ ↦ (err failure, xs) ]
          ] in
            FoundUpdated p before u xs s.0 s.1
      go none h none k = (k, refl)
      go none h (some t) k = inl refl
      go (some (d, ys)) h t k = (
        d,
        refl,
        weaken-Replaced (λ x e. (both x e).0) h.0,
        leads-All p before xs d (both d h.2).1,
      )

  abbrev pub Picked : (D → Bool) → List D → D → Type 0
  Picked p xs d = Memᴰ d xs × (p d ≡ true)

  -- The documents that pass the filter, in the order in which they are kept.
  pub select : (D → Bool) → List D → List D
  select p [] = []
  select p (x ∷ xs) = let rest = select p xs in if p x then x ∷ rest else rest

  pub select-Picked : (p : D → Bool) (xs : List D) → All (Picked p xs) (select p xs)
  unfolding select
  select-Picked p [] = tt
  select-Picked p (x ∷ xs) = go (p x) refl (
      All-map (Picked p xs) (Picked p (x ∷ xs)) (λ d h. (Memᴰ.tail h.0, h.1)) (select p xs)
        (select-Picked p xs))
    where
      go :
          (b : Bool)
          → p x ≡ b
          → All (Picked p (x ∷ xs)) (select p xs)
          → All (Picked p (x ∷ xs)) (if b then x ∷ select p xs else select p xs)
      go true e rest = ((Memᴰ.head refl, e), rest)
      go false e rest = rest

  select-member : (p : D → Bool) (xs : List D) → All (λ d. p d ≡ true → Memᴰ d (select p xs)) xs
  unfolding select
  select-member p [] = tt
  select-member p (x ∷ xs) = go (p x) refl (select-member p xs)
    where
      go :
          (b : Bool)
          → p x ≡ b
          → All (λ d. p d ≡ true → Memᴰ d (select p xs)) xs
          → All (λ d. p d ≡ true → Memᴰ d (if b then x ∷ select p xs else select p xs)) (x ∷ xs)
      go true e rest = (
        λ _. Memᴰ.head refl,
        All-map (λ d. p d ≡ true → Memᴰ d (select p xs))
            (λ d. p d ≡ true → Memᴰ d (x ∷ select p xs)) (λ d m h. Memᴰ.tail (m h)) xs rest,
      )
      go false e rest = (λ h. absurd (cc), rest)

  -- A sort order that sorts nothing is answered by an error.
  pub mem_find : (D → Bool) → (D → D → Bool) → ℕ → List D → Result DbError (List D)
  mem_find p before limit xs =
      let whole = sort_by before (select p xs) in
      if is_sorted_by before whole then ok (take limit whole) else err failure

  pub mem_find_law :
      (p : D → Bool) (before : D → D → Bool) (limit : ℕ) (xs : List D)
      → Listed p before limit xs (mem_find p before limit xs)
  unfolding mem_find
  mem_find_law p before limit xs = go (is_sorted_by before whole) refl
    where
      whole : List D
      whole = sort_by before (select p xs)

      go :
          (b : Bool)
          → is_sorted_by before whole ≡ b
          → Listed p before limit xs (if b then ok (take limit whole) else err failure)
      go true e = (
        whole,
        is_sorted_by_lem before whole e,
        sort_by-All before (Picked p xs) (select p xs) (select-Picked p xs),
        All-map (λ d. p d ≡ true → Memᴰ d (select p xs)) (λ d. p d ≡ true → Memᴰ d whole)
            (λ d m h.
              All-member (λ x. Memᴰ x whole) (select p xs) d (sort_by-member before (select p xs))
                (m h))
            xs (select-member p xs),
        refl,
      )
      go false e = tt

  pub mem_bulk_write : List ((D → Bool) × (D → D)) → List D → ℕ × List D
  mem_bulk_write [] xs = (0, xs)
  mem_bulk_write ((p, u) ∷ models) xs = elim (pick p u xs) [
    | none ↦ mem_bulk_write models xs
    | some (_, ys) ↦ let (n, zs) = mem_bulk_write models ys in (n + 1, zs)
  ]

  more-BulkUpdated :
      {m : (D → Bool) × (D → D)} {models : List ((D → Bool) × (D → D))} {xs ys : List D}
      → BulkUpdated models xs ys
      → BulkUpdated (m ∷ models) xs ys
  more-BulkUpdated done = done
  more-BulkUpdated (next i r b) = next (Memᴰ.tail i) r (more-BulkUpdated b)

  pub mem_bulk_write_law :
      (models : List ((D → Bool) × (D → D))) (xs : List D)
      → BulkUpdated models xs (mem_bulk_write models xs).1
  unfolding mem_bulk_write
  mem_bulk_write_law [] xs = done
  mem_bulk_write_law ((p, u) ∷ models) xs =
      go (pick p u xs) (pick-Picks p u xs) (λ ys. mem_bulk_write models ys)
        (λ ys. mem_bulk_write_law models ys)
    where
      go :
          (r : Option (D × List D))
          → Picks p u xs r
          → (rest : List D → ℕ × List D) → ((ys : List D) → BulkUpdated models ys (rest ys).1)
          → let s : ℕ × List D = elim r [
            | none ↦ rest xs
            | some (_, ys) ↦ let (n, zs) = rest ys in (n + 1, zs)
          ] in
            BulkUpdated ((p, u) ∷ models) xs s.1
      go none h rest law = more-BulkUpdated (law xs)
      go (some (d, ys)) h rest law = next (Memᴰ.head refl) h.0 (more-BulkUpdated (law ys))

  module _ (conflicts : D → D → Bool) where
    pub mem_insert_one : D → List D → Result DbError (Unit {0}) × List D
    mem_insert_one d xs = elim (pick (λ x. conflicts x d) (λ x. x) xs) [
      | some _ ↦ (err duplicate_key, xs)
      | none ↦ (ok tt, d ∷ xs)
    ]

    pub mem_insert_one_law :
        (d : D) (xs : List D)
        → Inserted conflicts d xs (mem_insert_one d xs).0 (mem_insert_one d xs).1
    unfolding mem_insert_one
    mem_insert_one_law d xs =
        go (pick (λ x. conflicts x d) (λ x. x) xs) (pick-Picks (λ x. conflicts x d) (λ x. x) xs)
      where
        go :
            (r : Option (D × List D))
            → Picks (λ x. conflicts x d) (λ x. x) xs r
            → let s : Result DbError (Unit {0}) × List D = elim r [
              | some _ ↦ (err duplicate_key, xs)
              | none ↦ (ok tt, d ∷ xs)
            ] in
              Inserted conflicts d xs s.0 s.1
        go none h = (h, refl)
        go (some (x, ys)) h = (refl, (x, h.1, h.2))

    unfoldable pub memory : Collection D conflicts
    unfolding pick select mem_find sort_by insert_by is_sorted_by mem_find_one mem_update_one leads
        mem_find_one_and_update mem_bulk_write mem_insert_one
    memory = record {
      State = List D;
      docs = λ xs. xs;
      find_one = mem_find_one;
      find = λ p before limit xs. (mem_find p before limit xs, xs);
      count_documents = λ p xs. (ok (count_of p xs), xs);
      update_one = mem_update_one;
      find_one_and_update = mem_find_one_and_update;
      insert_one = mem_insert_one;
      bulk_write = λ models xs. let (n, ys) = mem_bulk_write models xs in (ok n, ys);
      find_one_law = mem_find_one_law;
      find_law = λ p before limit xs. (mem_find_law p before limit xs, refl);
      count_documents_law = λ p xs. (refl, refl);
      update_one_law = mem_update_one_law;
      find_one_and_update_law = mem_find_one_and_update_law;
      insert_one_law = mem_insert_one_law;
      bulk_write_law = mem_bulk_write_law;
    }
