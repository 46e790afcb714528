-- ===== src/Mongo/Interface.antt =====
-- A collection: its calls, each with the law of its outcome.
use mathlib.Core.List.{Memᴰ}
use nexus_services.Shared.{
  ℕ, ◌+◌, [], ◌∷◌, if◌then◌else◌, ◌≡◌, Bool, true, Option, List, take, Result, ok, err, All,
}
use nexus_services.Mongo.Sorting.{IsSortedBy}
use nexus_services.Mongo.Outcomes.{DbError, Found, Updated, FoundUpdated, Inserted, BulkUpdated}

-- `Find` with a sort order and a limit: the first `limit` of the documents that pass the filter, in
-- the order.
abbrev pub Listed :
    {D : Type 0} → (D → Bool) → (D → D → Bool) → ℕ → List D → Result DbError (List D) → Type 0
Listed {D} p before limit xs (ok ds) =
    (whole : List D) × IsSortedBy before whole
    × All (λ d. Memᴰ d xs × (p d ≡ true)) whole
    × All (λ d. p d ≡ true → Memᴰ d whole) xs
    × (ds ≡ take limit whole)
Listed p before limit xs (err _) = Unit

-- `CountDocuments`
abbrev pub count_of : {D : Type 0} → (D → Bool) → List D → ℕ
count_of p [] = 0
count_of p (x ∷ xs) = (if p x then 1 else 0) + count_of p xs

abbrev pub Counted : {D : Type 0} → (D → Bool) → List D → Result DbError ℕ → Type 0
Counted p xs (ok n) = n ≡ count_of p xs
Counted p xs (err _) = Unit

pub record Collection (D : Type 0) (conflicts : D → D → Bool) : Type 1 where
  -- The server's state of the collection; only its documents matter.
  pub State : Type 0
  pub docs : State → List D
  -- The calls.
  pub find_one : (D → Bool) → State → Result DbError (Option D) × State
  pub find : (D → Bool) → (D → D → Bool) → ℕ → State → Result DbError (List D) × State
  pub count_documents : (D → Bool) → State → Result DbError ℕ × State
  pub update_one : (D → Bool) → (D → D) → State → Result DbError ℕ × State
  pub find_one_and_update :
      (D → Bool) → (D → D → Bool) → (D → D) → State → Result DbError (Option D) × State
  pub insert_one : D → State → Result DbError (Unit {0}) × State
  pub bulk_write : List ((D → Bool) × (D → D)) → State → Result DbError ℕ × State
  -- Their documented outcomes.
  pub find_one_law :
      (p : D → Bool) (s : State)
      → Found p (docs s) (find_one p s).0 × (docs (find_one p s).1 ≡ docs s)
  pub find_law :
      (p : D → Bool) (before : D → D → Bool) (limit : ℕ) (s : State)
      → Listed p before limit (docs s) (find p before limit s).0
        × (docs (find p before limit s).1 ≡ docs s)
  pub count_documents_law :
      (p : D → Bool) (s : State)
      → Counted p (docs s) (count_documents p s).0 × (docs (count_documents p s).1 ≡ docs s)
  pub update_one_law :
      (p : D → Bool) (u : D → D) (s : State)
      → Updated p u (docs s) (update_one p u s).0 (docs (update_one p u s).1)
  pub find_one_and_update_law :
      (p : D → Bool) (before : D → D → Bool) (u : D → D) (s : State)
      → FoundUpdated p before u
          (docs s)
          (find_one_and_update p before u s).0
          (docs (find_one_and_update p before u s).1)
  pub insert_one_law :
      (d : D) (s : State)
      → Inserted conflicts d (docs s) (insert_one d s).0 (docs (insert_one d s).1)
  pub bulk_write_law :
      (models : List ((D → Bool) × (D → D))) (s : State)
      → BulkUpdated models (docs s) (docs (bulk_write models s).1)
