-- ===== src/Users/Order.antt =====
-- The order of the pages, and a page of a sorted list of documents.
use mathlib.Core.List.{Memᴰ}
use nexus_services.Shared.{
  ℕ, zero, suc, ◌≡◌, ◌⊎◌, sym, subst, inl, inr, Bool, true, false, some, List, [], ◌∷◌, take, All,
  arith, Bool-cases,
}
use nexus_services.Text.{text_eq_iff, text_lt_asymm, text_lt_total}
use nexus_services.Mongo.{IsSortedBy, All-member, Distinct, Distinct-same}
use nexus_services.Users.Document.{UserDocument}
use nexus_services.Users.Repository.{same_user, key_before, listed_before, last_of}

pub listed_before_irrefl : (x : UserDocument) → listed_before x x ≡ false
unfolding listed_before key_before
listed_before_irrefl x = ground (arith, text_lt_asymm x.id x.id)

listed_before_total :
    (x y : UserDocument) → listed_before x y ≡ false → listed_before y x ≡ false → x.id ≡ y.id
unfolding listed_before key_before
listed_before_total x y h k = ground (arith, text_lt_total x.id y.id)

module _ {D : Type 0} (before : D → D → Bool) where
  -- A document is on the page, or after every document of the page.
  pub page_split :
      (n : ℕ) (xs : List D) (d : D)
      → IsSortedBy before xs
      → Memᴰ d xs
      → Memᴰ d (take n xs) ⊎ All (λ x. before d x ≡ false) (take n xs)
  page_split zero xs d s m = inr tt
  page_split (suc n) [] d s m = inr tt
  page_split (suc n) (x ∷ xs) d s (Memᴰ.head e) = inl (Memᴰ.head e)
  page_split (suc n) (x ∷ xs) d s (Memᴰ.tail m) = elim (page_split n xs d s.1 m) [
    | inl i ↦ inl (Memᴰ.tail i)
    | inr a ↦ inr (All-member (λ y. before y x ≡ false) xs d s.0 m, a)
  ]

  pub take-All : (P : D → Type 0) (n : ℕ) (xs : List D) → All P xs → All P (take n xs)
  take-All P zero xs a = tt
  take-All P (suc n) [] a = tt
  take-All P (suc n) (x ∷ xs) a = (a.0, take-All P n xs a.1)

  pub take-IsSortedBy : (n : ℕ) (xs : List D) → IsSortedBy before xs → IsSortedBy before (take n xs)
  take-IsSortedBy zero xs s = tt
  take-IsSortedBy (suc n) [] s = tt
  take-IsSortedBy (suc n) (x ∷ xs) s =
      (take-All (λ y. before y x ≡ false) n xs s.0, take-IsSortedBy n xs s.1)

  pub take-member : (n : ℕ) (xs : List D) (d : D) → Memᴰ d (take n xs) → Memᴰ d xs
  take-member zero xs d m = elim m [ ]
  take-member (suc n) [] d m = elim m [ ]
  take-member (suc n) (x ∷ xs) d (Memᴰ.head e) = Memᴰ.head e
  take-member (suc n) (x ∷ xs) d (Memᴰ.tail m) = Memᴰ.tail (take-member n xs d m)

  pub last_of-member : (xs : List D) (l : D) → last_of xs ≡ some l → Memᴰ l xs
  unfolding last_of
  last_of-member [] l h = absurd (cc)
  last_of-member (x ∷ []) l h = Memᴰ.head (ground arith)
  last_of-member (x ∷ y ∷ xs) l h = Memᴰ.tail (last_of-member (y ∷ xs) l h)

  -- The last document of a sorted list comes before none of it.
  pub last_of-sorted :
      ((x : D) → before x x ≡ false)
      → (xs : List D) (l d : D) → IsSortedBy before xs
      → last_of xs ≡ some l
      → Memᴰ d xs
      → before l d ≡ false
  unfolding last_of
  last_of-sorted irrefl [] l d s h m = absurd (cc)
  last_of-sorted irrefl (x ∷ []) l d s h (Memᴰ.head e) =
      let same : x ≡ l = ground arith in
      subst (λ z. before z d ≡ false) same (subst (λ z. before x z ≡ false) (sym e) (irrefl x))
  last_of-sorted irrefl (x ∷ []) l d s h (Memᴰ.tail m) = elim m [ ]
  last_of-sorted irrefl (x ∷ y ∷ xs) l d s h (Memᴰ.head e) =
      subst (λ z. before l z ≡ false) (sym e)
        (All-member (λ z. before z x ≡ false) (y ∷ xs) l s.0 (last_of-member (y ∷ xs) l h))
  last_of-sorted irrefl (x ∷ y ∷ xs) l d s h (Memᴰ.tail m) =
      last_of-sorted irrefl (y ∷ xs) l d s.1 h m

-- With different ids, a document that does not come before the last one of the page is on the page
-- or comes after the last one.
pub page_or_after :
    (n : ℕ) (xs docs : List UserDocument) (d last : UserDocument)
    → IsSortedBy listed_before xs
    → All (λ x. Memᴰ x docs) xs
    → Distinct same_user docs
    → last_of (take n xs) ≡ some last
    → Memᴰ d xs
    → Memᴰ d (take n xs) ⊎ (listed_before last d ≡ true)
page_or_after n xs docs d last s kept apart h m = elim (page_split listed_before n xs d s m) [
  | inl i ↦ inl i
  | inr later ↦
      let l = last_of-member listed_before (take n xs) last h in
      let ahead = All-member (λ x. listed_before d x ≡ false) (take n xs) last later l in
      elim (Bool-cases (listed_before last d)) [
        | inl b ↦ inr b
        | inr b ↦
            let one = listed_before_total last d b ahead in
            let same : last ≡ d =
              Distinct-same same_user docs last d apart
                (All-member (λ x. Memᴰ x docs) xs last kept (take-member listed_before n xs last l))
                (All-member (λ x. Memᴰ x docs) xs d kept m)
                (ground (arith, text_eq_iff last.id d.id))
                (ground (arith, text_eq_iff d.id last.id)) in
            inl (subst (λ x. Memᴰ x (take n xs)) same l)
      ]
]
