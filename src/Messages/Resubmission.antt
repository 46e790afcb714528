-- ===== src/Messages/Resubmission.antt =====
-- A message that was sent before is not created again.
use mathlib.Core.List.{Memᴰ}
use nexus_services.Shared.{
  ◌≡◌, refl, ap, sym, subst, ◌∙◌, Bool, Bool-cases, inl, inr, true, false, not, Option, none, some,
  List, [], ◌∷◌, Result, ok, err, arith, if◌then◌else◌,
}
use nexus_services.Mongo.{NoMatch}
use nexus_services.Domain.Timeline.{Item}
use nexus_services.Messages.Document.{
  CreateMessageParams, TimelineDocument, StoreError, invalid_create_params,
}
use nexus_services.Messages.Database.{Database, Db, documents, SameDocs, Transactions}
use nexus_services.Messages.Store.{
  CreateMessageResult, validate_create_params, same_identity, same_logical_message,
  resolve_existing_message,
}
use nexus_services.Messages.Creation.{find_existing_message, looked_up, create_with_outbox}
use nexus_services.Messages.Outcome.{Existing, find_existing_message_lem}

NoMatch-member :
    (q : TimelineDocument → Bool) (xs : List TimelineDocument) (d : TimelineDocument)
    → Memᴰ d xs
    → NoMatch q xs
    → q d ≡ false
NoMatch-member q [] d m n = elim m [ ]
NoMatch-member q (x ∷ xs) d (Memᴰ.head e) n = ap q e ∙ n.0
NoMatch-member q (x ∷ xs) d (Memᴰ.tail m) n = NoMatch-member q xs d m n.1

-- The answer creates nothing, and any message in it is the one that was asked for.
abbrev pub IsRepeat : CreateMessageParams → Result StoreError CreateMessageResult → Type 0
IsRepeat p (ok x) = (x.created ≡ false) × (same_logical_message x.item p ≡ true)
IsRepeat p (err _) = Unit

resolve_existing_message-IsRepeat :
    (p : CreateMessageParams) (item : Item) → IsRepeat p (resolve_existing_message item p)
unfolding resolve_existing_message
resolve_existing_message-IsRepeat p item = elim (Bool-cases (same_logical_message item p)) [
  | inl e ↦ rw e (refl, e)
  | inr e ↦ rw e tt
]

module _ (b : Database) (transactions : Transactions b) (others : Db b → Db b) where
  looked_up-IsRepeat :
      (p : CreateMessageParams) (d : TimelineDocument) (r : Result StoreError (Option Item))
      (s : Db b)
      → Memᴰ d (documents b s).timeline
      → same_identity p d ≡ true
      → Existing p (documents b s).timeline r
      → let (answer, end) = looked_up b transactions others p r s in
        SameDocs b s end × IsRepeat p answer
  unfolding looked_up
  looked_up-IsRepeat p d (err e) s m h f = (refl, tt)
  looked_up-IsRepeat p d (ok (some item)) s m h f = (refl, resolve_existing_message-IsRepeat p item)
  looked_up-IsRepeat p d (ok none) s m h f =
      let none_found = NoMatch-member (same_identity p) (documents b s).timeline d m f in
      absurd (ground arith)

  -- When the timeline has a message of this sender with this client message id, whoever wrote it,
  -- a creation under the same identity changes no document, whether or not the driver fails, and
  -- it answers with a message only when that message is in the same chat with the same content.
  pub create_with_outbox-IsRepeat :
      (p : CreateMessageParams) (d : TimelineDocument) (s : Db b)
      → Memᴰ d (documents b s).timeline
      → same_identity p d ≡ true
      → let (answer, end) = create_with_outbox b transactions others p s in
        SameDocs b s end × IsRepeat p answer
  unfolding create_with_outbox
  create_with_outbox-IsRepeat p d s m h = go (validate_create_params p)
    where
      go :
          (test : Bool)
          → let (answer, end) : Result StoreError CreateMessageResult × Db b =
              if not test
              then (err invalid_create_params, s)
              else looked_up b transactions others p
                  (find_existing_message b transactions others p s).0
                  (find_existing_message b transactions others p s).1 in
            SameDocs b s end × IsRepeat p answer
      go false = (refl, tt)
      go true =
          let t = (find_existing_message b transactions others p s).1 in
          let (same, found) = find_existing_message_lem b transactions others p s in
          let (kept, repeat) =
            looked_up-IsRepeat p d _ t (subst (λ y. Memᴰ d y.timeline) (sym same) m) h found in
          (kept ∙ same, repeat)
