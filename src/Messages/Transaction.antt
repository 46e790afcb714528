-- ===== src/Messages/Transaction.antt =====
-- What the operation of the transaction has done when it succeeds: all four writes, together.
use nexus_services.Shared.{
  ℕ, ◌+◌, ◌≤◌, ◌≡◌, refl, ap, ◌∙◌, sym, subst, ◌⊎◌, inl, inr, Bool, true, false, not, Option, none,
  some, List, ◌∷◌, Result, ok, err, All, arith, map_err, if◌then◌else◌,
}
use nexus_services.Shared.Actions.{Action, ◌>>=◌, bind_ok}
use nexus_services.Shared.Int.{pos}
use nexus_services.Mongo.{DbError, Replaced, Updated, FoundUpdated, Inserted}
use nexus_services.Domain.Timeline.{Sequence, max_sequence}
use nexus_services.Domain.Timeline.Identities.{parse_sequence_iff}
use nexus_services.Chats.Document.{ChatDocument}
use nexus_services.Images.Document.{ImageDocument}
use nexus_services.Outbox.Document.{OutboxDocument}
use nexus_services.Outbox.Repository.{same_id}
use nexus_services.Messages.Document.{
  CreateMessageParams, TimelineDocument, StoreError, images_required, database,
  new_timeline_document, new_outbox_document,
}
use nexus_services.Messages.Database.{Database, Db, Documents, documents, timeline_conflicts}
use nexus_services.Messages.Store.{
  is_image, attachable, attach, attach_image, chat_of, advance, allocate_sequence, allocated,
  one_modified, insert_timeline, insert_outbox, create_operation,
}

abbrev pub ImageWritten : CreateMessageParams → List ImageDocument → List ImageDocument → Type 0
ImageWritten p xs ys =
    ((is_image p ≡ true) × ((d : ImageDocument) × Replaced (attachable p) (attach p) d xs ys))
    ⊎ ((is_image p ≡ false) × (ys ≡ xs))

abbrev pub ChatWritten :
    CreateMessageParams → Sequence → List ChatDocument → List ChatDocument → Type 0
ChatWritten p n xs ys =
    (c : ChatDocument) × Replaced (chat_of p) (advance p) c xs ys
    × (n ≡ c.last_sequence + 1)
    × (n ≤ max_sequence)

-- The message has the next sequence of its chat, its document and its event are new, and its image,
-- if it is an image message, is attached to it.
pub record Created (p : CreateMessageParams) (n : Sequence) (x y : Documents) : Type 0 where
  pub chat_written : ChatWritten p n x.chats y.chats
  pub message_fresh : All (λ d. timeline_conflicts d (new_timeline_document p n) ≡ false) x.timeline
  pub message_added : y.timeline ≡ new_timeline_document p n ∷ x.timeline
  pub event_fresh : All (λ d. same_id d (new_outbox_document p n) ≡ false) x.outbox
  pub event_added : y.outbox ≡ new_outbox_document p n ∷ x.outbox
  pub image_written : ImageWritten p x.images y.images

module _ (b : Database) where
  -- All but the images stay.
  abbrev Imaged : CreateMessageParams → Db b → Db b → Type 0
  Imaged p s t =
      ImageWritten p (b.images.docs s.images) (b.images.docs t.images)
      × (t.chats ≡ s.chats)
      × (t.timeline ≡ s.timeline)
      × (t.outbox ≡ s.outbox)

  attach_image_lem :
      (p : CreateMessageParams) (s : Db b) {u : Unit {0}}
      → (attach_image b p s).0 ≡ ok u
      → Imaged p s (attach_image b p s).1
  unfolding attach_image one_modified
  attach_image_lem p s {u} = go (is_image p) b.has_images refl
    where
      written :
          (r : Result DbError ℕ) (ys : List ImageDocument)
          → Updated (attachable p) (attach p) (b.images.docs s.images) r ys
          → is_image p ≡ true
          → one_modified b r ≡ ok u
          → ImageWritten p (b.images.docs s.images) ys
      written (ok n) ys (inl h) e k = inl (e, h.1)
      written (ok n) ys (inr h) e k = absurd (ground arith)
      written (err x) ys h e k = absurd (ground arith)

      go :
          (image available : Bool)
          → is_image p ≡ image
          → let r : Result StoreError (Unit {0}) × Db b =
              if not image
              then (ok tt, s)
              else if not available
              then (err images_required, s)
              else (
                one_modified b (b.images.update_one (attachable p) (attach p) s.images).0,
                record s { images = (b.images.update_one (attachable p) (attach p) s.images).1 },
              ) in
            r.0 ≡ ok u → Imaged p s r.1
      go false _ e k = (inr (e, refl), refl, refl, refl)
      go true false e k = absurd (ground arith)
      go true true e k = (
        written _ _ (b.images.update_one_law (attachable p) (attach p) s.images) e k,
        refl,
        refl,
        refl,
      )

  -- All but the chats stay.
  abbrev Advanced : CreateMessageParams → Sequence → Db b → Db b → Type 0
  Advanced p n s t =
      ChatWritten p n (b.chats.docs s.chats) (b.chats.docs t.chats)
      × (t.timeline ≡ s.timeline)
      × (t.outbox ≡ s.outbox)
      × (t.images ≡ s.images)

  allocate_sequence_lem :
      (p : CreateMessageParams) (s : Db b) {n : Sequence}
      → (allocate_sequence b p s).0 ≡ ok n
      → Advanced p n s (allocate_sequence b p s).1
  unfolding allocate_sequence allocated advance
  allocate_sequence_lem p s {n} h = (
    go _ _ (b.chats.find_one_and_update_law (chat_of p) (λ x y. false) (advance p) s.chats) h,
    refl,
    refl,
    refl,
  )
    where
      go :
          (r : Result DbError (Option ChatDocument)) (ys : List ChatDocument)
          → FoundUpdated (chat_of p) (λ x y. false) (advance p) (b.chats.docs s.chats) r ys
          → allocated b r ≡ ok n
          → ChatWritten p n (b.chats.docs s.chats) ys
      go (ok none) ys f k = absurd (ground arith)
      go (err x) ys f k = absurd (ground arith)
      go (ok (some e)) ys (c, q, rep, first) k =
          let (eq, low, high) = (parse_sequence_iff (pos e.last_sequence) n).0 (ground arith) in
          let next = ap (λ d. d.last_sequence) q in (c, rep, ground arith, high)

  inserted :
      {D : Type 0} (conflicts : D → D → Bool) (d : D) (xs ys : List D)
      (r : Result DbError (Unit {0})) {u : Unit {0}}
      → Inserted conflicts d xs r ys
      → map_err database r ≡ ok u
      → All (λ x. conflicts x d ≡ false) xs × (ys ≡ d ∷ xs)
  inserted conflicts d xs ys (ok _) h k = h
  inserted conflicts d xs ys (err x) h k = absurd (ground arith)

  insert_timeline_lem :
      (d : TimelineDocument) (s : Db b) {u : Unit {0}}
      → (insert_timeline b d s).0 ≡ ok u
      → let t = (insert_timeline b d s).1 in
        All (λ x. timeline_conflicts x d ≡ false) (b.timeline.docs s.timeline)
        × (b.timeline.docs t.timeline ≡ d ∷ b.timeline.docs s.timeline)
        × (t.chats ≡ s.chats)
        × (t.outbox ≡ s.outbox)
        × (t.images ≡ s.images)
  unfolding insert_timeline
  insert_timeline_lem d s h =
      let (fresh, added) =
        inserted timeline_conflicts d _ _ _ (b.timeline.insert_one_law d s.timeline) h in
      (fresh, added, refl, refl, refl)

  insert_outbox_lem :
      (d : OutboxDocument) (s : Db b) {u : Unit {0}}
      → (insert_outbox b d s).0 ≡ ok u
      → let t = (insert_outbox b d s).1 in
        All (λ x. same_id x d ≡ false) (b.outbox.docs s.outbox)
        × (b.outbox.docs t.outbox ≡ d ∷ b.outbox.docs s.outbox)
        × (t.chats ≡ s.chats)
        × (t.timeline ≡ s.timeline)
        × (t.images ≡ s.images)
  unfolding insert_outbox
  insert_outbox_lem d s h =
      let (fresh, added) = inserted same_id d _ _ _ (b.outbox.insert_one_law d s.outbox) h in
      (fresh, added, refl, refl, refl)

  -- The four writes, one after the other.
  written :
      (p : CreateMessageParams) (s : Db b) (k : Sequence) {u v w : Unit {0}}
      → let s1 = (attach_image b p s).1 in
        let s2 = (allocate_sequence b p s1).1 in
        let s3 = (insert_timeline b (new_timeline_document p k) s2).1 in
        let s4 = (insert_outbox b (new_outbox_document p k) s3).1 in
        (attach_image b p s).0 ≡ ok u
        → (allocate_sequence b p s1).0 ≡ ok k
        → (insert_timeline b (new_timeline_document p k) s2).0 ≡ ok v
        → (insert_outbox b (new_outbox_document p k) s3).0 ≡ ok w
        → Created p k (documents b s) (documents b s4)
  written p s k e1 e2 e3 e4 =
      let s1 = (attach_image b p s).1 in
      let s2 = (allocate_sequence b p s1).1 in
      let s3 = (insert_timeline b (new_timeline_document p k) s2).1 in
      let (image, c1, t1, o1) = attach_image_lem p s e1 in
      let (chat, t2, o2, i2) = allocate_sequence_lem p s1 e2 in
      let (fresh, added, c3, o3, i3) = insert_timeline_lem (new_timeline_document p k) s2 e3 in
      let (new, event, c4, t4, i4) = insert_outbox_lem (new_outbox_document p k) s3 e4 in
      let chats_before = ap b.chats.docs c1 in
      let chats_after = ap b.chats.docs (c4 ∙ c3) in
      let timeline_before = ap b.timeline.docs (t2 ∙ t1) in
      let outbox_before = ap b.outbox.docs (o3 ∙ o2 ∙ o1) in
      let images_after = ap b.images.docs (i4 ∙ i3 ∙ i2) in
      record {
        chat_written = rw (chats_after, sym chats_before) chat;
        message_fresh = rw (sym timeline_before) fresh;
        message_added = rw (ap b.timeline.docs t4, sym timeline_before) added;
        event_fresh = rw (sym outbox_before) new;
        event_added = rw (sym outbox_before) event;
        image_written = rw (images_after) image;
      }

  -- When the operation of the transaction succeeds, its sequence is the next one of a chat of
  -- the sender, in range; the message and its event are added, new under the unique indexes; and
  -- for an image message an image of this sender and chat, ready and not expired, is attached to
  -- it.
  pub create_operation_lem :
      (p : CreateMessageParams) (s : Db b) (n : Sequence)
      → (create_operation b p s).0 ≡ ok n
      → Created p n (documents b s) (documents b (create_operation b p s).1)
  unfolding create_operation
  create_operation_lem p s n h =
      let write_event : Sequence → Action (Db b) StoreError Sequence =
        λ k. (insert_outbox b (new_outbox_document p k)) >>= (λ _ t. (ok k, t)) in
      let write_message : Sequence → Action (Db b) StoreError Sequence =
        λ k. (insert_timeline b (new_timeline_document p k)) >>= (λ _. write_event k) in
      let (_, e1, q1) =
        bind_ok (attach_image b p) (λ _. (allocate_sequence b p) >>= write_message) s h in
      let s1 = (attach_image b p s).1 in
      let (k, e2, q2) =
        bind_ok (allocate_sequence b p) write_message s1 (sym (ap (λ r. r.0) q1) ∙ h) in
      let s2 = (allocate_sequence b p s1).1 in
      let h2 : (write_message k s2).0 ≡ ok n = sym (ap (λ r. r.0) (q1 ∙ q2)) ∙ h in
      let (_, e3, q3) =
        bind_ok (insert_timeline b (new_timeline_document p k)) (λ _. write_event k) s2 h2 in
      let s3 = (insert_timeline b (new_timeline_document p k) s2).1 in
      let h3 : (write_event k s3).0 ≡ ok n = sym (ap (λ r. r.0) q3) ∙ h2 in
      let (_, e4, q4) =
        bind_ok (insert_outbox b (new_outbox_document p k)) (λ _ t. (ok k, t)) s3 h3 in
      let s4 = (insert_outbox b (new_outbox_document p k) s3).1 in
      let whole : create_operation b p s ≡ (ok k, s4) = q1 ∙ q2 ∙ q3 ∙ q4 in
      rw (ap (λ r. r.1) whole) (
        subst (λ m. Created p m (documents b s) (documents b s4)) (ground arith)
          (written p s k e1 e2 e3 e4))
