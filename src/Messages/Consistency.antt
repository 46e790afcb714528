-- ===== src/Messages/Consistency.antt =====
-- Every message has its place in its chat, and its event.
use mathlib.Core.List.{Memᴰ}
use nexus_services.Shared.{
  ◌+◌, ◌≤◌, ◌≡◌, refl, ap, ◌∙◌, sym, subst, inl, inr, true, List, Result, All, All-map, arith,
}
use nexus_services.Shared.Int.{pos}
use nexus_services.Text.{text_eq_iff}
use nexus_services.Mongo.{Replaced-passes, Replaced-new, Replaced-member, Replaced}
use nexus_services.Domain.Timeline.{Sequence}
use nexus_services.Chats.Document.{ChatDocument}
use nexus_services.Outbox.Document.{OutboxDocument}
use nexus_services.Messages.Document.{
  CreateMessageParams, StoreError, TimelineDocument, new_timeline_document, new_outbox_document,
}
use nexus_services.Messages.Roundtrip.{IsParsed}
use nexus_services.Messages.Database.{Database, Db, Documents, documents, Transactions}
use nexus_services.Messages.Store.{CreateMessageResult, chat_of, advance}
use nexus_services.Messages.Creation.{create_with_outbox}
use nexus_services.Messages.Transaction.{Created}
use nexus_services.Messages.Outcome.{
  Interference, Explained, written, existing, refused, uncertain, create_with_outbox-Explained,
}

-- The chat of the message is there, and has given out its sequence.
abbrev pub Numbered : List ChatDocument → TimelineDocument → Type 0
Numbered chats d =
    (c : ChatDocument) × Memᴰ c chats
    × (c.id ≡ d.chat_id)
    × ((n : Sequence) × (d.sequence ≡ pos n) × (n ≤ c.last_sequence))

-- An event of the message is there.
abbrev pub Announced : List OutboxDocument → TimelineDocument → Type 0
Announced events d =
    (e : OutboxDocument) × Memᴰ e events
    × (e.payload.message_id ≡ d.id)
    × (e.payload.sequence ≡ d.sequence)

abbrev pub IsConsistent : Documents → Type 0
IsConsistent x = All (λ d. Numbered x.chats d × Announced x.outbox d) x.timeline

pub chat_of-id :
    (p : CreateMessageParams) (c : ChatDocument) → chat_of p c ≡ true → c.id ≡ p.chat_id
unfolding chat_of
chat_of-id p c h = let eq = text_eq_iff c.id p.chat_id in ground arith

pub advanced :
    (p : CreateMessageParams) (c : ChatDocument)
    → ((advance p c).id ≡ c.id) × ((advance p c).last_sequence ≡ c.last_sequence + 1)
unfolding advance
advanced p c = (refl, refl)

-- A message of before keeps its place.
Numbered-kept :
    (p : CreateMessageParams) (c : ChatDocument) (xs ys : List ChatDocument) (d : TimelineDocument)
    → Replaced (chat_of p) (advance p) c xs ys
    → Numbered xs d
    → Numbered ys d
Numbered-kept p c xs ys d r (e, m, i, (n, q, low)) = elim (Replaced-member e r m) [
  | inl k ↦ (e, k, i, (n, q, low))
  | inr same ↦
      let (id, last) = advanced p c in
      let number = ap (λ x. x.last_sequence) same in
      (advance p c, Replaced-new r, id ∙ sym (ap (λ x. x.id) same) ∙ i, (n, q, omega arith))
]

new_documents :
    (p : CreateMessageParams) (n : Sequence)
    → let d = new_timeline_document p n in
      let e = new_outbox_document p n in
      (p.chat_id ≡ d.chat_id)
      × (d.sequence ≡ pos n)
      × (e.payload.message_id ≡ d.id)
      × (e.payload.sequence ≡ d.sequence)
unfolding new_timeline_document new_outbox_document
new_documents p n = (refl, refl, refl, refl)

pub Created-IsConsistent :
    (p : CreateMessageParams) (n : Sequence) (x y : Documents)
    → Created p n x y
    → IsConsistent x
    → IsConsistent y
Created-IsConsistent p n x y c h =
    let (chat, r, next, high) = c.chat_written in
    let (of_chat, numbered, of_message, same_number) = new_documents p n in
    let (id, last) = advanced p chat in
    let first : Numbered y.chats (new_timeline_document p n) = (
      advance p chat,
      Replaced-new r,
      id ∙ chat_of-id p chat (Replaced-passes r) ∙ of_chat,
      (n, numbered, omega arith),
    ) in
    let event : Announced y.outbox (new_timeline_document p n) =
      rw (c.event_added) (new_outbox_document p n, Memᴰ.head refl, of_message, same_number) in
    let rest =
      All-map (λ d. Numbered x.chats d × Announced x.outbox d)
        (λ d. Numbered y.chats d × Announced y.outbox d)
        (λ d (place, (e, m, of, same)). (
          Numbered-kept p chat x.chats y.chats d r place,
          (e, subst (Memᴰ e) (sym c.event_added) (Memᴰ.tail m), of, same),
        ))
        x.timeline h in
    rw (c.message_added) ((first, event), rest)

-- Other clients may do what keeps the documents consistent.
abbrev pub keeping : Interference
keeping = record {
  Moves = λ x y. IsConsistent x → IsConsistent y;
  stay = λ x h. h;
  chain = λ x y z f g h. g (f h);
}

module _ (b : Database) (transactions : Transactions b) (others : Db b → Db b) where
  -- When what other clients do keeps the documents consistent, then so does a creation with
  -- parsed parts, whatever it answers.
  pub create_with_outbox-IsConsistent :
      (p : CreateMessageParams) (s : Db b)
      → IsParsed p
      → ((t : Db b) → IsConsistent (documents b t) → IsConsistent (documents b (others t)))
      → IsConsistent (documents b s)
      → IsConsistent (documents b (create_with_outbox b transactions others p s).1)
  create_with_outbox-IsConsistent p s parsed kept h =
      go _ _ (create_with_outbox-Explained b transactions others keeping p parsed kept s)
    where
      go :
          (r : Result StoreError CreateMessageResult) (z : Documents)
          → Explained keeping p (documents b s) z r
          → IsConsistent z
      go _ z (written y y' n before c after) = after (Created-IsConsistent p n y y' c (before h))
      go _ z (existing item found same m) = m h
      go _ z (refused e m) = m h
      go _ z (uncertain y y' n before c after) = after (Created-IsConsistent p n y y' c (before h))
