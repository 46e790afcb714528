-- ===== src/Messages/Newest.antt =====
-- A new message comes after every message that its chat had when it was sent.
use mathlib.Core.List.{Memᴰ}
use nexus_services.Shared.{
  ◌<◌, ◌≡◌, ap, ◌∙◌, sym, subst, true, false, List, Result, ok, ok_inj, arith,
}
use nexus_services.Shared.Int.{pos}
use nexus_services.Mongo.{Replaced-passes, Replaced-old, All-member}
use nexus_services.Domain.Timeline.{Sequence, Item}
use nexus_services.Chats.Document.{ChatDocument}
use nexus_services.Messages.Document.{CreateMessageParams, StoreError, TimelineDocument}
use nexus_services.Messages.Roundtrip.{IsParsed, created_item}
use nexus_services.Messages.Database.{Database, Db, Documents, documents, Transactions}
use nexus_services.Messages.Store.{CreateMessageResult}
use nexus_services.Messages.Creation.{create_with_outbox}
use nexus_services.Messages.Transaction.{Created}
use nexus_services.Messages.Consistency.{IsConsistent, Numbered, Announced, chat_of-id}
use nexus_services.Messages.Outcome.{
  Interference, Explained, written, existing, refused, uncertain, create_with_outbox-Explained,
}

-- The `_id` of a chat is unique.
abbrev pub UniqueChats : Documents → Type 0
UniqueChats x = (a c : ChatDocument) → Memᴰ a x.chats → Memᴰ c x.chats → a.id ≡ c.id → a ≡ c

-- In consistent documents whose chat ids are unique, a message that a transaction creates comes
-- after every message that its chat has.
Created-newest :
    (p : CreateMessageParams) (n : Sequence) (x y : Documents) (d : TimelineDocument)
    → Created p n x y
    → IsConsistent x
    → UniqueChats x
    → Memᴰ d x.timeline
    → d.chat_id ≡ p.chat_id
    → (k : Sequence) × (d.sequence ≡ pos k) × (k < n)
Created-newest p n x y d c h unique member of =
    let (chat, r, next, high) = c.chat_written in
    let ((e, m, i, (k, q, low)), _) =
      All-member (λ e. Numbered x.chats e × Announced x.outbox e) x.timeline d h member in
    let held = chat_of-id p chat (Replaced-passes r) in
    let same = unique e chat m (Replaced-old r) (i ∙ of ∙ sym held) in
    let number = ap (λ x. x.last_sequence) same in (k, q, omega arith)

-- What other clients may do here: they keep the documents consistent and the ids of chats unique,
-- and take no message away.
pub record IsGentle (x y : Documents) : Type 0 where
  pub consistent : IsConsistent x → IsConsistent y
  pub unique : UniqueChats x → UniqueChats y
  pub kept : (d : TimelineDocument) → Memᴰ d x.timeline → Memᴰ d y.timeline

abbrev gentle : Interference
gentle = record {
  Moves = IsGentle;
  stay = λ x. record { consistent = λ h. h; unique = λ h. h; kept = λ d m. m };
  chain = λ x y z f g. record {
    consistent = λ h. g.consistent (f.consistent h);
    unique = λ h. g.unique (f.unique h);
    kept = λ d m. g.kept d (f.kept d m);
  };
}

-- Every message of the chat comes before the sequence.
abbrev pub AllBefore : CreateMessageParams → Sequence → List TimelineDocument → Type 0
AllBefore p n xs =
    (d : TimelineDocument)
    → Memᴰ d xs
    → d.chat_id ≡ p.chat_id
    → (k : Sequence) × (d.sequence ≡ pos k) × (k < n)

Explained-AllBefore :
    (p : CreateMessageParams) (x z : Documents) (r : Result StoreError CreateMessageResult)
    (item : Item)
    → Explained gentle p x z r
    → r ≡ ok (record { item = item; created = true })
    → IsConsistent x
    → UniqueChats x
    → AllBefore p item.sequence x.timeline
Explained-AllBefore p x z _ item (written y y' n before c after) e h u d m of =
    let item_of : created_item p n ≡ item = ap (λ (q : CreateMessageResult). q.item) (ok_inj e) in
    let (k, q, low) =
      Created-newest p n y y' d c (before.consistent h) (before.unique u) (before.kept d m) of in
    (k, q, subst (λ i. k < i.sequence) item_of low)
Explained-AllBefore p x z _ item (existing old found same m) e h u d i of =
    let untrue : false ≡ true = ap (λ (q : CreateMessageResult). q.created) (ok_inj e) in
    absurd (cc)
Explained-AllBefore p x z _ item (refused x' m) e h u d i of = absurd (cc)
Explained-AllBefore p x z _ item (uncertain y y' n before c after) e h u d i of = absurd (cc)

module _ (b : Database) (transactions : Transactions b) (others : Db b → Db b) where
  -- A message that a call reports as created, with parsed parts, has a sequence greater than that
  -- of every message that its chat had before the call, when the documents were consistent and
  -- their chat ids unique, and what other clients do during the call keeps them so and takes no
  -- message away.
  pub create_with_outbox-AllBefore :
      (p : CreateMessageParams) (s : Db b) (item : Item)
      → IsParsed p
      → ((t : Db b) → IsGentle (documents b t) (documents b (others t)))
      → IsConsistent (documents b s)
      → UniqueChats (documents b s)
      → (create_with_outbox b transactions others p s).0
        ≡ ok (record { item = item; created = true })
      → AllBefore p item.sequence (documents b s).timeline
  create_with_outbox-AllBefore p s item parsed kept h unique e =
      Explained-AllBefore p (documents b s) _ _ item
        (create_with_outbox-Explained b transactions others gentle p parsed kept s) e h unique
