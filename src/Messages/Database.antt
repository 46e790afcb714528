-- ===== src/Messages/Database.antt =====
-- The four collections that the message store writes, and the transactions over them. The driver's
-- transactions are an interface: the operation takes effect as a whole or not at all.
use nexus_services.Shared.{◌≡◌, Bool, false, ◌||◌, ◌&&◌, List, Result, ok, err, ◌==◌}
use nexus_services.Shared.Int.{ℤ, pos, negsuc}
use nexus_services.Text.{text_eq}
use nexus_services.Mongo.{failure, Collection}
use nexus_services.Chats.Document.{ChatDocument}
use nexus_services.Images.Document.{ImageDocument, image_conflicts}
use nexus_services.Outbox.Document.{OutboxDocument}
use nexus_services.Outbox.Repository.{same_id}
use nexus_services.Domain.Timeline.{Sequence}
use nexus_services.Messages.Document.{TimelineDocument, StoreError, database}

-- The `_id`, and the unique index on the participants.
abbrev pub chat_conflicts : ChatDocument → ChatDocument → Bool
chat_conflicts x y =
    text_eq x.id y.id
    || (text_eq x.participant_one_id y.participant_one_id
        && text_eq x.participant_two_id y.participant_two_id)

abbrev pub same_number : ℤ → ℤ → Bool
same_number (pos a) (pos b) = a == b
same_number (negsuc a) (negsuc b) = a == b
same_number _ _ = false

-- The `_id`, and the unique indexes on the sequence in a chat and on a sender's client message id.
abbrev pub timeline_conflicts : TimelineDocument → TimelineDocument → Bool
timeline_conflicts x y =
    text_eq x.id y.id
    || (text_eq x.chat_id y.chat_id && same_number x.sequence y.sequence)
    || (text_eq x.message.sender_id y.message.sender_id
        && text_eq x.message.client_message_id y.message.client_message_id)

pub record Database : Type 1 where
  pub chats : Collection ChatDocument chat_conflicts
  pub timeline : Collection TimelineDocument timeline_conflicts
  pub outbox : Collection OutboxDocument same_id
  -- `repository.imagesCollection`, which may be nil.
  pub images : Collection ImageDocument image_conflicts
  pub has_images : Bool

pub record Db (b : Database) : Type 0 where
  pub chats : b.chats.State
  pub timeline : b.timeline.State
  pub outbox : b.outbox.State
  pub images : b.images.State

-- What matters of a state: the documents of the four collections.
pub record Documents : Type 0 where
  pub chats : List ChatDocument
  pub timeline : List TimelineDocument
  pub outbox : List OutboxDocument
  pub images : List ImageDocument

module _ (b : Database) where
  abbrev pub documents : Db b → Documents
  documents s = record {
    chats = b.chats.docs s.chats;
    timeline = b.timeline.docs s.timeline;
    outbox = b.outbox.docs s.outbox;
    images = b.images.docs s.images;
  }

  abbrev pub SameDocs : Db b → Db b → Type 0
  SameDocs s t = documents t ≡ documents s

  abbrev pub Operation : Type 0
  Operation = Db b → Result StoreError Sequence × Db b

  -- What a transaction has done: the operation ran on the documents that were there, to its end,
  -- and was committed; it returned an error and was aborted; or the driver failed, and it may have
  -- been committed all the same.
  pub data Transacted (op : Operation) (s : Db b) (r : Result StoreError Sequence) (t : Db b)
      : Type 0 where
    committed :
        (from to : Db b) (n : Sequence)
        → SameDocs s from
        → op from ≡ (ok n, to)
        → SameDocs to t
        → r ≡ ok n
        → Transacted op s r t
    aborted :
        (from to : Db b) (e : StoreError)
        → SameDocs s from
        → op from ≡ (err e, to)
        → SameDocs s t
        → r ≡ err e
        → Transacted op s r t
    unsure :
        (from to : Db b) (n : Sequence)
        → SameDocs s from
        → op from ≡ (ok n, to)
        → SameDocs to t
        → r ≡ err (database failure)
        → Transacted op s r t
    lost : SameDocs s t → r ≡ err (database failure) → Transacted op s r t

  -- `RunInTransaction`
  pub record Transactions : Type 0 where
    pub run : Operation → Db b → Result StoreError Sequence × Db b
    pub run_law : (op : Operation) (s : Db b) → Transacted op s (run op s).0 (run op s).1
