-- ===== src/Tests/Messages.antt =====
-- Two users, their chat and its messages, in lists.
use mathlib.Core.List.{Memᴰ}
use nexus_services.Shared.{
  ℕ, ◌≡◌, refl, sym, ◌∙◌, Bool, true, false, Option, none, some, [], ◌∷◌, Result, ok, err, arith,
}
use nexus_services.Text.{bytes, text_eq, trim_space, to_lower, to_upper}
use nexus_services.Domain.Timeline.{
  Sequence, content_type_text, parse_client_message_id, matches, is_hex, is_dash, is_version,
  is_variant, valid, restore_content, parse_sequence,
}
use nexus_services.Mongo.{memory}
use nexus_services.Chats.Document.{ChatDocument}
use nexus_services.Outbox.Repository.{same_id}
use nexus_services.Messages.Document.{
  CreateMessageParams, TimelineDocument, StoreError, new_timeline_document, new_outbox_document,
  to_domain,
}
use nexus_services.Messages.Roundtrip.{IsParsed, created_item, to_domain-new_timeline_document}
use nexus_services.Messages.Database.{
  Database, Db, documents, Operation, SameDocs, Transacted, committed, aborted, Transactions,
  chat_conflicts, timeline_conflicts,
}
use nexus_services.Images.Document.{image_conflicts}
use nexus_services.Messages.Store.{
  CreateMessageResult, same_identity, chat_of, advance, is_image, attach_image, one_modified,
  allocate_sequence, allocated, insert_timeline, insert_outbox, create_operation,
}
use nexus_services.Domain.Timeline
use nexus_services.Domain.Chat
use nexus_services.Domain.User
use nexus_services.Messages.Store
use nexus_services.Messages.Creation
use nexus_services.Messages.Creation.{create_with_outbox}
use nexus_services.Messages.Transaction.{Created, create_operation_lem}
use nexus_services.Messages.Outcome.{Explained, create_with_outbox-Explained}
use nexus_services.Messages.Consistency.{IsConsistent, keeping, create_with_outbox-IsConsistent}
use nexus_services.Messages.Newest.{AllBefore, UniqueChats, create_with_outbox-AllBefore}
use nexus_services.Messages.Resubmission.{IsRepeat, create_with_outbox-IsRepeat}

abbrev shelf : Database
shelf = record {
  chats = memory chat_conflicts;
  timeline = memory timeline_conflicts;
  outbox = memory same_id;
  images = memory image_conflicts;
  has_images = false;
}

-- A transaction keeps the state of its operation, or the state of before.
settle : Db shelf → Result StoreError Sequence × Db shelf → Result StoreError Sequence × Db shelf
settle s (ok n, t) = (ok n, t)
settle s (err e, t) = (err e, s)

settle-Transacted :
    (op : Operation shelf) (s : Db shelf) (r : Result StoreError Sequence × Db shelf)
    → op s ≡ r
    → Transacted shelf op s (settle s r).0 (settle s r).1
unfolding settle
settle-Transacted op s (ok n, t) q = committed s t n refl q refl refl
settle-Transacted op s (err e, t) q = aborted s t e refl q refl refl

abbrev plain : Transactions shelf
unfolding settle
plain = record {
  run = λ op s. settle s (op s);
  run_law = λ op s. settle-Transacted op s (op s) refl;
}

abbrev nobody_else : Db shelf → Db shelf
nobody_else s = s

abbrev greeting : CreateMessageParams
greeting = record {
  message_id = bytes "m1";
  event_id = bytes "e1";
  chat_id = bytes "c1";
  message = record {
    client_message_id = bytes "0f8fad5b-d9cb-469f-a165-70867728950e";
    sender_id = bytes "ann";
    content = record {
      content_type = content_type_text;
      value = bytes "hi";
      image_id = [];
      caption = [];
    };
  };
  created_at = 50;
}

greeting-IsParsed : IsParsed greeting
unfolding trim_space parse_client_message_id to_lower text_eq matches is_hex is_dash is_version
    is_variant valid restore_content
greeting-IsParsed = record {
  id_named = λ e. cc;
  id_trimmed = refl;
  chat_named = λ e. cc;
  chat_trimmed = refl;
  client_named = λ e. cc;
  client_parsed = refl;
  sender_named = λ e. cc;
  sender_trimmed = refl;
  content_valid = refl;
  created = omega arith;
}

abbrev talk_document : ChatDocument
talk_document = record {
  id = bytes "c1";
  participant_one_id = bytes "ann";
  participant_two_id = bytes "bob";
  participant_ids = bytes "ann" ∷ bytes "bob" ∷ [];
  created_at = 5;
  updated_at = 5;
  summary_sort_at = 5;
  last_sequence = 0;
}

empty_chat : Db shelf
unfolding memory
empty_chat = record { chats = talk_document ∷ []; timeline = []; outbox = []; images = [] }

abbrev answer_number : Result StoreError CreateMessageResult → Option (ℕ × Bool)
answer_number (ok r) = some (r.item.sequence, r.created)
answer_number (err _) = none

to_domain-new_timeline_document_example :
    to_domain (new_timeline_document greeting 1) ≡ ok (created_item greeting 1)
to_domain-new_timeline_document_example =
    to_domain-new_timeline_document greeting 1 greeting-IsParsed (omega arith) (omega arith)

-- The operation on the empty chat allocates its first sequence.
greeting_allocated : (create_operation shelf greeting empty_chat).0 ≡ ok 1
unfolding memory empty_chat create_operation attach_image one_modified is_image allocate_sequence
    allocated chat_of advance insert_timeline insert_outbox new_timeline_document
    new_outbox_document parse_sequence text_eq
greeting_allocated = refl

create_operation_lem_example :
    Created greeting 1
      (documents shelf empty_chat)
      (documents shelf (create_operation shelf greeting empty_chat).1)
create_operation_lem_example = create_operation_lem shelf greeting empty_chat 1 greeting_allocated

create_with_outbox-Explained_example :
    let (answer, end) = create_with_outbox shelf plain nobody_else greeting empty_chat in
    Explained keeping greeting (documents shelf empty_chat) (documents shelf end) answer
create_with_outbox-Explained_example =
    create_with_outbox-Explained shelf plain nobody_else keeping greeting greeting-IsParsed
      (λ s h. h) empty_chat

chat-IsConsistent : IsConsistent (documents shelf empty_chat)
unfolding memory empty_chat
chat-IsConsistent = tt

create_with_outbox-IsConsistent_example :
    IsConsistent
      (documents shelf (create_with_outbox shelf plain nobody_else greeting empty_chat).1)
create_with_outbox-IsConsistent_example =
    create_with_outbox-IsConsistent shelf plain nobody_else greeting empty_chat greeting-IsParsed
      (λ t h. h) chat-IsConsistent

abbrev first_document : TimelineDocument
unfolding new_timeline_document
first_document = new_timeline_document greeting 1

greeted : Db shelf
unfolding memory new_timeline_document new_outbox_document
greeted = record {
  chats = record talk_document { last_sequence = 1 } ∷ [];
  timeline = new_timeline_document greeting 1 ∷ [];
  outbox = new_outbox_document greeting 1 ∷ [];
  images = [];
}

abbrev answering : CreateMessageParams
answering = record greeting {
  message_id = bytes "m2";
  event_id = bytes "e2";
  message = record {
    client_message_id = bytes "1f8fad5b-d9cb-469f-a165-70867728950e";
    sender_id = bytes "bob";
    content = record {
      content_type = content_type_text;
      value = bytes "hello";
      image_id = [];
      caption = [];
    };
  };
}

answering_allocated : (create_operation shelf answering greeted).0 ≡ ok 2
unfolding memory greeted create_operation attach_image one_modified is_image allocate_sequence
    allocated chat_of advance insert_timeline insert_outbox new_timeline_document
    new_outbox_document parse_sequence text_eq
answering_allocated = refl

greeted-IsConsistent : IsConsistent (documents shelf greeted)
unfolding memory greeted new_timeline_document new_outbox_document
greeted-IsConsistent = (
  (
    (record talk_document { last_sequence = 1 }, Memᴰ.head refl, refl, (1, refl, omega arith)),
    (new_outbox_document greeting 1, Memᴰ.head refl, refl, refl),
  ),
  tt,
)

greeted-UniqueChats : UniqueChats (documents shelf greeted)
unfolding memory greeted
greeted-UniqueChats a c (Memᴰ.head p) (Memᴰ.head q) e = p ∙ sym q
greeted-UniqueChats a c (Memᴰ.head p) (Memᴰ.tail k) e = elim k [ ]
greeted-UniqueChats a c (Memᴰ.tail k) n e = elim k [ ]

first-member : Memᴰ first_document (documents shelf greeted).timeline
unfolding memory greeted new_timeline_document
first-member = Memᴰ.head refl

answering-IsParsed : IsParsed answering
unfolding trim_space parse_client_message_id to_lower text_eq matches is_hex is_dash is_version
    is_variant valid restore_content
answering-IsParsed = record {
  id_named = λ e. cc;
  id_trimmed = refl;
  chat_named = λ e. cc;
  chat_trimmed = refl;
  client_named = λ e. cc;
  client_parsed = refl;
  sender_named = λ e. cc;
  sender_trimmed = refl;
  content_valid = refl;
  created = omega arith;
}

answering_created :
    (create_with_outbox shelf plain nobody_else answering greeted).0
    ≡ ok (record { item = created_item answering 2; created = true })
unfolding memory greeted create_with_outbox create_operation attach_image one_modified is_image
    allocate_sequence allocated chat_of advance insert_timeline insert_outbox new_timeline_document
    new_outbox_document parse_sequence text_eq Store.validate_create_params trim_space valid
    restore_content Creation.looked_up Creation.find_existing_message Creation.item_found
    same_identity Creation.transaction_done Creation.create_transaction Creation.sequence_allocated
    Creation.created_result plain settle to_domain Timeline.parse_id Timeline.parse_kind
    Timeline.new_message Timeline.restore_message Chat.parse_id User.parse_id
    parse_client_message_id to_lower matches is_hex is_dash is_version is_variant to_upper
    Timeline.parse_content_type
answering_created = refl

create_with_outbox-AllBefore_example : AllBefore answering 2 (documents shelf greeted).timeline
create_with_outbox-AllBefore_example =
    create_with_outbox-AllBefore shelf plain nobody_else answering greeted
      (created_item answering 2) answering-IsParsed
      (λ t. record { consistent = λ h. h; unique = λ h. h; kept = λ d m. m }) greeted-IsConsistent
      greeted-UniqueChats answering_created

first-identity : same_identity greeting first_document ≡ true
unfolding same_identity new_timeline_document text_eq
first-identity = refl

create_with_outbox-IsRepeat_example :
    let (answer, end) = create_with_outbox shelf plain nobody_else greeting greeted in
    SameDocs shelf greeted end × IsRepeat greeting answer
create_with_outbox-IsRepeat_example =
    create_with_outbox-IsRepeat shelf plain nobody_else greeting first_document greeted first-member
      first-identity
