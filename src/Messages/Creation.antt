-- ===== src/Messages/Creation.antt =====
-- message_store/create.go: `CreateWithOutbox`. Other clients may change the database between the
-- lookups and the transaction.
use nexus_services.Shared.{
  Bool, true, false, not, Option, none, some, Result, ok, err, if◌then◌else◌, ◌==◌,
}
use nexus_services.Mongo.{DbError, duplicate_key}
use nexus_services.Domain.Timeline.{Sequence, Item}
use nexus_services.Messages.Document.{
  CreateMessageParams, TimelineDocument, StoreError, invalid_create_params, image_unavailable,
  no_sequence, database, new_timeline_document, to_domain,
}
use nexus_services.Messages.Database.{Database, Db, Transactions}
use nexus_services.Messages.Store.{
  CreateMessageResult, validate_create_params, same_identity, resolve_existing_message,
  create_operation,
}

-- `mongo.IsDuplicateKeyError(err) || errors.Is(err, ports.ErrImageUnavailable)`
unfoldable pub is_lost_race : StoreError → Bool
is_lost_race (database duplicate_key) = true
is_lost_race image_unavailable = true
is_lost_race _ = false

unfoldable pub item_found :
    Result DbError (Option TimelineDocument) → Result StoreError (Option Item)
item_found (ok none) = ok none
item_found (ok (some d)) = elim (to_domain d) [ ok item ↦ ok (some item) | err e ↦ err e ]
item_found (err e) = err (database e)

unfoldable pub created_result :
    CreateMessageParams → Sequence → Result StoreError CreateMessageResult
created_result params sequence = elim (to_domain (new_timeline_document params sequence)) [
  | ok item ↦ ok (record { item = item; created = true })
  | err e ↦ err e
]

-- A sequence that the transaction left at its zero value.
unfoldable pub sequence_allocated : Result StoreError Sequence → Result StoreError Sequence
sequence_allocated (ok n) = if n == 0 then err no_sequence else ok n
sequence_allocated (err e) = err e

-- The second lookup, after another request was first.
unfoldable pub after_lost_race :
    CreateMessageParams
    → StoreError
    → Result StoreError (Option Item)
    → Result StoreError CreateMessageResult
after_lost_race params e (err x) = err x
after_lost_race params e (ok (some item)) = resolve_existing_message item params
after_lost_race params e (ok none) = err e

module _ (b : Database) (transactions : Transactions b) (others : Db b → Db b) where
  unfoldable pub find_existing_message :
      CreateMessageParams → Db b → Result StoreError (Option Item) × Db b
  find_existing_message params s =
      let (r, timeline) = b.timeline.find_one (same_identity params) s.timeline in
      (item_found r, record s { timeline = timeline })

  unfoldable pub create_transaction : CreateMessageParams → Db b → Result StoreError Sequence × Db b
  create_transaction params s =
      let (r, t) = transactions.run (create_operation b params) s in (sequence_allocated r, t)

  unfoldable pub transaction_done :
      CreateMessageParams
      → Result StoreError Sequence
      → Db b
      → Result StoreError CreateMessageResult × Db b
  transaction_done params (ok n) s = (created_result params n, s)
  transaction_done params (err e) s =
      if not (is_lost_race e)
      then (err e, s)
      else let (again, t) = find_existing_message params (others s) in
        (after_lost_race params e again, t)

  unfoldable pub looked_up :
      CreateMessageParams
      → Result StoreError (Option Item)
      → Db b
      → Result StoreError CreateMessageResult × Db b
  looked_up params (err e) s = (err e, s)
  looked_up params (ok (some item)) s = (resolve_existing_message item params, s)
  looked_up params (ok none) s =
      let (r, t) = create_transaction params (others s) in transaction_done params r t

  unfoldable pub create_with_outbox :
      CreateMessageParams → Db b → Result StoreError CreateMessageResult × Db b
  create_with_outbox params s =
      if not (validate_create_params params)
      then (err invalid_create_params, s)
      else let (existing, t) = find_existing_message params s in looked_up params existing t
