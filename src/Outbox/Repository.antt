-- ===== src/Outbox/Repository.antt =====
-- claim.go, complete.go, recover.go: each operation is a guard on its arguments, then one call of
-- the collection with a filter and an update. `ErrNilCollection` has no counterpart, since a
-- repository here has its collection.
use nexus_services.Shared.{
  ℕ, ◌+◌, Bool, false, ◌||◌, ◌&&◌, Option, none, some, List, [], ◌∷◌, map, Result, ok, err, ltb,
  leb, ◌==◌, length, Time, Duration, is_zero, if◌then◌else◌,
}
use nexus_services.Text.{Text, is_empty, text_eq, text_lt, trim_space}
use nexus_services.Ports.{OutboxEvent, PublishReceipt}
use nexus_services.Mongo.{DbError, Collection}
use nexus_services.Outbox.Document.{
  pending, processing, published, failed, OutboxDocument, is_pending, is_processing, is_none,
  or_empty, to_port,
}

pub data RepositoryError : Type 0 where
  invalid_parameters : RepositoryError
  database : DbError → RepositoryError

abbrev pub same_id : OutboxDocument → OutboxDocument → Bool
same_id x y = text_eq x.id y.id

abbrev pub max_stored_outbox_error_length : ℕ
max_stored_outbox_error_length = 512

-- `status: PENDING, published_at: null, next_attempt_at: {$lte: now}`
unfoldable pub claimable : Time → OutboxDocument → Bool
claimable now d = is_pending d.status && is_none d.published_at && leb d.next_attempt_at now

unfoldable pub claim : Text → Text → Time → OutboxDocument → OutboxDocument
claim worker_id lease_id until d = record d {
  status = processing;
  locked_by = some worker_id;
  locked_until = some until;
  lease_id = some lease_id;
}

-- The sort `next_attempt_at, created_at, _id`, ascending.
unfoldable pub claimed_before : OutboxDocument → OutboxDocument → Bool
claimed_before x y =
    ltb x.next_attempt_at y.next_attempt_at
    || (x.next_attempt_at == y.next_attempt_at
        && (ltb x.created_at y.created_at || (x.created_at == y.created_at && text_lt x.id y.id)))

-- `ownedProcessingFilter`
unfoldable pub owned_processing : Text → Text → OutboxDocument → Bool
owned_processing event_id lease_id d =
    text_eq d.id event_id
    && is_processing d.status
    && elim d.lease_id [ some l ↦ text_eq l lease_id | none ↦ false ]
    && is_none d.published_at

unfoldable pub fail : Time → Text → OutboxDocument → OutboxDocument
fail failed_at reason_code d = record d {
  status = failed;
  failed_at = some failed_at;
  last_error = some reason_code;
  locked_by = none;
  locked_until = none;
  attempts = d.attempts + 1;
  lease_id = none;
}

unfoldable pub publish : PublishReceipt → Time → OutboxDocument → OutboxDocument
publish receipt published_at d = record d {
  status = published;
  published_at = some published_at;
  jetstream = some (receipt.stream, receipt.sequence);
  locked_by = none;
  locked_until = none;
  last_error = none;
  lease_id = none;
}

unfoldable pub reschedule : Time → Text → OutboxDocument → OutboxDocument
reschedule next_attempt_at sanitized_error d = record d {
  status = pending;
  next_attempt_at = next_attempt_at;
  last_error = some sanitized_error;
  locked_by = none;
  locked_until = none;
  attempts = d.attempts + 1;
  lease_id = none;
}

-- `locked_until: {$lte: now}`
unfoldable pub lock_expired : Time → OutboxDocument → Bool
lock_expired now d = elim d.locked_until [ some t ↦ leb t now | none ↦ false ]

unfoldable pub recoverable : Time → OutboxDocument → Bool
unfolding lock_expired
recoverable now d = is_processing d.status && is_none d.published_at && lock_expired now d

unfoldable pub recover : OutboxDocument → OutboxDocument
recover d = record d { status = pending; locked_by = none; locked_until = none; lease_id = none }

-- The sort `locked_until, _id`, ascending; a document found here has a `locked_until`.
unfoldable pub recovered_before : OutboxDocument → OutboxDocument → Bool
recovered_before x y = elim x.locked_until [
  | none ↦ false
  | some t ↦ elim y.locked_until [
    | none ↦ false
    | some u ↦ ltb t u || (t == u && text_lt x.id y.id)
  ]
]

-- One write model of `RecoverExpired`: the filter of the lease that was read, and still expired.
unfoldable pub recovery_model :
    Time → OutboxDocument → (OutboxDocument → Bool) × (OutboxDocument → OutboxDocument)
recovery_model now found =
    (λ d. owned_processing found.id (or_empty found.lease_id) d && lock_expired now d, recover)

-- `result.MatchedCount == 1`
unfoldable pub matched_one : Result DbError ℕ → Result RepositoryError Bool
matched_one (ok n) = ok (n == 1)
matched_one (err e) = err (database e)

unfoldable pub claimed_event :
    Result DbError (Option OutboxDocument) → Result RepositoryError (Option OutboxEvent)
claimed_event (ok none) = ok none
claimed_event (ok (some d)) = ok (some (to_port d))
claimed_event (err e) = err (database e)

recovered_count : Result DbError ℕ → Result RepositoryError ℕ
recovered_count (ok n) = ok n
recovered_count (err e) = err (database e)

module _ (collection : Collection OutboxDocument same_id) where
  open collection use {State, find, update_one, find_one_and_update, bulk_write}

  unfoldable pub claim_next :
      Text → Text → Time → Duration → State → Result RepositoryError (Option OutboxEvent) × State
  unfolding claimed_event
  claim_next worker_id lease_id now lease_duration s =
      if is_empty (trim_space worker_id)
        || is_empty (trim_space lease_id)
        || is_zero now
        || lease_duration == 0
      then (err invalid_parameters, s)
      else let (r, s') =
          find_one_and_update (claimable now) claimed_before
            (claim worker_id lease_id (now + lease_duration)) s in
        (claimed_event r, s')

  unfoldable pub mark_failed :
      Text → Text → Time → Text → State → Result RepositoryError Bool × State
  unfolding matched_one
  mark_failed event_id lease_id failed_at reason_code s =
      if is_empty (trim_space event_id)
        || is_empty (trim_space lease_id)
        || is_zero failed_at
        || is_empty (trim_space reason_code)
        || ltb max_stored_outbox_error_length (length reason_code)
      then (err invalid_parameters, s)
      else let (r, s') =
          update_one (owned_processing event_id lease_id) (fail failed_at reason_code) s in
        (matched_one r, s')

  unfoldable pub mark_published :
      Text → Text → PublishReceipt → Time → State → Result RepositoryError Bool × State
  unfolding matched_one
  mark_published event_id lease_id receipt published_at s =
      if is_empty (trim_space event_id)
        || is_empty (trim_space lease_id)
        || is_empty (trim_space receipt.stream)
        || receipt.sequence == 0
        || is_zero published_at
      then (err invalid_parameters, s)
      else let (r, s') =
          update_one (owned_processing event_id lease_id) (publish receipt published_at) s in
        (matched_one r, s')

  unfoldable pub schedule_retry :
      Text → Text → Time → Text → State → Result RepositoryError Bool × State
  unfolding matched_one
  schedule_retry event_id lease_id next_attempt_at sanitized_error s =
      if is_empty (trim_space event_id)
        || is_empty (trim_space lease_id)
        || is_zero next_attempt_at
        || is_empty (trim_space sanitized_error)
        || ltb max_stored_outbox_error_length (length sanitized_error)
      then (err invalid_parameters, s)
      else let (r, s') =
          update_one (owned_processing event_id lease_id)
            (reschedule next_attempt_at sanitized_error) s in
        (matched_one r, s')

  -- With the documents that were found: nothing to do, or one batch of updates.
  unfoldable pub recover_found :
      Time → Result DbError (List OutboxDocument) → State → Result RepositoryError ℕ × State
  unfolding recovered_count
  recover_found now (err e) s = (err (database e), s)
  recover_found now (ok []) s = (ok 0, s)
  recover_found now (ok (d ∷ ds)) s =
      let (r, s') = bulk_write (map (recovery_model now) (d ∷ ds)) s in (recovered_count r, s')

  unfoldable pub recover_expired : Time → ℕ → State → Result RepositoryError ℕ × State
  unfolding recover_found
  recover_expired now limit s =
      if is_zero now || limit == 0 || ltb 1000 limit
      then (err invalid_parameters, s)
      else let (r, s') = find (recoverable now) recovered_before limit s in recover_found now r s'
