-- ===== src/Tests/Outbox.antt =====
-- An outbox with one event, in a list.
use nexus_services.Shared.{
  ℕ, map, suc, ◌≡◌, refl, Option, none, some, List, [], ◌∷◌, ok, err, All, true, false,
}
use nexus_services.Shared.Int.{pos}
use nexus_services.Text.{Text, bytes, text_eq, text_lt, trim_space}
use nexus_services.Ports.{other, OutboxEvent, PublishReceipt}
use nexus_services.Mongo.{Collection, memory, Each}
use nexus_services.Outbox.Document.{Status, OutboxDocument, pending, published, to_port}
use nexus_services.Outbox.Repository.{
  claimed_before, same_id, claim_next, mark_published, mark_failed, schedule_retry, claimable,
  claim, recover_expired, recover_found, recoverable, recover, recovery_model, owned_processing,
  publish, lock_expired,
}
use nexus_services.Outbox.Lifecycle.{IsValid, Keeps}
use nexus_services.Outbox.Operations.{
  Operation, claims, publishes, recovers, perform, perform_all, perform_all-IsValid,
  perform_all-Keeps,
}
use nexus_services.Outbox.Leases.{IsStale, Refuses, stale_lease_refused}
use nexus_services.Outbox.Claims.{IsClaim, claim_next-IsClaim}
use nexus_services.Outbox.Worker.{retry_scheduled, Config, Ports, retry_delay, run_once}
use nexus_services.Outbox.Worker.Runs.{logged, IsRun, run_once-IsRun}

abbrev event_document : OutboxDocument
event_document = record {
  id = bytes "e1";
  aggregate_type = bytes "CHAT";
  aggregate_id = bytes "c1";
  event_type = bytes "chat.message.created.v1";
  payload = record {
    message_id = bytes "m1";
    client_message_id = bytes "0f8fad5b-d9cb-469f-a165-70867728950e";
    chat_id = bytes "c1";
    sequence = pos 1;
    sender_id = bytes "ann";
    content = record {
      content_type = bytes "TEXT";
      value = bytes "hi";
      image_id = [];
      caption = [];
    };
    created_at = 5;
  };
  status = pending;
  attempts = 0;
  next_attempt_at = 5;
  locked_by = none;
  locked_until = none;
  lease_id = none;
  published_at = none;
  failed_at = none;
  last_error = none;
  jetstream = none;
  created_at = 5;
}

-- Two workers: the first claims and is too slow, its lease is recovered, and the second publishes.
abbrev workday : List Operation
workday =
    claims (bytes "w1") (bytes "l1") 10 20
    ∷ recovers 40 100
    ∷ claims (bytes "w2") (bytes "l2") 41 20
    ∷ publishes (bytes "e1") (bytes "l1") (record { stream = bytes "CHAT_EVENTS"; sequence = 7 }) 42
    ∷ publishes (bytes "e1") (bytes "l2") (record { stream = bytes "CHAT_EVENTS"; sequence = 8 }) 43
    ∷ []

abbrev table : Collection OutboxDocument same_id
table = memory same_id

store : table.State
unfolding memory
store = event_document ∷ []

abbrev publication : OutboxDocument → Status × Option (Text × ℕ)
publication d = (d.status, d.jetstream)

-- After the work, the event is published by the second worker, in the second place of the stream.
workday_published :
    map publication (table.docs (perform_all table workday store))
    ≡ (published, some (bytes "CHAT_EVENTS", 8)) ∷ []
unfolding memory store perform_all perform claim_next recover_expired recover_found mark_published
    claimable claim recoverable recover recovery_model owned_processing publish lock_expired
    trim_space text_eq claimed_before text_lt
workday_published = refl

store-IsValid : All IsValid (table.docs store)
unfolding memory store
store-IsValid = (record { fits = (refl, refl, refl, refl, refl) }, tt)

perform_all-IsValid_example : All IsValid (table.docs (perform_all table workday store))
perform_all-IsValid_example = perform_all-IsValid table workday store store-IsValid

perform_all-Keeps_example :
    Each Keeps (table.docs store) (table.docs (perform_all table workday store))
perform_all-Keeps_example = perform_all-Keeps table workday store

store-IsStale : IsStale (bytes "l1") (table.docs store)
unfolding memory store
store-IsStale = (λ e. cc, tt)

abbrev receipt : PublishReceipt
receipt = record { stream = bytes "CHAT_EVENTS"; sequence = 7 }

stale_lease_refused_example :
    Refuses table store (mark_published table (bytes "e1") (bytes "l1") receipt 42 store)
    × Refuses table store (mark_failed table (bytes "e1") (bytes "l1") 42 (bytes "r") store)
    × Refuses table store (schedule_retry table (bytes "e1") (bytes "l1") 42 (bytes "r") store)
stale_lease_refused_example =
    stale_lease_refused table (bytes "e1") (bytes "l1") (bytes "r") receipt 42 store store-IsStale

claim_next-IsClaim_example :
    let (r, s') = claim_next table (bytes "w1") (bytes "l1") 10 20 store in
    IsClaim (bytes "w1") (bytes "l1") 10 20 (table.docs store) (table.docs s') r
claim_next-IsClaim_example = claim_next-IsClaim table (bytes "w1") (bytes "l1") 10 20 store

-- A world that counts its calls: one event is there to claim, the broker is down.
abbrev claimed_event : OutboxEvent
unfolding claim to_port
claimed_event = to_port (claim (bytes "w1") (bytes "l1") 30 event_document)

abbrev down : Ports ℕ
down = record {
  done = λ n. false;
  now = λ n. (n, suc n);
  new_id = λ n. (ok (bytes "l1"), suc n);
  claim_next = λ worker lease at duration n. (ok (some claimed_event), suc n);
  publish = λ event n. (err other, suc n);
  mark_published = λ id lease receipt at n. (ok true, suc n);
  mark_failed = λ id lease at reason n. (ok true, suc n);
  schedule_retry = λ id lease at reason n. (ok true, suc n);
  random = λ bound n. (0, suc n);
}

abbrev worker : Config
worker = record {
  worker_id = bytes "w1";
  lease_duration = 30;
  publish_timeout = 10;
  finish_timeout = 10;
}

run_once-IsRun_example : let (r, (w', log)) = run_once (logged down) worker (10, []) in IsRun log r
run_once-IsRun_example = run_once-IsRun down worker 10

down_retries : (run_once down worker 10).0 ≡ ok retry_scheduled
unfolding run_once retry_delay text_eq claim to_port
down_retries = refl
