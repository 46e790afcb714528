-- ===== src/Outbox/Document.antt =====
-- A document of the outbox collection: written by message_store/document.go (outboxEventDocument),
-- read and changed by the outbox repository. A field that is null and one that is missing are both
-- `none`, as the filters that compare with null take them.
use nexus_services.Shared.{ℕ, [], Bool, true, false, Option, none, some, Time}
use nexus_services.Shared.Int.{pos}
use nexus_services.Text.{Text}
use nexus_services.Ports.{MessageCreatedPayload, OutboxEvent}

-- "PENDING", "PROCESSING", "PUBLISHED", "FAILED"
pub data Status : Type 0 where
  pending processing published failed : Status

pub record OutboxDocument : Type 0 where
  pub id : Text
  pub aggregate_type : Text
  pub aggregate_id : Text
  pub event_type : Text
  pub payload : MessageCreatedPayload
  pub status : Status
  pub attempts : ℕ
  pub next_attempt_at : Time
  pub locked_by : Option Text
  pub locked_until : Option Time
  pub lease_id : Option Text
  pub published_at : Option Time
  pub failed_at : Option Time
  pub last_error : Option Text
  -- jetstream.stream and jetstream.sequence
  pub jetstream : Option (Text × ℕ)
  pub created_at : Time

abbrev pub is_pending : Status → Bool
is_pending pending = true
is_pending _ = false

abbrev pub is_processing : Status → Bool
is_processing processing = true
is_processing _ = false

abbrev pub is_none {ℓ} : {A : Type ℓ} → Option A → Bool
is_none none = true
is_none (some _) = false

-- A missing string decodes as the empty one.
abbrev pub or_empty : Option Text → Text
or_empty none = []
or_empty (some s) = s

-- `claimedEventDocument.toPort`
unfoldable pub to_port : OutboxDocument → OutboxEvent
to_port document = record {
  id = document.id;
  aggregate_type = document.aggregate_type;
  aggregate_id = document.aggregate_id;
  event_type = document.event_type;
  payload = document.payload;
  attempts = pos document.attempts;
  lease_id = or_empty document.lease_id;
}
