-- ===== src/Delivery/Runner.antt =====
-- internal/drivers/worker/delivery_runner/runner.go: one message of the stream. The broker's message
-- and the failure log are ports with a world of their own; the decoding of JSON is a parameter.
use nexus_services.Shared.{
  ℕ, zero, suc, ◌-◌, ◌*◌, Bool, true, false, not, ◌||◌, Option, none, some, List, Result, ok, err,
  ltb, leb, length, Duration, second, minute, if◌then◌else◌, [], ◌∷◌,
}
use nexus_services.Shared.Actions.{Action}
use nexus_services.Text.{Text, bytes, text_eq}
use nexus_services.Ports.{PortError, invalid_message_created_event, MessageCreatedEvent}
use nexus_services.Outbox.Worker.{delay_at}

pub record Metadata : Type 0 where
  pub stream : Text
  pub consumer : Text
  pub stream_sequence : ℕ
  pub num_delivered : ℕ

pub record DeliveryFailure : Type 0 where
  pub event_id : Text
  pub stream_sequence : ℕ
  pub reason_code : Text

pub data RunnerError : Type 0 where
  metadata_failed unexpected_stream retry_failed ack_failed : RunnerError
  record_failed terminate_failed : RunnerError

pub record RunnerPorts (W : Type 0) : Type 0 where
  -- `json.Unmarshal`
  pub decode : Text → Option MessageCreatedEvent
  pub handle : MessageCreatedEvent → Action W PortError (Unit {0})
  pub publish_failure : DeliveryFailure → Action W PortError (Unit {0})
  pub nak_with_delay : Duration → Action W PortError (Unit {0})
  pub double_ack : Action W PortError (Unit {0})
  pub term_with_reason : Text → Action W PortError (Unit {0})

abbrev pub default_error_wait : Duration
default_error_wait = 2 * second

abbrev pub max_event_bytes : ℕ
max_event_bytes = 65_536

abbrev pub delivery_delays : List Duration
delivery_delays = 5 * second ∷ 10 * second ∷ 30 * second ∷ minute ∷ 5 * minute ∷ []

unfoldable pub retry_delay : ℕ → Duration
retry_delay zero = delay_at delivery_delays 0
retry_delay (suc index) =
    delay_at delivery_delays
      (if leb (length delivery_delays) index then length delivery_delays - 1 else index)

abbrev pub ends : RunnerError → Result PortError (Unit {0}) → Result RunnerError (Unit {0})
ends e (ok _) = ok tt
ends e (err _) = err e

abbrev pub is_invalid_event : PortError → Bool
is_invalid_event invalid_message_created_event = true
is_invalid_event _ = false

abbrev pub chat_events : Text
chat_events = bytes "CHAT_EVENTS"

abbrev pub message_delivery : Text
message_delivery = bytes "MESSAGE_DELIVERY"

unfoldable pub failure_of : Metadata → Text → Text → DeliveryFailure
failure_of metadata event_id reason = record {
  event_id = event_id;
  stream_sequence = metadata.stream_sequence;
  reason_code = reason;
}

module _ {W : Type 0} (ports : RunnerPorts W) where
  open ports use {decode, handle, publish_failure, nak_with_delay, double_ack, term_with_reason}

  unfoldable pub recorded :
      Metadata → Text → Result PortError (Unit {0}) → Action W RunnerError (Unit {0})
  recorded metadata reason (err _) w =
      let (_, v) = nak_with_delay (retry_delay metadata.num_delivered) w in (err record_failed, v)
  recorded metadata reason (ok _) w =
      let (reply, v) = term_with_reason reason w in (ends terminate_failed reply, v)

  unfoldable pub fail_permanent : Metadata → Text → Text → Action W RunnerError (Unit {0})
  unfolding recorded
  fail_permanent metadata event_id reason w =
      let (reply, v) = publish_failure (failure_of metadata event_id reason) w in
      recorded metadata reason reply v

  -- After `Dispatch`.
  unfoldable pub dispatched :
      Metadata → Text → Result PortError (Unit {0}) → Action W RunnerError (Unit {0})
  unfolding fail_permanent
  dispatched metadata event_id (ok _) w =
      let (reply, v) = double_ack w in (ends ack_failed reply, v)
  dispatched metadata event_id (err e) w =
      if is_invalid_event e
      then fail_permanent metadata event_id (bytes "invalid_event") w
      else let (reply, v) = nak_with_delay (retry_delay metadata.num_delivered) w in
        (ends retry_failed reply, v)

  unfoldable pub decoded : Metadata → Option MessageCreatedEvent → Action W RunnerError (Unit {0})
  unfolding dispatched
  decoded metadata none w = fail_permanent metadata [] (bytes "invalid_envelope") w
  decoded metadata (some event) w =
      let (reply, v) = handle event w in dispatched metadata event.event_id reply v

  unfoldable pub handed_back : RunnerError → Action W RunnerError (Unit {0})
  handed_back e w = let (_, v) = nak_with_delay default_error_wait w in (err e, v)

  -- The error of `Metadata` is none here.
  unfoldable pub process_message : Option Metadata → Text → Action W RunnerError (Unit {0})
  unfolding decoded
  process_message none payload w = handed_back metadata_failed w
  process_message (some metadata) payload w =
      if not (text_eq metadata.stream chat_events)
        || not (text_eq metadata.consumer message_delivery)
      then handed_back unexpected_stream w
      else decoded metadata (if ltb max_event_bytes (length payload) then none else decode payload)
          w
