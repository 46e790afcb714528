-- ===== src/Delivery/Endings.antt =====
-- How a message of the stream ends.
use nexus_services.Shared.{
  ℕ, zero, suc, ◌*◌, ◌≤◌, ◌≡◌, true, false, Option, none, some, List, [], ◌∷◌, Result, ok, err,
  arith, second, minute, Duration,
}
use nexus_services.Text.{Text, bytes}
use nexus_services.Ports.{PortError, MessageCreatedEvent}
use nexus_services.Delivery.Runner.{
  Metadata, DeliveryFailure, RunnerPorts, retry_delay, is_invalid_event, failure_of,
  default_error_wait,
}

-- The calls of a run, with their replies.
pub data Event : Type 0 where
  handled : MessageCreatedEvent → Result PortError (Unit {0}) → Event
  failure_published : DeliveryFailure → Result PortError (Unit {0}) → Event
  nak : Duration → Event
  ack : Event
  term : Text → Event

-- The same ports, with every call written down, the last one first.
abbrev pub recording : {W : Type 0} → RunnerPorts W → RunnerPorts (W × List Event)
recording P = record {
  decode = P.decode;
  handle = λ event w. let (r, v) = P.handle event w.0 in (r, (v, handled event r ∷ w.1));
  publish_failure = λ failure w.
      let (r, v) = P.publish_failure failure w.0 in (r, (v, failure_published failure r ∷ w.1));
  nak_with_delay = λ delay w. let (r, v) = P.nak_with_delay delay w.0 in (r, (v, nak delay ∷ w.1));
  double_ack = λ w. let (r, v) = P.double_ack w.0 in (r, (v, ack ∷ w.1));
  term_with_reason =
      λ reason w. let (r, v) = P.term_with_reason reason w.0 in (r, (v, term reason ∷ w.1));
}

-- The calls of one message, the last one first. It is acknowledged when its event was handled,
-- terminated when a permanent failure was recorded, and handed back otherwise.
pub data Ended (metadata : Metadata) : List Event → Type 0 where
  acked : (event : MessageCreatedEvent) → Ended metadata (ack ∷ handled event (ok tt) ∷ [])
  retried :
      (event : MessageCreatedEvent) (e : PortError)
      → is_invalid_event e ≡ false
      → Ended metadata (nak (retry_delay metadata.num_delivered) ∷ handled event (err e) ∷ [])
  rejected :
      (event : MessageCreatedEvent) (e : PortError)
      → is_invalid_event e ≡ true
      → Ended metadata (
          term (bytes "invalid_event")
          ∷ failure_published (failure_of metadata event.event_id (bytes "invalid_event")) (ok tt)
          ∷ handled event (err e)
          ∷ [])
  unrecorded :
      (event : MessageCreatedEvent) (e x : PortError)
      → is_invalid_event e ≡ true
      → Ended metadata (
          nak (retry_delay metadata.num_delivered)
          ∷ failure_published (failure_of metadata event.event_id (bytes "invalid_event")) (err x)
          ∷ handled event (err e)
          ∷ [])
  unreadable : Ended metadata (
      term (bytes "invalid_envelope")
      ∷ failure_published (failure_of metadata [] (bytes "invalid_envelope")) (ok tt)
      ∷ [])
  unreadable_unrecorded :
      (x : PortError)
      → Ended metadata (
          nak (retry_delay metadata.num_delivered)
          ∷ failure_published (failure_of metadata [] (bytes "invalid_envelope")) (err x)
          ∷ [])
  foreign : Ended metadata (nak default_error_wait ∷ [])

abbrev pub EndedBy : Option Metadata → List Event → Type 0
EndedBy none log = log ≡ nak default_error_wait ∷ []
EndedBy (some metadata) log = Ended metadata log

-- The delay of a retry lies between five seconds and five minutes, and it does not fall as the
-- deliveries grow.
pub delivery_retry_delay_bounds :
    (deliveries : ℕ)
    → (5 * second ≤ retry_delay deliveries)
      × (retry_delay deliveries ≤ 5 * minute)
      × (retry_delay deliveries ≤ retry_delay (suc deliveries))
unfolding retry_delay
delivery_retry_delay_bounds zero = omega arith
delivery_retry_delay_bounds (suc zero) = omega arith
delivery_retry_delay_bounds (suc (suc zero)) = omega arith
delivery_retry_delay_bounds (suc (suc (suc zero))) = omega arith
delivery_retry_delay_bounds (suc (suc (suc (suc zero)))) = omega arith
delivery_retry_delay_bounds (suc (suc (suc (suc (suc n))))) = ground arith
