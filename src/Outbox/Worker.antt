-- ===== src/Outbox/Worker.antt =====
-- internal/application/outbox/publish_one.go: one step of a publisher. The ports are an interface
-- over a world of their own; a call takes the world and returns its reply with the next world.
-- Timeouts of the calls (`context.WithTimeout`) are part of a call: one that runs out is a reply
-- with an error.
pub mod Runs
use nexus_services.Shared.{
  ℕ, zero, suc, ◌+◌, ◌-◌, ◌/◌, ◌*◌, ◌<◌, Bool, true, false, not, ◌||◌, Option, none, some, List, [],
  ◌∷◌, Result, ok, err, ltb, leb, length, Time, Duration, second, minute, if◌then◌else◌,
}
use nexus_services.Shared.Int.{ℤ, pos, negsuc}
use nexus_services.Text.{Text, bytes, is_empty, text_eq, trim_space}
use nexus_services.Ports.{PortError, invalid_outbox_event, OutboxEvent, PublishReceipt}

pub data Outcome : Type 0 where
  no_work published retry_scheduled failed_permanent : Outcome

pub data RunError : Type 0 where
  context_done lease_id_failed claim_failed another_lease lease_lost : RunError
  finish_published_failed finish_invalid_failed schedule_failed : RunError

pub data ConfigError : Type 0 where
  missing_dependency empty_worker_id invalid_timeouts : ConfigError

pub record Config : Type 0 where
  pub worker_id : Text
  pub lease_duration : Duration
  pub publish_timeout : Duration
  pub finish_timeout : Duration

-- `NewPublishOne`, given its four dependencies. A duration is not negative here, so `<= 0` is 0.
unfoldable pub new_publish_one : Config → Result ConfigError Config
new_publish_one config =
    if is_empty (trim_space config.worker_id)
    then err empty_worker_id
    else if leb config.publish_timeout 0
        || leb config.finish_timeout 0
        || leb config.lease_duration (config.publish_timeout + config.finish_timeout)
    then err invalid_timeouts
    else ok config

pub record Ports (W : Type 0) : Type 0 where
  -- `ctx.Err() != nil`
  pub done : W → Bool
  pub now : W → Time × W
  pub new_id : W → Result PortError Text × W
  pub claim_next : Text → Text → Time → Duration → W → Result PortError (Option OutboxEvent) × W
  pub publish : OutboxEvent → W → Result PortError PublishReceipt × W
  pub mark_published : Text → Text → PublishReceipt → Time → W → Result PortError Bool × W
  pub mark_failed : Text → Text → Time → Text → W → Result PortError Bool × W
  pub schedule_retry : Text → Text → Time → Text → W → Result PortError Bool × W
  -- `rand.Int64N(n)`
  pub random : ℕ → W → ℕ × W

abbrev pub delays : List Duration
delays = second ∷ 2 * second ∷ 5 * second ∷ 10 * second ∷ 30 * second ∷ minute ∷ 5 * minute ∷ []

-- `delays[i]` for an index in range; the last delay beyond it.
abbrev pub delay_at : List Duration → ℕ → Duration
delay_at [] i = 0
delay_at (d ∷ []) i = d
delay_at (d ∷ e ∷ ds) zero = d
delay_at (d ∷ e ∷ ds) (suc i) = delay_at (e ∷ ds) i

-- The two `if`s that bring `attempts` into range, and the delay found there.
unfoldable pub base_delay : ℤ → Duration
base_delay (negsuc n) = delay_at delays 0
base_delay (pos n) = delay_at delays (if leb (length delays) n then length delays - 1 else n)

module _ {W : Type 0} (ports : Ports W) where
  open ports use {random}

  unfoldable pub retry_delay : ℤ → W → Duration × W
  retry_delay attempts w =
      let base = base_delay attempts in
      let (jitter, w') = random (base / 5 + 1) w in (base + jitter, w')

-- The end of each branch: the error of the call, a lost lease, or the outcome.
abbrev pub finished : RunError → Outcome → Result PortError Bool → Result RunError Outcome
finished e outcome (err _) = err e
finished e outcome (ok false) = err lease_lost
finished e outcome (ok true) = ok outcome

abbrev pub is_invalid_outbox_event : PortError → Bool
is_invalid_outbox_event invalid_outbox_event = true
is_invalid_outbox_event _ = false

abbrev pub invalid_reason : Text
invalid_reason = bytes "invalid_outbox_event"

abbrev pub retry_reason : Text
retry_reason = bytes "outbox_publish_failed"

module _ {W : Type 0} (ports : Ports W) (config : Config) where
  open ports use {
    done, now, new_id, claim_next, publish, mark_published, mark_failed, schedule_retry,
  }

  finish_invalid : OutboxEvent → Text → Time → W → Result RunError Outcome × W
  finish_invalid event lease_id at w =
      let (updated, w') = mark_failed event.id lease_id at invalid_reason w in
      (finished finish_invalid_failed failed_permanent updated, w')

  finish_retry : OutboxEvent → Text → Time → W → Result RunError Outcome × W
  finish_retry event lease_id at w =
      let (delay, w₁) = retry_delay ports event.attempts w in
      let (updated, w₂) = schedule_retry event.id lease_id (at + delay) retry_reason w₁ in
      (finished schedule_failed retry_scheduled updated, w₂)

  -- After the publication: one finishing call.
  unfoldable pub finish :
      OutboxEvent → Text → Result PortError PublishReceipt → W → Result RunError Outcome × W
  unfolding finish_invalid finish_retry
  finish event lease_id (ok receipt) w =
      let (at, w₁) = now w in
      let (updated, w₂) = mark_published event.id lease_id receipt at w₁ in
      (finished finish_published_failed published updated, w₂)
  finish event lease_id (err e) w =
      let (at, w₁) = now w in
      if is_invalid_outbox_event e
      then finish_invalid event lease_id at w₁
      else finish_retry event lease_id at w₁

  unfoldable pub publish_claimed :
      Text → Result PortError (Option OutboxEvent) → W → Result RunError Outcome × W
  unfolding finish
  publish_claimed lease_id (err e) w = (err claim_failed, w)
  publish_claimed lease_id (ok none) w = (ok no_work, w)
  publish_claimed lease_id (ok (some event)) w =
      if not (text_eq event.lease_id lease_id)
      then (err another_lease, w)
      else let (reply, w') = publish event w in finish event lease_id reply w'

  claim_with : Result PortError Text → W → Result RunError Outcome × W
  unfolding publish_claimed
  claim_with (err e) w = (err lease_id_failed, w)
  claim_with (ok lease_id) w =
      let (at, w₁) = now w in
      let (reply, w₂) = claim_next config.worker_id lease_id at config.lease_duration w₁ in
      publish_claimed lease_id reply w₂

  -- `RunOnce`
  unfoldable pub run_once : W → Result RunError Outcome × W
  unfolding claim_with
  run_once w =
      if done w then (err context_done, w) else let (reply, w') = new_id w in claim_with reply w'
