-- ===== src/RateLimiter.antt =====
-- internal/resources/mongodb/message_rate_limiter/limiter.go: the pipeline that reserves a message,
-- and the call of it. Times are milliseconds here, as in the stored documents.
pub mod Limits
pub mod Waits
use nexus_services.Shared.{
  ℕ, ◌+◌, ◌-◌, Bool, true, false, Option, none, some, List, [], ◌∷◌, ◌++◌, length, Result, ok, err,
  ltb, leb, if◌then◌else◌,
}
use nexus_services.Shared.Actions.{Action}
use nexus_services.Text.{Text, is_empty, trim_space}
use nexus_services.Mongo.{DbError, duplicate_key, failure}

abbrev pub burst_limit : ℕ
burst_limit = 30

abbrev pub burst_window : ℕ
burst_window = 10_000

abbrev pub minute_limit : ℕ
minute_limit = 60

abbrev pub minute_window : ℕ
minute_window = 60_000

-- A stored document; the fields of one that is just being inserted are missing.
pub record Reservations : Type 0 where
  pub timestamps : List ℕ
  pub checked_at : ℕ
  pub retry_at : ℕ
  pub expires_at : ℕ

abbrev pub larger : ℕ → ℕ → ℕ
larger a c = if ltb a c then c else a

abbrev pub smaller : ℕ → ℕ → ℕ
smaller a c = if ltb c a then c else a

-- `$min` and `$max` of a list, which is never empty where they are used.
unfoldable pub minimum : List ℕ → ℕ
minimum [] = 0
minimum (x ∷ []) = x
minimum (x ∷ y ∷ xs) = smaller x (minimum (y ∷ xs))

unfoldable pub maximum : List ℕ → ℕ
maximum [] = 0
maximum (x ∷ xs) = larger x (maximum xs)

-- `timestamp > checked_at - window`, without the subtraction.
unfoldable pub active_timestamps : ℕ → ℕ → List ℕ → List ℕ
active_timestamps checked window [] = []
active_timestamps checked window (x ∷ xs) =
    let rest = active_timestamps checked window xs in
    if ltb checked (x + window) then x ∷ rest else rest

unfoldable pub window_retry_at : ℕ → List ℕ → ℕ → ℕ → ℕ
window_retry_at checked timestamps limit window =
    if leb limit (length timestamps) then minimum timestamps + window else checked

abbrev pub stored_timestamps : Option Reservations → List ℕ
stored_timestamps none = []
stored_timestamps (some d) = d.timestamps

abbrev pub checked_time : ℕ → Option Reservations → ℕ
checked_time now none = now
checked_time now (some d) = larger now d.checked_at

-- The stages of the pipeline after the first one.
unfoldable pub reserve_at : ℕ → List ℕ → Reservations
reserve_at checked timestamps =
    let active = active_timestamps checked minute_window timestamps in
    let burst = active_timestamps checked burst_window active in
    let retry =
      larger (window_retry_at checked active minute_limit minute_window)
        (window_retry_at checked burst burst_limit burst_window) in
    let kept = if leb retry checked then active ++ (checked ∷ []) else active in
    record {
      timestamps = kept;
      checked_at = checked;
      retry_at = retry;
      expires_at = maximum kept + minute_window;
    }

-- `reservationPipeline`, with the server's `$$NOW`.
unfoldable pub reservation_pipeline : ℕ → Option Reservations → Reservations
unfolding reserve_at
reservation_pipeline now stored = reserve_at (checked_time now stored) (stored_timestamps stored)

pub data LimiterError : Type 0 where
  empty_user_id reservation_failed : LimiterError

-- `FindOneAndUpdate` by id with a pipeline, with or without the insertion of a missing document.
abbrev pub FindAndUpdate : Type 0 → Type 0
FindAndUpdate W =
    (upsert : Bool)
    → Text
    → (ℕ → Option Reservations → Reservations)
    → Action W DbError Reservations

-- `result.RetryAt.Sub(result.CheckedAt)`; a negative difference would stop at 0 here.
abbrev pub wait_of : Result DbError Reservations → Result LimiterError ℕ
wait_of (ok d) = ok (d.retry_at - d.checked_at)
wait_of (err _) = err reservation_failed

module _ {W : Type 0} (find_and_update : FindAndUpdate W) where
  -- A duplicate key means that another request has inserted the document.
  unfoldable pub reserved : Text → Result DbError Reservations → Action W LimiterError ℕ
  reserved user_id (err duplicate_key) w =
      let (again, v) = find_and_update false user_id reservation_pipeline w in (wait_of again, v)
  reserved user_id (ok d) w = (wait_of (ok d), w)
  reserved user_id (err failure) w = (err reservation_failed, w)

  -- `Reserve`, whose duration is in milliseconds.
  unfoldable pub reserve : Text → Action W LimiterError ℕ
  unfolding reserved
  reserve user_id w =
      if is_empty (trim_space user_id)
      then (err empty_user_id, w)
      else let (reply, v) = find_and_update true user_id reservation_pipeline w in
        reserved user_id reply v
