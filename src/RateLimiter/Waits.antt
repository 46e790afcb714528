-- ===== src/RateLimiter/Waits.antt =====
-- How long a user may have to wait.
use nexus_services.Shared.{
  ℕ, ◌+◌, ◌≤◌, Bool, true, false, Bool-cases, inl, inr, Option, none, some, List, [], ◌∷◌, ◌++◌,
  ltb, leb, arith, if◌then◌else◌, All, All-map, All-snoc,
}
use nexus_services.RateLimiter.{
  burst_limit, burst_window, minute_limit, minute_window, Reservations, larger, minimum,
  active_timestamps, window_retry_at, reserve_at, reservation_pipeline,
}
use nexus_services.RateLimiter.Limits.{in_window, minimum_active, reserve_all}

abbrev Past : ℕ → List ℕ → Type 0
Past now xs = All (λ t. t ≤ now) xs

active-Past :
    (now window : ℕ) (xs : List ℕ) → Past now xs → Past now (active_timestamps now window xs)
unfolding active_timestamps
active-Past now window [] h = tt
active-Past now window (x ∷ xs) h = elim (Bool-cases (ltb now (x + window))) [
  | inl e ↦ rw e (h.0, active-Past now window xs h.1)
  | inr e ↦ rw e (active-Past now window xs h.1)
]

minimum-Past : (now : ℕ) (xs : List ℕ) → Past now xs → minimum xs ≤ now
unfolding minimum
minimum-Past now [] h = omega arith
minimum-Past now (x ∷ []) h = h.0
minimum-Past now (x ∷ y ∷ xs) h =
    let first = h.0 in let rest = minimum-Past now (y ∷ xs) h.1 in ground arith

window_retry_at_bounds :
    (now limit window : ℕ) (xs : List ℕ)
    → Past now xs
    → 1 ≤ limit
    → let retry = window_retry_at now (active_timestamps now window xs) limit window in
      (now ≤ retry) × (retry ≤ now + window)
unfolding window_retry_at
window_retry_at_bounds now limit window xs h l =
    let active = active_timestamps now window xs in
    let past = minimum-Past now active (active-Past now window xs h) in
    elim (Bool-cases (leb limit (in_window now window xs))) [
      | inl e ↦
          let late = minimum_active now window xs (ground arith) in rw e (omega arith, omega arith)
      | inr e ↦ rw e (omega arith, omega arith)
    ]

-- The timestamps are not after the check, and the retry is at most a minute after it.
pub record IsPrompt (d : Reservations) : Type 0 where
  pub past : All (λ t. t ≤ d.checked_at) d.timestamps
  pub not_before : d.checked_at ≤ d.retry_at
  pub within_minute : d.retry_at ≤ d.checked_at + minute_window

kept-Past :
    (now : ℕ) (active : List ℕ) (granted : Bool)
    → Past now active
    → Past now (if granted then active ++ (now ∷ []) else active)
kept-Past now active true h = All-snoc (λ t. t ≤ now) active now h (omega arith)
kept-Past now active false h = h

reserve_at-IsPrompt : (now : ℕ) (xs : List ℕ) → Past now xs → IsPrompt (reserve_at now xs)
unfolding reserve_at
reserve_at-IsPrompt now xs h =
    let active = active_timestamps now minute_window xs in
    let past = active-Past now minute_window xs h in
    let minute_bounds = window_retry_at_bounds now minute_limit minute_window xs h (omega arith) in
    let burst_bounds =
      window_retry_at_bounds now burst_limit burst_window active past (omega arith) in
    let retry_minute = window_retry_at now active minute_limit minute_window in
    let retry_burst =
      window_retry_at now (active_timestamps now burst_window active) burst_limit burst_window in
    let low : now ≤ larger retry_minute retry_burst = ground arith in
    let high : larger retry_minute retry_burst ≤ now + minute_window = ground arith in
    record {
      past = kept-Past now active (leb (larger retry_minute retry_burst) now) past;
      not_before = low;
      within_minute = high;
    }

abbrev pub StoredPrompt : Option Reservations → Type 0
StoredPrompt none = Unit
StoredPrompt (some d) = IsPrompt d

reservation_pipeline-IsPrompt :
    (now : ℕ) (stored : Option Reservations)
    → StoredPrompt stored
    → IsPrompt (reservation_pipeline now stored)
unfolding reservation_pipeline
reservation_pipeline-IsPrompt now none h = reserve_at-IsPrompt now [] tt
reservation_pipeline-IsPrompt now (some d) h =
    let checked = larger now d.checked_at in
    let later : d.checked_at ≤ checked = ground arith in
    reserve_at-IsPrompt checked d.timestamps
      (All-map (λ t. t ≤ d.checked_at) (λ t. t ≤ checked) (λ t p. omega arith) d.timestamps h.past)

-- After any reservations of a user, at server times that may also fall, no timestamp is after the
-- last check, and the retry that the last one was given is not before its check and at most a
-- minute after it.
pub reserve_all-StoredPrompt : (times : List ℕ) → StoredPrompt (reserve_all times)
reserve_all-StoredPrompt [] = tt
reserve_all-StoredPrompt (now ∷ earlier) =
    reservation_pipeline-IsPrompt now (reserve_all earlier) (reserve_all-StoredPrompt earlier)
