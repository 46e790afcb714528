-- ===== src/RateLimiter/Limits.antt =====
-- How many messages a user may send, and when the next one passes.
use nexus_services.Shared.{
  ℕ, ◌+◌, ◌≤◌, ◌<◌, ◌≡◌, refl, false, Bool-cases, inl, inr, Option, none, some, List, [], ◌∷◌, ◌++◌,
  length, ltb, leb, arith,
}
use nexus_services.RateLimiter.{
  burst_limit, burst_window, minute_limit, minute_window, Reservations, larger, minimum,
  active_timestamps, window_retry_at, reserve_at, reservation_pipeline,
}

length-append : (xs : List ℕ) (x : ℕ) → length (xs ++ (x ∷ [])) ≡ length xs + 1
length-append [] x = refl
length-append (y ∷ xs) x = let rest = length-append xs x in omega arith

-- The timestamps that are in a window of this length when it ends at `checked`.
abbrev pub in_window : ℕ → ℕ → List ℕ → ℕ
in_window checked window xs = length (active_timestamps checked window xs)

in_window_append :
    (checked window : ℕ) (xs : List ℕ) (x : ℕ)
    → in_window checked window (xs ++ (x ∷ [])) ≤ in_window checked window xs + 1
unfolding active_timestamps
in_window_append checked window [] x = ground arith
in_window_append checked window (y ∷ xs) x =
    let rest = in_window_append checked window xs x in ground arith

-- A later window has fewer of them, also of those that an earlier and longer one has left.
in_window_later :
    (now later window : ℕ) (xs : List ℕ)
    → now ≤ later
    → in_window later window xs ≤ in_window now window xs
unfolding active_timestamps
in_window_later now later window [] h = omega arith
in_window_later now later window (x ∷ xs) h =
    let rest = in_window_later now later window xs h in ground arith

in_window_filtered :
    (now later long window : ℕ) (xs : List ℕ)
    → in_window later window (active_timestamps now long xs) ≤ in_window later window xs
unfolding active_timestamps
in_window_filtered now later long window [] = omega arith
in_window_filtered now later long window (x ∷ xs) =
    let rest = in_window_filtered now later long window xs in
    elim (Bool-cases (ltb now (x + long))) [
      | inl e ↦ rw e (ground arith)
      | inr e ↦ rw e (ground arith)
    ]

in_window_all : (now window : ℕ) (xs : List ℕ) → in_window now window xs ≤ length xs
unfolding active_timestamps
in_window_all now window [] = omega arith
in_window_all now window (x ∷ xs) = let rest = in_window_all now window xs in ground arith

in_window_earlier :
    (now later window : ℕ) (xs : List ℕ)
    → now ≤ later
    → in_window later window xs ≤ in_window later window (active_timestamps now window xs)
unfolding active_timestamps
in_window_earlier now later window [] h = omega arith
in_window_earlier now later window (x ∷ xs) h =
    let rest = in_window_earlier now later window xs h in
    elim (Bool-cases (ltb now (x + window))) [
      | inl e ↦ rw e (ground arith)
      | inr e ↦ rw e (ground arith)
    ]

-- The oldest timestamp of a window is in it.
pub minimum_active :
    (now window : ℕ) (xs : List ℕ)
    → 1 ≤ in_window now window xs
    → now < minimum (active_timestamps now window xs) + window
unfolding active_timestamps minimum
minimum_active now window [] h = absurd (omega arith)
minimum_active now window (x ∷ xs) h = elim (Bool-cases (ltb now (x + window))) [
  | inl e ↦
      rw e (first (active_timestamps now window xs) (minimum_active now window xs) (ground arith))
  | inr e ↦ rw e (minimum_active now window xs (ground arith))
]
  where
    first :
        (ys : List ℕ)
        → (1 ≤ length ys → now < minimum ys + window)
        → now < x + window
        → now < minimum (x ∷ ys) + window
    first [] k l = l
    first (y ∷ ys) k l = let rest = k (omega arith) in ground arith

-- Once the oldest timestamp is out of the window, the window has fewer of them.
minimum_dropped :
    (now window x : ℕ) (xs : List ℕ)
    → minimum (x ∷ xs) + window ≤ now
    → in_window now window (x ∷ xs) < length (x ∷ xs)
unfolding active_timestamps minimum
minimum_dropped now window x [] h = ground arith
minimum_dropped now window x (y ∷ xs) h =
    let all = in_window_all now window (y ∷ xs) in
    let rest = minimum_dropped now window y xs in
    elim (Bool-cases (ltb (minimum (y ∷ xs)) x)) [
      | inl e ↦ let less = rest (ground arith) in ground arith
      | inr e ↦ ground arith
    ]

-- A window that does not hold up a message has room for it.
window_open :
    (now limit window : ℕ) (xs : List ℕ)
    → 1 ≤ limit
    → window_retry_at now (active_timestamps now window xs) limit window ≤ now
    → in_window now window xs < limit
unfolding window_retry_at
window_open now limit window xs l h = elim (Bool-cases (leb limit (in_window now window xs))) [
  | inl e ↦ let late = minimum_active now window xs (ground arith) in absurd (ground arith)
  | inr e ↦ ground arith
]

-- At the time at which a window lets the next message pass, it has room.
window_reopens :
    (now later limit window : ℕ) (xs : List ℕ)
    → length xs ≤ limit
    → 1 ≤ limit
    → window_retry_at now xs limit window ≤ later
    → in_window later window xs < limit
unfolding window_retry_at
window_reopens now later limit window [] s l h =
    let none = in_window_all later window [] in omega arith
window_reopens now later limit window (x ∷ xs) s l h =
    let all = in_window_all later window (x ∷ xs) in
    elim (Bool-cases (leb limit (length (x ∷ xs)))) [
      | inl e ↦ let less = minimum_dropped later window x xs (ground arith) in omega arith
      | inr e ↦ ground arith
    ]

larger_le : (a c n : ℕ) → larger a c ≤ n → (a ≤ n) × (c ≤ n)
larger_le a c n h = (ground arith, ground arith)

-- At most 60 messages are kept, and at most 30 of them are from the last ten seconds.
pub record IsLimited (d : Reservations) : Type 0 where
  pub minute_kept : length d.timestamps ≤ minute_limit
  pub burst_kept : in_window d.checked_at burst_window d.timestamps ≤ burst_limit

reserve_at-IsLimited :
    (checked : ℕ) (xs : List ℕ)
    → length xs ≤ minute_limit
    → in_window checked burst_window xs ≤ burst_limit
    → IsLimited (reserve_at checked xs)
unfolding reserve_at
reserve_at-IsLimited checked xs m b =
    let active = active_timestamps checked minute_window xs in
    let a = in_window_all checked minute_window xs in
    let f = in_window_filtered checked checked minute_window burst_window xs in
    let open_minute = window_open checked minute_limit minute_window xs (omega arith) in
    let open_burst = window_open checked burst_limit burst_window active (omega arith) in
    let one_more = in_window_append checked burst_window active checked in
    let longer = length-append active checked in
    let retry_minute = window_retry_at checked active minute_limit minute_window in
    let retry_burst =
      window_retry_at checked (active_timestamps checked burst_window active) burst_limit
        burst_window in
    elim (Bool-cases (leb (larger retry_minute retry_burst) checked)) [
      | inl e ↦
          let (first, second) = larger_le retry_minute retry_burst checked (ground arith) in
          let room = open_minute first in
          let room_burst = open_burst second in
          rw e (record { minute_kept = omega arith; burst_kept = omega arith })
      | inr e ↦ rw e (record { minute_kept = omega arith; burst_kept = omega arith })
    ]

abbrev pub StoredLimited : Option Reservations → Type 0
StoredLimited none = Unit
StoredLimited (some d) = IsLimited d

pub reservation_pipeline-IsLimited :
    (now : ℕ) (stored : Option Reservations)
    → StoredLimited stored
    → IsLimited (reservation_pipeline now stored)
unfolding reservation_pipeline active_timestamps
reservation_pipeline-IsLimited now none h = reserve_at-IsLimited now [] (omega arith) (omega arith)
reservation_pipeline-IsLimited now (some d) h =
    let checked = larger now d.checked_at in
    let later : d.checked_at ≤ checked = ground arith in
    let fewer = in_window_later d.checked_at checked burst_window d.timestamps later in
    let kept = h.burst_kept in reserve_at-IsLimited checked d.timestamps h.minute_kept (omega arith)

-- The reservations of one user at these server times, the first one last.
abbrev pub reserve_all : List ℕ → Option Reservations
reserve_all [] = none
reserve_all (now ∷ earlier) = some (reservation_pipeline now (reserve_all earlier))

-- After any reservations of a user, at server times that may also fall, at most 60 messages are
-- kept and at most 30 of them lie in the last ten seconds.
pub reserve_all-StoredLimited : (times : List ℕ) → StoredLimited (reserve_all times)
reserve_all-StoredLimited [] = tt
reserve_all-StoredLimited (now ∷ earlier) =
    reservation_pipeline-IsLimited now (reserve_all earlier) (reserve_all-StoredLimited earlier)

-- A reservation passes without a wait exactly when it adds its own time.
abbrev pub Granted : Reservations → Type 0
Granted d = d.retry_at ≡ d.checked_at

window_retry_at_le :
    (now limit window : ℕ) (xs : List ℕ)
    → length xs < limit
    → window_retry_at now xs limit window ≡ now
unfolding window_retry_at
window_retry_at_le now limit window xs h = ground arith

-- When a reservation on limited timestamps has to wait, the next one passes at once as soon as the
-- server's time has come to the time that the first one was given.
pub retry-Granted :
    (checked later : ℕ) (xs : List ℕ)
    → length xs ≤ minute_limit
    → in_window checked burst_window xs ≤ burst_limit
    → checked < (reserve_at checked xs).retry_at
    → (reserve_at checked xs).retry_at ≤ later
    → Granted (reservation_pipeline later (some (reserve_at checked xs)))
unfolding reserve_at reservation_pipeline
retry-Granted checked later xs m b wait due =
    let active = active_timestamps checked minute_window xs in
    let burst = active_timestamps checked burst_window active in
    let a = in_window_all checked minute_window xs in
    let f = in_window_filtered checked checked minute_window burst_window xs in
    let retry_minute = window_retry_at checked active minute_limit minute_window in
    let retry_burst = window_retry_at checked burst burst_limit burst_window in
    let (due_minute, due_burst) = larger_le retry_minute retry_burst later due in
    let held : leb (larger retry_minute retry_burst) checked ≡ false = ground arith in
    let now_later : larger later checked ≡ later = ground arith in
    let room =
      window_reopens checked later minute_limit minute_window active (omega arith) (omega arith)
        due_minute in
    let reopened =
      window_reopens checked later burst_limit burst_window burst (omega arith) (omega arith)
        due_burst in
    let earlier = in_window_earlier checked later burst_window active (omega arith) in
    let filtered = in_window_filtered later later minute_window burst_window active in
    let still = active_timestamps later minute_window active in
    let pass_minute = window_retry_at_le later minute_limit minute_window still room in
    let pass_burst =
      window_retry_at_le later burst_limit burst_window (active_timestamps later burst_window still)
        (omega arith) in
    let same : larger later later ≡ later = ground arith in
    rw (now_later, held, pass_minute, pass_burst) same
