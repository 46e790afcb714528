-- ===== src/Outbox/Leases.antt =====
-- What a lease is worth.
use nexus_services.Shared.{
  ℕ, ◌≡◌, ◌≢◌, refl, inl, inr, Bool, true, false, some, List, Result, ok, err, arith, All, All-map,
  Bool-cases, Time, if◌then◌else◌,
}
use nexus_services.Text.{Text}
use nexus_services.Ports.{PublishReceipt}
use nexus_services.Mongo.{DbError, Collection, Replaced-NoMatch, NoMatch, Updated}
use nexus_services.Outbox.Document.{OutboxDocument}
use nexus_services.Outbox.Repository.{
  RepositoryError, same_id, mark_failed, mark_published, schedule_retry, publish, fail, reschedule,
  owned_processing, matched_one,
}
use nexus_services.Outbox.Lifecycle.{owned_processing_lem}

-- No document is held under the lease.
abbrev pub IsStale : Text → List OutboxDocument → Type 0
IsStale lease xs = All (λ d. d.lease_id ≢ some lease) xs

stale-NoMatch :
    (id lease : Text) (xs : List OutboxDocument)
    → IsStale lease xs
    → NoMatch (owned_processing id lease) xs
stale-NoMatch id lease =
    All-map (λ d. d.lease_id ≢ some lease) (λ d. owned_processing id lease d ≡ false)
      (λ d h. elim (Bool-cases (owned_processing id lease d)) [
        | inl e ↦ absurd (h (owned_processing_lem id lease d e).3)
        | inr e ↦ e
      ])

module _ (collection : Collection OutboxDocument same_id) where
  open collection use {
    State, docs, update_one, update_one_law, find_one_and_update, find_one_and_update_law,
  }

  -- The operation reports no success and leaves every document as it was.
  abbrev pub Refuses : State → Result RepositoryError Bool × State → Type 0
  Refuses s r = (r.0 ≢ ok true) × (docs r.1 ≡ docs s)

  guarded-Refuses :
      (test : Bool) (e : RepositoryError) (s : State) (r : Result RepositoryError Bool × State)
      → Refuses s r
      → Refuses s (if test then (err e, s) else r)
  guarded-Refuses true e s r h = (λ q. cc, refl)
  guarded-Refuses false e s r h = h

  updated-Refuses :
      (p : OutboxDocument → Bool) (u : OutboxDocument → OutboxDocument) (s : State)
      → NoMatch p (docs s)
      → Refuses s (matched_one (update_one p u s).0, (update_one p u s).1)
  unfolding matched_one
  updated-Refuses p u s n = go (update_one p u s).0 (update_one_law p u s)
    where
      go :
          (r : Result DbError ℕ)
          → Updated p u (docs s) r (docs (update_one p u s).1)
          → Refuses s (matched_one r, (update_one p u s).1)
      go (ok k) (inl (_, (d, rep))) = absurd (Replaced-NoMatch rep n)
      go (ok k) (inr (z, _, e)) = (λ q. ground arith, e)
      go (err x) (inl e) = (λ q. ground arith, e)
      go (err x) (inr (d, rep)) = absurd (Replaced-NoMatch rep n)

  -- A worker whose lease is on no document any more, because it ran out and was recovered, or
  -- because the event was finished under it, cannot finish the event in any way.
  pub stale_lease_refused :
      (id lease reason : Text) (receipt : PublishReceipt) (at : Time) (s : State)
      → IsStale lease (docs s)
      → Refuses s (mark_published collection id lease receipt at s)
        × Refuses s (mark_failed collection id lease at reason s)
        × Refuses s (schedule_retry collection id lease at reason s)
  unfolding mark_published mark_failed schedule_retry
  stale_lease_refused id lease reason receipt at s h =
      let n = stale-NoMatch id lease (docs s) h in
      (
        guarded-Refuses _ _ s _
            (updated-Refuses (owned_processing id lease) (publish receipt at) s n),
        guarded-Refuses _ _ s _ (updated-Refuses (owned_processing id lease) (fail at reason) s n),
        guarded-Refuses _ _ s _
            (updated-Refuses (owned_processing id lease) (reschedule at reason) s n),
      )
