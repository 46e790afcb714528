-- ===== src/Outbox/Operations.antt =====
-- The repository's operations, in any order and by any number of workers, follow the life of a
-- document: each moves every document of the collection by a step, whatever the database answers.
use mathlib.Core.List.{Memᴰ}
use mathlib.Core.Path.{subst}
use nexus_services.Shared.{
  sym, ℕ, ◌+◌, ◌≡◌, refl, Bool, true, false, List, [], ◌∷◌, map, Result, ok, err, arith, All, Time,
  Duration, if◌then◌else◌,
}
use nexus_services.Text.{Text}
use nexus_services.Ports.{PublishReceipt}
use nexus_services.Mongo.{
  DbError, Collection, Each, Each-refl, Each-trans, Each-All, Updated-Each, BulkUpdated-Each,
  Each-map, FoundUpdated-Each,
}
use nexus_services.Outbox.Document.{OutboxDocument, or_empty}
use nexus_services.Outbox.Repository.{
  same_id, claim_next, mark_failed, mark_published, schedule_retry, recover_expired, recover_found,
  recovery_model, claimable, claimed_before, claim, publish, fail, reschedule, owned_processing,
  recoverable, recovered_before,
}
use nexus_services.Outbox.Lifecycle.{
  Step, claimed, marked_published, marked_failed, rescheduled, recovered, Steps, here, onward,
  Steps-append, IsValid, Keeps, Steps-IsValid, Steps-Keeps,
}

-- One call of the repository, with its arguments.
pub data Operation : Type 0 where
  claims : Text → Text → Time → Duration → Operation
  publishes : Text → Text → PublishReceipt → Time → Operation
  fails : Text → Text → Time → Text → Operation
  retries : Text → Text → Time → Text → Operation
  recovers : Time → ℕ → Operation

one : {d e : OutboxDocument} → Step d e → Steps d e
one s = onward here s

recovery_model-Steps :
    (now : Time) (found d : OutboxDocument)
    → (recovery_model now found).0 d ≡ true
    → Steps d ((recovery_model now found).1 d)
unfolding recovery_model
recovery_model-Steps now found d h =
    one (recovered found.id (or_empty found.lease_id) now (ground arith) (ground arith) refl)

models-Steps :
    (now : Time) (ds : List OutboxDocument) (p : OutboxDocument → Bool)
    (u : OutboxDocument → OutboxDocument)
    → Memᴰ (p, u) (map (recovery_model now) ds)
    → (d : OutboxDocument) → p d ≡ true
    → Steps d (u d)
models-Steps now [] p u i d h = elim i [ ]
models-Steps now (x ∷ ds) p u (Memᴰ.head e) d h =
    subst
      (λ (m : (OutboxDocument → Bool) × (OutboxDocument → OutboxDocument)).
        m.0 d ≡ true → Steps d (m.1 d))
      (sym e) (recovery_model-Steps now x d) h
models-Steps now (x ∷ ds) p u (Memᴰ.tail i) d h = models-Steps now ds p u i d h

module _ (collection : Collection OutboxDocument same_id) where
  open collection use {
    State, docs, find, find_law, update_one, update_one_law, find_one_and_update_law,
    bulk_write_law,
  }

  -- What an operation leaves behind.
  unfoldable pub perform : Operation → State → State
  perform (claims w l now d) s = (claim_next collection w l now d s).1
  perform (publishes i l r t) s = (mark_published collection i l r t s).1
  perform (fails i l t r) s = (mark_failed collection i l t r s).1
  perform (retries i l t r) s = (schedule_retry collection i l t r s).1
  perform (recovers now n) s = (recover_expired collection now n s).1

  unfoldable pub perform_all : List Operation → State → State
  perform_all [] s = s
  perform_all (o ∷ os) s = perform_all os (perform o s)

  abbrev Moved : State → State → Type 0
  Moved s t = Each Steps (docs s) (docs t)

  unmoved : (s : State) → Moved s s
  unmoved s = Each-refl Steps (λ d. here) (docs s)

  guarded-Moved :
      {A : Type 0} (test : Bool) (refusal : A) (s : State) (r : A × State)
      → Moved s r.1
      → Moved s (if test then (refusal, s) else r).1
  guarded-Moved true refusal s r h = unmoved s
  guarded-Moved false refusal s r h = h

  updated-Moved :
      (p : OutboxDocument → Bool) (u : OutboxDocument → OutboxDocument) (s : State)
      → ((d : OutboxDocument) → p d ≡ true → Steps d (u d))
      → Moved s (update_one p u s).1
  updated-Moved p u s f =
      Updated-Each Steps (λ d. here) p u (docs s) (update_one p u s).0 (docs (update_one p u s).1) f
        (update_one_law p u s)

  recover_found-Moved :
      (now : Time) (r : Result DbError (List OutboxDocument)) (s : State)
      → Moved s (recover_found collection now r s).1
  unfolding recover_found
  recover_found-Moved now (err e) s = unmoved s
  recover_found-Moved now (ok []) s = unmoved s
  recover_found-Moved now (ok (d ∷ ds)) s =
      BulkUpdated-Each Steps (λ x. here) (λ x y z. Steps-append) (models-Steps now (d ∷ ds))
        (bulk_write_law (map (recovery_model now) (d ∷ ds)) s)

  perform-Moved : (o : Operation) (s : State) → Moved s (perform o s)
  unfolding perform claim_next mark_published mark_failed schedule_retry recover_expired
  perform-Moved (claims w l now duration) s = guarded-Moved _ _ s _ (
      FoundUpdated-Each Steps (λ d. here) (claimable now) claimed_before
        (claim w l (now + duration)) (docs s) _ _
        (λ d h. one (claimed w l now (now + duration) h refl))
        (find_one_and_update_law (claimable now) claimed_before (claim w l (now + duration)) s))
  perform-Moved (publishes i l r t) s = guarded-Moved _ _ s _ (
      updated-Moved (owned_processing i l) (publish r t) s
        (λ d h. one (marked_published i l r t h refl)))
  perform-Moved (fails i l t r) s = guarded-Moved _ _ s _ (
      updated-Moved (owned_processing i l) (fail t r) s (λ d h. one (marked_failed i l r t h refl)))
  perform-Moved (retries i l t r) s = guarded-Moved _ _ s _ (
      updated-Moved (owned_processing i l) (reschedule t r) s
        (λ d h. one (rescheduled i l r t h refl)))
  perform-Moved (recovers now n) s =
      let (r, s') = find (recoverable now) recovered_before n s in
      guarded-Moved _ _ s (recover_found collection now r s') (
        subst (λ xs. Each Steps xs (docs (recover_found collection now r s').1))
          (find_law (recoverable now) recovered_before n s).1 (recover_found-Moved now r s'))

  perform_all-Moved : (os : List Operation) (s : State) → Moved s (perform_all os s)
  unfolding perform_all
  perform_all-Moved [] s = unmoved s
  perform_all-Moved (o ∷ os) s =
      Each-trans Steps (λ x y z. Steps-append) (docs s) (docs (perform o s))
        (docs (perform_all os (perform o s))) (perform-Moved o s)
        (perform_all-Moved os (perform o s))

  -- Whatever operations the workers carry out, in any order and with any answers of the database,
  -- every outbox document stays consistent with its status.
  pub perform_all-IsValid :
      (os : List Operation) (s : State)
      → All IsValid (docs s)
      → All IsValid (docs (perform_all os s))
  perform_all-IsValid os s =
      Each-All Steps IsValid (λ x y. Steps-IsValid) (docs s) (docs (perform_all os s))
        (perform_all-Moved os s)

  -- Through any sequence of operations no document is lost or added, no event changes, no count of
  -- attempts falls, and a document that is published or failed stays as it is.
  pub perform_all-Keeps :
      (os : List Operation) (s : State) → Each Keeps (docs s) (docs (perform_all os s))
  perform_all-Keeps os s =
      Each-map Steps Keeps (λ x y. Steps-Keeps) (docs s) (docs (perform_all os s))
        (perform_all-Moved os s)
