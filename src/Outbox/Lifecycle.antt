-- ===== src/Outbox/Lifecycle.antt =====
-- The life of one outbox document as a step relation, and what every step keeps.
use nexus_services.Shared.{
  ◌≤◌, ◌≡◌, inl, inr, refl, ◌∙◌, Option-cases, true, false, none, some, arith, Time,
}
use nexus_services.Text.{Text, text_eq_iff}
use nexus_services.Ports.{PublishReceipt}
use nexus_services.Outbox.Document.{
  Status, pending, processing, published, failed, OutboxDocument, is_none,
}
use nexus_services.Outbox.Repository.{
  claimable, claim, owned_processing, fail, publish, reschedule, recover, lock_expired,
}

pub data Step (d e : OutboxDocument) : Type 0 where
  stay : e ≡ d → Step d e
  claimed :
      (worker lease : Text) (now until : Time)
      → claimable now d ≡ true
      → e ≡ claim worker lease until d
      → Step d e
  marked_published :
      (id lease : Text) (receipt : PublishReceipt) (at : Time)
      → owned_processing id lease d ≡ true
      → e ≡ publish receipt at d
      → Step d e
  marked_failed :
      (id lease reason : Text) (at : Time)
      → owned_processing id lease d ≡ true
      → e ≡ fail at reason d
      → Step d e
  rescheduled :
      (id lease reason : Text) (at : Time)
      → owned_processing id lease d ≡ true
      → e ≡ reschedule at reason d
      → Step d e
  recovered :
      (id lease : Text) (now : Time)
      → owned_processing id lease d ≡ true
      → lock_expired now d ≡ true
      → e ≡ recover d
      → Step d e

pub data Steps (d : OutboxDocument) : OutboxDocument → Type 0 where
  here : Steps d d
  onward : {e f : OutboxDocument} → Steps d e → Step e f → Steps d f

pub Steps-append : {d e f : OutboxDocument} → Steps d e → Steps e f → Steps d f
Steps-append r here = r
Steps-append r (onward s t) = onward (Steps-append r s) t

-- What each status says of the other fields.
abbrev pub Fits : Status → OutboxDocument → Type 0
Fits pending d =
    (d.lease_id ≡ none)
    × (d.locked_by ≡ none)
    × (d.locked_until ≡ none)
    × (d.published_at ≡ none)
    × (d.failed_at ≡ none)
Fits processing d =
    (is_none d.lease_id ≡ false)
    × (is_none d.locked_by ≡ false)
    × (is_none d.locked_until ≡ false)
    × (d.published_at ≡ none)
    × (d.failed_at ≡ none)
Fits published d =
    (d.lease_id ≡ none)
    × (d.locked_by ≡ none)
    × (d.locked_until ≡ none)
    × (is_none d.published_at ≡ false)
    × (is_none d.jetstream ≡ false)
    × (d.last_error ≡ none)
    × (d.failed_at ≡ none)
Fits failed d =
    (d.lease_id ≡ none)
    × (d.locked_by ≡ none)
    × (d.locked_until ≡ none)
    × (d.published_at ≡ none)
    × (is_none d.failed_at ≡ false)
    × (is_none d.last_error ≡ false)

pub record IsValid (d : OutboxDocument) : Type 0 where
  pub fits : Fits d.status d

-- The parts of a document that no step changes.
pub record SameEvent (d e : OutboxDocument) : Type 0 where
  pub same_id : e.id ≡ d.id
  pub same_aggregate_type : e.aggregate_type ≡ d.aggregate_type
  pub same_aggregate_id : e.aggregate_id ≡ d.aggregate_id
  pub same_event_type : e.event_type ≡ d.event_type
  pub same_payload : e.payload ≡ d.payload
  pub same_created_at : e.created_at ≡ d.created_at
  pub more_attempts : d.attempts ≤ e.attempts

abbrev pub IsFinal : Status → Type 0
IsFinal published = Unit
IsFinal failed = Unit
IsFinal _ = ⊥

claimable_lem :
    (now : Time) (d : OutboxDocument)
    → claimable now d ≡ true
    → (d.status ≡ pending) × (d.published_at ≡ none) × (d.next_attempt_at ≤ now)
unfolding claimable
claimable_lem now d h = ground arith

pub owned_processing_lem :
    (id lease : Text) (d : OutboxDocument)
    → owned_processing id lease d ≡ true
    → (d.status ≡ processing) × (d.published_at ≡ none) × (d.id ≡ id) × (d.lease_id ≡ some lease)
unfolding owned_processing
owned_processing_lem id lease d h = elim (Option-cases d.lease_id) [
  | inl e ↦ ground (arith, text_eq_iff d.id id)
  | inr (l, e) ↦ ground (arith, text_eq_iff d.id id, text_eq_iff l lease)
]

pub Step-IsValid : (d e : OutboxDocument) → Step d e → IsValid d → IsValid e
unfolding claim publish fail reschedule recover
Step-IsValid d e (stay q) v = rw q v
Step-IsValid d e (claimed w l n u h q) v = rw q (ground (arith, claimable_lem n d h))
Step-IsValid d e (marked_published i l r t h q) v =
    rw q (ground (arith, owned_processing_lem i l d h))
Step-IsValid d e (marked_failed i l r t h q) v = rw q (ground (arith, owned_processing_lem i l d h))
Step-IsValid d e (rescheduled i l r t h q) v = rw q (ground (arith, owned_processing_lem i l d h))
Step-IsValid d e (recovered i l n h k q) v = rw q (ground (arith, owned_processing_lem i l d h))

pub Step-SameEvent : (d e : OutboxDocument) → Step d e → SameEvent d e
unfolding claim publish fail reschedule recover
Step-SameEvent d e (stay q) = ground arith
Step-SameEvent d e (claimed w l n u h q) = ground arith
Step-SameEvent d e (marked_published i l r t h q) = ground arith
Step-SameEvent d e (marked_failed i l r t h q) = ground arith
Step-SameEvent d e (rescheduled i l r t h q) = ground arith
Step-SameEvent d e (recovered i l n h k q) = ground arith

-- A published or failed document does not change any more.
pub Step-IsFinal : (d e : OutboxDocument) → Step d e → IsFinal d.status → e ≡ d
Step-IsFinal d e (stay q) f = q
Step-IsFinal d e (claimed w l n u h q) f = absurd (let s = (claimable_lem n d h).0 in ground arith)
Step-IsFinal d e (marked_published i l r t h q) f =
    absurd (ground (arith, owned_processing_lem i l d h))
Step-IsFinal d e (marked_failed i l r t h q) f =
    absurd (ground (arith, owned_processing_lem i l d h))
Step-IsFinal d e (rescheduled i l r t h q) f = absurd (ground (arith, owned_processing_lem i l d h))
Step-IsFinal d e (recovered i l n h k q) f = absurd (ground (arith, owned_processing_lem i l d h))

pub Steps-IsValid : {d e : OutboxDocument} → Steps d e → IsValid d → IsValid e
Steps-IsValid here v = v
Steps-IsValid (onward {e} {f} r s) v = Step-IsValid e f s (Steps-IsValid r v)

-- What many steps keep: the event itself, and the whole document once it is final.
pub record Keeps (d e : OutboxDocument) : Type 0 where
  pub same_event : SameEvent d e
  pub final : IsFinal d.status → e ≡ d

pub Steps-Keeps : {d e : OutboxDocument} → Steps d e → Keeps d e
Steps-Keeps here = record { same_event = ground arith; final = λ f. refl }
Steps-Keeps {d} (onward {e} {f} r s) =
    let k = Steps-Keeps r in
    let g = Step-SameEvent e f s in
    record {
      same_event = ground arith;
      final = λ h. Step-IsFinal e f s (rw (k.final h) h) ∙ k.final h;
    }
