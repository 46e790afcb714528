-- ===== src/Outbox/Claims.antt =====
-- What a claim takes and writes, field by field.
use nexus_services.Shared.{
  ◌+◌, ◌≤◌, ◌≡◌, refl, sym, ap, subst, ◌∙◌, ◌⊎◌, ◌↔◌, inl, inr, Bool, true, false, Option, none,
  some, List, [], ◌∷◌, ◌++◌, Result, ok, err, arith, All, All-map, Time, Duration, if◌then◌else◌,
}
use nexus_services.Shared.Int.{pos}
use nexus_services.Text.{Text, text_lt}
use nexus_services.Ports.{OutboxEvent}
use nexus_services.Mongo.{DbError, Collection, Replaced, here, there, FoundUpdated}
use nexus_services.Outbox.Document.{
  Status, OutboxDocument, pending, processing, published, failed, is_pending, is_none, to_port,
}
use nexus_services.Outbox.Repository.{
  RepositoryError, same_id, claim_next, claimable, claimed_before, claim, claimed_event,
}

-- The event waits, and its time has come.
abbrev pub IsDue : Time → OutboxDocument → Type 0
IsDue now d = (d.status ≡ pending) × (d.published_at ≡ none) × (d.next_attempt_at ≤ now)

-- `d` is not due after `x`: by the time of the next attempt, then of the creation, then by the id.
abbrev pub IsFirst : OutboxDocument → OutboxDocument → Type 0
IsFirst d x =
    (d.next_attempt_at ≤ x.next_attempt_at)
    × (d.next_attempt_at ≡ x.next_attempt_at → d.created_at ≤ x.created_at)
    × (d.next_attempt_at ≡ x.next_attempt_at
        → d.created_at ≡ x.created_at
        → text_lt x.id d.id ≡ false)

-- The document is processed by the worker, under the lease, until its end; nothing else changes.
pub record IsLeased (worker lease : Text) (until : Time) (d d' : OutboxDocument) : Type 0 where
  pub taken : d'.status ≡ processing
  pub worker_noted : d'.locked_by ≡ some worker
  pub end_noted : d'.locked_until ≡ some until
  pub lease_noted : d'.lease_id ≡ some lease
  pub rest : d ≡ record d' {
    status = d.status;
    locked_by = d.locked_by;
    locked_until = d.locked_until;
    lease_id = d.lease_id;
  }

-- One document has been claimed, where it stands.
pub record IsTaken (worker lease : Text) (now until : Time) (xs ys : List OutboxDocument)
    (d : OutboxDocument) : Type 0 where
  pub front : List OutboxDocument
  pub back : List OutboxDocument
  pub after : OutboxDocument
  pub before_claim : xs ≡ front ++ (d ∷ back)
  pub after_claim : ys ≡ front ++ (after ∷ back)
  pub due : IsDue now d
  pub leased : IsLeased worker lease until d after

-- The event is the document's, under the lease.
abbrev pub IsEventOf : OutboxDocument → Text → OutboxEvent → Type 0
IsEventOf d lease e =
    (e.id ≡ d.id)
    × (e.aggregate_type ≡ d.aggregate_type)
    × (e.aggregate_id ≡ d.aggregate_id)
    × (e.event_type ≡ d.event_type)
    × (e.payload ≡ d.payload)
    × (e.attempts ≡ pos d.attempts)
    × (e.lease_id ≡ lease)

abbrev pub IsClaim :
    Text
    → Text
    → Time
    → Duration
    → List OutboxDocument
    → List OutboxDocument
    → Result RepositoryError (Option OutboxEvent)
    → Type 0
IsClaim worker lease now duration xs ys (ok (some e)) =
    (d : OutboxDocument) × IsTaken worker lease now (now + duration) xs ys d
    × IsEventOf d lease e
    × All (λ x. IsDue now x → IsFirst d x) xs
IsClaim worker lease now duration xs ys (ok none) = All (λ x. ¬ IsDue now x) xs × (ys ≡ xs)
IsClaim worker lease now duration xs ys (err _) =
    (ys ≡ xs) ⊎ ((d : OutboxDocument) × IsTaken worker lease now (now + duration) xs ys d)

is_pending_lem : (status : Status) → is_pending status ≡ true → status ≡ pending
is_pending_lem pending h = refl
is_pending_lem processing h = cc
is_pending_lem published h = cc
is_pending_lem failed h = cc

is_none_lem : {A : Type 0} (o : Option A) → is_none o ≡ true → o ≡ none
is_none_lem none h = refl
is_none_lem (some a) h = cc

IsDue-iff : (now : Time) (d : OutboxDocument) → (claimable now d ≡ true) ↔ IsDue now d
unfolding claimable
IsDue-iff now d = (
  λ h. (
    is_pending_lem d.status (ground arith),
    is_none_lem d.published_at (ground arith),
    ground arith,
  ),
  λ h. ground arith,
)

first_lem : (d x : OutboxDocument) → claimed_before x d ≡ false → IsFirst d x
unfolding claimed_before
first_lem d x h = (ground arith, λ a. ground arith, λ a b. ground arith)

claim-IsLeased :
    (w l : Text) (until : Time) (d : OutboxDocument) → IsLeased w l until d (claim w l until d)
unfolding claim
claim-IsLeased w l until d = record {
  taken = refl;
  worker_noted = refl;
  end_noted = refl;
  lease_noted = refl;
  rest = refl;
}

event_lem :
    (w l : Text) (until : Time) (d : OutboxDocument) → IsEventOf d l (to_port (claim w l until d))
unfolding to_port claim
event_lem w l until d = (refl, refl, refl, refl, refl, refl, refl)

Replaced-IsTaken :
    (w l : Text) (now until : Time) (d : OutboxDocument) {xs ys : List OutboxDocument}
    → Replaced (claimable now) (claim w l until) d xs ys
    → IsTaken w l now until xs ys d
Replaced-IsTaken w l now until d r = go r (claim-IsLeased w l until d)
  where
    go :
        {xs ys : List OutboxDocument}
        → Replaced (claimable now) (claim w l until) d xs ys
        → IsLeased w l until d (claim w l until d)
        → IsTaken w l now until xs ys d
    go (here {x} {y} {xs} e p q) leased = record {
      front = [];
      back = xs;
      after = claim w l until d;
      before_claim = ap (λ z. z ∷ xs) e;
      after_claim = ap (λ z. z ∷ xs) (q ∙ ap (claim w l until) e);
      due = (IsDue-iff now d).0 (subst (λ z. claimable now z ≡ true) e p);
      leased = leased;
    }
    go (there {x} r) leased =
        let rest = go r leased in
        record {
          front = x ∷ rest.front;
          back = rest.back;
          after = rest.after;
          before_claim = ap (λ z. x ∷ z) rest.before_claim;
          after_claim = ap (λ z. x ∷ z) rest.after_claim;
          due = rest.due;
          leased = rest.leased;
        }

module _ (collection : Collection OutboxDocument same_id) where
  open collection use {State, docs, find_one_and_update_law}

  guarded-IsClaim :
      (w l : Text) (now : Time) (duration : Duration) (test : Bool) (x : RepositoryError)
      (s : State) (r : Result RepositoryError (Option OutboxEvent) × State)
      → IsClaim w l now duration (docs s) (docs r.1) r.0
      → let (r', s') = if test then (err x, s) else r in
        IsClaim w l now duration (docs s) (docs s') r'
  guarded-IsClaim w l now duration true x s r h = inl refl
  guarded-IsClaim w l now duration false x s r h = h

  found-IsClaim :
      (w l : Text) (now : Time) (duration : Duration) (xs ys : List OutboxDocument)
      (r : Result DbError (Option OutboxDocument))
      → FoundUpdated (claimable now) claimed_before (claim w l (now + duration)) xs r ys
      → IsClaim w l now duration xs ys (claimed_event r)
  unfolding claimed_event
  found-IsClaim w l now duration xs ys (ok (some e)) (d, q, rep, first) = (
    d,
    Replaced-IsTaken w l now (now + duration) d rep,
    subst (λ z. IsEventOf d l (to_port z)) (sym q) (event_lem w l (now + duration) d),
    All-map (λ x. claimable now x ≡ true → claimed_before x d ≡ false)
        (λ x. IsDue now x → IsFirst d x) (λ x h due. first_lem d x (h ((IsDue-iff now x).1 due))) xs
        first,
  )
  found-IsClaim w l now duration xs ys (ok none) (none_due, same) = (
    All-map (λ x. claimable now x ≡ false) (λ x. ¬ IsDue now x)
        (λ x h due. (let no = (IsDue-iff now x).1 due in absurd (cc))) xs none_due,
    same,
  )
  found-IsClaim w l now duration xs ys (err x) (inl same) = inl same
  found-IsClaim w l now duration xs ys (err x) (inr (d, rep)) =
      inr (d, Replaced-IsTaken w l now (now + duration) d rep)

  -- A claim that brings an event has made one document of the collection, which was pending,
  -- unpublished and due, processed by the worker under the lease until its end, and nothing else;
  -- no document that was due comes before it by the time of the next attempt, of the creation, and
  -- by the id; and the event is the document's, with the lease. One that brings nothing has changed
  -- nothing, and no document was due. One that fails has changed nothing or made such a document
  -- processed.
  pub claim_next-IsClaim :
      (w l : Text) (now : Time) (duration : Duration) (s : State)
      → let (r, s') = claim_next collection w l now duration s in
        IsClaim w l now duration (docs s) (docs s') r
  unfolding claim_next
  claim_next-IsClaim w l now duration s = guarded-IsClaim w l now duration _ _ s _ (
      found-IsClaim w l now duration (docs s) _ _
        (find_one_and_update_law (claimable now) claimed_before (claim w l (now + duration)) s))
