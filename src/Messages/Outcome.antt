-- ===== src/Messages/Outcome.antt =====
-- What `CreateWithOutbox` has done, for each of its answers, whatever other clients do in between.
use mathlib.Core.List.{Memᴰ}
use nexus_services.Shared.{
  ◌≡◌, refl, ap, sym, subst, Bool, true, false, not, Option, none, some, List, Result, ok, err,
  arith, if◌then◌else◌,
}
use nexus_services.Mongo.{DbError, failure, NoMatch, Found}
use nexus_services.Domain.Timeline.{Sequence, Item}
use nexus_services.Messages.Document.{
  CreateMessageParams, TimelineDocument, StoreError, database, invalid_create_params,
  message_idempotency_conflict, to_domain,
}
use nexus_services.Messages.Roundtrip.{IsParsed, created_item, to_domain-new_timeline_document}
use nexus_services.Messages.Database.{
  Database, Db, Documents, documents, SameDocs, Transacted, committed, aborted, unsure, lost,
  Transactions,
}
use nexus_services.Messages.Store.{
  CreateMessageResult, validate_create_params, same_identity, same_logical_message,
  resolve_existing_message, create_operation,
}
use nexus_services.Messages.Creation.{
  item_found, is_lost_race, created_result, sequence_allocated, find_existing_message,
  create_transaction, after_lost_race, transaction_done, looked_up, create_with_outbox,
}
use nexus_services.Messages.Transaction.{Created, create_operation_lem}

-- What a lookup of the message has found.
abbrev pub Existing :
    CreateMessageParams → List TimelineDocument → Result StoreError (Option Item) → Type 0
Existing p xs (ok (some item)) =
    (d : TimelineDocument) × Memᴰ d xs × (same_identity p d ≡ true) × (to_domain d ≡ ok item)
Existing p xs (ok none) = NoMatch (same_identity p) xs
Existing p xs (err _) = Unit

item_found-Existing :
    (p : CreateMessageParams) (xs : List TimelineDocument)
    (r : Result DbError (Option TimelineDocument))
    → Found (same_identity p) xs r
    → Existing p xs (item_found r)
unfolding item_found
item_found-Existing p xs (ok none) h = h
item_found-Existing p xs (err e) h = tt
item_found-Existing p xs (ok (some d)) h = go (to_domain d) refl
  where
    go :
        (r : Result StoreError Item)
        → to_domain d ≡ r
        → Existing p xs (elim r [ ok item ↦ ok (some item) | err e ↦ err e ])
    go (ok item) q = (d, h.0, h.1, q)
    go (err e) q = tt

-- What other clients may do to the documents: a preorder.
pub record Interference : Type 1 where
  pub Moves : Documents → Documents → Type 0
  pub stay : (x : Documents) → Moves x x
  pub chain : (x y z : Documents) → Moves x y → Moves y z → Moves x z

module _ (moves : Interference) where
  open moves use {Moves, stay, chain}

  -- The documents `x` before the call and `z` after it, for each answer.
  pub data Explained (p : CreateMessageParams) (x z : Documents)
      : Result StoreError CreateMessageResult → Type 0 where
    -- One transaction, from `y` to `y'`, has written the message.
    written :
        (y y' : Documents) (n : Sequence)
        → Moves x y
        → Created p n y y'
        → Moves y' z
        → Explained p x z (ok (record { item = created_item p n; created = true }))
    -- The same message is there already.
    existing :
        (item : Item)
        → Existing p z.timeline (ok (some item))
        → same_logical_message item p ≡ true
        → Moves x z
        → Explained p x z (ok (record { item = item; created = false }))
    refused : (e : StoreError) → Moves x z → Explained p x z (err e)
    -- The driver failed after the commit.
    uncertain :
        (y y' : Documents) (n : Sequence)
        → Moves x y
        → Created p n y y'
        → Moves y' z
        → Explained p x z (err (database failure))

  resolved :
      (p : CreateMessageParams) (x z : Documents) (item : Item)
      → Existing p z.timeline (ok (some item))
      → Moves x z
      → Explained p x z (resolve_existing_message item p)
  unfolding resolve_existing_message
  resolved p x z item h m = go (same_logical_message item p) refl
    where
      go :
          (same : Bool)
          → same_logical_message item p ≡ same
          → Explained p x z (
              if not same
              then err message_idempotency_conflict
              else ok (record { item = item; created = false }))
      go true e = existing item h e m
      go false e = refused _ m

  after_lost_race-Explained :
      (p : CreateMessageParams) (x z : Documents) (e : StoreError)
      (r : Result StoreError (Option Item))
      → Existing p z.timeline r
      → Moves x z
      → Explained p x z (after_lost_race p e r)
  unfolding after_lost_race
  after_lost_race-Explained p x z e (ok none) h m = refused _ m
  after_lost_race-Explained p x z e (ok (some item)) h m = resolved p x z item h m
  after_lost_race-Explained p x z e (err a) h m = refused _ m

-- A created sequence is positive, and its item is read back.
created_results :
    (p : CreateMessageParams) (n : Sequence) (x y : Documents)
    → IsParsed p
    → Created p n x y
    → (sequence_allocated (ok n) ≡ ok n)
      × (created_result p n ≡ ok (record { item = created_item p n; created = true }))
unfolding sequence_allocated created_result
created_results p n x y h c =
    let (d, _, next, high) = c.chat_written in
    let read = to_domain-new_timeline_document p n h (omega arith) high in
    (ground arith, rw (read, created_result))

module _ (b : Database) (transactions : Transactions b) (others : Db b → Db b) where
  pub find_existing_message_lem :
      (p : CreateMessageParams) (s : Db b)
      → let (r, t) = find_existing_message b transactions others p s in
        SameDocs b s t × Existing p (documents b t).timeline r
  unfolding find_existing_message
  find_existing_message_lem p s =
      let (found, same) = b.timeline.find_one_law (same_identity p) s.timeline in
      (
        ap (λ xs. record (documents b s) { timeline = xs }) same,
        rw same (item_found-Existing p _ _ found),
      )

  ran-Created :
      (p : CreateMessageParams) (from to : Db b) (n : Sequence)
      → create_operation b p from ≡ (ok n, to)
      → Created p n (documents b from) (documents b to)
  ran-Created p from to n ran =
      subst (λ end. Created p n (documents b from) (documents b end)) (ap (λ r. r.1) ran)
        (create_operation_lem b p from n (ap (λ r. r.0) ran))

  module _ (moves : Interference) where
    open moves use {Moves, stay, chain}

    module _ (p : CreateMessageParams) (parsed : IsParsed p)
        (interfere : (s : Db b) → Moves (documents b s) (documents b (others s))) where
      failed :
          (x : Documents) (e : StoreError) (t : Db b)
          → Moves x (documents b t)
          → let (answer, end) = transaction_done b transactions others p (err e) t in
            Explained moves p x (documents b end) answer
      unfolding transaction_done
      failed x e t m = go (is_lost_race e)
        where
          go :
              (race : Bool)
              → let (answer, end) : Result StoreError CreateMessageResult × Db b =
                  if not race then (err e, t) else (
                    after_lost_race p e
                        (find_existing_message b transactions others p (others t)).0,
                    (find_existing_message b transactions others p (others t)).1,
                  ) in
                Explained moves p x (documents b end) answer
          go false = refused e m
          go true =
              let (same, found) = find_existing_message_lem p (others t) in
              after_lost_race-Explained moves p x _ e _ found
                (subst (Moves x) (sym same) (chain _ _ _ m (interfere t)))

      -- The transaction, and what follows it.
      transaction_done-Explained :
          (x : Documents) (s : Db b) (r : Result StoreError Sequence) (t : Db b)
          → Moves x (documents b s)
          → Transacted b (create_operation b p) s r t
          → let (answer, end) = transaction_done b transactions others p (sequence_allocated r) t in
            Explained moves p x (documents b end) answer
      unfolding transaction_done sequence_allocated is_lost_race
      transaction_done-Explained x s r t m (committed from to n before ran after q) =
          let c =
            subst (λ y. Created p n y (documents b to)) before (ran-Created p from to n ran) in
          let (positive, made) = created_results p n _ _ parsed c in
          rw (q, positive, made)
            (written (documents b s) (documents b to) n m c (subst (Moves _) (sym after) (stay _)))
      transaction_done-Explained x s r t m (aborted from to e before ran after q) =
          rw (q) (failed x e t (subst (Moves x) (sym after) m))
      transaction_done-Explained x s r t m (unsure from to n before ran after q) =
          let c =
            subst (λ y. Created p n y (documents b to)) before (ran-Created p from to n ran) in
          rw (q) (
            uncertain (documents b s) (documents b to) n m c (subst (Moves _) (sym after) (stay _)))
      transaction_done-Explained x s r t m (lost same q) =
          rw (q) (refused (database failure) (subst (Moves x) (sym same) m))

      looked_up-Explained :
          (x : Documents) (r : Result StoreError (Option Item)) (s : Db b)
          → Moves x (documents b s)
          → Existing p (documents b s).timeline r
          → let (answer, end) = looked_up b transactions others p r s in
            Explained moves p x (documents b end) answer
      unfolding looked_up create_transaction
      looked_up-Explained x (err e) s m h = refused e m
      looked_up-Explained x (ok (some item)) s m h = resolved moves p x _ item h m
      looked_up-Explained x (ok none) s m h =
          let start = others s in
          let (r, t) = transactions.run (create_operation b p) start in
          transaction_done-Explained x start r t (chain _ _ _ m (interfere s))
            (transactions.run_law (create_operation b p) start)

      -- Every answer of `CreateWithOutbox` is explained by what happened to the documents, for
      -- parameters with parsed parts. A message is created exactly once, by one transaction that
      -- makes all the writes; an answer with the message that was there before is the same
      -- message; and nothing is written by an answer with an error, unless the driver failed.
      pub create_with_outbox-Explained :
          (s : Db b)
          → let (answer, end) = create_with_outbox b transactions others p s in
            Explained moves p (documents b s) (documents b end) answer
      unfolding create_with_outbox
      create_with_outbox-Explained s = go (validate_create_params p)
        where
          go :
              (test : Bool)
              → let (answer, end) : Result StoreError CreateMessageResult × Db b =
                  if not test
                  then (err invalid_create_params, s)
                  else looked_up b transactions others p
                      (find_existing_message b transactions others p s).0
                      (find_existing_message b transactions others p s).1 in
                Explained moves p (documents b s) (documents b end) answer
          go false = refused _ (stay _)
          go true =
              let (same, found) = find_existing_message_lem p s in
              looked_up-Explained (documents b s) _ _ (subst (Moves _) (sym same) (stay _)) found
