-- ===== src/Websocket/Queue.antt =====
-- The outbound queue over every run of a connection.
use nexus_services.Shared.{
  ℕ, suc, ◌+◌, ◌-◌, ◌≤◌, ◌≡◌, refl, sym, ap, ◌∙◌, Bool, true, false, not, ◌||◌, Option, none, some,
  List, [], ◌∷◌, ◌++◌, length, length-append, arith, subst, if◌then◌else◌, leb, ltb,
}
use nexus_services.Text.{Text}
use nexus_services.Websocket.Connection.{
  Config, Connection, try_again_later, new_connection, is_stopped, request_close, is_full, enqueue,
  activate, pop, next_write, written,
}

abbrev pub total : List Text → ℕ
total [] = 0
total (m ∷ ms) = length m + total ms

total-append : (xs ys : List Text) → total (xs ++ ys) ≡ total xs + total ys
total-append [] ys = omega arith
total-append (x ∷ xs) ys = omega (arith, total-append xs ys)

-- A connection with what happened to it: the messages that its queue accepted, the greeting that
-- `activate` put in front of them, and the messages taken for the socket, each in order.
pub record Trace : Type 0 where
  pub connection : Connection
  pub accepted : List Text
  pub greeting : List Text
  pub sent : List Text

abbrev pub new_trace : Trace
new_trace = record { connection = new_connection; accepted = []; greeting = []; sent = [] }

abbrev pub accepts : Config → Text → Connection → Bool
accepts config message c = not (is_stopped c || is_full config message c)

-- The steps of the goroutines of a connection. `run` activates a connection at most once.
pub data Step (config : Config) : Trace → Trace → Type 0 where
  enqueues :
      (message : Text) (t : Trace)
      → Step config t (record t {
        connection = enqueue config message t.connection;
        accepted =
            if accepts config message t.connection
            then t.accepted ++ (message ∷ [])
            else t.accepted;
      })
  activates :
      (message : Text) (t : Trace)
      → t.connection.ready ≡ false
      → Step config t (record t {
        connection = activate config message t.connection;
        greeting = if is_full config message t.connection then t.greeting else message ∷ [];
      })
  writes :
      (done : Bool) (message : Text) (c : Connection) (t : Trace)
      → next_write t.connection ≡ some (message, c)
      → Step config t (record t { connection = written done c; sent = t.sent ++ (message ∷ []) })
  closes :
      (code : ℕ) (t : Trace)
      → Step config t (record t { connection = request_close code t.connection })

pub data Steps (config : Config) (s : Trace) : Trace → Type 0 where
  start : Steps config s s
  after : {t u : Trace} → Steps config s t → Step config t u → Steps config s u

pub record IsOrderly (config : Config) (t : Trace) : Type 0 where
  pub bounded : length t.connection.queue ≤ config.queue_messages
  pub counted : t.connection.queued_bytes ≡ total t.connection.queue
  pub limited : t.connection.queued_bytes ≤ config.queue_bytes
  pub ordered : t.sent ++ t.connection.queue ≡ t.greeting ++ t.accepted
  pub silent : t.connection.ready ≡ false → (t.sent ≡ []) × (t.greeting ≡ [])

append_assoc : (xs ys zs : List Text) → (xs ++ ys) ++ zs ≡ xs ++ (ys ++ zs)
append_assoc [] ys zs = refl
append_assoc (x ∷ xs) ys zs = ap (λ l. x ∷ l) (append_assoc xs ys zs)

request_close-IsOrderly :
    (config : Config) (code : ℕ) (t : Trace)
    → IsOrderly config t
    → IsOrderly config (record t { connection = request_close code t.connection })
unfolding request_close
request_close-IsOrderly config code t h = go t.connection.code
  where
    go :
        (k : Option ℕ)
        → IsOrderly config
            (record t { connection = request_close code (record t.connection { code = k }) })
    go none = record {
      bounded = h.bounded;
      counted = h.counted;
      limited = h.limited;
      ordered = h.ordered;
      silent = h.silent;
    }
    go (some _) = record {
      bounded = h.bounded;
      counted = h.counted;
      limited = h.limited;
      ordered = h.ordered;
      silent = h.silent;
    }

enqueue-IsOrderly :
    (config : Config) (message : Text) (t : Trace)
    → IsOrderly config t
    → IsOrderly config (record t {
      connection = enqueue config message t.connection;
      accepted =
          if accepts config message t.connection then t.accepted ++ (message ∷ []) else t.accepted;
    })
unfolding enqueue is_full
enqueue-IsOrderly config message t h =
    go (is_stopped t.connection) (leb config.queue_messages (length t.connection.queue)) refl
      (ltb config.queue_bytes (t.connection.queued_bytes + length message)) refl
  where
    one : List Text
    one = message ∷ []

    go :
        (stopped full : Bool)
        → leb config.queue_messages (length t.connection.queue) ≡ full
        → (heavy : Bool)
        → ltb config.queue_bytes (t.connection.queued_bytes + length message) ≡ heavy
        → IsOrderly config (record t {
          connection =
              if stopped
              then t.connection
              else if full || heavy
              then request_close try_again_later t.connection
              else record t.connection {
                queue = t.connection.queue ++ one;
                queued_bytes = t.connection.queued_bytes + length message;
              };
          accepted = if not (stopped || (full || heavy)) then t.accepted ++ one else t.accepted;
        })
    go true full e heavy q = h
    go false true e heavy q = request_close-IsOrderly config try_again_later t h
    go false false e true q = request_close-IsOrderly config try_again_later t h
    go false false e false q = record {
      bounded = ground (arith, length-append t.connection.queue one);
      counted = omega (arith, h.counted, total-append t.connection.queue one);
      limited = ground arith;
      ordered =
          sym (append_assoc t.sent t.connection.queue one)
          ∙ (ap (λ l. l ++ one) h.ordered ∙ append_assoc t.greeting t.accepted one);
      silent = h.silent;
    }

activate-IsOrderly :
    (config : Config) (message : Text) (t : Trace)
    → t.connection.ready ≡ false
    → IsOrderly config t
    → IsOrderly config (record t {
      connection = activate config message t.connection;
      greeting = if is_full config message t.connection then t.greeting else message ∷ [];
    })
unfolding activate is_full
activate-IsOrderly config message t quiet h =
    go (leb config.queue_messages (length t.connection.queue)) refl
      (ltb config.queue_bytes (t.connection.queued_bytes + length message)) refl
  where
    go :
        (full : Bool)
        → leb config.queue_messages (length t.connection.queue) ≡ full
        → (heavy : Bool)
        → ltb config.queue_bytes (t.connection.queued_bytes + length message) ≡ heavy
        → IsOrderly config (record t {
          connection =
              if full || heavy
              then request_close try_again_later t.connection
              else record t.connection {
                queue = message ∷ t.connection.queue;
                queued_bytes = t.connection.queued_bytes + length message;
                ready = true;
              };
          greeting = if full || heavy then t.greeting else message ∷ [];
        })
    go true e heavy q = request_close-IsOrderly config try_again_later t h
    go false e true q = request_close-IsOrderly config try_again_later t h
    go false e false q =
        let (unsent, ungreeted) = h.silent quiet in
        let queued : t.connection.queue ≡ t.accepted =
          subst (λ l. l ++ t.connection.queue ≡ t.accepted) unsent
            (subst (λ l. t.sent ++ t.connection.queue ≡ l ++ t.accepted) ungreeted h.ordered) in
        record {
          bounded = ground arith;
          counted = omega (arith, h.counted);
          limited = ground arith;
          ordered = rw unsent (ap (λ l. message ∷ l) queued);
          silent = λ r. absurd (cc);
        }

popped_lem :
    (c c' : Connection) (message : Text)
    → next_write c ≡ some (message, c')
    → (c.ready ≡ true)
      × (c.queue ≡ message ∷ c'.queue)
      × (c'.queued_bytes ≡ c.queued_bytes - length message)
      × (c'.ready ≡ true)
unfolding next_write pop
popped_lem c c' message = go (is_stopped c) c.ready refl c.queue
  where
    go :
        (stopped ready : Bool)
        → c.ready ≡ ready
        → (queue : List Text)
        → (if stopped || not ready then none else pop queue c) ≡ some (message, c')
        → (ready ≡ true)
          × (queue ≡ message ∷ c'.queue)
          × (c'.queued_bytes ≡ c.queued_bytes - length message)
          × (c'.ready ≡ true)
    go true ready e queue h = absurd (cc)
    go false false e queue h = absurd (cc)
    go false true e [] h = absurd (cc)
    go false true e (m ∷ rest) h = ground arith

written-IsOrderly :
    (config : Config) (done : Bool) (t : Trace)
    → IsOrderly config t
    → IsOrderly config (record t { connection = written done t.connection })
unfolding written
written-IsOrderly config true t h = h
written-IsOrderly config false t h = request_close-IsOrderly config try_again_later t h

sent-IsOrderly :
    (config : Config) (message : Text) (c : Connection) (t : Trace)
    → next_write t.connection ≡ some (message, c)
    → IsOrderly config t
    → IsOrderly config (record t { connection = c; sent = t.sent ++ (message ∷ []) })
sent-IsOrderly config message c t e h =
    let (ready, queue, bytes, ready') = popped_lem t.connection c message e in
    let whole : total t.connection.queue ≡ length message + total c.queue = rw queue refl in
    let long : length t.connection.queue ≡ suc (length c.queue) = rw queue refl in
    record {
      bounded = omega (arith, h.bounded);
      counted = omega (arith, h.counted);
      limited = omega (arith, h.limited);
      ordered =
          append_assoc t.sent (message ∷ []) c.queue
          ∙ (ap (λ l. t.sent ++ l) (sym queue) ∙ h.ordered);
      silent = λ r. absurd (ground arith);
    }

-- On every run of a connection: the queue stays within the configured number of messages and of
-- bytes, and the byte count is right; the messages taken for the socket, followed by those in the
-- queue, are the greeting followed by the accepted messages in the order of their acceptance; and
-- before the connection is ready nothing is sent.
pub run-IsOrderly : (config : Config) {t : Trace} → Steps config new_trace t → IsOrderly config t
run-IsOrderly config start = record {
  bounded = omega arith;
  counted = refl;
  limited = omega arith;
  ordered = refl;
  silent = λ _. (refl, refl);
}
run-IsOrderly config (after r (enqueues message t)) =
    enqueue-IsOrderly config message t (run-IsOrderly config r)
run-IsOrderly config (after r (activates message t quiet)) =
    activate-IsOrderly config message t quiet (run-IsOrderly config r)
run-IsOrderly config (after r (writes done message c t e)) =
    written-IsOrderly config done (record t { connection = c; sent = t.sent ++ (message ∷ []) })
      (sent-IsOrderly config message c t e (run-IsOrderly config r))
run-IsOrderly config (after r (closes code t)) =
    request_close-IsOrderly config code t (run-IsOrderly config r)
