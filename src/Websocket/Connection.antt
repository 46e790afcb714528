-- ===== src/Websocket/Connection.antt =====
-- connection.go: the outbound queue of a connection. Every method holds the lock of the connection,
-- so each is one step. `stop` is closed exactly when `closeOnce` has stored a code.
use nexus_services.Shared.{
  ℕ, ◌+◌, ◌-◌, Bool, true, false, not, ◌||◌, Option, none, some, List, [], ◌∷◌, ◌++◌, length, ltb,
  leb, if◌then◌else◌,
}
use nexus_services.Text.{Text}

-- The limits of config.RealtimeConfig that the gateway uses.
pub record Config : Type 0 where
  pub queue_messages : ℕ
  pub queue_bytes : ℕ
  pub max_connections : ℕ
  pub max_connections_per_user : ℕ

-- `coder.StatusTryAgainLater`
abbrev pub try_again_later : ℕ
try_again_later = 1013

pub record Connection : Type 0 where
  pub queue : List Text
  pub queued_bytes : ℕ
  pub ready : Bool
  pub code : Option ℕ

abbrev pub new_connection : Connection
new_connection = record { queue = []; queued_bytes = 0; ready = false; code = none }

abbrev pub is_stopped : Connection → Bool
is_stopped c = elim c.code [ none ↦ false | some _ ↦ true ]

unfoldable pub request_close : ℕ → Connection → Connection
request_close code c = elim c.code [ none ↦ record c { code = some code } | some _ ↦ c ]

unfoldable pub is_full : Config → Text → Connection → Bool
is_full config message c =
    leb config.queue_messages (length c.queue)
    || ltb config.queue_bytes (c.queued_bytes + length message)

unfoldable pub enqueue : Config → Text → Connection → Connection
enqueue config message c =
    if is_stopped c
    then c
    else if is_full config message c
    then request_close try_again_later c
    else record c {
      queue = c.queue ++ (message ∷ []);
      queued_bytes = c.queued_bytes + length message;
    }

-- `message` is the message `connection.ready`.
unfoldable pub activate : Config → Text → Connection → Connection
activate config message c =
    if is_full config message c then request_close try_again_later c else record c {
      queue = message ∷ c.queue;
      queued_bytes = c.queued_bytes + length message;
      ready = true;
    }

unfoldable pub pop : List Text → Connection → Option (Text × Connection)
pop [] c = none
pop (message ∷ rest) c =
    some (message, record c { queue = rest; queued_bytes = c.queued_bytes - length message })

-- A round of the inner loop of `writeLoop`: the message for the socket, if there is one to write.
unfoldable pub next_write : Connection → Option (Text × Connection)
unfolding pop
next_write c = if is_stopped c || not c.ready then none else pop c.queue c

-- After the socket's reply.
unfoldable pub written : Bool → Connection → Connection
written true c = c
written false c = request_close try_again_later c
