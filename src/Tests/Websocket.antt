-- ===== src/Tests/Websocket.antt =====
-- A connection that sends two messages, and a gateway with one connection.
use nexus_services.Shared.{[], ◌∷◌, true}
use nexus_services.Text.{bytes}
use nexus_services.Websocket.Connection.{Config, enqueue, is_full}
use nexus_services.Websocket.Queue
use nexus_services.Websocket.Queue.{
  Trace, new_trace, enqueues, activates, writes, closes, IsOrderly, run-IsOrderly,
}
use nexus_services.Websocket.Gateway.{Gateway, new_gateway, reserve, shutdown}
use nexus_services.Websocket.Limits
use nexus_services.Websocket.Limits.{IsCounted, gateway-IsCounted}

abbrev limits : Config
limits = record {
  queue_messages = 4;
  queue_bytes = 100;
  max_connections = 10;
  max_connections_per_user = 2;
}

-- A message before the connection is ready.
abbrev waiting : Trace
waiting = record {
  connection = enqueue limits (bytes "hello") new_trace.connection;
  accepted = bytes "hello" ∷ [];
  greeting = [];
  sent = [];
}

queued : Queue.Steps limits new_trace waiting
unfolding enqueue is_full
queued = Queue.after Queue.start (enqueues (bytes "hello") new_trace)

run-IsOrderly_example : IsOrderly limits waiting
run-IsOrderly_example = run-IsOrderly limits queued

abbrev one_connection : Gateway
one_connection = (reserve limits true true 5 (bytes "ann") new_gateway).1

connected : Limits.Steps limits new_gateway (shutdown one_connection)
connected =
    Limits.after (Limits.after Limits.start (Limits.reserves true true 5 (bytes "ann") new_gateway))
      (Limits.shuts one_connection)

gateway-IsCounted_example : IsCounted limits (shutdown one_connection)
gateway-IsCounted_example = gateway-IsCounted limits connected
