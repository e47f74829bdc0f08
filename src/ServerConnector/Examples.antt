-- ===== src/ServerConnector/Examples.antt =====
-- A refused connection, no socket, and then a connection.
use remote_monitoring_tool.Prelude.{◌≡◌, true, false, none, some, [], ◌∷◌, ◌++◌, codes, arith}
use remote_monitoring_tool.Backoff.{create}
use remote_monitoring_tool.Socket.{Socket}
use remote_monitoring_tool.ServerConnector.{ServerConnector, accepted, refused, reconnect}
use remote_monitoring_tool.ServerConnector.Attempts.{
  failures, delays, disconnected, reconnect-accepted,
}

abbrev connection : Socket
connection = record { incoming = []; outgoing = []; calls = 0; limit = λ i. 3 }

abbrev refused_socket : Socket
refused_socket = record connection { calls = 1 }

abbrev connector : ServerConnector
connector = record {
  server_ip = codes "127.0.0.1";
  server_port = 12345;
  client_socket = connection;
  is_connected = false;
}

reconnect-accepted_example :
    ((reconnect
        (failures (some refused_socket ∷ none ∷ []))
        (disconnected connector 1 10 2)).connector.is_connected
      ≡ false)
    × (reconnect
          (failures (some refused_socket ∷ none ∷ [])
            ++ accepted connection ∷ refused refused_socket ∷ [])
          (disconnected connector 1 10 2)
        ≡ record {
          connector = record connector { client_socket = connection; is_connected = true };
          backoff = create 1 10 2;
          sleeps = delays 1 10 2 2;
        })
reconnect-accepted_example =
    reconnect-accepted connector 1 10 2 (omega arith) (some refused_socket ∷ none ∷ []) connection
      (refused refused_socket ∷ [])
