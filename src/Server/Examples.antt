-- ===== src/Server/Examples.antt =====
-- The server's event bus, and the thread that receives for a client, at concrete inputs.
use remote_monitoring_tool.Prelude.{
  ◌≡◌, ◌≢◌, refl, ap, Bool, true, false, [], ◌∷◌, ◌++◌, inr, arith, codes, length, length-append,
  Bytes,
}
use remote_monitoring_tool.Result.{Result, ok, err, terminated}
use remote_monitoring_tool.Wire.Numbers.{encode_string, length-encode_string, encode_vector}
use remote_monitoring_tool.LogEntry.Binary.{encode_entry}
use remote_monitoring_tool.Event.{Event, input, network_recv}
use remote_monitoring_tool.Disk.{store}
use remote_monitoring_tool.Config.Sample.{sample_json}
use remote_monitoring_tool.Samples.{first, second, junk, empty_disk, client}
use remote_monitoring_tool.LogQueue.Load.{print_all}
use remote_monitoring_tool.ClientHandler.{ClientInfo, client_log_file}
use remote_monitoring_tool.ClientHandler.Accepted.{accepted}
use remote_monitoring_tool.ClientHandler.Reception.{
  recv_input_from_client, received, publish_all, receiver, AllReturn,
  recv_input_from_client-received,
}
use remote_monitoring_tool.ClientHandler.Replies.{log_payload, ack_payload}
use remote_monitoring_tool.EventBus.{publish}
use remote_monitoring_tool.Server.{Server, subscribers}
use remote_monitoring_tool.Server.Ranks.{publish-subscribers}
use remote_monitoring_tool.Server.Logs.{publish-log_payload}

-- Another client at the same address, with its own port.
abbrev neighbour : ClientInfo
neighbour = record client { client_id = 2; client_socket = 6; client_port = 4243 }

abbrev server : Server
server = record {
  store = empty_disk;
  client_handlers = (2, neighbour) ∷ (1, client) ∷ [];
  is_running = true;
  sending = [];
}

abbrev no_deeper : Event → Server → Result Server
no_deeper event s = err terminated

publish-subscribers_example :
    publish no_deeper 2
      (subscribers sample_json junk server.client_handlers)
      (input (codes "1:config a.json"))
      server
    ≡ publish
        (λ event s. ok s)
        9
        (subscribers sample_json junk server.client_handlers)
        (input (codes "1:config a.json"))
        server
publish-subscribers_example =
    publish-subscribers no_deeper (λ event s. ok s) 2 9 sample_json junk server.client_handlers
      (input (codes "1:config a.json")) server (omega arith) (omega arith)

publish-log_payload_example :
    publish no_deeper 2
      (subscribers sample_json junk server.client_handlers)
      (network_recv (codes "10.0.0.7") 4242 (log_payload (first ∷ second ∷ [])))
      server
    ≡ ok (record server {
      store =
          store empty_disk
            (client_log_file client)
            (print_all ([] ++ accepted 0 (first ∷ second ∷ [])));
      sending = [] ++ (5, ack_payload (length ([] ++ accepted 0 (first ∷ second ∷ [])))) ∷ [];
    })
publish-log_payload_example =
    publish-log_payload no_deeper sample_json junk 1 client ((2, neighbour) ∷ []) [] []
      (first ∷ second ∷ []) server refl (inr refl, tt) tt (omega arith)
      (record { in_file = inr (refl, refl); run = tt; logged = tt }) (omega arith) (omega arith)
      (omega arith) refl

-- What publish gives to the thread of the client's handler.
abbrev returned : Result Server → Server → Bool × Server
returned (ok s') s = (true, s')
returned (err e) s = (false, s)

abbrev received_at : Bytes → Server → Bool × Server
received_at message s =
    returned
      (publish no_deeper 2 (subscribers sample_json junk s.client_handlers)
        (network_recv (codes "10.0.0.7") 4242 message) s)
      s

log_payload-filled : log_payload (first ∷ second ∷ []) ≢ []
log_payload-filled e = omega (
  arith,
  ap length e,
  length-encode_string (codes "log"),
  length-append (encode_string (codes "log")) (encode_vector encode_entry (first ∷ second ∷ [])),
)

-- A log message behind three failures, and another message when the thread has ended.
recv_input_from_client-received_example :
    recv_input_from_client received_at
      (received received_at ((3, log_payload (first ∷ second ∷ [])) ∷ [])
        ++ ok (log_payload (first ∷ [])) ∷ [])
      (receiver received_at 0 server)
    ≡ record {
      count_fail = 11;
      ended = true;
      state = publish_all received_at ((3, log_payload (first ∷ second ∷ [])) ∷ []) server;
    }
unfolding AllReturn
recv_input_from_client-received_example =
    recv_input_from_client-received received_at ((3, log_payload (first ∷ second ∷ [])) ∷ [])
      (ok (log_payload (first ∷ [])) ∷ []) server
      (ap (λ r. (returned r server).0) publish-log_payload_example, tt)
      ((omega arith, log_payload-filled), tt)
