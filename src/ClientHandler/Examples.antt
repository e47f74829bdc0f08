-- ===== src/ClientHandler/Examples.antt =====
-- The server's handling of a log message at concrete inputs.
use remote_monitoring_tool.Prelude.{◌≡◌, refl, ◌++◌, [], ◌∷◌, inr, some, codes, arith, length}
use remote_monitoring_tool.Result.{ok}
use remote_monitoring_tool.Event.{network_send, network_recv}
use remote_monitoring_tool.Disk.{store}
use remote_monitoring_tool.Samples.{first, second, junk, empty_disk, client}
use remote_monitoring_tool.LogQueue.Load.{print_all}
use remote_monitoring_tool.ClientHandler.{client_log_file, on_event}
use remote_monitoring_tool.ClientHandler.Accepted.{accepted, IsLog}
use remote_monitoring_tool.ClientHandler.Replies.{log_payload, ack_payload, on_event-IsLog}

-- The server takes the first two entries, once each.
accepted_example : accepted 0 (first ∷ first ∷ second ∷ []) ≡ first ∷ second ∷ []
unfolding accepted
accepted_example = refl

on_event-IsLog_example :
    (on_event empty_disk client junk
        (network_recv (codes "10.0.0.7") 4242 (log_payload (first ∷ second ∷ [])))
      ≡ ok (
        store empty_disk
            (client_log_file client)
            (print_all ([] ++ accepted 0 (first ∷ second ∷ []))),
        some (
            network_send
              (codes "10.0.0.7")
              4242
              (ack_payload (length ([] ++ accepted 0 (first ∷ second ∷ []))))),
      ))
    × IsLog
        (some (print_all ([] ++ accepted 0 (first ∷ second ∷ []))))
        ([] ++ accepted 0 (first ∷ second ∷ []))
on_event-IsLog_example =
    on_event-IsLog empty_disk client junk [] (first ∷ second ∷ [])
      (record { in_file = inr (refl, refl); run = tt; logged = tt }) (omega arith) (omega arith)
      (omega arith) refl
