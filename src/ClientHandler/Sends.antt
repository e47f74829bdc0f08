-- ===== src/ClientHandler/Sends.antt =====
-- A client's handler publishes only messages to be sent.
use remote_monitoring_tool.Prelude.{ℕ, List, Bytes, codes, bytes_eq, not, ◌||◌, ◌==◌}
use remote_monitoring_tool.Event.{Event, input, network_send, network_recv}
use remote_monitoring_tool.Disk.{Disk, store, bytes_at}
use remote_monitoring_tool.LogEntry.{LogEntry, Junk, deserialize}
use remote_monitoring_tool.Wire.{InStream, stream, read_vector, read_string}
use remote_monitoring_tool.ClientHandler.{
  ClientInfo, client_log_file, last_acked_id, accept, ack_message, handle_recv_log, on_response,
  on_event,
}
use remote_monitoring_tool.EventBus.Sends.{Sends, silent-Sends, send-Sends, bind-Sends, if-Sends}

handle_recv_log-Sends :
    (d : Disk) (info : ClientInfo) (iss : InStream) (junk : Junk)
    → Sends (handle_recv_log d info iss junk)
unfolding handle_recv_log
handle_recv_log-Sends d info iss junk =
    bind-Sends (read_vector deserialize junk.number iss) _ (λ vec.
      if-Sends (d.writable (client_log_file info)) _ _
        (bind-Sends (ack_message (accepted vec.0).0) _ (λ reply.
          send-Sends (store d (client_log_file info) (accepted vec.0).1) info.client_ip
            info.client_port reply))
        (silent-Sends d))
  where
    accepted : List LogEntry → ℕ × Bytes
    accepted =
        accept (last_acked_id (d.content (client_log_file info)) junk)
          (bytes_at d (client_log_file info))

on_response-Sends :
    (d : Disk) (info : ClientInfo) (junk : Junk) (r : Bytes × InStream)
    → Sends (on_response d info junk r)
unfolding on_response
on_response-Sends d info junk (response, iss) =
    if-Sends (bytes_eq response (codes "log")) _ _ (handle_recv_log-Sends d info iss junk)
      (silent-Sends d)

pub on_event-Sends :
    (d : Disk) (info : ClientInfo) (junk : Junk) (event : Event)
    → Sends (on_event d info junk event)
unfolding on_event
on_event-Sends d info junk (input payload) = silent-Sends d
on_event-Sends d info junk (network_send ip port payload) = silent-Sends d
on_event-Sends d info junk (network_recv ip port payload) =
    if-Sends (not (bytes_eq ip info.client_ip) || not (port == info.client_port)) _ _
      (silent-Sends d)
      (bind-Sends (read_string (stream payload)) _ (λ r. on_response-Sends d info junk r))
