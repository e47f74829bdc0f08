-- ===== src/ClientHandler.antt =====
-- server/client_handler.hpp and client_handler.cpp: what the server does with a client's messages.
pub mod Accepted
pub mod Sends
pub mod Reception
pub mod Replies
mod Examples
use remote_monitoring_tool.Prelude.{
  ℕ, ◌+◌, ◌%◌, ◌^◌, Bool, true, false, not, ◌||◌, Option, none, some, List, [], ◌∷◌, ◌++◌, Bytes,
  codes, bytes_eq, ◌==◌, if◌then◌else◌,
}
use remote_monitoring_tool.Result.{Result, ok, err, ◌>>=◌}
use remote_monitoring_tool.Event.{Event, input, network_send, network_recv}
use remote_monitoring_tool.Text.{text, decimal}
use remote_monitoring_tool.Util.{get_last_line_of_file}
use remote_monitoring_tool.Wire.{InStream, stream, read_string, read_vector, write_string}
use remote_monitoring_tool.LogEntry.{LogEntry, Junk, deserialize, serialize_str, deserialize_str}
use remote_monitoring_tool.Disk.{Disk, store, bytes_at}

pub record ClientInfo : Type 0 where
  pub client_id : ℕ
  pub client_socket : ℕ
  pub client_ip : Bytes
  pub client_port : ℕ

abbrev pub client_log_file : ClientInfo → Bytes
client_log_file info = codes "client-log-" ++ (info.client_ip ++ codes ".txt")

-- The last acked id by the last line of the log file, and 0 where there is none.
id_of_line : Bytes → Junk → ℕ
id_of_line [] junk = 0
id_of_line (c ∷ s) junk = (deserialize_str (text (c ∷ s)) junk.entry junk.temp_number).1.id

unfoldable pub last_acked_id : Option Bytes → Junk → ℕ
unfolding id_of_line
last_acked_id content junk = id_of_line (get_last_line_of_file content) junk

-- The second loop over the entries: the last acked id and the log file.
unfoldable pub accept : ℕ → Bytes → List LogEntry → ℕ × Bytes
accept last_acked file [] = (last_acked, file)
accept last_acked file (e ∷ es) =
    let next = (last_acked + 1) % 2 ^ 64 in
    let taken = e.id == next in
    accept (if taken then next else last_acked) (if taken then serialize_str file e else file) es

-- The reply to a log message.
unfoldable pub ack_message : ℕ → Result Bytes
ack_message id = write_string [] (codes "ack " ++ decimal id)

-- handle_recv_log: the disk afterwards and the event that is published. The log file that cannot be
-- opened for writing gets no reply.
unfoldable pub handle_recv_log : Disk → ClientInfo → InStream → Junk → Result (Disk × Option Event)
handle_recv_log d info iss junk = do
  let file = client_log_file info
  let last = last_acked_id (d.content file) junk
  (log_entries, rest) ← read_vector deserialize junk.number iss
  let done = accept last (bytes_at d file) log_entries
  if d.writable file
      then (do
        reply ← ack_message done.0
        ok (store d file done.1, some (network_send info.client_ip info.client_port reply)))
      else ok (d, none)

-- The answer to a message, by its first text.
on_response : Disk → ClientInfo → Junk → Bytes × InStream → Result (Disk × Option Event)
on_response d info junk (response, iss) =
    if bytes_eq response (codes "log") then handle_recv_log d info iss junk else ok (d, none)

-- The subscriber that the constructor registers. `config ok` and unknown responses are only logged.
unfoldable pub on_event : Disk → ClientInfo → Junk → Event → Result (Disk × Option Event)
unfolding on_response
on_event d info junk (network_recv ip port payload) =
    if not (bytes_eq ip info.client_ip) || not (port == info.client_port)
    then ok (d, none)
    else (do r ← read_string (stream payload); on_response d info junk r)
on_event d info junk e = ok (d, none)
