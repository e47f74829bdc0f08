-- ===== src/Client.antt =====
-- client/client.cpp: what the client's main loop publishes.
pub mod Messages
pub mod Configured
pub mod Bus
mod Examples
use remote_monitoring_tool.Prelude.{Option, none, some, List, [], ◌∷◌, Bytes, codes}
use remote_monitoring_tool.Result.{Result, ok, err, out_of_range, ◌>>=◌}
use remote_monitoring_tool.Wire.{write_string, write_vector}
use remote_monitoring_tool.LogEntry.{LogEntry, serialize}
use remote_monitoring_tool.LogQueue.{LogQueue, get_batch_log}

-- The payload of a log message.
unfoldable pub log_message : List LogEntry → Result Bytes
log_message log_entries = do
  oss ← write_string [] (codes "log")
  write_vector serialize oss log_entries

message_for : Option (List LogEntry) → Result (Option Bytes)
message_for none = err out_of_range
message_for (some []) = ok none
message_for (some (e ∷ es)) = do payload ← log_message (e ∷ es); ok (some payload)

-- The payload that a round of the main loop publishes, behind generate_log; `none` for an empty
-- batch.
unfoldable pub log_payload_of_round : LogQueue → Result (Option Bytes)
unfolding message_for
log_payload_of_round q = message_for (get_batch_log q 100)
