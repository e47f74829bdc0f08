-- ===== src/Client/Configured.antt =====
-- The client's reception of a configuration: register_recv_config of client/client.cpp and
-- ClientLogger::set_config.
pub mod Received
use remote_monitoring_tool.Prelude.{
  ℕ, Option, none, some, List, [], ◌∷◌, Bytes, codes, length, drop, if◌then◌else◌,
}
use remote_monitoring_tool.Result.{Result, ok, err, terminated, ◌>>=◌}
use remote_monitoring_tool.Text.{starts_with}
use remote_monitoring_tool.Wire.{read_string, write_string, stream}
use remote_monitoring_tool.Event.{Event, input, network_send, network_recv}
use remote_monitoring_tool.Disk.{Disk}
use remote_monitoring_tool.Config.{ConfigEntry, Json, write_config}

-- The logger's configuration and the disk with its file.
pub record Configured : Type 0 where
  pub config : List ConfigEntry
  pub store : Disk

-- The destructor of the parameter writes the same file again. An exception of the first call ends
-- the program, since the destructor that then runs throws it again.
after_write : Json → Bytes → List ConfigEntry → Result ℕ × Disk → Result Configured
after_write json path n_config (err e, d) = err terminated
after_write json path n_config (ok code, d) =
    ok (record { config = n_config; store = (write_config json path n_config d).1 })

unfoldable pub set_config : Json → Bytes → List ConfigEntry → Disk → Result Configured
unfolding after_write
set_config json path n_config d = after_write json path n_config (write_config json path n_config d)

-- The block behind the parsing, and the handler of its exceptions.
configure :
    Json
    → Bytes
    → Bytes
    → ℕ
    → Result (List ConfigEntry)
    → Configured
    → Result (Configured × Option Event)
configure json path ip port (err e) c = ok (c, none)
configure json path ip port (ok config_entries) c = do
  c' ← set_config json path config_entries c.store
  oss ← write_string [] (codes "config ok")
  ok (c', some (network_send ip port oss))

-- The subscriber, with the address and port of the server. A payload with no text in front throws
-- out of it.
unfoldable pub recv_config :
    Json → Bytes → Bytes → ℕ → Event → Configured → Result (Configured × Option Event)
unfolding configure
recv_config json path ip port (network_recv from from_port payload) c = do
  (message, iss) ← read_string (stream payload)
  if starts_with (codes "config ") message
      then configure json path ip port (json.parse (drop (length (codes "config ")) message)) c
      else ok (c, none)
recv_config json path ip port (network_send to to_port payload) c = ok (c, none)
recv_config json path ip port (input payload) c = ok (c, none)
