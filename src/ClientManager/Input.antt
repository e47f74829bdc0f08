-- ===== src/ClientManager/Input.antt =====
-- register_user_input_handler of server/client_manager.cpp: what a line of the server's user does.
pub mod Configure
pub mod Sends
use remote_monitoring_tool.Prelude.{
  ℕ, Bool, true, false, Option, none, some, List, [], ◌∷◌, ◌++◌, Bytes, codes, bytes_eq, length,
  drop, ◌==◌, if◌then◌else◌,
}
use remote_monitoring_tool.Result.{Result, ok, err}
use remote_monitoring_tool.Text.{starts_with}
use remote_monitoring_tool.Wire.{write_string}
use remote_monitoring_tool.Event.{Event, network_send}
use remote_monitoring_tool.Disk.{Disk}
use remote_monitoring_tool.Config.{ConfigEntry, Json}
use remote_monitoring_tool.ClientHandler.{ClientInfo}
use remote_monitoring_tool.ClientManager.{find_client_from_input}

-- Whether the server goes on, and the event that is published.
pub record Answer : Type 0 where
  pub is_running : Bool
  pub published : Option Event

-- The message with the text of the file, and the handler of exceptions.
send_text : ClientInfo → Bool → Result Bytes → Answer
send_text info running (err e) = record { is_running = running; published = none }
send_text info running (ok payload) = record {
  is_running = running;
  published = some (network_send info.client_ip info.client_port payload);
}

send_parsed : ClientInfo → Bool → Bytes → Result (List ConfigEntry) → Answer
unfolding send_text
send_parsed info running text (err e) = record { is_running = running; published = none }
send_parsed info running text (ok config_entries) =
    send_text info running (write_string [] (codes "config " ++ text))

-- The file is parsed, and then sent as it is.
send_file : Json → ClientInfo → Bool → Option Bytes → Answer
unfolding send_parsed
send_file json info running none = record { is_running = running; published = none }
send_file json info running (some text) = send_parsed info running text (json.parse text)

for_client : Json → Disk → Bool → Option (ClientInfo × Bytes) → Option Answer
unfolding send_file
for_client json d running none = none
for_client json d running (some (info, message)) = some (
    if info.client_id == 0
    then record { is_running = running; published = none }
    else if starts_with (codes "config ") message
    then send_file json info running (d.content (drop (length (codes "config ")) message))
    else record { is_running = running; published = none })

-- `none` is undefined behaviour, where the client's number overflows an int.
unfoldable pub on_input : Json → Disk → List (ℕ × ClientInfo) → Bytes → Bool → Option Answer
unfolding for_client
on_input json d clients payload running =
    if bytes_eq payload (codes "exit")
    then some (record { is_running = false; published = none })
    else for_client json d running (find_client_from_input payload clients)
