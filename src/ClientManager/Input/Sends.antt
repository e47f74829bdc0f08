-- ===== src/ClientManager/Input/Sends.antt =====
-- The server publishes only messages to be sent for a line of its user.
use remote_monitoring_tool.Prelude.{
  ℕ, Bool, true, false, Option, none, some, List, [], Bytes, codes, bytes_eq, ◌==◌, ◌++◌, arith,
  if◌then◌else◌, drop, length,
}
use remote_monitoring_tool.Result.{Result, ok, err}
use remote_monitoring_tool.Text.{starts_with}
use remote_monitoring_tool.Wire.{write_string}
use remote_monitoring_tool.Disk.{Disk}
use remote_monitoring_tool.Config.{ConfigEntry, Json}
use remote_monitoring_tool.ClientHandler.{ClientInfo}
use remote_monitoring_tool.ClientManager.{find_client_from_input}
use remote_monitoring_tool.ClientManager.Input.{
  Answer, send_text, send_parsed, send_file, for_client, on_input,
}
use remote_monitoring_tool.EventBus.Sends.{IsSend}

unfoldable pub IsAnswer : Option Answer → Type 0
IsAnswer none = Unit
IsAnswer (some answer) = IsSend answer.published

if-IsAnswer :
    (b : Bool) (x y : Option Answer) → IsAnswer x → IsAnswer y → IsAnswer (if b then x else y)
if-IsAnswer true x y h k = h
if-IsAnswer false x y h k = k

send_text-IsSend :
    (info : ClientInfo) (running : Bool) (r : Result Bytes)
    → IsSend (send_text info running r).published
unfolding send_text
send_text-IsSend info running (err e) = tt
send_text-IsSend info running (ok payload) = omega arith

send_parsed-IsSend :
    (info : ClientInfo) (running : Bool) (text : Bytes) (r : Result (List ConfigEntry))
    → IsSend (send_parsed info running text r).published
unfolding send_parsed
send_parsed-IsSend info running text (err e) = tt
send_parsed-IsSend info running text (ok entries) =
    send_text-IsSend info running (write_string [] (codes "config " ++ text))

send_file-IsSend :
    (json : Json) (info : ClientInfo) (running : Bool) (o : Option Bytes)
    → IsSend (send_file json info running o).published
unfolding send_file
send_file-IsSend json info running none = tt
send_file-IsSend json info running (some text) =
    send_parsed-IsSend info running text (json.parse text)

if-IsSend :
    (b : Bool) (x y : Answer)
    → IsSend x.published
    → IsSend y.published
    → IsSend (if b then x else y).published
if-IsSend true x y h k = h
if-IsSend false x y h k = k

for_client-IsAnswer :
    (json : Json) (d : Disk) (running : Bool) (o : Option (ClientInfo × Bytes))
    → IsAnswer (for_client json d running o)
unfolding for_client IsAnswer
for_client-IsAnswer json d running none = tt
for_client-IsAnswer json d running (some (info, message)) = if-IsSend (info.client_id == 0) _ _ tt (
    if-IsSend (starts_with (codes "config ") message) _ _
      (send_file-IsSend json info running (d.content (drop (length (codes "config ")) message))) tt)

pub on_input-IsAnswer :
    (json : Json) (d : Disk) (clients : List (ℕ × ClientInfo)) (payload : Bytes) (running : Bool)
    → IsAnswer (on_input json d clients payload running)
unfolding on_input IsAnswer
on_input-IsAnswer json d clients payload running =
    if-IsAnswer (bytes_eq payload (codes "exit")) _ _ tt
      (for_client-IsAnswer json d running (find_client_from_input payload clients))
