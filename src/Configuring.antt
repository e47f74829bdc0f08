-- ===== src/Configuring.antt =====
-- A configuration from the file of the server's user to the client's logger: client_manager.cpp,
-- serializable.cpp's messages and client.cpp, one after the other.
mod Examples
use remote_monitoring_tool.Prelude.{
  ℕ, ◌+◌, ◌<◌, ◌^◌, ◌≡◌, ◌∙◌, Bool, true, Option, some, List, ◌++◌, arith, map, Bytes, codes, ◌==◌,
  length, length-append,
}
use remote_monitoring_tool.Result.{ok}
use remote_monitoring_tool.Assoc.{find_in}
use remote_monitoring_tool.Event.{network_send, network_recv}
use remote_monitoring_tool.Disk.{Disk}
use remote_monitoring_tool.Wire.Numbers.{encode_string, length-encode_string}
use remote_monitoring_tool.Socket.{Socket, send_message, recv_message}
use remote_monitoring_tool.Socket.Framing.{IsOpen, recv_message-send_message}
use remote_monitoring_tool.Config.{
  ConfigEntry, Json, convert_after_read, convert_before_write, read_config,
}
use remote_monitoring_tool.ClientHandler.{ClientInfo}
use remote_monitoring_tool.ClientManager.Input.{on_input}
use remote_monitoring_tool.ClientManager.Input.Configure.{line_for, on_input-line_for}
use remote_monitoring_tool.Client.Configured.{Configured, recv_config}
use remote_monitoring_tool.Client.Configured.Received.{config_payload, recv_config-config_payload}

-- Let a client stand under a positive id at the server, a file of the server hold entries in less
-- than 4 GiB less eleven bytes, the connection be open on both sides, and the client's
-- configuration file be writable. Then the line `id:config file` at the server publishes a message,
-- the message can be sent, the client receives it as it was sent, its configuration becomes exactly
-- the file's entries, it sends `config ok`, and its next start reads the entries with their
-- thresholds divided by the units of the file and multiplied again.
pub on_input-recv_config :
    (json : Json) (server_disk : Disk) (clients : List (ℕ × ClientInfo)) (id : ℕ)
    (info : ClientInfo) (file text : Bytes) (entries before : List ConfigEntry) (running : Bool)
    (s r : Socket) (rest path server_ip : Bytes) (server_port : ℕ) (c : Configured)
    → id < 2 ^ 31
    → find_in ◌==◌ id clients ≡ some info
    → 0 < info.client_id
    → server_disk.content file ≡ some text
    → json.parse text ≡ ok entries
    → length text + 11 < 2 ^ 32
    → IsOpen s
    → IsOpen r
    → r.incoming ≡ encode_string (config_payload text) ++ rest
    → c.store.writable path ≡ true
    → (payload : Bytes) × (on_input json server_disk clients
          (line_for id (codes "config " ++ file))
          running
        ≡ some (record {
          is_running = running;
          published = some (network_send info.client_ip info.client_port payload);
        }))
      × ((n : ℕ) × (send_message payload s
            ≡ ok (record s { outgoing = s.outgoing ++ encode_string payload; calls = n })))
      × ((n : ℕ) × (recv_message r ≡ ok (payload, record r { incoming = rest; calls = n })))
      × ((d : Disk) × (recv_config json path server_ip server_port
              (network_recv server_ip server_port payload)
              c
            ≡ ok (
              record { config = entries; store = d },
              some (network_send server_ip server_port (encode_string (codes "config ok"))),
            ))
          × (read_config json path before d
              ≡ ok (0, map convert_after_read (map convert_before_write entries))))
on_input-recv_config json server_disk clients id info file text entries before running s r rest path
      server_ip server_port c lt found pos there parsed short os or waits w =
    let (sends, _, _) =
      on_input-line_for json server_disk clients id info file running lt found pos in
    let (out, got) =
      recv_message-send_message s r (config_payload text) rest os or
        (omega (
          arith,
          short,
          length-encode_string (codes "config " ++ text),
          length-append (codes "config ") text,
        ))
        waits in
    let (taken, _) =
      recv_config-config_payload json path server_ip server_ip server_port server_port text before c
        (omega arith) w in
    (
      config_payload text,
      sends text entries there parsed (omega arith),
      out,
      got,
      taken entries parsed,
    )
