-- ===== src/Configuring/Examples.antt =====
-- A configuration on its way at concrete inputs.
use remote_monitoring_tool.Prelude.{
  ℕ, ◌≡◌, refl, true, none, some, ◌==◌, List, [], ◌∷◌, ◌++◌, arith, map, Bytes, codes,
}
use remote_monitoring_tool.Result.{ok, err}
use remote_monitoring_tool.Event.{network_send, network_recv}
use remote_monitoring_tool.Disk.{Disk, store, store_same}
use remote_monitoring_tool.Assoc.{find_in}
use remote_monitoring_tool.Samples.{client, empty_disk}
use remote_monitoring_tool.Wire.Numbers.{encode_string}
use remote_monitoring_tool.Socket.{Socket, send_message, recv_message}
use remote_monitoring_tool.Config.{
  ConfigEntry, convert_after_read, convert_before_write, read_config,
}
use remote_monitoring_tool.Config.Sample.{sample_json, chrome, sample_text, parse-sample_text}
use remote_monitoring_tool.Client.Configured.{Configured, recv_config}
use remote_monitoring_tool.Client.Configured.Received.{config_payload, recv_config-config_payload}
use remote_monitoring_tool.ClientManager.Input.{on_input}
use remote_monitoring_tool.ClientManager.Input.Configure.{line_for, on_input-line_for}
use remote_monitoring_tool.Configuring.{on_input-recv_config}

abbrev file : Bytes
file = codes "chrome.json"

abbrev server_disk : Disk
server_disk = store empty_disk file sample_text

abbrev client_file : Bytes
client_file = codes "rmt-config.json"

abbrev unconfigured : Configured
unconfigured = record { config = []; store = empty_disk }

abbrev server_ip : Bytes
server_ip = codes "10.0.0.1"

abbrev message : Bytes
message = config_payload sample_text

-- Both sides move one byte at a time.
abbrev sender : Socket
sender = record { incoming = []; outgoing = []; calls = 0; limit = λ i. 1 }

abbrev receiver : Socket
receiver = record {
  incoming = encode_string message ++ codes "next";
  outgoing = [];
  calls = 0;
  limit = λ i. 1;
}

recv_config-config_payload_example :
    ((entries : List ConfigEntry)
      → sample_json.parse sample_text ≡ ok entries
      → (d : Disk) × (recv_config sample_json client_file server_ip 12345
            (network_recv server_ip 12345 message)
            unconfigured
          ≡ ok (
            record { config = entries; store = d },
            some (network_send server_ip 12345 (encode_string (codes "config ok"))),
          ))
        × (read_config sample_json client_file [] d
            ≡ ok (0, map convert_after_read (map convert_before_write entries))))
    × ((e : _)
        → sample_json.parse sample_text ≡ err e
        → recv_config sample_json client_file server_ip 12345
            (network_recv server_ip 12345 message)
            unconfigured
          ≡ ok (unconfigured, none))
recv_config-config_payload_example =
    recv_config-config_payload sample_json client_file server_ip server_ip 12345 12345 sample_text
      [] unconfigured (omega arith) refl

client_found : find_in ◌==◌ 1 ((1, client) ∷ []) ≡ some client
unfolding find_in
client_found = refl

on_input-line_for_example :
    on_input sample_json server_disk ((1, client) ∷ []) (line_for 1 (codes "config " ++ file)) true
    ≡ some (record {
      is_running = true;
      published = some (network_send client.client_ip client.client_port message);
    })
on_input-line_for_example =
    (on_input-line_for sample_json server_disk ((1, client) ∷ []) 1 client file true (omega arith)
        client_found (omega arith)).0
      sample_text (chrome ∷ []) (store_same empty_disk file sample_text) parse-sample_text
      (omega arith)

on_input-recv_config_example :
    (payload : Bytes) × (on_input sample_json server_disk
        ((1, client) ∷ [])
        (line_for 1 (codes "config " ++ file))
        true
      ≡ some (record {
        is_running = true;
        published = some (network_send client.client_ip client.client_port payload);
      }))
    × ((n : ℕ) × (send_message payload sender
          ≡ ok (record sender { outgoing = [] ++ encode_string payload; calls = n })))
    × ((n : ℕ) × (recv_message receiver
          ≡ ok (payload, record receiver { incoming = codes "next"; calls = n })))
    × ((d : Disk) × (recv_config sample_json client_file server_ip 12345
            (network_recv server_ip 12345 payload)
            unconfigured
          ≡ ok (
            record { config = chrome ∷ []; store = d },
            some (network_send server_ip 12345 (encode_string (codes "config ok"))),
          ))
        × (read_config sample_json client_file [] d
            ≡ ok (0, map convert_after_read (map convert_before_write (chrome ∷ [])))))
on_input-recv_config_example =
    on_input-recv_config sample_json server_disk ((1, client) ∷ []) 1 client file sample_text
      (chrome ∷ []) [] true sender receiver (codes "next") client_file server_ip 12345 unconfigured
      (omega arith) client_found (omega arith) (store_same empty_disk file sample_text)
      parse-sample_text (omega arith) (λ i. omega arith) (λ i. omega arith) refl refl
