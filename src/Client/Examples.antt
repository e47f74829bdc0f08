-- ===== src/Client/Examples.antt =====
-- The server's messages at concrete inputs.
use remote_monitoring_tool.Prelude.{
  ℕ, ◌^◌, ◌+◌, ◌<◌, ◌≡◌, true, List, [], ◌∷◌, Bytes, codes, length,
}
use remote_monitoring_tool.Result.{Result, ok, err, terminated}
use remote_monitoring_tool.Event.{Event, network_recv}
use remote_monitoring_tool.Samples.{second, empty_disk}
use remote_monitoring_tool.Config.{ConfigEntry}
use remote_monitoring_tool.Config.Sample.{sample_json}
use remote_monitoring_tool.ClientHandler.Replies.{ack_payload}
use remote_monitoring_tool.Client.Configured.Received.{config_payload}
use remote_monitoring_tool.Client.Bus.{Client}
use remote_monitoring_tool.Client.Bus.Messages.{bus, acked, IsConfigured, publish-message}

abbrev client : Client
client = record {
  queue = record {
    log_file = codes "rmt-log.txt";
    ack_file = codes "rmt-ack.txt";
    ack_id = 1;
    log_entries = second ∷ [];
    new_id = 3;
  };
  config = [];
  store = empty_disk;
  sending = [];
}

abbrev no_deeper : Event → Client → Result Client
no_deeper event c = err terminated

abbrev file : Bytes
file = codes "rmt-config.json"

abbrev server_ip : Bytes
server_ip = codes "10.0.0.1"

publish-message_example :
    ((id : ℕ)
      → id < 2 ^ 64
      → bus no_deeper sample_json 9 file server_ip 12345
          (network_recv server_ip 12345 (ack_payload id))
          client
        ≡ ok (acked no_deeper sample_json 9 file server_ip 12345 id client))
    × ((text : Bytes) (before entries : List ConfigEntry)
        → length text + 7 < 2 ^ 32
        → client.store.writable file ≡ true
        → sample_json.parse text ≡ ok entries
        → (c' : Client) × (bus no_deeper sample_json 9 file server_ip 12345
              (network_recv server_ip 12345 (config_payload text))
              client
            ≡ ok c')
          × IsConfigured no_deeper sample_json 9 file server_ip 12345 before entries client c')
publish-message_example = publish-message no_deeper sample_json 9 file server_ip 12345 client
