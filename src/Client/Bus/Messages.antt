-- ===== src/Client/Bus/Messages.antt =====
-- The server's messages at the client: acks and configurations, in any order.
use remote_monitoring_tool.Prelude.{
  ℕ, ◌+◌, ◌<◌, ◌^◌, ◌≡◌, refl, ap, true, none, List, [], ◌∷◌, ◌++◌, append-nil, arith, Bytes, codes,
  length, length-append, map,
}
use remote_monitoring_tool.Result.{Result, ok, ◌>>=◌}
use remote_monitoring_tool.Text.{starts_with, decimal}
use remote_monitoring_tool.Text.Decimal.{length-decimal-le}
use remote_monitoring_tool.Wire.Numbers.{string-IsCodec, encode_string}
use remote_monitoring_tool.Event.{Event, network_send, network_recv}
use remote_monitoring_tool.Disk.{Disk}
use remote_monitoring_tool.Config.{
  ConfigEntry, Json, read_config, convert_after_read, convert_before_write,
}
use remote_monitoring_tool.LogQueue.{ack_log}
use remote_monitoring_tool.ClientHandler.Replies.{ack_payload}
use remote_monitoring_tool.ClientLogger
use remote_monitoring_tool.ClientLogger.{Logged}
use remote_monitoring_tool.ClientLogger.Acks.{on_event-ack_payload, on_event-encode_string}
use remote_monitoring_tool.Client.Configured.{Configured, recv_config}
use remote_monitoring_tool.Client.Configured.Received.{config_payload, recv_config-config_payload}
use remote_monitoring_tool.EventBus.{publish_next, run_callbacks, publish}
use remote_monitoring_tool.Client.Bus.{
  Client, client_logger, with_logged, send_output_to_server, config_receiver, with_config,
  subscribers,
}

-- An ack is no configuration.
recv_config-ack_payload :
    (json : Json) (path ip from : Bytes) (port from_port id : ℕ) (c : Configured)
    → id < 2 ^ 64
    → recv_config json path ip port (network_recv from from_port (ack_payload id)) c ≡ ok (c, none)
unfolding recv_config starts_with
recv_config-ack_payload json path ip from port from_port id c h = rw (
  ← append-nil (ack_payload id),
  string-IsCodec.reads (codes "ack " ++ decimal id) [] (omega (arith, length-decimal-le id h)),
)

-- A configuration is no ack.
on_event-config_payload :
    (junk_id : ℕ) (ip : Bytes) (port : ℕ) (text : Bytes) (l : Logged)
    → length text + 7 < 2 ^ 32
    → ClientLogger.on_event junk_id (network_recv ip port (config_payload text)) l ≡ ok l
unfolding starts_with
on_event-config_payload junk_id ip port text l short =
    on_event-encode_string junk_id ip port (codes "config " ++ text) l
      (omega (arith, length-append (codes "config ") text)) refl

module _ (deeper : Event → Client → Result Client) (json : Json) (junk_id : ℕ) (path ip : Bytes)
    (port : ℕ) where
  abbrev pub bus : Event → Client → Result Client
  bus = publish deeper 2 (subscribers json junk_id path ip port)

  unfoldable pub acked : ℕ → Client → Client
  acked id c = record c {
    queue = (ack_log c.queue c.store id).0;
    store = (ack_log c.queue c.store id).1;
  }

  publish-ack_payload :
      (id : ℕ) (c : Client)
      → id < 2 ^ 64
      → bus (network_recv ip port (ack_payload id)) c ≡ ok (acked id c)
  unfolding publish subscribers run_callbacks publish_next client_logger with_logged
      send_output_to_server config_receiver with_config acked
  publish-ack_payload id c h =
      rw (on_event-ack_payload junk_id ip port id (record { queue = c.queue; store = c.store }) h) (
        rw
          (recv_config-ack_payload json path ip ip port port id
            (record { config = c.config; store = (ack_log c.queue c.store id).1 }) h)
          refl)

  -- The configuration is taken, the file holds it for the next start, the reply is given to a
  -- thread, and the queue stays.
  unfoldable pub IsConfigured : List ConfigEntry → List ConfigEntry → Client → Client → Type 0
  IsConfigured before entries c c' =
      (d : Disk) × (c' ≡ record c {
        config = entries;
        store = d;
        sending = c.sending ++ encode_string (codes "config ok") ∷ [];
      })
      × (read_config json path before d
          ≡ ok (0, map convert_after_read (map convert_before_write entries)))

  publish-network_send :
      (to : Bytes) (to_port : ℕ) (payload : Bytes) (c : Client)
      → publish deeper 1 (subscribers json junk_id path ip port) (network_send to to_port payload) c
        ≡ ok (record c { sending = c.sending ++ payload ∷ [] })
  unfolding publish subscribers run_callbacks publish_next client_logger with_logged
      send_output_to_server config_receiver with_config ClientLogger.on_event recv_config
  publish-network_send to to_port payload c = refl

  publish-config_payload :
      (text : Bytes) (before entries : List ConfigEntry) (c : Client)
      → length text + 7 < 2 ^ 32
      → c.store.writable path ≡ true
      → json.parse text ≡ ok entries
      → (c' : Client) × (bus (network_recv ip port (config_payload text)) c ≡ ok c')
        × IsConfigured before entries c c'
  unfolding publish subscribers run_callbacks publish_next client_logger with_logged
      send_output_to_server config_receiver with_config IsConfigured
  publish-config_payload text before entries c short w parsed =
      let (taken, _) =
        recv_config-config_payload json path ip ip port port text before
          (record { config = c.config; store = c.store }) short w in
      let (d, done, back) = taken entries parsed in
      (
        record c {
          config = entries;
          store = d;
          sending = c.sending ++ encode_string (codes "config ok") ∷ [];
        },
        rw
            (on_event-config_payload junk_id ip port text
              (record { queue = c.queue; store = c.store }) short)
            (rw done (
              ap (λ r. r >>= λ c'. ok c')
                (publish-network_send ip port (encode_string (codes "config ok"))
                  (record c { config = entries; store = d })))),
        (d, refl, back),
      )

  -- The server's messages on the client's event bus, where the logger and the reception of
  -- configurations get each of them. An ack below 2 ^ 64 is taken by the queue and changes nothing
  -- else, and nothing is sent. A configuration of less than 4 GiB that parses becomes the client's,
  -- where its file can be written: the next start reads it with both conversions applied, `config
  -- ok` is given to a thread that sends it, and the queue stays as it is.
  pub publish-message :
      (c : Client)
      → ((id : ℕ) → id < 2 ^ 64 → bus (network_recv ip port (ack_payload id)) c ≡ ok (acked id c))
        × ((text : Bytes) (before entries : List ConfigEntry)
            → length text + 7 < 2 ^ 32
            → c.store.writable path ≡ true
            → json.parse text ≡ ok entries
            → (c' : Client) × (bus (network_recv ip port (config_payload text)) c ≡ ok c')
              × IsConfigured before entries c c')
  publish-message c = (
    λ id h. publish-ack_payload id c h,
    λ text before entries short w parsed.
        publish-config_payload text before entries c short w parsed,
  )
