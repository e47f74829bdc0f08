-- ===== src/Client/Configured/Received.antt =====
-- What a configuration from the server comes to.
use remote_monitoring_tool.Prelude.{
  ℕ, ◌+◌, ◌<◌, ◌^◌, ◌≡◌, ap, ◌∙◌, true, none, some, List, [], ◌++◌, map, append-nil, arith, Bytes,
  codes, length, length-append,
}
use remote_monitoring_tool.Result.{ok, err}
use remote_monitoring_tool.Text.{starts_with}
use remote_monitoring_tool.Wire.Numbers.{string-IsCodec, encode_string}
use remote_monitoring_tool.Event.{network_send, network_recv}
use remote_monitoring_tool.Disk.{Disk}
use remote_monitoring_tool.Config.{
  ConfigEntry, Json, convert_after_read, convert_before_write, write_config, read_config,
}
use remote_monitoring_tool.Config.File.{AllValid, read_config-write_config, write_config-writable}
use remote_monitoring_tool.Client.Configured.{
  Configured, after_write, set_config, configure, recv_config,
}

-- The payload of a configuration message.
abbrev pub config_payload : Bytes → Bytes
config_payload text = encode_string (codes "config " ++ text)

-- set_config stores the entries as they are, and leaves a file that the next start reads with both
-- conversions applied.
set_config_lem :
    (json : Json) (path : Bytes) (entries before : List ConfigEntry) (d : Disk)
    → d.writable path ≡ true
    → AllValid json entries
    → (d' : Disk) × (set_config json path entries d ≡ ok (record { config = entries; store = d' }))
      × (read_config json path before d'
          ≡ ok (0, map convert_after_read (map convert_before_write entries)))
unfolding set_config after_write
set_config_lem json path entries before d w v =
    let (code, back) = read_config-write_config json path entries before d w v in
    let first : Disk = (write_config json path entries d).1 in
    let (code', back') =
      read_config-write_config json path entries before first
        (write_config-writable json path entries d path ∙ w) v in
    (
      (write_config json path entries first).1,
      ap (λ r. after_write json path entries (r, first)) code,
      back',
    )

message_back :
    (json : Json) (path ip from : Bytes) (port from_port : ℕ) (text : Bytes) (c : Configured)
    → length text + 7 < 2 ^ 32
    → recv_config json path ip port (network_recv from from_port (config_payload text)) c
      ≡ configure json path ip port (json.parse text) c
unfolding recv_config starts_with
message_back json path ip from port from_port text c short = rw (
  ← append-nil (config_payload text),
  string-IsCodec.reads (codes "config " ++ text) []
      (omega (arith, length-append (codes "config ") text)),
)

-- Let a message hold a text of less than 4 GiB that parses as entries, and let the configuration
-- file be writable. Then the client's configuration is those entries, `config ok` is sent to the
-- server, and the next start reads them with their thresholds divided by the units of the file and
-- multiplied again. A message with a text that does not parse changes nothing and gets no reply.
pub recv_config-config_payload :
    (json : Json) (path ip from : Bytes) (port from_port : ℕ) (text : Bytes)
    (before : List ConfigEntry) (c : Configured)
    → length text + 7 < 2 ^ 32
    → c.store.writable path ≡ true
    → ((entries : List ConfigEntry)
        → json.parse text ≡ ok entries
        → (d : Disk) × (recv_config json path ip port
              (network_recv from from_port (config_payload text))
              c
            ≡ ok (
              record { config = entries; store = d },
              some (network_send ip port (encode_string (codes "config ok"))),
            ))
          × (read_config json path before d
              ≡ ok (0, map convert_after_read (map convert_before_write entries))))
      × ((e : _)
          → json.parse text ≡ err e
          → recv_config json path ip port (network_recv from from_port (config_payload text)) c
            ≡ ok (c, none))
unfolding configure
recv_config-config_payload json path ip from port from_port text before c short w = (
  λ entries parsed.
      let (d, done, back) =
        set_config_lem json path entries before c.store w (json.parse_valid entries text parsed) in
      (
        d,
        message_back json path ip from port from_port text c short
            ∙ ap (λ r. configure json path ip port r c) parsed
            ∙ rw (done, string-IsCodec.writes [] (codes "config ok") (omega arith)),
        back,
      ),
  λ e failed.
      message_back json path ip from port from_port text c short
      ∙ ap (λ r. configure json path ip port r c) failed,
)
