-- ===== src/Config/Binary.antt =====
-- The binary form of a configuration is read back.
use remote_monitoring_tool.Prelude.{ap, ◌++◌, append_assoc, ℕ, Bytes}
use remote_monitoring_tool.Result.{ok}
use remote_monitoring_tool.Wire.Memory.{big_endian}
use remote_monitoring_tool.Wire.Codec.{IsCodec}
use remote_monitoring_tool.Wire.Numbers.{
  uint32-IsCodec, uint64-IsCodec, string-IsCodec, encode_string, write_uint32_lem, write_uint64_lem,
  vector-IsCodec, encode_vector, VectorFits,
}
use remote_monitoring_tool.Config.{
  ConfigEntry, IsConfigEntry, serialize, deserialize, serialize_config, deserialize_config,
}

-- The bytes of an entry: its fields in order, numbers in network order.
unfoldable pub encode_config_entry : ConfigEntry → Bytes
encode_config_entry c =
    encode_string c.process_name
    ++ (big_endian 4 c.cpu_usage
        ++ (big_endian 8 c.mem_usage
            ++ (big_endian 8 c.disk_usage ++ big_endian 8 c.network_usage)))

pub serialize-IsCodec : IsCodec IsConfigEntry encode_config_entry serialize deserialize
unfolding serialize deserialize encode_config_entry
serialize-IsCodec = record {
  writes = λ os c h.
      rw
        (
          string-IsCodec.writes os c.process_name h.name_fits,
          write_uint32_lem _ c.cpu_usage,
          write_uint64_lem _ c.mem_usage,
          write_uint64_lem _ c.disk_usage,
          write_uint64_lem _ c.network_usage,
        )
        (ap ok (simp append_assoc));
  reads = λ c rest h. rw (
    append_assoc,
    append_assoc,
    append_assoc,
    append_assoc,
    string-IsCodec.reads c.process_name _ h.name_fits,
    uint32-IsCodec.reads c.cpu_usage _ h.cpu_fits,
    uint64-IsCodec.reads c.mem_usage _ h.mem_fits,
    uint64-IsCodec.reads c.disk_usage _ h.disk_fits,
    uint64-IsCodec.reads c.network_usage rest h.network_fits,
  );
}

-- For a configuration of fewer than 2 ^ 32 entries that fit their fields, serialize appends the
-- count and the entries, and deserialize takes exactly that configuration from the front of a
-- stream and leaves the rest, whatever an unread count would hold.
pub config-IsCodec :
    (junk : ℕ)
    → IsCodec
        (VectorFits IsConfigEntry)
        (encode_vector encode_config_entry)
        serialize_config
        (deserialize_config junk)
unfolding serialize_config deserialize_config
config-IsCodec junk = vector-IsCodec junk serialize-IsCodec
