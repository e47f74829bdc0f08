-- ===== src/LogEntry/Binary.antt =====
-- The binary form of a log entry is read back, and equality is by all fields.
use remote_monitoring_tool.Prelude.{
  ◌≡◌, ap, ◌↔◌, true, ◌++◌, append_assoc, arith, Bytes, bytes_eq_refl, bytes_eq→eq,
}
use remote_monitoring_tool.Result.{ok}
use remote_monitoring_tool.Wire.Memory.{big_endian}
use remote_monitoring_tool.Wire.Codec.{IsCodec}
use remote_monitoring_tool.Wire.Numbers.{
  uint32-IsCodec, uint64-IsCodec, string-IsCodec, encode_string, write_uint32_lem, write_uint64_lem,
}
use remote_monitoring_tool.LogEntry.{LogEntry, IsEntry, serialize, deserialize, entry_eq}

-- The bytes of an entry: its fields in order, numbers in network order.
unfoldable pub encode_entry : LogEntry → Bytes
encode_entry e =
    big_endian 8 e.id
    ++ (encode_string e.process_name
        ++ (big_endian 8 e.timestamp_ms ++ (big_endian 4 e.log_type ++ big_endian 8 e.value)))

-- For an entry whose fields fit their types and whose name is shorter than 4 GiB, serialize
-- appends the fields in order, numbers in network order and the name behind its length, and
-- deserialize takes exactly that entry from the front of a stream and leaves the rest.
pub entry-IsCodec : IsCodec IsEntry encode_entry serialize deserialize
unfolding serialize deserialize encode_entry
entry-IsCodec = record {
  writes = λ os e h.
      rw
        (
          write_uint64_lem os e.id,
          string-IsCodec.writes _ e.process_name h.name_fits,
          write_uint64_lem _ e.timestamp_ms,
          write_uint32_lem _ e.log_type,
          write_uint64_lem _ e.value,
        )
        (ap ok (simp append_assoc));
  reads = λ e rest h. rw (
    append_assoc,
    append_assoc,
    append_assoc,
    append_assoc,
    uint64-IsCodec.reads e.id _ h.id_fits,
    string-IsCodec.reads e.process_name _ h.name_fits,
    uint64-IsCodec.reads e.timestamp_ms _ h.timestamp_fits,
    uint32-IsCodec.reads e.log_type _ h.type_fits,
    uint64-IsCodec.reads e.value rest h.value_fits,
  );
}

-- operator== returns true exactly for equal entries.
pub entry_eq_iff : (a b : LogEntry) → (entry_eq a b ≡ true) ↔ (a ≡ b)
unfolding entry_eq
entry_eq_iff a b = (
  λ h. ground (arith, bytes_eq→eq a.process_name b.process_name),
  λ e. rw e (ground (arith, bytes_eq_refl b.process_name)),
)
