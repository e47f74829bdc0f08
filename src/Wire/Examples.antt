-- ===== src/Wire/Examples.antt =====
-- The binary form at concrete inputs.
use remote_monitoring_tool.Prelude.{◌≡◌, ◌<◌, ◌^◌, reverse, length}
use remote_monitoring_tool.Wire.{
  to_memory, swap_endian32, swap_endian64, write_string, read_string, write_vector, read_vector,
}
use remote_monitoring_tool.Wire.Endian.{swap_endian_memory}
use remote_monitoring_tool.Wire.Codec.{IsCodec}
use remote_monitoring_tool.Wire.Numbers.{
  string-IsCodec, vector-IsCodec, encode_string, encode_vector, VectorFits,
}

swap_endian_memory_example :
    (to_memory 4 (swap_endian32 0x01020304) ≡ reverse (to_memory 4 0x01020304))
    × (to_memory 8 (swap_endian64 0x01020304) ≡ reverse (to_memory 8 0x01020304))
swap_endian_memory_example = swap_endian_memory 0x01020304

vector-IsCodec_example :
    IsCodec
      (VectorFits (λ s. length s < 2 ^ 32))
      (encode_vector encode_string)
      (write_vector write_string)
      (read_vector read_string 99)
vector-IsCodec_example = vector-IsCodec 99 string-IsCodec
