-- ===== src/Config/Examples.antt =====
-- Configurations at concrete inputs.
use remote_monitoring_tool.Prelude.{◌≡◌, refl, [], ◌∷◌, Bytes, codes, arith}
use remote_monitoring_tool.Result.{ok}
use remote_monitoring_tool.Wire.Codec.{IsCodec}
use remote_monitoring_tool.Wire.Numbers.{encode_vector, VectorFits}
use remote_monitoring_tool.Config.{
  IsConfigEntry, read_config, write_config, convert_after_read, convert_before_write,
  serialize_config, deserialize_config,
}
use remote_monitoring_tool.Config.Sample.{sample_json, chrome}
use remote_monitoring_tool.Config.File.{read_config-IsWhole}
use remote_monitoring_tool.Samples.{empty_disk}
use remote_monitoring_tool.Config.Binary.{encode_config_entry, config-IsCodec}
use remote_monitoring_tool.Config.Units.{IsWhole, convert_before_write-convert_after_read}

convert_before_write-convert_after_read_example :
    (convert_before_write (convert_after_read chrome) ≡ chrome)
    × IsWhole (convert_after_read chrome)
convert_before_write-convert_after_read_example =
    convert_before_write-convert_after_read chrome (record {
      cpu_room = omega arith;
      mem_room = omega arith;
      disk_room = omega arith;
      network_room = omega arith;
    })

config-IsCodec_example :
    IsCodec
      (VectorFits IsConfigEntry)
      (encode_vector encode_config_entry)
      serialize_config
      (deserialize_config 99)
config-IsCodec_example = config-IsCodec 99

chrome-IsWhole : IsWhole (convert_after_read chrome)
unfolding convert_after_read
chrome-IsWhole = convert_before_write-convert_after_read_example.1

abbrev config_file : Bytes
config_file = codes "rmt-config.json"

read_config-IsWhole_example :
    ((write_config sample_json config_file (convert_after_read chrome ∷ []) empty_disk).0 ≡ ok 0)
    × (read_config sample_json config_file []
          (write_config sample_json config_file (convert_after_read chrome ∷ []) empty_disk).1
        ≡ ok (0, convert_after_read chrome ∷ []))
unfolding sample_json
read_config-IsWhole_example =
    read_config-IsWhole sample_json config_file (convert_after_read chrome ∷ []) [] empty_disk refl
      (refl, tt) (chrome-IsWhole, tt)
