-- ===== src/LogEntry/Examples.antt =====
-- Log entries at concrete inputs.
use remote_monitoring_tool.Prelude.{◌≡◌, ◌↔◌, true, [], ◌++◌, codes, arith}
use remote_monitoring_tool.Text.{text}
use remote_monitoring_tool.LogEntry.{serialize_str, deserialize_str, entry_eq}
use remote_monitoring_tool.LogEntry.Binary.{entry_eq_iff}
use remote_monitoring_tool.LogEntry.Printed.{IsPrintable, deserialize_str-serialize_str}
use remote_monitoring_tool.Samples.{first, second}

pub first-IsPrintable : IsPrintable first
first-IsPrintable = record {
  entry = record {
    id_fits = omega arith;
    name_fits = omega arith;
    timestamp_fits = omega arith;
    type_fits = omega arith;
    value_fits = omega arith;
  };
  no_bar = omega arith;
  no_newline = omega arith;
}

entry_eq_iff_example : (entry_eq first second ≡ true) ↔ (first ≡ second)
entry_eq_iff_example = entry_eq_iff first second

deserialize_str-serialize_str_example :
    deserialize_str (text (serialize_str [] first ++ codes "2|b|")) second 7
    ≡ (0, first, text (codes "2|b|"))
deserialize_str-serialize_str_example =
    deserialize_str-serialize_str first second 7 (codes "2|b|") first-IsPrintable
