-- ===== src/Config/Units.antt =====
-- The conversions between the units of the file and those of the program.
use remote_monitoring_tool.Prelude.{◌*◌, ◌%◌, ◌^◌, ◌<◌, ◌≡◌, refl, arith, List, [], ◌∷◌, map, All}
use mathlib.Core.Path.{ap₂}
use remote_monitoring_tool.Config.{
  ConfigEntry, convert_after_read, convert_before_write, cpu_unit, mem_unit, disk_unit,
  network_unit,
}

-- The values of a file that the program's fields can hold in the program's units.
pub record IsFileEntry (c : ConfigEntry) : Type 0 where
  pub cpu_room : c.cpu_usage * cpu_unit < 2 ^ 32
  pub mem_room : c.mem_usage * mem_unit < 2 ^ 64
  pub disk_room : c.disk_usage * disk_unit < 2 ^ 64
  pub network_room : c.network_usage * network_unit < 2 ^ 64

-- Values that are whole in the file's units.
pub record IsWhole (c : ConfigEntry) : Type 0 where
  pub cpu_whole : c.cpu_usage % cpu_unit ≡ 0
  pub cpu_fits : c.cpu_usage < 2 ^ 32
  pub mem_whole : c.mem_usage % mem_unit ≡ 0
  pub mem_fits : c.mem_usage < 2 ^ 64
  pub disk_whole : c.disk_usage % disk_unit ≡ 0
  pub disk_fits : c.disk_usage < 2 ^ 64
  pub network_whole : c.network_usage % network_unit ≡ 0
  pub network_fits : c.network_usage < 2 ^ 64

-- For an entry of a file whose thresholds fit the fields when multiplied by their units,
-- convert_after_read gives thresholds that are whole in the units and fit, and
-- convert_before_write gives the entry back.
pub convert_before_write-convert_after_read :
    (c : ConfigEntry)
    → IsFileEntry c
    → (convert_before_write (convert_after_read c) ≡ c) × IsWhole (convert_after_read c)
unfolding convert_before_write convert_after_read
convert_before_write-convert_after_read c h = (ground arith, omega arith)

pub convert_after_read-convert_before_write :
    (c : ConfigEntry) → IsWhole c → convert_after_read (convert_before_write c) ≡ c
unfolding convert_before_write convert_after_read
convert_after_read-convert_before_write c h = ground arith

pub map-convert :
    (cs : List ConfigEntry)
    → All IsWhole cs
    → map convert_after_read (map convert_before_write cs) ≡ cs
map-convert [] h = refl
map-convert (c ∷ cs) (hc, h) =
    ap₂ (λ x xs. x ∷ xs) (convert_after_read-convert_before_write c hc) (map-convert cs h)
