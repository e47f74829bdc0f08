-- ===== src/Config.antt =====
-- common/config_entry.*, config.* and global.hpp: the thresholds for a program, their units, and the
-- configuration file (the branch for systems other than Windows).
pub mod Binary
pub mod Units
pub mod File
pub mod Sample
mod Examples
use remote_monitoring_tool.Prelude.{
  ℕ, ◌*◌, ◌/◌, ◌%◌, ◌^◌, ◌<◌, ◌≡◌, Option, none, some, List, [], ◌∷◌, ◌++◌, map, Bytes, codes,
  length, Bool, true, All, if◌then◌else◌,
}
use remote_monitoring_tool.Result.{Result, ok, err, ◌>>=◌}
use remote_monitoring_tool.Wire.{
  Reader, write_uint32, write_uint64, write_string, read_uint32, read_uint64, read_string,
  write_vector, read_vector,
}
use remote_monitoring_tool.Disk.{Disk, store}

-- The units of global.hpp.
abbrev pub cpu_unit : ℕ
cpu_unit = 1000

abbrev pub mem_unit : ℕ
mem_unit = 2 ^ 20

abbrev pub disk_unit : ℕ
disk_unit = 2 ^ 10

abbrev pub network_unit : ℕ
network_unit = 2 ^ 10

pub record ConfigEntry : Type 0 where
  pub process_name : Bytes
  pub cpu_usage : ℕ
  pub mem_usage : ℕ
  pub disk_usage : ℕ
  pub network_usage : ℕ

unfoldable pub serialize : Bytes → ConfigEntry → Result Bytes
serialize os c = do
  os1 ← write_string os c.process_name
  ok (
      write_uint64
        (write_uint64 (write_uint64 (write_uint32 os1 c.cpu_usage) c.mem_usage) c.disk_usage)
        c.network_usage)

unfoldable pub deserialize : Reader ConfigEntry
deserialize is = do
  (name, is1) ← read_string is
  (cpu, is2) ← read_uint32 is1
  (mem, is3) ← read_uint64 is2
  (disk, is4) ← read_uint64 is3
  (net, is5) ← read_uint64 is4
  ok (
    record {
      process_name = name;
      cpu_usage = cpu;
      mem_usage = mem;
      disk_usage = disk;
      network_usage = net;
    },
    is5,
  )

-- X *= X_UNIT, in the fields' widths.
unfoldable pub convert_after_read : ConfigEntry → ConfigEntry
convert_after_read c = record c {
  cpu_usage = c.cpu_usage * cpu_unit % 2 ^ 32;
  mem_usage = c.mem_usage * mem_unit % 2 ^ 64;
  disk_usage = c.disk_usage * disk_unit % 2 ^ 64;
  network_usage = c.network_usage * network_unit % 2 ^ 64;
}

-- X /= X_UNIT
unfoldable pub convert_before_write : ConfigEntry → ConfigEntry
convert_before_write c = record c {
  cpu_usage = c.cpu_usage / cpu_unit;
  mem_usage = c.mem_usage / mem_unit;
  disk_usage = c.disk_usage / disk_unit;
  network_usage = c.network_usage / network_unit;
}

-- A configuration is its entries; these are Config::serialize and Config::deserialize.
unfoldable pub serialize_config : Bytes → List ConfigEntry → Result Bytes
serialize_config os entries = write_vector serialize os entries

unfoldable pub deserialize_config : ℕ → Reader (List ConfigEntry)
deserialize_config junk = read_vector deserialize junk

unfoldable pub default_config : List ConfigEntry
default_config = map convert_after_read (
    entry (codes "test_prog") 1 11 1 1
    ∷ entry (codes "test_prog.exe") 1 11 1 1
    ∷ entry (codes "chrome.exe") 10 200 1 500
    ∷ entry (codes "devenv.exe") 50 100 10 100
    ∷ [])
  where
    entry : Bytes → ℕ → ℕ → ℕ → ℕ → ConfigEntry
    entry name cpu mem disk net = record {
      process_name = name;
      cpu_usage = cpu;
      mem_usage = mem;
      disk_usage = disk;
      network_usage = net;
    }

-- The JSON library: printing a vector of entries, which throws where a name is not valid UTF-8, and
-- parsing one, which throws there too. What is printed is parsed back.
pub record Json : Type 0 where
  pub valid_name : Bytes → Bool
  pub dump : List ConfigEntry → Result Bytes
  pub parse : Bytes → Result (List ConfigEntry)
  pub dump_valid :
      (entries : List ConfigEntry)
      → All (λ c. valid_name c.process_name ≡ true) entries
      → (text : Bytes) × (dump entries ≡ ok text)
  pub parse-dump :
      (entries : List ConfigEntry) (text : Bytes) → dump entries ≡ ok text → parse text ≡ ok entries
  pub parse_valid :
      (entries : List ConfigEntry) (text : Bytes)
      → parse text ≡ ok entries
      → All (λ c. valid_name c.process_name ≡ true) entries

-- The file was opened, and so emptied, before the entries are printed.
write_entries : Result Bytes → Bytes → Disk → Result ℕ × Disk
write_entries (ok text) path d = (ok 0, store d path text)
write_entries (err e) path d = (err e, store d path [])

-- The return code and the disk. `path` is rmt-config.json in the user's directory.
unfoldable pub write_config : Json → Bytes → List ConfigEntry → Disk → Result ℕ × Disk
unfolding write_entries
write_config json path entries d =
    if d.writable path
    then write_entries (json.dump (map convert_before_write entries)) path d
    else (ok 1, d)

-- The return code and the entries, from the content of the file.
read_entries : Json → Option Bytes → List ConfigEntry → Result (ℕ × List ConfigEntry)
read_entries json none entries = ok (1, entries)
read_entries json (some bytes) entries = do
  parsed ← json.parse bytes
  ok (0, map convert_after_read parsed)

unfoldable pub read_config : Json → Bytes → List ConfigEntry → Disk → Result (ℕ × List ConfigEntry)
unfolding read_entries
read_config json path entries d = read_entries json (d.content path) entries

-- What the types of the fields guarantee of an entry, and a name that its length prefix can tell.
pub record IsConfigEntry (c : ConfigEntry) : Type 0 where
  pub name_fits : length c.process_name < 2 ^ 32
  pub cpu_fits : c.cpu_usage < 2 ^ 32
  pub mem_fits : c.mem_usage < 2 ^ 64
  pub disk_fits : c.disk_usage < 2 ^ 64
  pub network_fits : c.network_usage < 2 ^ 64
