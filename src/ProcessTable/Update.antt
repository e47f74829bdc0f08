-- ===== src/ProcessTable/Update.antt =====
-- ProcessTable::update_table. What the readers of /proc and the packet counter give in a round is
-- the record of readings.
pub mod Covered
pub mod Windows
mod Examples
use remote_monitoring_tool.Prelude.{
  ℕ, ◌+◌, ◌-◌, ◌%◌, ◌^◌, Bool, true, false, Option, none, some, List, [], ◌∷◌, Bytes, ◌==◌,
  if◌then◌else◌,
}
use remote_monitoring_tool.Result.{Result, ok, err}
use remote_monitoring_tool.Assoc.{find_in, put, erase, value_or, has_value}
use remote_monitoring_tool.ProcessTable.{
  ProcessTable, ProcessListing, ProcessStat, ProcessLastStat, CpuStat, DiskStat, NetworkStat,
  no_disk, no_network, no_stat,
}

pub record CpuMemStat : Type 0 where
  pub total_cpu_usage : ℕ
  pub mem_usage : ℕ

-- read_stat_cpu, list_pids, PcapHandler::process_packets, read_process_metadata,
-- read_pid_stat_cpu_mem and read_pid_io, and the computation on doubles: the percentage of a
-- process, from its own time, the time of all processors and their idle time.
pub record Readings : Type 0 where
  pub stat_cpu : Result CpuStat
  pub pids : List ℕ
  pub network : List (ℕ × NetworkStat)
  pub metadata : ℕ → Result ProcessListing
  pub cpu_mem : ℕ → Result CpuMemStat
  pub io : ℕ → DiskStat
  pub percent : ℕ → ℕ → ℕ → ℕ

abbrev pub no_listing : ProcessListing
no_listing = record { pid = 0; process_name = []; args = [] }

abbrev pub no_last_stat : ProcessLastStat
no_last_stat = record { total_cpu_usage = 0; disk_stat = no_disk }

-- A difference of two uint64_t.
unfoldable pub minus : ℕ → ℕ → ℕ
minus a b = (a + (2 ^ 64 - b)) % 2 ^ 64

unfoldable pub at_least_one : ℕ → ℕ
at_least_one n = if n == 0 then 1 else n

abbrev pub is_empty {ℓ} : {A : Type ℓ} → List A → Bool
is_empty [] = true
is_empty (a ∷ as') = false

cpu_delta : CpuStat → CpuStat → CpuStat
unfolding minus at_least_one
cpu_delta now_cpu last_cpu = record {
  cpu_usage = at_least_one (minus now_cpu.cpu_usage last_cpu.cpu_usage);
  cpu_idle = at_least_one (minus now_cpu.cpu_idle last_cpu.cpu_idle);
}

unfoldable pub disk_delta : Option ℕ → Option ℕ → Option ℕ
unfolding minus
disk_delta none last = none
disk_delta (some now) last = some (minus now (value_or last 0))

-- The statistic and the last statistic that a round computes for a process.
unfoldable pub measure :
    Readings → CpuStat → ℕ → ProcessLastStat → CpuMemStat → ProcessStat × ProcessLastStat
unfolding disk_delta minus
measure r delta pid last now =
    let disk_stat : DiskStat = r.io pid in
    (
      record {
        cpu_usage_percent =
            r.percent (minus now.total_cpu_usage last.total_cpu_usage) delta.cpu_usage
              delta.cpu_idle;
        mem_usage = now.mem_usage;
        disk_usage = record {
          disk_read = disk_delta disk_stat.disk_read last.disk_stat.disk_read;
          disk_write = disk_delta disk_stat.disk_write last.disk_stat.disk_write;
        };
        network_usage = value_or (find_in ◌==◌ pid r.network) no_network;
      },
      record { total_cpu_usage = now.total_cpu_usage; disk_stat = disk_stat },
    )

-- The state of the loop over the pids: the table and the pids that `seen` maps to true.
pub record Round : Type 0 where
  pub table : ProcessTable
  pub seen : List (ℕ × Bool)

-- The part of the loop's body behind the test for an empty command line. operator[] has made the
-- two elements before the readers can throw.
write_stats :
    Readings → CpuStat → ℕ → ProcessStat → ProcessLastStat → Result CpuMemStat → Round → Round
write_stats r delta pid s last (err e) round = record round {
  table =
      let t : ProcessTable = round.table in
      record t {
        stat_table = put ◌==◌ pid s t.stat_table;
        last_stat_table = put ◌==◌ pid last t.last_stat_table;
      };
}
write_stats r delta pid s last (ok now) round = record {
  table =
      let t : ProcessTable = round.table in
      record t {
        stat_table = put ◌==◌ pid (measure r delta pid last now).0 t.stat_table;
        last_stat_table = put ◌==◌ pid (measure r delta pid last now).1 t.last_stat_table;
      };
  seen = put ◌==◌ pid true round.seen;
}

-- The body with the listing that the process has by then, or the exception of its reader.
with_listing : Readings → CpuStat → ℕ → ProcessListing → Result ProcessListing → Round → Round
unfolding write_stats
with_listing r delta pid old (err e) round = record round {
  table =
      let t : ProcessTable = round.table in record t { list_table = put ◌==◌ pid old t.list_table };
}
with_listing r delta pid old (ok listing) round =
    let t : ProcessTable = round.table in
    let round' : Round = record round {
      table = record t { list_table = put ◌==◌ pid listing t.list_table };
    } in
    if is_empty listing.args
    then round'
    else write_stats r delta pid (value_or (find_in ◌==◌ pid t.stat_table) no_stat)
        (value_or (find_in ◌==◌ pid t.last_stat_table) no_last_stat) (r.cpu_mem pid) round'

-- The body of the loop.
unfoldable pub update_pid : Readings → CpuStat → ℕ → Round → Round
unfolding with_listing
update_pid r delta pid round =
    let old = value_or (find_in ◌==◌ pid round.table.list_table) no_listing in
    with_listing r delta pid old (if is_empty old.args then r.metadata pid else ok old) round

unfoldable pub update_pids : Readings → CpuStat → List ℕ → Round → Round
update_pids r delta [] round = round
update_pids r delta (pid ∷ pids) round = update_pids r delta pids (update_pid r delta pid round)

-- A process that was not seen leaves the tables of statistics.
drop_stats : ℕ → ProcessTable → ProcessTable
drop_stats pid t = record t {
  stat_table = erase ◌==◌ pid t.stat_table;
  last_stat_table = erase ◌==◌ pid t.last_stat_table;
}

-- The last loop, over the rest of the list table.
unfoldable pub sweep : List (ℕ × Bool) → List (ℕ × ProcessListing) → ProcessTable → ProcessTable
unfolding drop_stats
sweep seen [] t = record t { list_table = [] }
sweep seen ((pid, listing) ∷ ls) t =
    let kept = value_or (find_in ◌==◌ pid seen) false in
    let t' : ProcessTable = sweep seen ls (if kept then t else drop_stats pid t) in
    if kept then record t' { list_table = (pid, listing) ∷ t'.list_table } else t'

unfoldable pub swept : Round → ProcessTable
swept round = sweep round.seen round.table.list_table round.table

-- What follows the first reading: `err` is its exception, which leaves the table as it was.
update_from : Readings → Result CpuStat → ProcessTable → Result ProcessTable
unfolding cpu_delta swept
update_from r (err e) t = err e
update_from r (ok now_cpu) t = ok (
    swept (
      update_pids r (cpu_delta now_cpu t.last_cpu) r.pids
        (record { table = record t { last_cpu = now_cpu }; seen = [] })))

unfoldable pub update_table : Readings → ProcessTable → Result ProcessTable
unfolding update_from
update_table r t = update_from r r.stat_cpu t
