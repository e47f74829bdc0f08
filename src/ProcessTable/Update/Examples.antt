-- ===== src/ProcessTable/Update/Examples.antt =====
-- An update that meets one process for the first time.
use remote_monitoring_tool.Prelude.{
  ◌+◌, ◌%◌, ◌≡◌, refl, some, none, List, [], ◌∷◌, Bytes, codes, ◌==◌, if◌then◌else◌,
}
use remote_monitoring_tool.Result.{ok}
use remote_monitoring_tool.Assoc.{find_in, put, erase}
use remote_monitoring_tool.ProcessTable.{
  ProcessTable, ProcessFullStat, ProcessStat, full_stats, get_map_program_name_resource,
}
use remote_monitoring_tool.ProcessTable.Grouped.{Number, number_of, width, stat_of, sum_named}
use remote_monitoring_tool.ProcessTable.Update.{
  Readings, measure, update_pid, update_pids, sweep, update_table,
}
use remote_monitoring_tool.ProcessTable.Update.Covered.{update_table-get_map_program_name_resource}
use remote_monitoring_tool.ProcessTable.Update.Windows.{
  WindowsReadings, WindowsTable, update_table_windows,
  update_table_windows-get_map_program_name_resource,
}

abbrev readings : Readings
readings = record {
  stat_cpu = ok (record { cpu_usage = 1000; cpu_idle = 400 });
  pids = 7 ∷ [];
  network = [];
  metadata =
      λ pid. ok (record { pid = pid; process_name = codes "sshd"; args = codes "sshd" ∷ [] });
  cpu_mem = λ pid. ok (record { total_cpu_usage = 50; mem_usage = 8192 });
  io = λ pid. record { disk_read = some 10; disk_write = some 20 };
  percent = λ own all idle. own + all;
}

abbrev no_processes : ProcessTable
no_processes = record {
  list_table = [];
  stat_table = [];
  last_stat_table = [];
  last_cpu = record { cpu_usage = 0; cpu_idle = 0 };
}

abbrev one_process : ProcessTable
one_process = record {
  list_table = (7, record { pid = 7; process_name = codes "sshd"; args = codes "sshd" ∷ [] }) ∷ [];
  stat_table =
      (
        7,
        record {
          cpu_usage_percent = 1050;
          mem_usage = 8192;
          disk_usage = record { disk_read = some 10; disk_write = some 20 };
          network_usage = record { network_recv = none; network_send = none };
        },
      )
      ∷ [];
  last_stat_table =
      (
        7,
        record {
          total_cpu_usage = 50;
          disk_stat = record { disk_read = some 10; disk_write = some 20 };
        },
      )
      ∷ [];
  last_cpu = record { cpu_usage = 1000; cpu_idle = 400 };
}

update_table_once : update_table readings no_processes ≡ ok one_process
unfolding update_table update_pids update_pid measure sweep find_in put erase
update_table_once = refl

update_table-get_map_program_name_resource_example :
    (fs : List ProcessFullStat) × (full_stats one_process.list_table one_process.stat_table
      ≡ some fs)
    × (groups : List (Bytes × ProcessStat)) × (get_map_program_name_resource one_process
        ≡ some groups)
    × ((n : Number) (name : Bytes)
        → number_of n (stat_of name groups) ≡ sum_named (number_of n) name fs % width n)
update_table-get_map_program_name_resource_example =
    update_table-get_map_program_name_resource readings no_processes one_process update_table_once

abbrev windows_readings : WindowsReadings
windows_readings = record {
  system_cpu = 1000;
  pids = 7 ∷ 8 ∷ [];
  network = (7, record { network_recv = some 4; network_send = none }) ∷ [];
  open_process = λ pid.
      if pid == 7
      then some (record {
        process_name = codes "sshd";
        total_cpu = 50;
        mem = 8192;
        disk_stat = record { disk_read = some 10; disk_write = some 20 };
      })
      else none;
  percent = λ own all. own + all;
}

abbrev windows_table : WindowsTable
windows_table = record { table = no_processes; last_system_cpu = 0 }

update_table_windows-get_map_program_name_resource_example :
    (fs : List ProcessFullStat) × (full_stats
        (update_table_windows windows_readings windows_table).table.list_table
        (update_table_windows windows_readings windows_table).table.stat_table
      ≡ some fs)
    × (groups : List (Bytes × ProcessStat)) × (get_map_program_name_resource
          (update_table_windows windows_readings windows_table).table
        ≡ some groups)
    × ((n : Number) (name : Bytes)
        → number_of n (stat_of name groups) ≡ sum_named (number_of n) name fs % width n)
update_table_windows-get_map_program_name_resource_example =
    update_table_windows-get_map_program_name_resource windows_readings windows_table
