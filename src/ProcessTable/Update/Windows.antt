-- ===== src/ProcessTable/Update/Windows.antt =====
-- ProcessTable::update_table as it is under Windows.
use remote_monitoring_tool.Prelude.{
  ℕ, ◌-◌, ◌%◌, ◌^◌, ◌≡◌, min, true, ◌||◌, Option, none, some, List, [], ◌∷◌, Bytes, ◌==◌,
  if◌then◌else◌,
}
use remote_monitoring_tool.Assoc.{find_in, put, value_or}
use remote_monitoring_tool.ProcessTable.{
  ProcessTable, ProcessFullStat, ProcessListing, ProcessStat, ProcessLastStat, DiskStat,
  NetworkStat, no_network, no_stat, full_stats, get_map_program_name_resource,
}
use remote_monitoring_tool.ProcessTable.Grouped.{
  Number, number_of, width, stat_of, sum_named, get_map_program_name_resource_lem,
}
use remote_monitoring_tool.ProcessTable.Update.{
  Round, no_listing, no_last_stat, is_empty, minus, at_least_one, disk_delta, swept,
}
use remote_monitoring_tool.ProcessTable.Update.Covered.{Kept, SeenHave-put, swept-covers, none_seen}

-- What the system tells of a process that can be opened.
pub record Opened : Type 0 where
  pub process_name : Bytes
  pub total_cpu : ℕ
  pub mem : ℕ
  pub disk_stat : DiskStat

-- A row of the system's table of connections, with its port in the order of the host.
pub record SocketPid : Type 0 where
  pub pid : ℕ
  pub local_ip : ℕ
  pub local_port : ℕ
  pub rem_ip : ℕ
  pub rem_port : ℕ

-- get_system_total_cpu, get_list_pids, NetworkETWHandler::get_pid_network_stat, OpenProcess with the
-- functions on the handle, and the computation on doubles: the percentage of a process, from its own
-- time and the time of all processors.
pub record WindowsReadings : Type 0 where
  pub system_cpu : ℕ
  pub pids : List ℕ
  pub network : List (ℕ × NetworkStat)
  pub open_process : ℕ → Option Opened
  pub percent : ℕ → ℕ → ℕ

-- The table and the static last_system_cpu.
pub record WindowsTable : Type 0 where
  pub table : ProcessTable
  pub last_system_cpu : ℕ

-- get_list_socket_pid, for the rows of the table: those without an address and those of the machine
-- itself are left out.
unfoldable pub get_list_socket_pid : List SocketPid → List SocketPid
get_list_socket_pid [] = []
get_list_socket_pid (row ∷ rows) =
    let rest = get_list_socket_pid rows in
    if row.local_ip == 0 || row.local_ip % 2 ^ 8 == 127 then rest else row ∷ rest

-- The input and output of a process without its network traffic.
less_network : Option ℕ → Option ℕ → Option ℕ
less_network (some disk) (some network) = some (disk - min disk network)
less_network (some disk) none = some disk
less_network none network = none

-- The statistics of a process that was opened.
measure_opened : WindowsReadings → ℕ → ℕ → ProcessLastStat → Opened → ProcessStat × ProcessLastStat
unfolding less_network
measure_opened r system_cpu_delta pid last p =
    let network : NetworkStat = value_or (find_in ◌==◌ pid r.network) no_network in
    let disk_stat : DiskStat = p.disk_stat in
    (
      record {
        cpu_usage_percent = r.percent (minus p.total_cpu last.total_cpu_usage) system_cpu_delta;
        mem_usage = p.mem;
        disk_usage = record {
          disk_read =
              less_network (disk_delta disk_stat.disk_read last.disk_stat.disk_read)
                network.network_recv;
          disk_write =
              less_network (disk_delta disk_stat.disk_write last.disk_stat.disk_write)
                network.network_send;
        };
        network_usage = network;
      },
      record { total_cpu_usage = p.total_cpu; disk_stat = disk_stat },
    )

named_listing : ℕ → ProcessListing → Opened → ProcessListing
named_listing pid old p =
    if is_empty old.process_name
    then record { pid = pid; process_name = p.process_name; args = [] }
    else old

-- The body of the loop behind the three references, which make the elements.
with_handle :
    WindowsReadings
    → ℕ
    → ℕ
    → ProcessListing
    → ProcessStat
    → ProcessLastStat
    → Option Opened
    → Round
    → Round
unfolding measure_opened named_listing
with_handle r delta pid listing s last none round = record {
  table =
      let t : ProcessTable = round.table in
      record t {
        list_table = put ◌==◌ pid listing t.list_table;
        stat_table = put ◌==◌ pid s t.stat_table;
        last_stat_table = put ◌==◌ pid last t.last_stat_table;
      };
  seen = put ◌==◌ pid true round.seen;
}
with_handle r delta pid listing s last (some p) round = record {
  table =
      let t : ProcessTable = round.table in
      record t {
        list_table = put ◌==◌ pid (named_listing pid listing p) t.list_table;
        stat_table = put ◌==◌ pid (measure_opened r delta pid last p).0 t.stat_table;
        last_stat_table = put ◌==◌ pid (measure_opened r delta pid last p).1 t.last_stat_table;
      };
  seen = put ◌==◌ pid true round.seen;
}

update_opened : WindowsReadings → ℕ → List ℕ → Round → Round
unfolding with_handle
update_opened r delta [] round = round
update_opened r delta (pid ∷ pids) round =
    let t : ProcessTable = round.table in
    update_opened r delta pids (
      with_handle r delta pid (value_or (find_in ◌==◌ pid t.list_table) no_listing)
        (value_or (find_in ◌==◌ pid t.stat_table) no_stat)
        (value_or (find_in ◌==◌ pid t.last_stat_table) no_last_stat) (r.open_process pid) round)

-- Windows. The ports of the connections are not used for the traffic.
unfoldable pub update_table_windows : WindowsReadings → WindowsTable → WindowsTable
unfolding update_opened
update_table_windows r w = record {
  table = swept (
      update_opened r (at_least_one (minus r.system_cpu w.last_system_cpu)) r.pids
        (record { table = w.table; seen = [] }));
  last_system_cpu = r.system_cpu;
}

Kept-with_handle :
    (r : WindowsReadings) (delta pid : ℕ) (listing : ProcessListing) (s : ProcessStat)
    (last : ProcessLastStat) (o : Option Opened) (round : Round)
    → Kept round
    → Kept (with_handle r delta pid listing s last o round)
unfolding with_handle
Kept-with_handle r delta pid listing s last none round h =
    SeenHave-put round.seen round.table.stat_table pid s h
Kept-with_handle r delta pid listing s last (some p) round h =
    SeenHave-put round.seen round.table.stat_table pid _ h

Kept-update_opened :
    (r : WindowsReadings) (delta : ℕ) (pids : List ℕ) (round : Round)
    → Kept round
    → Kept (update_opened r delta pids round)
unfolding update_opened
Kept-update_opened r delta [] round h = h
Kept-update_opened r delta (pid ∷ pids) round h =
    Kept-update_opened r delta pids _
      (Kept-with_handle r delta pid _ _ _ (r.open_process pid) round h)

-- Under Windows, too, whatever the table held and whatever was read: after update_table each listed
-- process has its statistic, get_map_program_name_resource returns a map, and each number that the
-- map has for a name is the sum of that number over the listed processes with that name, in its
-- width.
pub update_table_windows-get_map_program_name_resource :
    (r : WindowsReadings) (w : WindowsTable)
    → (fs : List ProcessFullStat) × (full_stats
          (update_table_windows r w).table.list_table
          (update_table_windows r w).table.stat_table
        ≡ some fs)
      × (groups : List (Bytes × ProcessStat)) × (get_map_program_name_resource
            (update_table_windows r w).table
          ≡ some groups)
      × ((n : Number) (name : Bytes)
          → number_of n (stat_of name groups) ≡ sum_named (number_of n) name fs % width n)
unfolding update_table_windows
update_table_windows-get_map_program_name_resource r w =
    let (fs, e) = swept-covers _ (
      Kept-update_opened r _ r.pids (record { table = w.table; seen = [] })
        (none_seen w.table.stat_table)) in
    let (groups, made, sums) = get_map_program_name_resource_lem _ fs e in
    (fs, e, groups, made, sums)
