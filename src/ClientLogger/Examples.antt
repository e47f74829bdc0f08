-- ===== src/ClientLogger/Examples.antt =====
-- A tick of the client at a concrete input.
use remote_monitoring_tool.Prelude.{◌≡◌, refl, ◌∙◌, some, [], ◌∷◌, codes, arith}
use remote_monitoring_tool.Text.{decimal}
use remote_monitoring_tool.Disk.{Disk, store, store_same, store_other}
use remote_monitoring_tool.Assoc.{find_in}
use remote_monitoring_tool.LogQueue.Load.{print_all}
use remote_monitoring_tool.LogQueue.Durable.{IsDurable}
use remote_monitoring_tool.Config.{ConfigEntry}
use remote_monitoring_tool.ProcessTable.{
  ProcessTable, ProcessStat, ProcessListing, full_stats, no_disk, no_network,
}
use remote_monitoring_tool.ClientLogger.{Logged, generate_log}
use remote_monitoring_tool.ClientLogger.Generated.{IsReady, generate_log-IsReady}
use remote_monitoring_tool.Samples.{empty_disk}

abbrev ack_stored : Disk
ack_stored = store empty_disk (codes "rmt-ack.txt") (decimal 0)

abbrev logged : Logged
logged = record {
  queue = record {
    log_file = codes "rmt-log.txt";
    ack_file = codes "rmt-ack.txt";
    ack_id = 0;
    log_entries = [];
    new_id = 1;
  };
  store = store ack_stored (codes "rmt-log.txt") (print_all []);
}

logged-IsDurable : IsDurable [] logged.queue logged.store
logged-IsDurable = record {
  log_text = store_same ack_stored (codes "rmt-log.txt") (print_all []);
  ack_text =
      store_other ack_stored (codes "rmt-log.txt") (print_all []) (codes "rmt-ack.txt") refl
      ∙ store_same empty_disk (codes "rmt-ack.txt") (decimal 0);
  ack_fits = omega arith;
  printable = tt;
  old = tt;
  fresh = tt;
}

logged-IsReady : IsReady [] 1 4 logged
unfolding store
logged-IsReady = record {
  files = record { log_apart = refl; ack_apart = refl; log_writable = refl; ack_writable = refl };
  durable = logged-IsDurable;
  run = tt;
  next = refl;
  above = omega arith;
  left = omega arith;
}

abbrev listing : ProcessListing
listing = record { pid = 7; process_name = codes "sshd"; args = codes "sshd" ∷ [] }

abbrev stat : ProcessStat
stat = record {
  cpu_usage_percent = 1050;
  mem_usage = 8192;
  disk_usage = no_disk;
  network_usage = no_network;
}

abbrev table : ProcessTable
table = record {
  list_table = (7, listing) ∷ [];
  stat_table = (7, stat) ∷ [];
  last_stat_table = [];
  last_cpu = record { cpu_usage = 0; cpu_idle = 0 };
}

abbrev thresholds : ConfigEntry
thresholds = record {
  process_name = codes "sshd";
  cpu_usage = 1000;
  mem_usage = 4096;
  disk_usage = 1;
  network_usage = 1;
}

table_covered :
    full_stats table.list_table table.stat_table
    ≡ some (record { pid = 7; meta = listing; stat = stat } ∷ [])
unfolding full_stats find_in
table_covered = refl

generate_log-IsReady_example :
    (l' : Logged) × (generate_log table (thresholds ∷ []) 1700 logged ≡ some l') × IsReady [] 1 0 l'
generate_log-IsReady_example =
    generate_log-IsReady table (record { pid = 7; meta = listing; stat = stat } ∷ [])
      (thresholds ∷ []) 1700 [] 1 logged table_covered
      (record { fits = omega arith; no_bar = omega arith; no_newline = omega arith }, tt)
      (omega arith) logged-IsReady
