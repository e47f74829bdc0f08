-- ===== src/Samples.antt =====
-- Data that the examples share.
use remote_monitoring_tool.Prelude.{true, none, codes}
use remote_monitoring_tool.LogEntry.{LogEntry, Junk, cpu, mem}
use remote_monitoring_tool.Disk.{Disk}
use remote_monitoring_tool.ClientHandler.{ClientInfo}

abbrev pub first : LogEntry
first = record {
  id = 1;
  process_name = codes "chrome.exe";
  timestamp_ms = 1700;
  log_type = cpu;
  value = 12000;
}

abbrev pub second : LogEntry
second = record {
  id = 2;
  process_name = codes "chrome.exe";
  timestamp_ms = 1700;
  log_type = mem;
  value = 900;
}

abbrev pub junk : Junk
junk = record { entry = second; temp_number = 77; number = 99 }

abbrev pub empty_disk : Disk
empty_disk = record { content = λ p. none; writable = λ p. true; renamable = λ a b. true }

abbrev pub client : ClientInfo
client = record {
  client_id = 1;
  client_socket = 5;
  client_ip = codes "10.0.0.7";
  client_port = 4242;
}
