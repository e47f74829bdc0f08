-- ===== src/ClientLogger.antt =====
-- client/client_logger.*: the entries that a tick of the client adds to the queue, and the acks of
-- the server.
pub mod Generated
pub mod Acks
mod Examples
use remote_monitoring_tool.Prelude.{
  ℕ, ◌+◌, ◌%◌, ◌^◌, Bool, true, false, Option, none, some, List, [], ◌∷◌, Bytes, codes, ltb,
  if◌then◌else◌, bytes_eq, ◌==◌, ◌&&◌, length, drop,
}
use remote_monitoring_tool.Result.{Result, ok, err, ◌>>=◌}
use remote_monitoring_tool.Text.{from_chars, starts_with}
use remote_monitoring_tool.Wire.{read_string, stream}
use remote_monitoring_tool.Event.{Event, input, network_send, network_recv}
use remote_monitoring_tool.Disk.{Disk}
use remote_monitoring_tool.Assoc.{find_in, value_or}
use remote_monitoring_tool.LogEntry.{LogEntry, cpu, mem, disk, net}
use remote_monitoring_tool.LogQueue.{LogQueue, get_new_id, add_log, ack_log}
use remote_monitoring_tool.Config.{ConfigEntry}
use remote_monitoring_tool.ProcessTable.{
  ProcessStat, ProcessTable, no_stat, total, get_map_program_name_resource,
}

-- The queue and the disk that it writes to.
pub record Logged : Type 0 where
  pub queue : LogQueue
  pub store : Disk

-- log_queue.add_log(LogEntry(log_queue.get_new_id(), name, now_ms, log_type, value))
unfoldable pub log_value : Bytes → ℕ → ℕ → ℕ → Logged → Logged
log_value name now_ms log_type value l =
    let (new_id, q) = get_new_id l.queue in
    let (q', d) = add_log q l.store (record {
      id = new_id;
      process_name = name;
      timestamp_ms = now_ms;
      log_type = log_type;
      value = value;
    }) in
    record { queue = q'; store = d }

-- One of the four tests of generate_log.
unfoldable pub log_above : Bytes → ℕ → ℕ → ℕ → ℕ → Logged → Logged
log_above name now_ms log_type value threshold l =
    let logged : Logged = log_value name now_ms log_type value l in
    if ltb threshold value then logged else l

-- The body of generate_log's loop.
unfoldable pub log_stat : ProcessStat → ℕ → ConfigEntry → Logged → Logged
log_stat stat now_ms c l =
    let log : (ℕ → ℕ → ℕ → Logged → Logged) = log_above c.process_name now_ms in
    log net (total stat.network_usage.network_recv stat.network_usage.network_send) c.network_usage
      (log disk (total stat.disk_usage.disk_read stat.disk_usage.disk_write) c.disk_usage
        (log mem stat.mem_usage c.mem_usage (log cpu stat.cpu_usage_percent c.cpu_usage l)))

unfoldable pub log_entries_for : List (Bytes × ProcessStat) → ℕ → List ConfigEntry → Logged → Logged
log_entries_for resources now_ms [] l = l
log_entries_for resources now_ms (c ∷ cs) l =
    log_entries_for resources now_ms cs
      (log_stat (value_or (find_in bytes_eq c.process_name resources) no_stat) now_ms c l)

generate_from : Option (List (Bytes × ProcessStat)) → List ConfigEntry → ℕ → Logged → Option Logged
generate_from none config now_ms l = none
generate_from (some resources) config now_ms l = some (log_entries_for resources now_ms config l)

-- `none` is the exception of at().
unfoldable pub generate_log : ProcessTable → List ConfigEntry → ℕ → Logged → Option Logged
unfolding generate_from
generate_log t config now_ms l = generate_from (get_map_program_name_resource t) config now_ms l

-- The handler of an ack; `junk_id` is what the uninitialised `id` holds.
ack_of_message : Bytes → ℕ → Logged → Logged
ack_of_message message junk_id l =
    let id = from_chars (2 ^ 64) (drop (length (codes "ack ")) message) junk_id in
    let (q, d) = ack_log l.queue l.store id in
    if starts_with (codes "ack ") message then record { queue = q; store = d } else l

-- The subscription of the constructor.
unfoldable pub on_event : ℕ → Event → Logged → Result Logged
unfolding ack_of_message
on_event junk_id (network_recv ip port payload) l = do
  (message, iss) ← read_string (stream payload)
  ok (ack_of_message message junk_id l)
on_event junk_id (network_send ip port payload) l = ok l
on_event junk_id (input payload) l = ok l
