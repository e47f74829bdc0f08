-- ===== src/ClientLogger/Generated.antt =====
-- What a tick adds to the queue keeps its ids in sequence and its files right.
use remote_monitoring_tool.Prelude.{
  newline, ℕ, suc, ◌+◌, ◌*◌, ◌%◌, ◌^◌, ◌<◌, ◌≡◌, ap, Option, some, List, [], ◌∷◌, arith, Bytes, All,
  length, length-append, ltb, Bool-cases, inl, inr,
}
use remote_monitoring_tool.Text.Lines.{Lacks}
use remote_monitoring_tool.Disk.{store}
use remote_monitoring_tool.LogEntry.{LogEntry, cpu, mem, disk, net}
use remote_monitoring_tool.LogEntry.Printed.{IsPrintable}
use remote_monitoring_tool.LogQueue.{LogQueue, add_log, get_new_id}
use remote_monitoring_tool.LogQueue.Durable.{IsDurable, HasFiles, add_log-IsDurable}
use remote_monitoring_tool.LogQueue.Runs.{Run, Run-append}
use remote_monitoring_tool.Config.{ConfigEntry}
use remote_monitoring_tool.ProcessTable.{
  ProcessStat, ProcessTable, ProcessFullStat, total, full_stats,
}
use remote_monitoring_tool.ProcessTable.Grouped.{
  Number, cpu_usage, mem_usage, number_of, width, stat_of, sum_named,
  get_map_program_name_resource_lem,
}
use remote_monitoring_tool.ClientLogger.{
  Logged, log_value, log_above, log_stat, log_entries_for, generate_from, generate_log,
}

-- A queue whose entries have the ids from `from` on, all above the last ack, with the next id
-- behind them and at least `room` ids left; its files hold what a restart needs.
pub record IsReady (acked : List LogEntry) (from room : ℕ) (l : Logged) : Type 0 where
  pub files : HasFiles l.queue l.store
  pub durable : IsDurable acked l.queue l.store
  pub run : Run from l.queue.log_entries
  pub next : l.queue.new_id ≡ from + length l.queue.log_entries
  pub above : l.queue.ack_id < from
  pub left : l.queue.new_id + room < 2 ^ 64

-- A name that can stand in the log file.
pub record IsName (name : Bytes) : Type 0 where
  pub fits : length name < 2 ^ 32
  pub no_bar : Lacks b'|' name
  pub no_newline : Lacks newline name

IsReady-less :
    (acked : List LogEntry) (from room less : ℕ) (l : Logged)
    → less < suc room
    → IsReady acked from room l
    → IsReady acked from less l
IsReady-less acked from room less l lt h = record {
  files = h.files;
  durable = h.durable;
  run = h.run;
  next = h.next;
  above = h.above;
  left = omega (arith, h.left);
}

log_value-IsReady :
    (acked : List LogEntry) (from room : ℕ) (name : Bytes) (now_ms log_type value : ℕ) (l : Logged)
    → IsName name
    → now_ms < 2 ^ 64
    → log_type < 2 ^ 32
    → value < 2 ^ 64
    → IsReady acked from (suc room) l
    → IsReady acked from room (log_value name now_ms log_type value l)
unfolding log_value get_new_id
log_value-IsReady acked from room name now_ms log_type value l n ht hy hv h = record {
  files = kept;
  durable =
      add_log-IsDurable acked q l.store entry
        (record {
          log_apart = h.files.log_apart;
          ack_apart = h.files.ack_apart;
          log_writable = h.files.log_writable;
          ack_writable = h.files.ack_writable;
        })
        (record {
          log_text = h.durable.log_text;
          ack_text = h.durable.ack_text;
          ack_fits = h.durable.ack_fits;
          printable = h.durable.printable;
          old = h.durable.old;
          fresh = h.durable.fresh;
        })
        printable (omega (arith, h.above, h.next));
  run = unfold add_log in Run-append from l.queue.log_entries (entry ∷ []) h.run (h.next, tt);
  next =
      unfold add_log in
      omega (arith, h.next, h.left, length-append l.queue.log_entries (entry ∷ []));
  above = unfold add_log in h.above;
  left = unfold add_log in omega (arith, h.left);
}
  where
    entry : LogEntry
    entry = record {
      id = l.queue.new_id;
      process_name = name;
      timestamp_ms = now_ms;
      log_type = log_type;
      value = value;
    }

    q : LogQueue
    q = (get_new_id l.queue).1

    printable : IsPrintable entry
    printable = record {
      entry = record {
        id_fits = omega (arith, h.left);
        name_fits = n.fits;
        timestamp_fits = ht;
        type_fits = hy;
        value_fits = hv;
      };
      no_bar = n.no_bar;
      no_newline = n.no_newline;
    }

    kept : HasFiles (add_log q l.store entry).0 (add_log q l.store entry).1
    kept =
        unfold add_log store in
        rw h.files.log_writable (record {
          log_apart = h.files.log_apart;
          ack_apart = h.files.ack_apart;
          log_writable = h.files.log_writable;
          ack_writable = h.files.ack_writable;
        })

log_above-IsReady :
    (acked : List LogEntry) (from room : ℕ) (name : Bytes) (now_ms log_type value threshold : ℕ)
    (l : Logged)
    → IsName name
    → now_ms < 2 ^ 64
    → log_type < 2 ^ 32
    → value < 2 ^ 64
    → IsReady acked from (suc room) l
    → IsReady acked from room (log_above name now_ms log_type value threshold l)
unfolding log_above
log_above-IsReady acked from room name now_ms log_type value threshold l n ht hy hv h =
    elim (Bool-cases (ltb threshold value)) [
      | inl e ↦ rw e (log_value-IsReady acked from room name now_ms log_type value l n ht hy hv h)
      | inr e ↦ rw e (IsReady-less acked from (suc room) room l (omega arith) h)
    ]

total-lt : (a b : Option ℕ) → total a b < 2 ^ 64
unfolding total
total-lt a b = omega arith

log_stat-IsReady :
    (acked : List LogEntry) (from room : ℕ) (stat : ProcessStat) (now_ms : ℕ) (c : ConfigEntry)
    (l : Logged)
    → IsName c.process_name
    → now_ms < 2 ^ 64
    → stat.cpu_usage_percent < 2 ^ 32
    → stat.mem_usage < 2 ^ 64
    → IsReady acked from (4 + room) l
    → IsReady acked from room (log_stat stat now_ms c l)
unfolding log_stat
log_stat-IsReady acked from room stat now_ms c l n ht hc hm h =
    log_above-IsReady acked from room _ now_ms net _ _ _ n ht (omega arith) (total-lt _ _) (
      log_above-IsReady acked from (suc room) _ now_ms disk _ _ _ n ht (omega arith) (total-lt _ _)
        (log_above-IsReady acked from (suc (suc room)) _ now_ms mem _ _ _ n ht (omega arith) hm (
          log_above-IsReady acked from (suc (suc (suc room))) _ now_ms cpu _ _ _ n ht (omega arith)
            (omega arith) (IsReady-less acked from (4 + room) _ l (omega arith) h))))

abbrev Fits : List (Bytes × ProcessStat) → Type 0
Fits resources =
    (name : Bytes)
    → ((stat_of name resources).cpu_usage_percent < 2 ^ 32)
      × ((stat_of name resources).mem_usage < 2 ^ 64)

log_entries_for-IsReady :
    (acked : List LogEntry) (from : ℕ) (resources : List (Bytes × ProcessStat)) (now_ms : ℕ)
    (config : List ConfigEntry) (l : Logged)
    → Fits resources
    → All (λ c. IsName c.process_name) config
    → now_ms < 2 ^ 64
    → IsReady acked from (4 * length config) l
    → IsReady acked from 0 (log_entries_for resources now_ms config l)
unfolding log_entries_for
log_entries_for-IsReady acked from resources now_ms [] l f n ht h =
    IsReady-less acked from _ 0 l (omega arith) h
log_entries_for-IsReady acked from resources now_ms (c ∷ config) l f (nc, n) ht h =
    log_entries_for-IsReady acked from resources now_ms config _ f n ht (
      log_stat-IsReady acked from (4 * length config) _ now_ms c l nc ht (f c.process_name).0
        (f c.process_name).1 (IsReady-less acked from _ _ l (omega arith) h))

-- Let each listed process have its statistic, and let the queue be ready, with four ids left for
-- each entry of the configuration, whose names can stand in the log file. Then generate_log
-- returns, and leaves the queue ready: new entries have the ids that continue the sequence, and the
-- files hold them.
pub generate_log-IsReady :
    (t : ProcessTable) (fs : List ProcessFullStat) (config : List ConfigEntry) (now_ms : ℕ)
    (acked : List LogEntry) (from : ℕ) (l : Logged)
    → full_stats t.list_table t.stat_table ≡ some fs
    → All (λ c. IsName c.process_name) config
    → now_ms < 2 ^ 64
    → IsReady acked from (4 * length config) l
    → (l' : Logged) × (generate_log t config now_ms l ≡ some l') × IsReady acked from 0 l'
unfolding generate_log generate_from
generate_log-IsReady t fs config now_ms acked from l covered n ht h =
    let (groups, made, sums) = get_map_program_name_resource_lem t fs covered in
    (
      log_entries_for groups now_ms config l,
      ap (λ o. generate_from o config now_ms l) made,
      log_entries_for-IsReady acked from groups now_ms config l (fits groups sums) n ht h,
    )
  where
    fits :
        (groups : List (Bytes × ProcessStat))
        → ((m : Number) (name : Bytes)
            → number_of m (stat_of name groups) ≡ sum_named (number_of m) name fs % width m)
        → Fits groups
    fits groups sums name =
        unfold number_of width in
        (omega (arith, sums cpu_usage name), omega (arith, sums mem_usage name))
