-- ===== src/LogQueue/Examples.antt =====
-- A queue and its files at concrete inputs.
use remote_monitoring_tool.Prelude.{◌≡◌, refl, ◌∙◌, some, List, [], ◌∷◌, codes, arith, take}
use remote_monitoring_tool.Text.{decimal}
use remote_monitoring_tool.Disk.{Disk, store, store_same, store_other}
use remote_monitoring_tool.LogEntry.{LogEntry}
use remote_monitoring_tool.LogEntry.Printed.{IsPrintable}
use remote_monitoring_tool.LogQueue.{
  LogQueue, next_id, create, add_log, ack_log, destroy, get_batch_log,
}
use remote_monitoring_tool.LogQueue.Load.{print_all, unacked}
use remote_monitoring_tool.LogQueue.Durable.{
  IsDurable, HasFiles, create-IsDurable, add_log-IsDurable, ack_log-IsDurable,
}
use remote_monitoring_tool.LogQueue.Clean.{create-destroy}
use remote_monitoring_tool.LogQueue.Promise.{
  Waiting, Command, push, acknowledge, restart, promise, Allowed, Keeps, promise_all, AllAllowed,
  perform_all,
}
use remote_monitoring_tool.LogQueue.Promise.Kept.{perform_all-Keeps}
use remote_monitoring_tool.LogQueue.Batch.{get_batch_log_small}
use remote_monitoring_tool.Samples.{first, second, junk, empty_disk}

abbrev third : LogEntry
third = record second { id = 3 }

abbrev queue : LogQueue
queue = record {
  log_file = codes "rmt-log.txt";
  ack_file = codes "rmt-ack.txt";
  ack_id = 1;
  log_entries = second ∷ [];
  new_id = 3;
}

abbrev ack_stored : Disk
ack_stored = store empty_disk (codes "rmt-ack.txt") (decimal 1)

abbrev files : Disk
files = store ack_stored (codes "rmt-log.txt") (print_all (first ∷ second ∷ []))

first-IsPrintable : IsPrintable first
first-IsPrintable = record {
  entry = record {
    id_fits = omega arith;
    name_fits = omega arith;
    timestamp_fits = omega arith;
    type_fits = omega arith;
    value_fits = omega arith;
  };
  no_bar = omega arith;
  no_newline = omega arith;
}

second-IsPrintable : IsPrintable second
second-IsPrintable = record {
  entry = record {
    id_fits = omega arith;
    name_fits = omega arith;
    timestamp_fits = omega arith;
    type_fits = omega arith;
    value_fits = omega arith;
  };
  no_bar = omega arith;
  no_newline = omega arith;
}

third-IsPrintable : IsPrintable third
third-IsPrintable = record {
  entry = record {
    id_fits = omega arith;
    name_fits = omega arith;
    timestamp_fits = omega arith;
    type_fits = omega arith;
    value_fits = omega arith;
  };
  no_bar = omega arith;
  no_newline = omega arith;
}

queue-IsDurable : IsDurable (first ∷ []) queue files
queue-IsDurable = record {
  log_text = store_same ack_stored (codes "rmt-log.txt") (print_all (first ∷ second ∷ []));
  ack_text =
      store_other ack_stored (codes "rmt-log.txt") (print_all (first ∷ second ∷ []))
        (codes "rmt-ack.txt") refl
      ∙ store_same empty_disk (codes "rmt-ack.txt") (decimal 1);
  ack_fits = omega arith;
  printable = (first-IsPrintable, (second-IsPrintable, tt));
  old = (omega arith, tt);
  fresh = (omega arith, tt);
}

queue-HasFiles : HasFiles queue files
unfolding store
queue-HasFiles = record {
  log_apart = refl;
  ack_apart = refl;
  log_writable = refl;
  ack_writable = refl;
}

create-IsDurable_example :
    create files junk (codes "rmt-log.txt") (codes "rmt-ack.txt")
    ≡ (record queue { new_id = next_id (second ∷ []) }, files)
create-IsDurable_example = create-IsDurable (first ∷ []) queue files junk queue-IsDurable

add_log-IsDurable_example :
    IsDurable (first ∷ []) (add_log queue files third).0 (add_log queue files third).1
add_log-IsDurable_example =
    add_log-IsDurable (first ∷ []) queue files third queue-HasFiles queue-IsDurable
      third-IsPrintable (omega arith)

ack_log-IsDurable_example :
    (acked' : List LogEntry) × IsDurable acked' (ack_log queue files 2).0 (ack_log queue files 2).1
ack_log-IsDurable_example =
    ack_log-IsDurable (first ∷ []) queue files 2 2 queue-HasFiles queue-IsDurable (refl, tt)
      (omega arith) (omega arith)

create-destroy_example :
    create (destroy queue files) junk (codes "rmt-log.txt") (codes "rmt-ack.txt")
    ≡ (record queue { new_id = next_id (second ∷ []) }, destroy queue files)
create-destroy_example =
    create-destroy (first ∷ []) queue files junk queue-HasFiles
      (record { log_apart = refl; ack_apart = refl }) queue-IsDurable

get_batch_log_small_example : get_batch_log queue 100 ≡ some (take 100 (second ∷ []))
get_batch_log_small_example = get_batch_log_small queue 100 (omega arith)

-- A third entry, an ack of the second one, a restart, and an ack of the third one.
abbrev commands : List Command
commands = push third ∷ acknowledge 2 ∷ restart junk ∷ acknowledge 3 ∷ []

abbrev one_waits : Waiting
one_waits = record { ack = 1; entries = second ∷ []; new_id = 3 }

queue-Keeps : Keeps (record { queue = queue; disk = files }) one_waits
queue-Keeps = record {
  acked = first ∷ [];
  durable = queue-IsDurable;
  files = queue-HasFiles;
  temp = record { log_apart = refl; ack_apart = refl };
  same_ack = refl;
  same_entries = refl;
  same_new_id = refl;
  run = (refl, tt);
}

perform_all-Keeps_example :
    Keeps
      (perform_all commands (record { queue = queue; disk = files }))
      (promise_all commands one_waits)
unfolding AllAllowed Allowed promise unacked next_id
perform_all-Keeps_example =
    perform_all-Keeps commands (record { queue = queue; disk = files }) one_waits queue-Keeps
      (
        (third-IsPrintable, refl, omega arith),
        (
          (omega arith, omega arith, omega arith),
          (tt, ((omega arith, omega arith, omega arith), tt)),
        ),
      )

promise_all_test : promise_all commands one_waits ≡ record { ack = 3; entries = []; new_id = 4 }
unfolding promise_all promise unacked next_id
promise_all_test = refl
