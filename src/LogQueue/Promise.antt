-- ===== src/LogQueue/Promise.antt =====
-- What the queue promises: a list of entries that wait for an ack, which survives restarts.
pub mod Writable
pub mod Kept
use remote_monitoring_tool.Prelude.{
  ℕ, zero, suc, ◌+◌, ◌^◌, ◌<◌, ◌≤◌, ◌≡◌, refl, sym, ap, subst, ◌∙◌, true, false, some, List, [],
  ◌∷◌, ◌++◌, arith, Bytes, bytes_eq, length, All, ◌==◌, Bool, codes, Option, none, ==_iff,
  if◌then◌else◌, leb, ltb, lt→ltb, ltb→lt, ltb-false, ltb-false→le, le→leb, leb→le, leb-false→lt,
  Bool-cases, inl, inr,
}
use remote_monitoring_tool.Disk.{Disk, store, move}
use remote_monitoring_tool.LogEntry.{LogEntry, Junk}
use remote_monitoring_tool.LogEntry.Printed.{IsPrintable}
use remote_monitoring_tool.LogQueue.{
  LogQueue, get_new_id, create, add_log, ack_log, pop_acked, write_ack, destroy, clean_old_logs,
  clean_file, rewrite, next_id, max_log_file_size,
}
use remote_monitoring_tool.LogQueue.Runs.{Run, Run-append, Run-above}
use remote_monitoring_tool.LogQueue.Load.{unacked}
use remote_monitoring_tool.LogQueue.Durable.{
  IsDurable, HasFiles, unacked_fresh, add_log-IsDurable, ack_log-IsDurable,
}
use remote_monitoring_tool.LogQueue.Clean.{TempApart, create-destroy}

-- The last ack, the entries that wait for one, and the id that get_new_id gives next.
pub record Waiting : Type 0 where
  pub ack : ℕ
  pub entries : List LogEntry
  pub new_id : ℕ

-- A queue and the disk with its files.
pub record Stored : Type 0 where
  pub queue : LogQueue
  pub disk : Disk

-- An entry is pushed under a new id, whatever id it comes with.
pub data Command : Type 0 where
  push : LogEntry → Command
  acknowledge : ℕ → Command
  restart : Junk → Command

abbrev pub with_id : ℕ → LogEntry → LogEntry
with_id id e = record e { id = id }

-- What the commands mean: a push adds an entry under the next id, an ack drops all entries up to its
-- id, and a restart drops none. The next id is the one behind the last waiting entry after a restart,
-- and 1 where none waits.
unfoldable pub promise : Command → Waiting → Waiting
promise (push e) w = record w {
  entries = w.entries ++ with_id w.new_id e ∷ [];
  new_id = w.new_id + 1;
}
promise (acknowledge id) w = record w { ack = id; entries = unacked id w.entries }
promise (restart junk) w = record w { new_id = next_id w.entries }

-- An entry is pushed where the next id continues the sequence, which it does not behind a restart at
-- which every entry was acked: there it is 1 again. An ack is for what was acked or waits.
unfoldable pub Allowed : Command → Waiting → Type 0
Allowed (push e) w =
    IsPrintable (with_id w.new_id e)
    × (w.new_id ≡ w.ack + 1 + length w.entries)
    × (w.new_id + 1 < 2 ^ 64)
Allowed (acknowledge id) w = (w.ack ≤ id) × (id ≤ w.ack + length w.entries) × (id < 2 ^ 64)
Allowed (restart junk) w = Unit

-- What the program does for them.
abbrev stored : LogQueue × Disk → Stored
stored (q, d) = record { queue = q; disk = d }

-- add_log with an entry under get_new_id.
abbrev pub add_new : LogQueue → Disk → LogEntry → LogQueue × Disk
add_new q d e = let (id, q') = get_new_id q in add_log q' d (with_id id e)

unfoldable pub perform : Command → Stored → Stored
perform (push e) s = stored (add_new s.queue s.disk e)
perform (acknowledge id) s = stored (ack_log s.queue s.disk id)
perform (restart junk) s =
    let q : LogQueue = s.queue in stored (create (destroy q s.disk) junk q.log_file q.ack_file)

-- The queue holds what is promised, and its files bring it back.
pub record Keeps (s : Stored) (w : Waiting) : Type 0 where
  pub acked : List LogEntry
  pub durable : IsDurable acked s.queue s.disk
  pub files : HasFiles s.queue s.disk
  pub temp : TempApart s.queue
  pub same_ack : s.queue.ack_id ≡ w.ack
  pub same_entries : s.queue.log_entries ≡ w.entries
  pub same_new_id : s.queue.new_id ≡ w.new_id
  pub run : Run (suc w.ack) w.entries

-- Several commands, one after the other.
unfoldable pub promise_all : List Command → Waiting → Waiting
promise_all [] w = w
promise_all (c ∷ cs) w = promise_all cs (promise c w)

unfoldable pub AllAllowed : List Command → Waiting → Type 0
AllAllowed [] w = Unit
AllAllowed (c ∷ cs) w = Allowed c w × AllAllowed cs (promise c w)

unfoldable pub perform_all : List Command → Stored → Stored
perform_all [] s = s
perform_all (c ∷ cs) s = perform_all cs (perform c s)
