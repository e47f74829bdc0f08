-- ===== src/LogQueue.antt =====
-- client/log_queue.hpp and log_queue.cpp: the queue of logs that wait for the server's ack, with
-- its two files.
use remote_monitoring_tool.Prelude.{
  ℕ, zero, suc, ◌+◌, ◌*◌, ◌%◌, ◌^◌, min, Bool, true, false, Option, none, some, List, [], ◌∷◌, ◌++◌,
  Bytes, codes, ltb, leb, ◌==◌, if◌then◌else◌, length, get_elem?,
}
pub mod Load
pub mod Runs
pub mod Durable
pub mod Clean
pub mod Batch
pub mod Promise
mod Examples
use mathlib.Core.Option
use remote_monitoring_tool.Text.{TextStream, text, decimal, extract_uint64}
use remote_monitoring_tool.LogEntry.{LogEntry, Junk, serialize_str, deserialize_str}
use remote_monitoring_tool.Disk.{Disk, store, move, bytes_at}

pub record LogQueue : Type 0 where
  pub log_file : Bytes
  pub ack_file : Bytes
  pub ack_id : ℕ
  pub log_entries : List LogEntry
  pub new_id : ℕ

-- 10 * MB
abbrev pub max_log_file_size : ℕ
max_log_file_size = 10 * 2 ^ 20

-- An entry that was read goes to the queue if it was not acked.
keep : ℕ → ℕ → LogEntry → List LogEntry → List LogEntry
keep ack_id zero entry entries = if ltb ack_id entry.id then entries ++ entry ∷ [] else entries
keep ack_id (suc ret) entry entries = entries

-- `while (!log_file_in.eof())` of the constructor. A round takes a byte or meets the end.
unfoldable pub load : ℕ → Junk → ℕ → TextStream → List LogEntry → List LogEntry
unfolding keep
load zero junk ack_id is entries = entries
load (suc fuel) junk ack_id is entries = elim (is.ended) [
  | true ↦ entries
  | false ↦
      let (ret, entry, is') = deserialize_str is junk.entry junk.temp_number in
      load fuel junk ack_id is' (keep ack_id ret entry entries)
]

-- One round more than there are bytes meets the end of the file.
unfoldable pub load_file : Junk → ℕ → Bytes → List LogEntry
load_file junk ack_id bytes = load (length bytes + 2) junk ack_id (text bytes) []

last_id : LogEntry → List LogEntry → ℕ
last_id e [] = e.id
last_id e (f ∷ es) = last_id f es

-- The id behind that of the last entry, and 1 for an empty queue.
unfoldable pub next_id : List LogEntry → ℕ
unfolding last_id
next_id [] = 1
next_id (e ∷ es) = (last_id e es + 1) % 2 ^ 64

-- The ack file: the id that it holds, or 0 and a new file.
read_ack : Option Bytes → Disk → Bytes → ℕ → ℕ × Disk
read_ack none d ack_file junk_id =
    (0, if d.writable ack_file then store d ack_file (codes "0") else d)
read_ack (some bytes) d ack_file junk_id = (extract_uint64 bytes junk_id, d)

open_ack_file : Disk → Bytes → ℕ → ℕ × Disk
unfolding read_ack
open_ack_file d ack_file junk_id = read_ack (d.content ack_file) d ack_file junk_id

-- The log file: its entries, or none and a new file.
read_log : Option Bytes → Disk → Bytes → Junk → ℕ → List LogEntry × Disk
read_log none d log_file junk ack_id = ([], if d.writable log_file then store d log_file [] else d)
read_log (some bytes) d log_file junk ack_id = (load_file junk ack_id bytes, d)

open_log_file : Disk → Bytes → Junk → ℕ → List LogEntry × Disk
unfolding read_log
open_log_file d log_file junk ack_id = read_log (d.content log_file) d log_file junk ack_id

-- The constructor.
unfoldable pub create : Disk → Junk → Bytes → Bytes → LogQueue × Disk
unfolding open_ack_file open_log_file
create d junk log_file ack_file =
    let (ack_id, d1) = open_ack_file d ack_file junk.number in
    let (entries, d2) = open_log_file d1 log_file junk ack_id in
    (
      record {
        log_file = log_file;
        ack_file = ack_file;
        ack_id = ack_id;
        log_entries = entries;
        new_id = next_id entries;
      },
      d2,
    )

unfoldable pub add_log : LogQueue → Disk → LogEntry → LogQueue × Disk
add_log q d entry = (
  record q { log_entries = q.log_entries ++ entry ∷ [] },
  if d.writable q.log_file
      then store d q.log_file (serialize_str (bytes_at d q.log_file) entry)
      else d,
)

push_front : Option LogEntry → Option (List LogEntry) → Option (List LogEntry)
push_front none rest = none
push_front (some entry) rest = Option.map (λ entries. entry ∷ entries) rest

-- The loop of get_batch_log from index i on; `none` is the exception of at().
peek : ℕ → ℕ → List LogEntry → Option (List LogEntry)
unfolding push_front
peek zero i entries = some []
peek (suc rounds) i entries = push_front (get_elem? entries i) (peek rounds (i + 1) entries)

batch_of : List LogEntry → ℕ → Option (List LogEntry)
unfolding peek
batch_of [] batch_size = some []
batch_of (e ∷ es) batch_size = peek (min batch_size (length (e ∷ es) % 2 ^ 32)) 0 (e ∷ es)

unfoldable pub get_batch_log : LogQueue → ℕ → Option (List LogEntry)
unfolding batch_of
get_batch_log q batch_size = batch_of q.log_entries batch_size

-- The loop of ack_log: front entries with an id of at most `id` leave.
unfoldable pub pop_acked : ℕ → List LogEntry → List LogEntry
pop_acked id [] = []
pop_acked id (e ∷ es) = let rest = pop_acked id es in if leb e.id id then rest else e ∷ es

pub write_ack : LogQueue → Disk → Disk
write_ack q d = if d.writable q.ack_file then store d q.ack_file (decimal q.ack_id) else d

unfoldable pub ack_log : LogQueue → Disk → ℕ → LogQueue × Disk
unfolding write_ack
ack_log q d id =
    if id == q.ack_id
    then (q, d)
    else (let q' : LogQueue = record q { ack_id = id; log_entries = pop_acked id q.log_entries } in
        (q', write_ack q' d))

-- new_id++
unfoldable pub get_new_id : LogQueue → ℕ × LogQueue
get_new_id q = (q.new_id, record q { new_id = (q.new_id + 1) % 2 ^ 64 })

-- The entries that clean_old_logs writes.
unacked_text : ℕ → Bytes → List LogEntry → Bytes
unacked_text ack_id os [] = os
unacked_text ack_id os (e ∷ es) =
    unacked_text ack_id (if ltb ack_id e.id then serialize_str os e else os) es

-- clean_old_logs where the log file is there.
rewrite : LogQueue → Disk → Bytes → Disk
unfolding unacked_text
rewrite q d bytes =
    let temp = q.log_file ++ codes ".tmp" in
    let d' = store d temp (unacked_text q.ack_id [] q.log_entries) in
    if leb (length bytes) max_log_file_size
    then d
    else if d.writable temp
    then (if d.renamable temp q.log_file then move d' temp q.log_file else d')
    else d

clean_file : Option Bytes → LogQueue → Disk → Disk
unfolding rewrite
clean_file none q d = d
clean_file (some bytes) q d = rewrite q d bytes

unfoldable pub clean_old_logs : LogQueue → Disk → Disk
unfolding clean_file
clean_old_logs q d = clean_file (d.content q.log_file) q d

-- The destructor.
unfoldable pub destroy : LogQueue → Disk → Disk
unfolding write_ack
destroy q d = write_ack q (clean_old_logs q d)
