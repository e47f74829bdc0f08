-- ===== src/LogQueue/Promise/Writable.antt =====
-- The queue's operations leave what can be written.
use remote_monitoring_tool.Prelude.{
  ◌≡◌, refl, ◌∙◌, true, false, some, ◌++◌, Bytes, length, Bool, codes, Option, none, if◌then◌else◌,
  leb, Bool-cases, inl, inr,
}
use remote_monitoring_tool.Disk.{Disk, store, move}
use remote_monitoring_tool.LogEntry.{LogEntry}
use remote_monitoring_tool.LogQueue.{
  LogQueue, add_log, write_ack, destroy, clean_old_logs, clean_file, rewrite, max_log_file_size,
}
use remote_monitoring_tool.LogQueue.Durable.{HasFiles}

-- Writing files leaves what can be written.
rewrite_writable :
    (q : LogQueue) (d : Disk) (bytes p : Bytes) → (rewrite q d bytes).writable p ≡ d.writable p
unfolding rewrite store move
rewrite_writable q d bytes p =
    by_tests (leb (length bytes) max_log_file_size) (d.writable (q.log_file ++ codes ".tmp"))
      (d.renamable (q.log_file ++ codes ".tmp") q.log_file) d _ _ refl refl
  where
    by_tests :
        (small open_temp can_rename : Bool) (old moved made : Disk)
        → moved.writable p ≡ old.writable p
        → made.writable p ≡ old.writable p
        → (if small
              then old
              else if open_temp
              then (if can_rename then moved else made)
              else old).writable
            p
          ≡ old.writable p
    by_tests true open_temp can_rename old moved made h k = refl
    by_tests false true true old moved made h k = h
    by_tests false true false old moved made h k = k
    by_tests false false can_rename old moved made h k = refl

clean_writable :
    (q : LogQueue) (d : Disk) (p : Bytes) → (clean_old_logs q d).writable p ≡ d.writable p
unfolding clean_old_logs
clean_writable q d p = by_content (d.content q.log_file)
  where
    by_content : (o : Option Bytes) → (clean_file o q d).writable p ≡ d.writable p
    by_content none = unfold clean_file in refl
    by_content (some bytes) = unfold clean_file in rewrite_writable q d bytes p

pub write_ack_writable :
    (q : LogQueue) (d : Disk) (p : Bytes) → (write_ack q d).writable p ≡ d.writable p
unfolding write_ack store
write_ack_writable q d p = elim (Bool-cases (d.writable q.ack_file)) [
  | inl e ↦ rw e refl
  | inr e ↦ rw e refl
]

pub destroy_writable :
    (q : LogQueue) (d : Disk) (p : Bytes) → (destroy q d).writable p ≡ d.writable p
unfolding destroy
destroy_writable q d p = write_ack_writable q (clean_old_logs q d) p ∙ clean_writable q d p

pub add_log_writable :
    (q : LogQueue) (d : Disk) (e : LogEntry) (p : Bytes)
    → (add_log q d e).1.writable p ≡ d.writable p
unfolding add_log store
add_log_writable q d e p = elim (Bool-cases (d.writable q.log_file)) [
  | inl t ↦ rw t refl
  | inr t ↦ rw t refl
]

-- A queue with the same files on a disk where the same can be written.
pub HasFiles-same :
    (q q' : LogQueue) (d d' : Disk)
    → q'.log_file ≡ q.log_file
    → q'.ack_file ≡ q.ack_file
    → ((p : Bytes) → d'.writable p ≡ d.writable p)
    → HasFiles q d
    → HasFiles q' d'
HasFiles-same q q' d d' log ack same f = record {
  log_apart = rw (log, ack) f.log_apart;
  ack_apart = rw (log, ack) f.ack_apart;
  log_writable = rw log (same q.log_file ∙ f.log_writable);
  ack_writable = rw ack (same q.ack_file ∙ f.ack_writable);
}
