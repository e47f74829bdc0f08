-- ===== src/LogQueue/Clean.antt =====
-- Shutting down: the destructor may rewrite the log file, and what a restart needs is kept.
use remote_monitoring_tool.Prelude.{
  ℕ, ◌<◌, ◌≡◌, refl, sym, ap, ◌∙◌, false, ◌⊎◌, Option, none, some, List, [], ◌∷◌, ◌++◌, append-nil,
  append_assoc, Bytes, bytes_eq, bytes_eq_refl, codes, All, All-append_right, length, leb,
  Bool-cases, inl, inr, lt→ltb,
}
use remote_monitoring_tool.Text.{decimal}
use remote_monitoring_tool.LogEntry.{LogEntry, Junk, serialize_str}
use remote_monitoring_tool.LogEntry.Printed.{serialize_str-append}
use remote_monitoring_tool.Disk.{Disk, store, move, store_same, store_other}
use remote_monitoring_tool.LogQueue.{
  LogQueue, next_id, create, max_log_file_size, unacked_text, rewrite, clean_file, clean_old_logs,
  write_ack, destroy,
}
use remote_monitoring_tool.LogQueue.Load.{print_all}
use remote_monitoring_tool.LogQueue.Durable.{IsDurable, HasFiles, create-IsDurable}

abbrev pub temp_log_file : LogQueue → Bytes
temp_log_file q = q.log_file ++ codes ".tmp"

-- The temporary file is neither of the queue's files, and is not taken for one of them.
pub record TempApart (q : LogQueue) : Type 0 where
  pub log_apart : bytes_eq q.log_file (temp_log_file q) ≡ false
  pub ack_apart : bytes_eq q.ack_file (temp_log_file q) ≡ false

unacked_text-fresh :
    (a : ℕ) (os : Bytes) (es : List LogEntry)
    → All (λ e. a < e.id) es
    → unacked_text a os es ≡ os ++ print_all es
unfolding unacked_text print_all
unacked_text-fresh a os [] h = sym (append-nil os)
unacked_text-fresh a os (e ∷ es) (he, h) = rw (lt→ltb a e.id he) (
    unacked_text-fresh a (serialize_str os e) es h
    ∙ rw (serialize_str-append os e) (append_assoc os (serialize_str [] e) (print_all es)))

-- What the clean-up may do to a disk: the ack file stays, and the log file stays or holds the queue.
record Cleaned (q : LogQueue) (d d' : Disk) : Type 0 where
  ack_kept : d'.content q.ack_file ≡ d.content q.ack_file
  log_kept :
      (d'.content q.log_file ≡ d.content q.log_file)
      ⊎ (d'.content q.log_file ≡ some (print_all q.log_entries))
  writable_kept : d'.writable q.ack_file ≡ d.writable q.ack_file

module _ (q : LogQueue) (d : Disk) (f : HasFiles q d) (t : TempApart q)
    (fresh : All (λ e. q.ack_id < e.id) q.log_entries) where
  moved : Disk → Disk
  moved d' = move d' (temp_log_file q) q.log_file

  stored : Disk
  stored = store d (temp_log_file q) (unacked_text q.ack_id [] q.log_entries)

  stored-Cleaned : Cleaned q d stored
  unfolding stored
  stored-Cleaned = record {
    ack_kept = store_other d (temp_log_file q) _ q.ack_file t.ack_apart;
    log_kept = inl (store_other d (temp_log_file q) _ q.log_file t.log_apart);
    writable_kept = unfold store in refl;
  }

  moved-Cleaned : Cleaned q d (moved stored)
  unfolding moved stored move
  moved-Cleaned = record {
    ack_kept =
        rw (f.ack_apart, t.ack_apart) (store_other d (temp_log_file q) _ q.ack_file t.ack_apart);
    log_kept = inr (
        rw (bytes_eq_refl q.log_file) (
          store_same d (temp_log_file q) _
          ∙ ap some (unacked_text-fresh q.ack_id [] q.log_entries fresh)));
    writable_kept = unfold store in refl;
  }

  same-Cleaned : Cleaned q d d
  same-Cleaned = record { ack_kept = refl; log_kept = inl refl; writable_kept = refl }

  rewrite-Cleaned : (bytes : Bytes) → Cleaned q d (rewrite q d bytes)
  unfolding rewrite moved stored
  rewrite-Cleaned bytes = elim (Bool-cases (leb (length bytes) max_log_file_size)) [
    | inl small ↦ rw small same-Cleaned
    | inr large ↦ rw large (elim (Bool-cases (d.writable (temp_log_file q))) [
      | inl w ↦ rw w (elim (Bool-cases (d.renamable (temp_log_file q) q.log_file)) [
        | inl r ↦ rw r moved-Cleaned
        | inr r ↦ rw r stored-Cleaned
      ])
      | inr w ↦ rw w same-Cleaned
    ])
  ]

  clean-Cleaned : Cleaned q d (clean_old_logs q d)
  unfolding clean_old_logs
  clean-Cleaned = go (d.content q.log_file)
    where
      go : (o : Option Bytes) → Cleaned q d (clean_file o q d)
      go none = same-Cleaned
      go (some bytes) = rewrite-Cleaned bytes

  -- What the destructor leaves is what a restart needs.
  destroyed :
      (acked : List LogEntry) (d' : Disk)
      → Cleaned q d d'
      → IsDurable acked q d
      → (acked' : List LogEntry) × IsDurable acked' q (write_ack q d')
  unfolding write_ack
  destroyed acked d' c h =
      rw (c.writable_kept, f.ack_writable)
        (elim (c.log_kept) [
          | inl same ↦ (
            acked,
            record {
              log_text = log_after ∙ same ∙ h.log_text;
              ack_text = store_same d' q.ack_file _;
              ack_fits = h.ack_fits;
              printable = h.printable;
              old = h.old;
              fresh = fresh;
            },
          )
          | inr new ↦ (
            [],
            record {
              log_text = log_after ∙ new;
              ack_text = store_same d' q.ack_file _;
              ack_fits = h.ack_fits;
              printable = All-append_right _ acked q.log_entries h.printable;
              old = tt;
              fresh = fresh;
            },
          )
        ])
    where
      log_after :
          (store d' q.ack_file (decimal q.ack_id)).content q.log_file ≡ d'.content q.log_file
      log_after = store_other d' q.ack_file (decimal q.ack_id) q.log_file f.log_apart

pub destroy-IsDurable :
    (acked : List LogEntry) (q : LogQueue) (d : Disk)
    → HasFiles q d
    → TempApart q
    → IsDurable acked q d
    → (acked' : List LogEntry) × IsDurable acked' q (destroy q d)
unfolding destroy
destroy-IsDurable acked q d f t h =
    destroyed q d f t h.fresh acked (clean_old_logs q d) (clean-Cleaned q d f t h.fresh) h

-- Let the two files and the temporary one differ and the two be writable, and let them hold
-- what a restart needs (IsDurable). Then the destructor followed by the constructor gives the
-- queue's entries and last ack back, whether or not the log file was rewritten, and whatever
-- failed in the rewriting.
pub create-destroy :
    (acked : List LogEntry) (q : LogQueue) (d : Disk) (junk : Junk)
    → HasFiles q d
    → TempApart q
    → IsDurable acked q d
    → create (destroy q d) junk q.log_file q.ack_file
      ≡ (record q { new_id = next_id q.log_entries }, destroy q d)
create-destroy acked q d junk f t h =
    let (acked', h') = destroy-IsDurable acked q d f t h in
    create-IsDurable acked' q (destroy q d) junk h'
