-- ===== src/LogQueue/Durable.antt =====
-- The files of a queue hold what a restart needs: the entries that were not acked come back.
use remote_monitoring_tool.Prelude.{
  ℕ, suc, ◌^◌, ◌≤◌, ◌<◌, ◌≡◌, refl, sym, ap, ◌∙◌, true, false, some, List, [], ◌∷◌, ◌++◌,
  append-nil, append_assoc, arith, bytes_eq, All, All-append, leb, ◌==◌, if◌then◌else◌, Bool-cases,
  inl, inr, ltb-false, lt→ltb, leb→le, leb-false→lt,
}
use remote_monitoring_tool.Text.{decimal}
use remote_monitoring_tool.Text.Decimal.{extract_uint64-decimal}
use remote_monitoring_tool.LogEntry.{LogEntry, Junk, serialize_str}
use remote_monitoring_tool.LogEntry.Printed.{IsPrintable, serialize_str-append}
use remote_monitoring_tool.Disk.{Disk, bytes_or_none, store_same, store_other}
use remote_monitoring_tool.LogQueue.{
  LogQueue, load_file, next_id, read_ack, read_log, create, add_log, pop_acked, ack_log,
}
use remote_monitoring_tool.LogQueue.Runs.{Run, Run-above}
use remote_monitoring_tool.LogQueue.Load.{print_all, print_all-append, unacked, load_file-print_all}

unacked-append :
    (a : ℕ) (es fs : List LogEntry) → unacked a (es ++ fs) ≡ unacked a es ++ unacked a fs
unfolding unacked
unacked-append a [] fs = refl
unacked-append a (e ∷ es) fs = ground (arith, unacked-append a es fs)

unacked_old : (a : ℕ) (es : List LogEntry) → All (λ e. e.id ≤ a) es → unacked a es ≡ []
unfolding unacked
unacked_old a [] h = refl
unacked_old a (e ∷ es) (he, h) = rw (ltb-false a e.id he, unacked_old a es h)

pub unacked_fresh : (a : ℕ) (es : List LogEntry) → All (λ e. a < e.id) es → unacked a es ≡ es
unfolding unacked
unacked_fresh a [] h = refl
unacked_fresh a (e ∷ es) (he, h) = rw (lt→ltb a e.id he, unacked_fresh a es h)

-- The log file holds entries that were acked and then those of the queue, and the ack file the
-- last ack.
pub record IsDurable (acked : List LogEntry) (q : LogQueue) (d : Disk) : Type 0 where
  pub log_text : d.content q.log_file ≡ some (print_all (acked ++ q.log_entries))
  pub ack_text : d.content q.ack_file ≡ some (decimal q.ack_id)
  pub ack_fits : q.ack_id < 2 ^ 64
  pub printable : All IsPrintable (acked ++ q.log_entries)
  pub old : All (λ e. e.id ≤ q.ack_id) acked
  pub fresh : All (λ e. q.ack_id < e.id) q.log_entries

-- The two files differ, and both can be written.
pub record HasFiles (q : LogQueue) (d : Disk) : Type 0 where
  pub log_apart : bytes_eq q.log_file q.ack_file ≡ false
  pub ack_apart : bytes_eq q.ack_file q.log_file ≡ false
  pub log_writable : d.writable q.log_file ≡ true
  pub ack_writable : d.writable q.ack_file ≡ true

-- Let the log file hold printable entries that were acked and then those of the queue, the ack
-- file the last ack, and let the ids of the queue be above it. Then the constructor gives the
-- queue's entries and last ack back, takes the next id from the last entry, and changes no
-- file.
pub create-IsDurable :
    (acked : List LogEntry) (q : LogQueue) (d : Disk) (junk : Junk)
    → IsDurable acked q d
    → create d junk q.log_file q.ack_file ≡ (record q { new_id = next_id q.log_entries }, d)
unfolding create
create-IsDurable acked q d junk h = rw (ack_back, log_back)
  where
    ack_back : read_ack (d.content q.ack_file) d q.ack_file junk.number ≡ (q.ack_id, d)
    ack_back =
        unfold read_ack in
        (ap (λ o. read_ack o d q.ack_file junk.number) h.ack_text
          ∙ ap (λ (n : ℕ). (n, d)) (extract_uint64-decimal q.ack_id junk.number h.ack_fits))

    entries_back : load_file junk q.ack_id (print_all (acked ++ q.log_entries)) ≡ q.log_entries
    entries_back =
        load_file-print_all junk q.ack_id (acked ++ q.log_entries) h.printable
        ∙ unacked-append q.ack_id acked q.log_entries
        ∙ rw (unacked_old q.ack_id acked h.old, unacked_fresh q.ack_id q.log_entries h.fresh)

    log_back : read_log (d.content q.log_file) d q.log_file junk q.ack_id ≡ (q.log_entries, d)
    log_back =
        unfold read_log in
        (ap (λ o. read_log o d q.log_file junk q.ack_id) h.log_text
          ∙ ap (λ es. (es, d)) entries_back)

print_all_last :
    (es : List LogEntry) (e : LogEntry) → serialize_str (print_all es) e ≡ print_all (es ++ e ∷ [])
unfolding print_all
print_all_last es e =
    serialize_str-append (print_all es) e
    ∙ ap (λ s. print_all es ++ s) (sym (append-nil (serialize_str [] e)))
    ∙ sym (print_all-append es (e ∷ []))

-- Let the files, which differ and can be written, hold what a restart needs (IsDurable). Then
-- they do after a printable entry with an id above the last ack is added, too.
pub add_log-IsDurable :
    (acked : List LogEntry) (q : LogQueue) (d : Disk) (e : LogEntry)
    → HasFiles q d
    → IsDurable acked q d
    → IsPrintable e
    → q.ack_id < e.id
    → IsDurable acked (add_log q d e).0 (add_log q d e).1
unfolding add_log
add_log-IsDurable acked q d e f h p lt = record {
  log_text = rw f.log_writable (
      store_same d q.log_file _
      ∙ ap (λ o. some (serialize_str (bytes_or_none o) e)) h.log_text
      ∙ ap some (print_all_last (acked ++ q.log_entries) e)
      ∙ ap (λ es. some (print_all es)) (append_assoc acked q.log_entries (e ∷ [])));
  ack_text = rw f.log_writable (store_other d q.log_file _ q.ack_file f.ack_apart ∙ h.ack_text);
  ack_fits = h.ack_fits;
  printable =
      rw (← append_assoc acked q.log_entries (e ∷ []))
        (All-append _ (acked ++ q.log_entries) (e ∷ []) h.printable (p, tt));
  old = h.old;
  fresh = All-append _ q.log_entries (e ∷ []) h.fresh (lt, tt);
}

-- The entries that an ack takes off the front.
unfoldable pub acked_front : ℕ → List LogEntry → List LogEntry
acked_front id [] = []
acked_front id (e ∷ es) = let rest = acked_front id es in if leb e.id id then e ∷ rest else []

pub acked_front-append : (id : ℕ) (es : List LogEntry) → acked_front id es ++ pop_acked id es ≡ es
unfolding acked_front pop_acked
acked_front-append id [] = refl
acked_front-append id (e ∷ es) = ground (arith, acked_front-append id es)

acked_front-old : (id : ℕ) (es : List LogEntry) → All (λ e. e.id ≤ id) (acked_front id es)
unfolding acked_front
acked_front-old id [] = tt
acked_front-old id (e ∷ es) = elim (Bool-cases (leb e.id id)) [
  | inl h ↦ rw h (leb→le e.id id h, acked_front-old id es)
  | inr h ↦ rw h tt
]

-- In a queue whose ids rise by one, an ack leaves exactly the entries above it.
pub pop_acked-above :
    (id from : ℕ) (es : List LogEntry) → Run from es → All (λ e. id < e.id) (pop_acked id es)
unfolding pop_acked
pop_acked-above id from [] h = tt
pop_acked-above id from (e ∷ es) (he, h) = elim (Bool-cases (leb e.id id)) [
  | inl t ↦ rw t (pop_acked-above id (suc from) es h)
  | inr t ↦
      rw t (
        leb-false→lt e.id id t,
        Run-above (suc from) id es (omega (arith, leb-false→lt e.id id t)) h,
      )
]

All-weaken :
    (a b : ℕ) (es : List LogEntry) → a ≤ b → All (λ e. e.id ≤ a) es → All (λ e. e.id ≤ b) es
All-weaken a b [] le h = tt
All-weaken a b (e ∷ es) le (he, h) = (omega arith, All-weaken a b es le h)

regroup :
    (acked : List LogEntry) (id : ℕ) (es : List LogEntry)
    → acked ++ es ≡ (acked ++ acked_front id es) ++ pop_acked id es
regroup acked id es =
    ap (λ fs. acked ++ fs) (sym (acked_front-append id es))
    ∙ sym (append_assoc acked (acked_front id es) (pop_acked id es))

-- An ack that does not go back moves the front entries to those that were acked.
ack_log-IsDurable_new :
    (acked : List LogEntry) (q : LogQueue) (d : Disk) (id from : ℕ)
    → HasFiles q d
    → IsDurable acked q d
    → Run from q.log_entries
    → q.ack_id ≤ id
    → id < 2 ^ 64
    → (id == q.ack_id) ≡ false
    → IsDurable (acked ++ acked_front id q.log_entries) (ack_log q d id).0 (ack_log q d id).1
unfolding ack_log
ack_log-IsDurable_new acked q d id from f h run le fits ne =
    rw (ne, f.ack_writable)
      (record {
        log_text =
            store_other d q.ack_file _ q.log_file f.log_apart
            ∙ h.log_text
            ∙ ap (λ es. some (print_all es)) (regroup acked id q.log_entries);
        ack_text = store_same d q.ack_file (decimal id);
        ack_fits = fits;
        printable = rw (← regroup acked id q.log_entries) h.printable;
        old =
            All-append _ acked _ (All-weaken q.ack_id id acked le h.old)
              (acked_front-old id q.log_entries);
        fresh = pop_acked-above id from q.log_entries run;
      })

-- Let the files, which differ and can be written, hold what a restart needs (IsDurable), and
-- let the ids of the queue rise by one. Then they do after an ack of at least the last one,
-- too, with some list of entries acked by then.
pub ack_log-IsDurable :
    (acked : List LogEntry) (q : LogQueue) (d : Disk) (id from : ℕ)
    → HasFiles q d
    → IsDurable acked q d
    → Run from q.log_entries
    → q.ack_id ≤ id
    → id < 2 ^ 64
    → (acked' : List LogEntry) × IsDurable acked' (ack_log q d id).0 (ack_log q d id).1
ack_log-IsDurable acked q d id from f h run le fits = elim (Bool-cases (id == q.ack_id)) [
  | inl e ↦ (acked, unfold ack_log in rw e h)
  | inr e ↦ (
    acked ++ acked_front id q.log_entries,
    ack_log-IsDurable_new acked q d id from f h run le fits e,
  )
]
