-- ===== src/LogQueue/Promise/Kept.antt =====
-- The operations of the queue keep what it promises.
use remote_monitoring_tool.Prelude.{
  ℕ, suc, ◌+◌, ◌≤◌, ◌≡◌, refl, sym, ap, subst, ◌∙◌, List, [], ◌∷◌, arith, Bytes, length, ◌==◌, leb,
  ltb, lt→ltb, ltb→lt, ltb-false, ltb-false→le, leb→le, leb-false→lt, Bool-cases, inl, inr,
}
use remote_monitoring_tool.Disk.{Disk}
use remote_monitoring_tool.LogEntry.{LogEntry, Junk}
use remote_monitoring_tool.LogQueue.{
  LogQueue, get_new_id, next_id, add_log, ack_log, pop_acked, destroy,
}
use remote_monitoring_tool.LogQueue.Runs.{Run, Run-append, Run-above}
use remote_monitoring_tool.LogQueue.Load.{unacked}
use remote_monitoring_tool.LogQueue.Durable.{
  IsDurable, unacked_fresh, add_log-IsDurable, ack_log-IsDurable,
}
use remote_monitoring_tool.LogQueue.Clean.{destroy-IsDurable, create-destroy}
use remote_monitoring_tool.LogQueue.Promise.{
  Waiting, Stored, Command, push, acknowledge, restart, promise, Allowed, perform, Keeps, with_id,
  perform_all, promise_all, AllAllowed,
}
use remote_monitoring_tool.LogQueue.Promise.Writable.{
  write_ack_writable, destroy_writable, add_log_writable, HasFiles-same,
}

-- In a queue whose ids rise by one, the entries behind an ack are those that it does not cover.
pop_acked-unacked :
    (id from : ℕ) (es : List LogEntry) → Run from es → pop_acked id es ≡ unacked id es
unfolding pop_acked unacked
pop_acked-unacked id from [] h = refl
pop_acked-unacked id from (e ∷ es) (he, h) = elim (Bool-cases (leb e.id id)) [
  | inl t ↦ rw (t, ltb-false id e.id (leb→le e.id id t)) (pop_acked-unacked id (suc from) es h)
  | inr t ↦
      rw (t, lt→ltb id e.id (leb-false→lt e.id id t))
        (ap (λ r. e ∷ r)
          (sym (
            unacked_fresh id es
              (Run-above (suc from) id es (omega (arith, leb-false→lt e.id id t)) h))))
]

-- They are in sequence behind the ack.
unacked-Run :
    (id from : ℕ) (es : List LogEntry)
    → Run from es
    → from ≤ suc id
    → suc id ≤ from + length es
    → Run (suc id) (unacked id es)
unfolding unacked
unacked-Run id from [] h low high = tt
unacked-Run id from (e ∷ es) (he, h) low high = elim (Bool-cases (ltb id e.id)) [
  | inl t ↦
      rw (t, unacked_fresh id es (Run-above (suc from) id es (omega (arith, ltb→lt id e.id t)) h))
        (omega (arith, ltb→lt id e.id t), subst (λ n. Run n es) (omega (arith, ltb→lt id e.id t)) h)
  | inr t ↦
      rw t (unacked-Run id (suc from) es h (omega (arith, ltb-false→le id e.id t)) (omega arith))
]

-- What a restart needs does not depend on the next id.
IsDurable-new_id :
    (acked : List LogEntry) (q : LogQueue) (d : Disk) {id : ℕ}
    → IsDurable acked q d
    → IsDurable acked (record q { new_id = id }) d
IsDurable-new_id acked q d h = record {
  log_text = h.log_text;
  ack_text = h.ack_text;
  ack_fits = h.ack_fits;
  printable = h.printable;
  old = h.old;
  fresh = h.fresh;
}

push-Keeps :
    (s : Stored) (w : Waiting) (e : LogEntry)
    → Keeps s w
    → Allowed (push e) w
    → Keeps (perform (push e) s) (promise (push e) w)
unfolding perform promise Allowed add_log get_new_id
push-Keeps s w e k (p, next, room) = record {
  acked = k.acked;
  durable =
      add_log-IsDurable k.acked q s.disk e'
        (HasFiles-same s.queue q s.disk s.disk refl refl (λ p. refl) k.files)
        (IsDurable-new_id k.acked s.queue s.disk k.durable) (rw k.same_new_id p)
        (omega (arith, k.same_ack, k.same_new_id));
  files =
      HasFiles-same q (add_log q s.disk e').0 s.disk (add_log q s.disk e').1 refl refl
        (add_log_writable q s.disk e')
        (HasFiles-same s.queue q s.disk s.disk refl refl (λ p. refl) k.files);
  temp = record { log_apart = k.temp.log_apart; ack_apart = k.temp.ack_apart };
  same_ack = k.same_ack;
  same_entries = rw (k.same_entries, k.same_new_id) refl;
  same_new_id = omega (arith, k.same_new_id);
  run = Run-append (suc w.ack) w.entries (with_id w.new_id e ∷ []) k.run (omega arith, tt);
}
  where
    q : LogQueue
    q = (get_new_id s.queue).1

    e' : LogEntry
    e' = with_id s.queue.new_id e

-- What an ack leaves of the queue, whether it is new or not.
ack_log_fields :
    (q : LogQueue) (d : Disk) (id : ℕ)
    → Run (suc q.ack_id) q.log_entries
    → ((ack_log q d id).0.ack_id ≡ id)
      × ((ack_log q d id).0.log_entries ≡ unacked id q.log_entries)
      × ((ack_log q d id).0.new_id ≡ q.new_id)
      × ((ack_log q d id).0.log_file ≡ q.log_file)
      × ((ack_log q d id).0.ack_file ≡ q.ack_file)
      × ((p : Bytes) → (ack_log q d id).1.writable p ≡ d.writable p)
unfolding ack_log
ack_log_fields q d id run = elim (Bool-cases (id == q.ack_id)) [
  | inl e ↦ rw e (
    ground (arith, e),
    sym (
        unacked_fresh id q.log_entries
          (Run-above (suc q.ack_id) id q.log_entries (ground (arith, e)) run)),
    refl,
    refl,
    refl,
    λ p. refl,
  )
  | inr e ↦ rw e (
    refl,
    pop_acked-unacked id (suc q.ack_id) q.log_entries run,
    refl,
    refl,
    refl,
    write_ack_writable (record q { ack_id = id; log_entries = pop_acked id q.log_entries }) d,
  )
]

acknowledge-Keeps :
    (s : Stored) (w : Waiting) (id : ℕ)
    → Keeps s w
    → Allowed (acknowledge id) w
    → Keeps (perform (acknowledge id) s) (promise (acknowledge id) w)
unfolding perform promise Allowed
acknowledge-Keeps s w id k (low, high, fits) =
    let q : LogQueue = s.queue in
    let run_q : Run (suc q.ack_id) q.log_entries = rw (k.same_ack, k.same_entries) k.run in
    let (ack, entries, new_id, log_file, ack_file, writable) = ack_log_fields q s.disk id run_q in
    let (acked, durable) =
      ack_log-IsDurable k.acked q s.disk id (suc q.ack_id) k.files k.durable run_q
        (omega (arith, k.same_ack)) fits in
    record {
      acked = acked;
      durable = durable;
      files =
          HasFiles-same q (ack_log q s.disk id).0 s.disk (ack_log q s.disk id).1 log_file ack_file
            writable k.files;
      temp = record {
        log_apart = rw log_file k.temp.log_apart;
        ack_apart = rw (log_file, ack_file) k.temp.ack_apart;
      };
      same_ack = ack;
      same_entries = entries ∙ ap (unacked id) k.same_entries;
      same_new_id = new_id ∙ k.same_new_id;
      run = unacked-Run id (suc w.ack) w.entries k.run (omega arith) (omega arith);
    }

restart-Keeps :
    (s : Stored) (w : Waiting) (junk : Junk)
    → Keeps s w
    → Keeps (perform (restart junk) s) (promise (restart junk) w)
unfolding perform promise
restart-Keeps s w junk k =
    let q : LogQueue = s.queue in
    let (acked, durable) = destroy-IsDurable k.acked q s.disk k.files k.temp k.durable in
    rw (create-destroy k.acked q s.disk junk k.files k.temp k.durable) (record {
      acked = acked;
      durable = IsDurable-new_id acked q (destroy q s.disk) durable;
      files =
          HasFiles-same q _ s.disk (destroy q s.disk) refl refl (destroy_writable q s.disk) k.files;
      temp = record { log_apart = k.temp.log_apart; ack_apart = k.temp.ack_apart };
      same_ack = k.same_ack;
      same_entries = k.same_entries;
      same_new_id = ap next_id k.same_entries;
      run = k.run;
    })

perform-Keeps :
    (c : Command) (s : Stored) (w : Waiting)
    → Keeps s w
    → Allowed c w
    → Keeps (perform c s) (promise c w)
perform-Keeps (push e) s w k h = push-Keeps s w e k h
perform-Keeps (acknowledge id) s w k h = acknowledge-Keeps s w id k h
perform-Keeps (restart junk) s w k h = restart-Keeps s w junk k

-- Let a queue and its files, which differ, from the temporary one too, and can be written, keep a
-- list of waiting entries with ids in sequence behind the last ack, and run any commands: pushes
-- of entries that fit their fields under names without '|' or '\n', each under the id that
-- get_new_id gives, with ids that stay below 2 ^ 64, acks from the last one on up to the last
-- entry that waits, and restarts, which are the destructor and then the constructor. Let the id
-- of each push be the one behind the last ack and the entries that wait, which leaves out a push
-- behind a restart at which every entry was acked, where get_new_id starts again at 1. Then the
-- queue and its files keep the list that the commands mean, where an ack drops the entries up to
-- its id, and a restart drops none.
pub perform_all-Keeps :
    (commands : List Command) (s : Stored) (w : Waiting)
    → Keeps s w
    → AllAllowed commands w
    → Keeps (perform_all commands s) (promise_all commands w)
unfolding perform_all promise_all AllAllowed
perform_all-Keeps [] s w k h = k
perform_all-Keeps (c ∷ cs) s w k (hc, h) =
    perform_all-Keeps cs (perform c s) (promise c w) (perform-Keeps c s w k hc) h
