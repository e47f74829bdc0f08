-- ===== src/Protocol/Sending.antt =====
-- The steps that log and send keep the invariant.
use remote_monitoring_tool.Prelude.{
  ℕ, ◌+◌, ◌^◌, ◌≤◌, ◌<◌, ◌≡◌, refl, sym, ap, subst, ◌∙◌, [], ◌∷◌, ◌++◌, append_assoc, arith, Bytes,
  length, length-append, take, drop, take-append-drop, All, All-append, All-append_right,
  length-take,
}
use remote_monitoring_tool.LogEntry.{LogEntry, IsEntry}
use remote_monitoring_tool.LogQueue.{add_log, get_new_id}
use remote_monitoring_tool.LogQueue.Runs.{Run-append}
use remote_monitoring_tool.ClientHandler.{ClientInfo}
use remote_monitoring_tool.ClientHandler.Accepted.{IsLogged}
use remote_monitoring_tool.ClientHandler.Replies.{log_payload, entries}
use remote_monitoring_tool.ClientLogger.{log_value}
use remote_monitoring_tool.Protocol.{Network, new_entry}
use remote_monitoring_tool.Protocol.Prefix.{take-append_left}
use remote_monitoring_tool.Protocol.Sound.{IsBatch, IsGood, All-map_imp, IsBatch-append}

module _ (info : ClientInfo) (n : Network) (h : IsGood info n) where
  pub log-IsGood :
      (name : Bytes) (now_ms log_type value : ℕ)
      → IsLogged (new_entry n name now_ms log_type value)
      → n.client.queue.new_id < 2 ^ 63
      → IsGood info (record n {
        client = log_value name now_ms log_type value n.client;
        generated = n.generated ++ new_entry n name now_ms log_type value ∷ [];
      })
  unfolding log_value get_new_id add_log
  log-IsGood name now_ms log_type value he lt = record {
    logged = h.logged;
    dropped = h.dropped;
    sound = record {
      server_log = h.sound.server_log;
      front =
          h.sound.front
          ∙ sym (take-append_left (length h.logged) n.generated (e ∷ []) h.sound.front_le);
      front_le = omega (arith, len, h.sound.front_le);
      queued =
          ap (λ xs. xs ++ e ∷ []) h.sound.queued
          ∙ append_assoc h.dropped n.client.queue.log_entries (e ∷ []);
      behind = h.sound.behind;
    };
    writable = h.writable;
    run = Run-append 1 n.generated (e ∷ []) h.run (omega (arith, h.next_id), tt);
    loggable = All-append IsLogged n.generated (e ∷ []) h.loggable (he, tt);
    next_id = omega (arith, h.next_id, len);
    room = omega (arith, h.next_id, len);
    batches = All-map_imp n.to_server (IsBatch-append n.generated e) h.batches;
    acks = h.acks;
  }
    where
      e : LogEntry
      e = new_entry n name now_ms log_type value

      len : length (n.generated ++ e ∷ []) ≡ length n.generated + 1
      len = length-append n.generated (e ∷ [])

  pub queue_entries : All IsEntry n.client.queue.log_entries
  queue_entries = entries n.client.queue.log_entries (
      All-append_right IsLogged h.dropped n.client.queue.log_entries
        (subst (All IsLogged) h.sound.queued h.loggable))

  front-IsBatch :
      (k : ℕ) → k ≤ 100 → IsBatch n.generated (log_payload (take k n.client.queue.log_entries))
  front-IsBatch k le = record {
    pre = h.dropped;
    batch = take k n.client.queue.log_entries;
    post = drop k n.client.queue.log_entries;
    is_payload = refl;
    in_sequence =
        h.sound.queued
        ∙ ap (λ xs. h.dropped ++ xs) (sym (take-append-drop k n.client.queue.log_entries));
    short = omega (arith, length-take k n.client.queue.log_entries);
  }

  pub send-IsGood :
      (payload : Bytes)
      → (k : ℕ) × (k ≤ 100) × (payload ≡ log_payload (take k n.client.queue.log_entries))
      → IsGood info (record n { to_server = payload ∷ n.to_server })
  send-IsGood payload (k, le, e) = record {
    logged = h.logged;
    dropped = h.dropped;
    sound = record {
      server_log = h.sound.server_log;
      front = h.sound.front;
      front_le = h.sound.front_le;
      queued = h.sound.queued;
      behind = h.sound.behind;
    };
    writable = h.writable;
    run = h.run;
    loggable = h.loggable;
    next_id = h.next_id;
    room = h.room;
    batches = (subst (IsBatch n.generated) (sym e) (front-IsBatch k le), h.batches);
    acks = h.acks;
  }
