-- ===== src/Protocol/Receiving.antt =====
-- The steps that receive messages and acks keep the invariant.
use remote_monitoring_tool.Prelude.{
  ℕ, suc, ◌+◌, ◌≤◌, ◌≡◌, sym, ap, subst, ◌∙◌, ◌⊎◌, inl, inr, true, Option, some, List, ◌∷◌, ◌++◌,
  append_assoc, arith, Bytes, length, length-append, take, All, All-append_left, All-append_right,
}
use remote_monitoring_tool.Result.{ok}
use remote_monitoring_tool.Event.{Event, network_send, network_recv}
use remote_monitoring_tool.Disk.{Disk, store, store_same}
use remote_monitoring_tool.LogEntry.{LogEntry, Junk}
use remote_monitoring_tool.LogQueue.{ack_log, pop_acked}
use remote_monitoring_tool.LogQueue.Runs.{Run, Run-append_right}
use remote_monitoring_tool.LogQueue.Durable.{acked_front, acked_front-append}
use remote_monitoring_tool.LogQueue.Load.{print_all}
use remote_monitoring_tool.ClientHandler
use remote_monitoring_tool.ClientHandler.{ClientInfo, client_log_file}
use remote_monitoring_tool.ClientHandler.Accepted.{accepted, IsLogged, IsLog}
use remote_monitoring_tool.ClientHandler.Replies.{log_payload, ack_payload, on_event-IsLog}
use remote_monitoring_tool.ClientLogger.{Logged}
use remote_monitoring_tool.ClientLogger.Acks.{ack_log-entries, acked_front-le}
use remote_monitoring_tool.Protocol.{Network}
use remote_monitoring_tool.Protocol.Prefix.{take-accepted}
use remote_monitoring_tool.Protocol.Sound.{IsBatch, IsGood, All-map_imp}

module _ (info : ClientInfo) (n : Network) (h : IsGood info n) where
  -- What the server does with a message of a part of the sequence.
  pub receive-IsGood :
      (payload : Bytes) (junk : Junk) (d : Disk) (ip : Bytes) (port : ℕ) (reply : Bytes)
      → IsBatch n.generated payload
      → ClientHandler.on_event n.server info junk
          (network_recv info.client_ip info.client_port payload)
        ≡ ok (d, some (network_send ip port reply))
      → IsGood info (record n { server = d; to_client = reply ∷ n.to_client })
  receive-IsGood payload junk d ip port reply b e = record {
    logged = now;
    dropped = h.dropped;
    sound = record {
      server_log =
          subst (λ o. IsLog o now)
            (sym (ap (λ x. x.content (client_log_file info)) same_disk ∙ store_same n.server _ _))
            handled.1;
      front =
          ap (λ xs. xs ++ more) h.sound.front
          ∙ ap (λ g. take (length h.logged) g ++ more) b.in_sequence
          ∙ continued.0
          ∙ ap (take (length h.logged + length more)) (sym b.in_sequence)
          ∙ ap (λ (k : ℕ). take k n.generated) (sym (length-append h.logged more));
      front_le = omega (arith, len, continued.1, ap length b.in_sequence);
      queued = h.sound.queued;
      behind = omega (arith, len, h.sound.behind);
    };
    writable = ap (λ x. x.writable (client_log_file info)) same_disk ∙ kept;
    run = h.run;
    loggable = h.loggable;
    next_id = h.next_id;
    room = h.room;
    batches = h.batches;
    acks = (
      (length now, same_reply, omega arith),
      All-map_imp n.to_client (λ p a. (a.0, a.1, omega (arith, len, a.2))) h.acks,
    );
  }
    where
      more : List LogEntry
      more = accepted (length h.logged) b.batch

      now : List LogEntry
      now = h.logged ++ more

      len : length now ≡ length h.logged + length more
      len = length-append h.logged more

      continued :
          (take (length h.logged) (b.pre ++ (b.batch ++ b.post)) ++ more
            ≡ take (length h.logged + length more) (b.pre ++ (b.batch ++ b.post)))
          × (length h.logged + length more ≤ length (b.pre ++ (b.batch ++ b.post)))
      continued =
          take-accepted (length h.logged) b.pre b.batch b.post (subst (Run 1) b.in_sequence h.run)
            (omega (arith, h.sound.front_le, ap length b.in_sequence))

      all_logged : All IsLogged b.batch
      all_logged = All-append_left IsLogged b.batch b.post (
          All-append_right IsLogged b.pre (b.batch ++ b.post)
            (subst (All IsLogged) b.in_sequence h.loggable))

      stored : Disk
      stored = store n.server (client_log_file info) (print_all now)

      answer : Disk × Option Event
      answer =
          (stored, some (network_send info.client_ip info.client_port (ack_payload (length now))))

      given : Disk × Option Event
      given = (d, some (network_send ip port reply))

      handled :
          (ClientHandler.on_event n.server info junk
              (network_recv info.client_ip info.client_port (log_payload b.batch))
            ≡ ok answer)
          × IsLog (some (print_all now)) now
      handled =
          on_event-IsLog n.server info junk h.logged b.batch h.sound.server_log all_logged b.short
            (omega (arith, h.sound.front_le, h.room, b.short)) h.writable

      same : ok given ≡ ok answer
      same =
          sym e
          ∙ ap
              (λ p.
                ClientHandler.on_event n.server info junk
                  (network_recv info.client_ip info.client_port p))
              b.is_payload
          ∙ handled.0

      same_disk : d ≡ stored
      same_disk = cc same

      same_reply : reply ≡ ack_payload (length now)
      same_reply = cc same

      kept : stored.writable (client_log_file info) ≡ true
      kept = unfold store in h.writable

  pub acknowledge-IsGood :
      (l : Logged) (id : ℕ)
      → id ≤ length h.logged
      → l ≡ record {
        queue = (ack_log n.client.queue n.client.store id).0;
        store = (ack_log n.client.queue n.client.store id).1;
      }
      → IsGood info (record n { client = l })
  acknowledge-IsGood l id le e = elim (acked.1) [
    | inl same ↦ record {
      logged = h.logged;
      dropped = h.dropped;
      sound = record {
        server_log = h.sound.server_log;
        front = h.sound.front;
        front_le = h.sound.front_le;
        queued =
            h.sound.queued
            ∙ ap (λ es. h.dropped ++ es) (sym (ap (λ x. x.queue.log_entries) e ∙ same));
        behind = h.sound.behind;
      };
      writable = h.writable;
      run = h.run;
      loggable = h.loggable;
      next_id = next_kept;
      room = h.room;
      batches = h.batches;
      acks = h.acks;
    }
    | inr popped ↦ record {
      logged = h.logged;
      dropped = h.dropped ++ taken;
      sound = record {
        server_log = h.sound.server_log;
        front = h.sound.front;
        front_le = h.sound.front_le;
        queued =
            split
            ∙ ap (λ es. (h.dropped ++ taken) ++ es)
                (sym (ap (λ x. x.queue.log_entries) e ∙ popped));
        behind = omega (
          arith,
          length-append h.dropped taken,
          acked_front-le id (1 + length h.dropped) (length h.logged) queue run_queue
              (omega (arith, h.sound.behind)) le,
        );
      };
      writable = h.writable;
      run = h.run;
      loggable = h.loggable;
      next_id = next_kept;
      room = h.room;
      batches = h.batches;
      acks = h.acks;
    }
  ]
    where
      queue : List LogEntry
      queue = n.client.queue.log_entries

      taken : List LogEntry
      taken = acked_front id queue

      run_queue : Run (1 + length h.dropped) queue
      run_queue = Run-append_right 1 h.dropped queue (subst (Run 1) h.sound.queued h.run)

      split : n.generated ≡ (h.dropped ++ taken) ++ pop_acked id queue
      split =
          h.sound.queued
          ∙ ap (λ es. h.dropped ++ es) (sym (acked_front-append id queue))
          ∙ sym (append_assoc h.dropped taken (pop_acked id queue))

      acked :
          ((ack_log n.client.queue n.client.store id).0.new_id ≡ n.client.queue.new_id)
          × (((ack_log n.client.queue n.client.store id).0.log_entries ≡ queue)
              ⊎ ((ack_log n.client.queue n.client.store id).0.log_entries ≡ pop_acked id queue))
      acked = ack_log-entries n.client.queue n.client.store id

      next_kept : l.queue.new_id ≡ suc (length n.generated)
      next_kept = ap (λ x. x.queue.new_id) e ∙ acked.0 ∙ h.next_id
