-- ===== src/Protocol/Examples.antt =====
-- The client logs an entry and sends it, and the server takes it and acks it.
use remote_monitoring_tool.Prelude.{
  ◌≡◌, refl, ap, inr, List, [], ◌∷◌, ◌++◌, Bytes, codes, arith, length,
}
use remote_monitoring_tool.Disk.{store}
use remote_monitoring_tool.LogEntry.{LogEntry}
use remote_monitoring_tool.LogQueue.{add_log, get_new_id}
use remote_monitoring_tool.LogQueue.Load.{print_all}
use remote_monitoring_tool.ClientHandler.{client_log_file}
use remote_monitoring_tool.ClientHandler.Accepted.{accepted, IsLogged}
use remote_monitoring_tool.ClientHandler.Replies.{log_payload, ack_payload, on_event-IsLog}
use remote_monitoring_tool.ClientLogger.{Logged, log_value}
use remote_monitoring_tool.Client.Messages.{log_payload_of_round-some}
use remote_monitoring_tool.Protocol.{Network, Reach, log, send, receive, here, next}
use remote_monitoring_tool.Protocol.Sound.{IsStart, IsSound}
use remote_monitoring_tool.Protocol.Invariant.{Reach-IsSound}
use remote_monitoring_tool.Samples.{first, junk, empty_disk, client}

abbrev fresh : Network
fresh = record {
  client = record {
    queue = record {
      log_file = codes "rmt-log.txt";
      ack_file = codes "rmt-ack.txt";
      ack_id = 0;
      log_entries = [];
      new_id = 1;
    };
    store = empty_disk;
  };
  server = empty_disk;
  to_server = [];
  to_client = [];
  generated = [];
}

fresh-IsStart : IsStart client fresh
fresh-IsStart = record {
  server_log = record { in_file = inr (refl, refl); run = tt; logged = tt };
  writable = refl;
  no_entries = refl;
  no_queue = refl;
  first_id = refl;
  nothing_sent = (refl, refl);
}

abbrev has_logged : Logged
has_logged = log_value (codes "chrome.exe") 1700 1 12000 fresh.client

abbrev sent : Bytes
sent = log_payload (first ∷ [])

abbrev taken : List LogEntry
taken = [] ++ accepted 0 (first ∷ [])

abbrev logged_network : Network
logged_network = record fresh { client = has_logged; generated = first ∷ [] }

abbrev sent_network : Network
sent_network = record logged_network { to_server = sent ∷ [] }

abbrev received_network : Network
received_network = record sent_network {
  server = store empty_disk (client_log_file client) (print_all taken);
  to_client = ack_payload (length taken) ∷ [];
}

first-IsLogged : IsLogged first
first-IsLogged = record {
  printable = record {
    entry = record {
      id_fits = omega arith;
      name_fits = omega arith;
      timestamp_fits = omega arith;
      type_fits = omega arith;
      value_fits = omega arith;
    };
    no_bar = omega arith;
    no_newline = omega arith;
  };
  no_return = omega arith;
}

has_logged_first : has_logged.queue.log_entries ≡ first ∷ []
unfolding log_value get_new_id add_log
has_logged_first = refl

reached : Reach client fresh received_network
reached =
    next
      (next (next here (log (codes "chrome.exe") 1700 1 12000 first-IsLogged (omega arith))) (
        send sent (
          log_payload_of_round-some has_logged.queue first [] has_logged_first
            (omega (arith, ap length has_logged_first)) (first-IsLogged.printable.entry, tt))))
      (receive sent 0 junk (store empty_disk (client_log_file client) (print_all taken))
        client.client_ip client.client_port (ack_payload (length taken)) refl
        (on_event-IsLog empty_disk client junk [] (first ∷ [])
          (record { in_file = inr (refl, refl); run = tt; logged = tt }) (first-IsLogged, tt)
          (omega arith) (omega arith) refl).0)

Reach-IsSound_example :
    (logged dropped : List LogEntry) × IsSound client received_network logged dropped
Reach-IsSound_example = Reach-IsSound client fresh received_network fresh-IsStart reached
