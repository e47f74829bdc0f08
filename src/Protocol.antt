-- ===== src/Protocol.antt =====
-- The client and the server together: client/client.cpp's loop, client_logger.cpp, log_queue.cpp
-- and server/client_handler.cpp, over a network that delivers what was sent in any order, any
-- number of times or not at all. The processes run without a restart.
pub mod Prefix
pub mod Sound
pub mod Sending
pub mod Receiving
pub mod Invariant
mod Examples
use remote_monitoring_tool.Prelude.{
  ℕ, ◌+◌, ◌^◌, ◌<◌, ◌≡◌, some, List, [], ◌∷◌, ◌++◌, Bytes, get_elem?,
}
use remote_monitoring_tool.Result.{ok}
use remote_monitoring_tool.Event.{network_send, network_recv}
use remote_monitoring_tool.Disk.{Disk}
use remote_monitoring_tool.LogEntry.{LogEntry, Junk}
use remote_monitoring_tool.ClientHandler
use remote_monitoring_tool.ClientHandler.{ClientInfo}
use remote_monitoring_tool.ClientHandler.Accepted.{IsLogged}
use remote_monitoring_tool.ClientLogger
use remote_monitoring_tool.ClientLogger.{Logged, log_value}
use remote_monitoring_tool.Client.{log_payload_of_round}

-- The state of both sides, the payloads that were sent, and the entries that the client made so far.
pub record Network : Type 0 where
  pub client : Logged
  pub server : Disk
  pub to_server : List Bytes
  pub to_client : List Bytes
  pub generated : List LogEntry

abbrev pub new_entry : Network → Bytes → ℕ → ℕ → ℕ → LogEntry
new_entry n name now_ms log_type value = record {
  id = n.client.queue.new_id;
  process_name = name;
  timestamp_ms = now_ms;
  log_type = log_type;
  value = value;
}

pub data Step (info : ClientInfo) (n : Network) : Network → Type 0 where
  -- The client logs a value. Its name can stand in a log file, and ids stay below 2 ^ 63.
  log :
      (name : Bytes) (now_ms log_type value : ℕ)
      → IsLogged (new_entry n name now_ms log_type value)
      → n.client.queue.new_id < 2 ^ 63
      → Step info n (record n {
        client = log_value name now_ms log_type value n.client;
        generated = n.generated ++ new_entry n name now_ms log_type value ∷ [];
      })
  -- The client sends a batch, which stays in its queue.
  send :
      (payload : Bytes)
      → log_payload_of_round n.client.queue ≡ ok (some payload)
      → Step info n (record n { to_server = payload ∷ n.to_server })
  -- A payload arrives at the server, which replies.
  receive :
      (payload : Bytes) (i : ℕ) (junk : Junk) (d : Disk) (ip : Bytes) (port : ℕ) (reply : Bytes)
      → get_elem? n.to_server i ≡ some payload
      → ClientHandler.on_event n.server info junk
          (network_recv info.client_ip info.client_port payload)
        ≡ ok (d, some (network_send ip port reply))
      → Step info n (record n { server = d; to_client = reply ∷ n.to_client })
  -- A reply arrives at the client.
  acknowledge :
      (payload : Bytes) (i : ℕ) (junk_id : ℕ) (ip : Bytes) (port : ℕ) (l : Logged)
      → get_elem? n.to_client i ≡ some payload
      → ClientLogger.on_event junk_id (network_recv ip port payload) n.client ≡ ok l
      → Step info n (record n { client = l })

pub data Reach (info : ClientInfo) (start : Network) : Network → Type 0 where
  here : Reach info start start
  next : {n m : Network} → Reach info start n → Step info n m → Reach info start m
