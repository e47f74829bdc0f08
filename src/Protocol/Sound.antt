-- ===== src/Protocol/Sound.antt =====
-- The invariant of the client and the server, and its start.
use remote_monitoring_tool.Prelude.{
  ℕ, suc, ◌^◌, ◌≤◌, ◌<◌, ◌≡◌, refl, sym, ap, subst, ◌∙◌, true, List, [], ◌∷◌, ◌++◌, append_assoc,
  arith, Bytes, length, take, All,
}
use remote_monitoring_tool.LogEntry.{LogEntry}
use remote_monitoring_tool.LogQueue.Runs.{Run}
use remote_monitoring_tool.ClientHandler.{ClientInfo, client_log_file}
use remote_monitoring_tool.ClientHandler.Accepted.{IsLogged, IsLog}
use remote_monitoring_tool.ClientHandler.Replies.{log_payload, ack_payload}
use remote_monitoring_tool.Protocol.{Network}

-- A log message that holds a part of the sequence.
pub record IsBatch (g : List LogEntry) (payload : Bytes) : Type 0 where
  pub pre : List LogEntry
  pub batch : List LogEntry
  pub post : List LogEntry
  pub is_payload : payload ≡ log_payload batch
  pub in_sequence : g ≡ pre ++ (batch ++ post)
  pub short : length batch < 2 ^ 32

-- An ack of at most n entries.
abbrev pub IsAck : ℕ → Bytes → Type 0
IsAck n payload = (id : ℕ) × (payload ≡ ack_payload id) × (id ≤ n)

-- The server's file holds the first entries that the client made, and the client's queue holds all
-- that the server has not got.
pub record IsSound (info : ClientInfo) (n : Network) (logged dropped : List LogEntry) : Type 0 where
  pub server_log : IsLog (n.server.content (client_log_file info)) logged
  pub front : logged ≡ take (length logged) n.generated
  pub front_le : length logged ≤ length n.generated
  pub queued : n.generated ≡ dropped ++ n.client.queue.log_entries
  pub behind : length dropped ≤ length logged

pub record IsGood (info : ClientInfo) (n : Network) : Type 0 where
  pub logged : List LogEntry
  pub dropped : List LogEntry
  pub sound : IsSound info n logged dropped
  pub writable : n.server.writable (client_log_file info) ≡ true
  pub run : Run 1 n.generated
  pub loggable : All IsLogged n.generated
  pub next_id : n.client.queue.new_id ≡ suc (length n.generated)
  pub room : length n.generated < 2 ^ 63
  pub batches : All (IsBatch n.generated) n.to_server
  pub acks : All (IsAck (length logged)) n.to_client

-- Both sides before the first step: nothing was made or sent, and the server has no entry.
pub record IsStart (info : ClientInfo) (n : Network) : Type 0 where
  pub server_log : IsLog (n.server.content (client_log_file info)) []
  pub writable : n.server.writable (client_log_file info) ≡ true
  pub no_entries : n.generated ≡ []
  pub no_queue : n.client.queue.log_entries ≡ []
  pub first_id : n.client.queue.new_id ≡ 1
  pub nothing_sent : (n.to_server ≡ []) × (n.to_client ≡ [])

pub IsStart-IsGood : (info : ClientInfo) (n : Network) → IsStart info n → IsGood info n
IsStart-IsGood info n h = record {
  logged = [];
  dropped = [];
  sound = record {
    server_log = h.server_log;
    front = refl;
    front_le = omega arith;
    queued = h.no_entries ∙ sym h.no_queue;
    behind = omega arith;
  };
  writable = h.writable;
  run = subst (Run 1) (sym h.no_entries) tt;
  loggable = subst (All IsLogged) (sym h.no_entries) tt;
  next_id = h.first_id ∙ ap (λ es. suc (length es)) (sym h.no_entries);
  room = omega (arith, ap length h.no_entries);
  batches = subst (All (IsBatch n.generated)) (sym h.nothing_sent.0) tt;
  acks = subst (All (IsAck 0)) (sym h.nothing_sent.1) tt;
}

pub All-map_imp :
    {P Q : Bytes → Type 0} (xs : List Bytes) → ((x : Bytes) → P x → Q x) → All P xs → All Q xs
All-map_imp [] f h = tt
All-map_imp (x ∷ xs) f (px, h) = (f x px, All-map_imp xs f h)

pub IsBatch-append :
    (g : List LogEntry) (e : LogEntry) (payload : Bytes)
    → IsBatch g payload
    → IsBatch (g ++ e ∷ []) payload
IsBatch-append g e payload h = record {
  pre = h.pre;
  batch = h.batch;
  post = h.post ++ e ∷ [];
  is_payload = h.is_payload;
  in_sequence =
      ap (λ xs. xs ++ e ∷ []) h.in_sequence
      ∙ append_assoc h.pre (h.batch ++ h.post) (e ∷ [])
      ∙ ap (λ xs. h.pre ++ xs) (append_assoc h.batch h.post (e ∷ []));
  short = h.short;
}
