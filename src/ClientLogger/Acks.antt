-- ===== src/ClientLogger/Acks.antt =====
-- The client's handling of an ack.
use remote_monitoring_tool.Prelude.{
  ℕ, suc, ◌+◌, ◌^◌, ◌≤◌, ◌<◌, ◌≡◌, refl, false, ◌⊎◌, inl, inr, List, [], ◌∷◌, ◌++◌, arith,
  append-nil, Bytes, codes, length, leb, leb→le, Bool-cases, ◌==◌,
}
use remote_monitoring_tool.Result.{ok}
use remote_monitoring_tool.Text.{starts_with, decimal, starts_with_digit}
use remote_monitoring_tool.Text.Decimal.{from_chars-decimal, length-decimal-le}
use remote_monitoring_tool.Event.{network_recv}
use remote_monitoring_tool.Wire.Numbers.{string-IsCodec, encode_string}
use remote_monitoring_tool.Disk.{Disk}
use remote_monitoring_tool.LogEntry.{LogEntry}
use remote_monitoring_tool.LogQueue.{LogQueue, ack_log, pop_acked}
use remote_monitoring_tool.LogQueue.Runs.{Run}
use remote_monitoring_tool.LogQueue.Durable.{acked_front}
use remote_monitoring_tool.ClientHandler.Replies.{ack_payload}
use remote_monitoring_tool.ClientLogger.{Logged, ack_of_message, on_event}

-- The ack that the server sends is the ack that the queue gets.
pub on_event-ack_payload :
    (junk_id : ℕ) (ip : Bytes) (port id : ℕ) (l : Logged)
    → id < 2 ^ 64
    → on_event junk_id (network_recv ip port (ack_payload id)) l
      ≡ ok (record {
        queue = (ack_log l.queue l.store id).0;
        store = (ack_log l.queue l.store id).1;
      })
unfolding on_event ack_of_message starts_with
on_event-ack_payload junk_id ip port id l h = rw (
  ← append-nil (ack_payload id),
  string-IsCodec.reads (codes "ack " ++ decimal id) [] (omega (arith, length-decimal-le id h)),
  ← append-nil (decimal id),
  from_chars-decimal (2 ^ 64) id junk_id [] h (unfold starts_with_digit in refl),
)

-- Other messages change nothing.
pub on_event-encode_string :
    (junk_id : ℕ) (ip : Bytes) (port : ℕ) (message : Bytes) (l : Logged)
    → length message < 2 ^ 32
    → starts_with (codes "ack ") message ≡ false
    → on_event junk_id (network_recv ip port (encode_string message)) l ≡ ok l
unfolding on_event ack_of_message
on_event-encode_string junk_id ip port message l short other =
    rw (← append-nil (encode_string message), string-IsCodec.reads message [] short, other)

-- An ack leaves the queue as it is or takes its front off.
pub ack_log-entries :
    (q : LogQueue) (d : Disk) (id : ℕ)
    → ((ack_log q d id).0.new_id ≡ q.new_id)
      × (((ack_log q d id).0.log_entries ≡ q.log_entries)
          ⊎ ((ack_log q d id).0.log_entries ≡ pop_acked id q.log_entries))
unfolding ack_log
ack_log-entries q d id = elim (Bool-cases (id == q.ack_id)) [
  | inl e ↦ rw e (refl, inl refl)
  | inr e ↦ rw e (refl, inr refl)
]

-- What an ack takes off has ids of at most that of the ack.
pub acked_front-le :
    (id from limit : ℕ) (es : List LogEntry)
    → Run from es
    → from ≤ suc limit
    → id ≤ limit
    → from + length (acked_front id es) ≤ suc limit
unfolding acked_front
acked_front-le id from limit [] h le lim = omega arith
acked_front-le id from limit (e ∷ es) (he, h) le lim = elim (Bool-cases (leb e.id id)) [
  | inl t ↦ rw t (
      omega
        (arith, acked_front-le id (suc from) limit es h (omega (arith, leb→le e.id id t, he)) lim))
  | inr t ↦ rw t (omega arith)
]
