-- ===== src/ClientHandler/Replies.antt =====
-- The reply to a log message, and what it leaves in the client's log file.
use mathlib.Core.Path.{ap₂}
use remote_monitoring_tool.Prelude.{
  ℕ, ◌+◌, ◌^◌, ◌<◌, ◌≡◌, refl, sym, ap, subst, ◌∙◌, inl, inr, true, Option, some, List, [], ◌∷◌,
  ◌++◌, arith, append-nil, Bytes, codes, bytes_eq_refl, ==_refl, All, All-append, length,
  length-append,
}
use remote_monitoring_tool.Result.{ok}
use remote_monitoring_tool.Event.{network_send, network_recv}
use remote_monitoring_tool.Text.{decimal}
use remote_monitoring_tool.Text.Decimal.{length-decimal-le}
use remote_monitoring_tool.Wire.{stream}
use remote_monitoring_tool.Wire.Numbers.{
  encode_string, encode_vector, string-IsCodec, vector-IsCodec,
}
use remote_monitoring_tool.LogEntry.{LogEntry, Junk, IsEntry}
use remote_monitoring_tool.LogEntry.Binary.{encode_entry, entry-IsCodec}
use remote_monitoring_tool.Disk.{Disk, store, bytes_or_none}
use remote_monitoring_tool.LogQueue.Load.{print_all, print_all-append}
use remote_monitoring_tool.LogQueue.Runs.{Run, Run-append}
use remote_monitoring_tool.ClientHandler.{
  ClientInfo, client_log_file, last_acked_id, accept, ack_message, handle_recv_log, on_event,
}
use remote_monitoring_tool.ClientHandler.Accepted.{
  accepted, accept-accepted, Run-accepted, All-accepted, length-accepted, IsLogged, IsLog,
  last_acked_id-IsLog,
}

-- The payload of a log message.
abbrev pub log_payload : List LogEntry → Bytes
log_payload vec = encode_string (codes "log") ++ encode_vector encode_entry vec

-- The payload of an ack.
abbrev pub ack_payload : ℕ → Bytes
ack_payload id = encode_string (codes "ack " ++ decimal id)

IsLog-accepted :
    (content : Option Bytes) (es vec : List LogEntry)
    → IsLog content es
    → All IsLogged vec
    → IsLog (some (print_all (es ++ accepted (length es) vec))) (es ++ accepted (length es) vec)
IsLog-accepted content es vec h hv = record {
  in_file = inl refl;
  run =
      Run-append 1 es (accepted (length es) vec) h.run (
        subst (λ n. Run n (accepted (length es) vec)) (omega arith) (Run-accepted (length es) vec));
  logged = All-append IsLogged es _ h.logged (All-accepted IsLogged (length es) vec hv);
}

file_before :
    (content : Option Bytes) (es : List LogEntry)
    → IsLog content es
    → bytes_or_none content ≡ print_all es
unfolding print_all
file_before content es h = elim (h.in_file) [
  | inl p ↦ ap bytes_or_none p
  | inr (p, q) ↦ ap bytes_or_none p ∙ sym (ap print_all q)
]

pub entries : (vec : List LogEntry) → All IsLogged vec → All IsEntry vec
entries [] h = tt
entries (e ∷ vec) (he, h) = (he.printable.entry, entries vec h)

ack_message-small : (id : ℕ) → id < 2 ^ 64 → ack_message id ≡ ok (ack_payload id)
unfolding ack_message
ack_message-small id h =
    string-IsCodec.writes [] (codes "ack " ++ decimal id) (omega (arith, length-decimal-le id h))

module _ (d : Disk) (info : ClientInfo) (junk : Junk) (es vec : List LogEntry)
    (before : IsLog (d.content (client_log_file info)) es) (logged : All IsLogged vec)
    (short : length vec < 2 ^ 32) (room : length es + length vec < 2 ^ 64) where
  pub after : List LogEntry
  after = es ++ accepted (length es) vec

  accept_all :
      accept
        (last_acked_id (d.content (client_log_file info)) junk)
        (bytes_or_none (d.content (client_log_file info)))
        vec
      ≡ (length after, print_all after)
  unfolding after
  accept_all =
      ap (λ n. accept n (bytes_or_none (d.content (client_log_file info))) vec)
        (last_acked_id-IsLog (d.content (client_log_file info)) es junk before)
      ∙ ap (λ f. accept (length es) f vec)
          (file_before (d.content (client_log_file info)) es before)
      ∙ accept-accepted (length es) (print_all es) vec room
      ∙ ap₂ (λ x y. (x, y)) (sym (length-append es (accepted (length es) vec)))
          (sym (print_all-append es (accepted (length es) vec)))

  -- A log message extends the log file by the entries that continue it, and is answered by the id
  -- of the last one.
  pub handle_recv_log_lem :
      d.writable (client_log_file info) ≡ true
      → handle_recv_log d info (stream (encode_vector encode_entry vec)) junk
        ≡ ok (
          store d (client_log_file info) (print_all after),
          some (network_send info.client_ip info.client_port (ack_payload (length after))),
        )
  unfolding handle_recv_log
  handle_recv_log_lem w = rw (
    ← append-nil (encode_vector encode_entry vec),
    (vector-IsCodec junk.number entry-IsCodec).reads vec [] (short, entries vec logged),
    accept_all,
    w,
    ack_message-small (length after) small,
  )
    where
      small : length after < 2 ^ 64
      small =
          unfold after in
          (omega
            (arith, length-append es (accepted (length es) vec), length-accepted (length es) vec))

on_response-log :
    (d : Disk) (info : ClientInfo) (junk : Junk) (vec : List LogEntry)
    → on_event d info junk (network_recv info.client_ip info.client_port (log_payload vec))
      ≡ handle_recv_log d info (stream (encode_vector encode_entry vec)) junk
unfolding on_event
on_response-log d info junk vec = rw (
  bytes_eq_refl info.client_ip,
  ==_refl info.client_port,
  string-IsCodec.reads (codes "log") (encode_vector encode_entry vec) (omega arith),
)

-- Let the client's log file hold the entries with the ids 1 to n (or be missing, with n = 0),
-- and let a message of fewer than 2 ^ 32 loggable entries come from the client, whose log file
-- can be written, with all ids below 2 ^ 64. Then the file is extended by the entries of the
-- message that continue the sequence, it holds the ids from 1 on again, and the ack that is
-- published names the id of its last entry.
pub on_event-IsLog :
    (d : Disk) (info : ClientInfo) (junk : Junk) (es vec : List LogEntry)
    → IsLog (d.content (client_log_file info)) es
    → All IsLogged vec
    → length vec < 2 ^ 32
    → length es + length vec < 2 ^ 64
    → d.writable (client_log_file info) ≡ true
    → (on_event d info junk (network_recv info.client_ip info.client_port (log_payload vec))
        ≡ ok (
          store d (client_log_file info) (print_all (es ++ accepted (length es) vec)),
          some (
              network_send info.client_ip info.client_port
                (ack_payload (length (es ++ accepted (length es) vec)))),
        ))
      × IsLog (some (print_all (es ++ accepted (length es) vec))) (es ++ accepted (length es) vec)
unfolding after
on_event-IsLog d info junk es vec before logged short room w = (
  on_response-log d info junk vec
      ∙ handle_recv_log_lem d info junk es vec before logged short room w,
  IsLog-accepted (d.content (client_log_file info)) es vec before logged,
)
