-- ===== src/Client/Messages.antt =====
-- The log message of a round is that of a front part of the queue.
use remote_monitoring_tool.Prelude.{
  ℕ, ◌^◌, ◌<◌, ◌≡◌, sym, ap, ◌∙◌, Option, none, some, List, [], ◌∷◌, arith, Bytes, codes, All,
  All-take, length, length-take, take, min, ◌%◌, ◌≤◌,
}
use remote_monitoring_tool.Result.{ok, ◌>>=◌}
use remote_monitoring_tool.Wire.Numbers.{string-IsCodec, vector-IsCodec}
use remote_monitoring_tool.LogEntry.{LogEntry, IsEntry}
use remote_monitoring_tool.LogEntry.Binary.{entry-IsCodec}
use remote_monitoring_tool.LogQueue.{LogQueue}
use remote_monitoring_tool.LogQueue.Batch.{get_batch_log-take, get_batch_log_small}
use remote_monitoring_tool.ClientHandler.Replies.{log_payload}
use remote_monitoring_tool.Client.{log_message, message_for, log_payload_of_round}

pub log_message_lem :
    (vec : List LogEntry)
    → length vec < 2 ^ 32
    → All IsEntry vec
    → log_message vec ≡ ok (log_payload vec)
unfolding log_message
log_message_lem vec short h =
    rw (string-IsCodec.writes [] (codes "log") (omega arith))
      ((vector-IsCodec 0 entry-IsCodec).writes _ vec (short, h))

message_for_lem :
    (vec : List LogEntry) (payload : Bytes)
    → length vec < 2 ^ 32
    → All IsEntry vec
    → message_for (some vec) ≡ ok (some payload)
    → payload ≡ log_payload vec
unfolding message_for
message_for_lem [] payload short h e = absurd (none-ne-some (ok-injective e))
  where
    ok-injective : {a b : Option Bytes} → ok a ≡ ok b → a ≡ b
    ok-injective p = cc

    none-ne-some : {a : Bytes} → none ≡ some a → ⊥
    none-ne-some p = cc
message_for_lem (v ∷ vec) payload short h e = sym (
    some-injective (sym (ap (λ r. r >>= λ p. ok (some p)) (log_message_lem (v ∷ vec) short h)) ∙ e))
  where
    some-injective : {a b : Bytes} → ok (some a) ≡ ok (some b) → a ≡ b
    some-injective p = cc

-- The message of a round holds the first k entries of the queue, for some k of at most 100.
pub log_payload_of_round_lem :
    (q : LogQueue) (payload : Bytes)
    → All IsEntry q.log_entries
    → log_payload_of_round q ≡ ok (some payload)
    → (k : ℕ) × (k ≤ 100) × (payload ≡ log_payload (take k q.log_entries))
unfolding log_payload_of_round
log_payload_of_round_lem q payload h e = (
  min 100 (length q.log_entries % 2 ^ 32),
  omega arith,
  message_for_lem _ payload
      (omega (arith, length-take (min 100 (length q.log_entries % 2 ^ 32)) q.log_entries))
      (All-take IsEntry _ q.log_entries h) (sym (ap message_for (get_batch_log-take q 100)) ∙ e),
)

-- A round with entries in the queue publishes the first hundred of them, or all.
pub log_payload_of_round-some :
    (q : LogQueue) (e : LogEntry) (es : List LogEntry)
    → q.log_entries ≡ e ∷ es
    → length q.log_entries < 2 ^ 32
    → All IsEntry (e ∷ es)
    → log_payload_of_round q ≡ ok (some (log_payload (take 100 (e ∷ es))))
unfolding log_payload_of_round message_for
log_payload_of_round-some q e es eq short h =
    ap message_for (get_batch_log_small q 100 short ∙ ap (λ xs. some (take 100 xs)) eq)
    ∙ ap (λ r. r >>= λ p. ok (some p))
        (log_message_lem (take 100 (e ∷ es)) (omega (arith, length-take 100 (e ∷ es)))
          (All-take IsEntry 100 (e ∷ es) h))
