-- ===== src/Protocol/Invariant.antt =====
-- What holds in every reachable state of the client and the server.
use remote_monitoring_tool.Prelude.{◌≡◌, sym, ap, ◌∙◌, List, arith, length, All-get_elem?}
use remote_monitoring_tool.Result.{ok}
use remote_monitoring_tool.Event.{network_recv}
use remote_monitoring_tool.LogEntry.{LogEntry}
use remote_monitoring_tool.ClientLogger
use remote_monitoring_tool.ClientHandler.{ClientInfo}
use remote_monitoring_tool.ClientLogger.{Logged, log_value}
use remote_monitoring_tool.ClientLogger.Acks.{on_event-ack_payload}
use remote_monitoring_tool.Client.Messages.{log_payload_of_round_lem}
use remote_monitoring_tool.Protocol.{
  Network, Step, Reach, log, send, receive, acknowledge, here, next,
}
use remote_monitoring_tool.Protocol.Sound.{IsBatch, IsAck, IsSound, IsGood, IsStart, IsStart-IsGood}
use remote_monitoring_tool.Protocol.Sending.{queue_entries, log-IsGood, send-IsGood}
use remote_monitoring_tool.Protocol.Receiving.{receive-IsGood, acknowledge-IsGood}

Step-IsGood : {info : ClientInfo} {n m : Network} → Step info n m → IsGood info n → IsGood info m
Step-IsGood {info} {n} (log name now_ms log_type value he lt) h =
    log-IsGood info n h name now_ms log_type value he lt
Step-IsGood {info} {n} (send payload e) h =
    send-IsGood info n h payload
      (log_payload_of_round_lem n.client.queue payload (queue_entries info n h) e)
Step-IsGood {info} {n} (receive payload i junk d ip port reply m e) h =
    receive-IsGood info n h payload junk d ip port reply
      (All-get_elem? (IsBatch n.generated) n.to_server i h.batches m) e
Step-IsGood {info} {n} (acknowledge payload i junk_id ip port l m e) h =
    let (id, is_ack, le) = All-get_elem? (IsAck (length h.logged)) n.to_client i h.acks m in
    acknowledge-IsGood info n h l id le (
      ok-injective (
        sym e
        ∙ ap (λ p. ClientLogger.on_event junk_id (network_recv ip port p) n.client) is_ack
        ∙ on_event-ack_payload junk_id ip port id n.client
            (omega (arith, le, h.sound.front_le, h.room))))
  where
    ok-injective : {a b : Logged} → ok a ≡ ok b → a ≡ b
    ok-injective p = cc

Reach-IsGood :
    {info : ClientInfo} {start n : Network}
    → IsStart info start
    → Reach info start n
    → IsGood info n
Reach-IsGood s here = IsStart-IsGood _ _ s
Reach-IsGood s (next r t) = Step-IsGood t (Reach-IsGood s r)

-- Start with nothing made or sent and with no entry at the server, whose log file for the client can be
-- written. Let the client log values under names without '|', '\n' or '\r' in entries that fit their
-- fields, with ids below 2 ^ 63, send batches and take acks, and let the server receive messages, all
-- in any order, with messages and acks delivered in any order, any number of times or never, and
-- without a restart. Then at each time the server's log file holds the first entries that the client
-- made, each once and in order, and the client's queue holds all entries behind some number that the
-- server has.
pub Reach-IsSound :
    (info : ClientInfo) (start n : Network)
    → IsStart info start
    → Reach info start n
    → (logged dropped : List LogEntry) × IsSound info n logged dropped
Reach-IsSound info start n s r =
    let h : IsGood info n = Reach-IsGood s r in (h.logged, h.dropped, h.sound)
