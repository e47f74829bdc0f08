-- ===== src/Server/Ranks.antt =====
-- Publishing on the server's event bus ends.
use remote_monitoring_tool.Prelude.{
  ℕ, ◌≤◌, ◌<◌, ◌≡◌, ◌≢◌, Option, none, some, List, [], ◌∷◌, map, arith, All,
}
use remote_monitoring_tool.Result.{Result, ok, err, ◌>>=◌}
use remote_monitoring_tool.Event.{Event, input, network_send, network_recv}
use remote_monitoring_tool.Disk.{Disk}
use remote_monitoring_tool.Config.{Json}
use remote_monitoring_tool.LogEntry.{Junk}
use remote_monitoring_tool.ClientHandler
use remote_monitoring_tool.ClientHandler.{ClientInfo}
use remote_monitoring_tool.ClientHandler.Sends.{on_event-Sends}
use remote_monitoring_tool.ClientManager.Input.{Answer, on_input}
use remote_monitoring_tool.ClientManager.Input.Sends.{IsAnswer, on_input-IsAnswer}
use remote_monitoring_tool.EventBus.{publish}
use remote_monitoring_tool.EventBus.Ranked.{IsRanked, publish-IsRanked}
use remote_monitoring_tool.EventBus.Sends.{rank, Sends, Sends-rank}
use remote_monitoring_tool.Server.{
  Server, answered, user_input_handler, send_output_to_client, with_store, client_handler,
  subscribers,
}

rank-bound : (event : Event) → rank event < 2
rank-bound (input payload) = omega arith
rank-bound (network_send ip port payload) = omega arith
rank-bound (network_recv ip port payload) = omega arith

abbrev outcome : Server → Option Event → Result (Server × Option Event)
outcome s o = ok (s, o)

silent-ne-some : (s s' : Server) (next : Event) → outcome s none ≢ outcome s' (some next)
silent-ne-some s s' next e = cc

answered-Sends : (o : Option Answer) (s : Server) → IsAnswer o → Sends (answered o s)
unfolding IsAnswer Sends answered
answered-Sends none s h = tt
answered-Sends (some answer) s h = h

user_input_handler-IsRanked : (json : Json) → IsRanked rank (user_input_handler json)
unfolding IsRanked user_input_handler
user_input_handler-IsRanked json (input payload) s s' next e =
    Sends-rank _ s' next
      (answered-Sends (on_input json s.store s.client_handlers payload s.is_running) s
        (on_input-IsAnswer json s.store s.client_handlers payload s.is_running))
      e
user_input_handler-IsRanked json (network_send ip port payload) s s' next e =
    absurd (silent-ne-some s s' next e)
user_input_handler-IsRanked json (network_recv ip port payload) s s' next e =
    absurd (silent-ne-some s s' next e)

send_output_to_client-IsRanked : IsRanked rank send_output_to_client
unfolding IsRanked send_output_to_client
send_output_to_client-IsRanked (input payload) s s' next e = absurd (silent-ne-some s s' next e)
send_output_to_client-IsRanked (network_send ip port payload) s s' next e =
    absurd (silent-ne-some _ s' next e)
send_output_to_client-IsRanked (network_recv ip port payload) s s' next e =
    absurd (silent-ne-some s s' next e)

with_store-Sends :
    (s : Server) (r : Result (Disk × Option Event)) → Sends r → Sends (r >>= with_store s)
unfolding Sends with_store
with_store-Sends s (err e) h = tt
with_store-Sends s (ok r) h = h

client_handler-IsRanked :
    (junk : Junk) (info : ClientInfo) → IsRanked rank (client_handler junk info)
unfolding IsRanked client_handler with_store ClientHandler.on_event
client_handler-IsRanked junk info (input payload) s s' next e = absurd (silent-ne-some _ s' next e)
client_handler-IsRanked junk info (network_send ip port payload) s s' next e =
    absurd (silent-ne-some _ s' next e)
client_handler-IsRanked junk info (network_recv ip port payload) s s' next e =
    Sends-rank _ s' next
      (with_store-Sends s (ClientHandler.on_event s.store info junk (network_recv ip port payload))
        (on_event-Sends s.store info junk (network_recv ip port payload)))
      e

handlers-IsRanked :
    (junk : Junk) (clients : List (ℕ × ClientInfo))
    → All (IsRanked rank) (map (λ c. client_handler junk c.1) clients)
handlers-IsRanked junk [] = tt
handlers-IsRanked junk (c ∷ clients) =
    (client_handler-IsRanked junk c.1, handlers-IsRanked junk clients)

-- Whatever the event, the state and the clients, publish on the server ends, with calls nested at
-- most twice: two of fuel give the same result as any more, whatever deeper calls would give.
pub publish-subscribers :
    (p q : Event → Server → Result Server) (f g : ℕ) (json : Json) (junk : Junk)
    (clients : List (ℕ × ClientInfo)) (event : Event) (s : Server)
    → 2 ≤ f
    → 2 ≤ g
    → publish p f (subscribers json junk clients) event s
      ≡ publish q g (subscribers json junk clients) event s
unfolding subscribers
publish-subscribers p q f g json junk clients event s hf hg =
    publish-IsRanked rank p q f g
      (user_input_handler json ∷ send_output_to_client ∷ map (λ c. client_handler junk c.1) clients)
      event s
      (
        user_input_handler-IsRanked json,
        (send_output_to_client-IsRanked, handlers-IsRanked junk clients),
      )
      (omega (arith, rank-bound event)) (omega (arith, rank-bound event))
