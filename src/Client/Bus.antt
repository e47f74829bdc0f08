-- ===== src/Client/Bus.antt =====
-- The client's subscribers on its event bus, and the thread that receives the server's messages:
-- client/client.cpp and the constructor of client/client_logger.cpp.
pub mod Messages
use remote_monitoring_tool.Prelude.{ℕ, Option, none, some, List, [], ◌∷◌, ◌++◌, Bytes}
use remote_monitoring_tool.Result.{Result, ok, ◌>>=◌}
use remote_monitoring_tool.Event.{Event, input, network_send, network_recv}
use remote_monitoring_tool.Disk.{Disk}
use remote_monitoring_tool.Config.{ConfigEntry, Json}
use remote_monitoring_tool.LogQueue.{LogQueue}
use remote_monitoring_tool.ClientLogger
use remote_monitoring_tool.ClientLogger.{Logged}
use remote_monitoring_tool.Client.Configured.{Configured, recv_config}
use remote_monitoring_tool.EventBus.{Callback}

-- The logger, the files, and the messages given to the threads that send them.
pub record Client : Type 0 where
  pub queue : LogQueue
  pub config : List ConfigEntry
  pub store : Disk
  pub sending : List Bytes

with_logged : Client → Logged → Result (Client × Option Event)
with_logged c l = ok (record c { queue = l.queue; store = l.store }, none)

-- What the constructor of the logger subscribes.
client_logger : ℕ → Callback Client
unfolding with_logged
client_logger junk_id event c =
    ClientLogger.on_event junk_id event (record { queue = c.queue; store = c.store })
    >>= with_logged c

-- register_send_outout_to_server
send_output_to_server : Callback Client
send_output_to_server (network_send ip port payload) c =
    ok (record c { sending = c.sending ++ payload ∷ [] }, none)
send_output_to_server (input payload) c = ok (c, none)
send_output_to_server (network_recv ip port payload) c = ok (c, none)

with_config : Client → Configured × Option Event → Result (Client × Option Event)
with_config c (configured, published) =
    ok (record c { config = configured.config; store = configured.store }, published)

-- register_recv_config
config_receiver : Json → Bytes → Bytes → ℕ → Callback Client
unfolding with_config
config_receiver json path ip port event c =
    recv_config json path ip port event (record { config = c.config; store = c.store })
    >>= with_config c

-- The subscribers in their order, for the configuration file and the server's address and port.
unfoldable pub subscribers : Json → ℕ → Bytes → Bytes → ℕ → List (Callback Client)
unfolding client_logger send_output_to_server config_receiver
subscribers json junk_id path ip port =
    client_logger junk_id ∷ send_output_to_server ∷ config_receiver json path ip port ∷ []

-- receive_server_input, for the messages that recv_input gives; it sleeps on an empty one.
module _ {S : Type 0} (publish : Event → S → Result S) (ip : Bytes) (port : ℕ) where
  unfoldable pub receive_server_input : List Bytes → S → Result S
  receive_server_input [] s = ok s
  receive_server_input ([] ∷ messages) s = receive_server_input messages s
  receive_server_input ((c ∷ message) ∷ messages) s = do
    s' ← publish (network_recv ip port (c ∷ message)) s
    receive_server_input messages s'
