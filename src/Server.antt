-- ===== src/Server.antt =====
-- The server's subscribers on its event bus: those of client_manager.cpp and of each client's
-- handler.
pub mod Ranks
pub mod Logs
mod Examples
use remote_monitoring_tool.Prelude.{ℕ, Bool, Option, none, some, List, [], ◌∷◌, ◌++◌, map, Bytes}
use remote_monitoring_tool.Result.{Result, ok, err, terminated, ◌>>=◌}
use remote_monitoring_tool.Event.{Event, input, network_send, network_recv}
use remote_monitoring_tool.Disk.{Disk}
use remote_monitoring_tool.Config.{Json}
use remote_monitoring_tool.LogEntry.{Junk}
use remote_monitoring_tool.ClientHandler
use remote_monitoring_tool.ClientHandler.{ClientInfo}
use remote_monitoring_tool.ClientManager.{send_to_client}
use remote_monitoring_tool.ClientManager.Input.{Answer, on_input}
use remote_monitoring_tool.EventBus.{Callback}

-- The files, the clients, whether the server goes on, and the messages given to the threads that
-- send them, each with its socket.
pub record Server : Type 0 where
  pub store : Disk
  pub client_handlers : List (ℕ × ClientInfo)
  pub is_running : Bool
  pub sending : List (ℕ × Bytes)

-- Undefined behaviour, in the conversion of a client's id, is taken as the end of the program.
answered : Option Answer → Server → Result (Server × Option Event)
answered none s = err terminated
answered (some answer) s = ok (record s { is_running = answer.is_running }, answer.published)

-- register_user_input_handler
user_input_handler : Json → Callback Server
unfolding answered
user_input_handler json (input payload) s =
    answered (on_input json s.store s.client_handlers payload s.is_running) s
user_input_handler json (network_send ip port payload) s = ok (s, none)
user_input_handler json (network_recv ip port payload) s = ok (s, none)

given_to : Option (ℕ × Bytes) → Server → Server
given_to none s = s
given_to (some message) s = record s { sending = s.sending ++ message ∷ [] }

-- register_send_output_to_client
send_output_to_client : Callback Server
unfolding given_to
send_output_to_client (network_send ip port payload) s =
    ok (given_to (send_to_client ip port payload s.client_handlers) s, none)
send_output_to_client (input payload) s = ok (s, none)
send_output_to_client (network_recv ip port payload) s = ok (s, none)

with_store : Server → Disk × Option Event → Result (Server × Option Event)
with_store s (d, published) = ok (record s { store = d }, published)

-- What the constructor of a ClientHandler subscribes.
client_handler : Junk → ClientInfo → Callback Server
unfolding with_store
client_handler junk info event s = ClientHandler.on_event s.store info junk event >>= with_store s

-- The subscribers, where the clients have connected since.
unfoldable pub subscribers : Json → Junk → List (ℕ × ClientInfo) → List (Callback Server)
unfolding user_input_handler send_output_to_client client_handler
subscribers json junk clients =
    user_input_handler json ∷ send_output_to_client ∷ map (λ c. client_handler junk c.1) clients
