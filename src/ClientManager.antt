-- ===== src/ClientManager.antt =====
-- server/client_manager.*: the clients of the server, and what becomes of input and of messages to
-- be sent.
pub mod Routing
pub mod Input
mod Examples
use remote_monitoring_tool.Prelude.{
  ℕ, ◌+◌, ◌≡◌, Bool, true, false, not, ◌||◌, Option, none, some, List, [], ◌∷◌, ◌++◌, Bytes, codes,
  bytes_eq, ◌==◌, if◌then◌else◌, length, drop,
}
use remote_monitoring_tool.Result.{Result, ok, err, ◌>>=◌}
use remote_monitoring_tool.Assoc.{find_in}
use remote_monitoring_tool.Text.{split_at}
use remote_monitoring_tool.Util.{ParsedInt, parsed, minus_one, undefined, str_to_int}
use remote_monitoring_tool.ClientHandler.{ClientInfo}

abbrev pub no_client : ClientInfo
no_client = record { client_id = 0; client_socket = 0; client_ip = []; client_port = 0 }

-- client_handlers.emplace(id, …): an id that is there keeps its handler.
unfoldable pub add_new_client : ClientInfo → List (ℕ × ClientInfo) → List (ℕ × ClientInfo)
add_new_client info [] = (info.client_id, info) ∷ []
add_new_client info ((id, old) ∷ clients) =
    let rest = add_new_client info clients in
    if info.client_id == id then (id, old) ∷ clients else (id, old) ∷ rest

-- The state of accept_new_client's loop: the next id and the clients.
pub record Clients : Type 0 where
  pub next_id : ℕ
  pub handlers : List (ℕ × ClientInfo)

-- A round of the loop, for the socket, the address and the port that accept() gave.
unfoldable pub accept_new_client : ℕ → Bytes → ℕ → Clients → Clients
accept_new_client socket ip port c = record {
  next_id = c.next_id + 1;
  handlers =
      add_new_client
        (record {
          client_id = c.next_id;
          client_socket = socket;
          client_ip = ip;
          client_port = port;
        })
        c.handlers;
}

unfoldable pub get_client_info_from_ip_and_port : Bytes → ℕ → List (ℕ × ClientInfo) → ClientInfo
get_client_info_from_ip_and_port ip port [] = no_client
get_client_info_from_ip_and_port ip port ((id, client) ∷ clients) =
    let rest = get_client_info_from_ip_and_port ip port clients in
    if not (bytes_eq client.client_ip ip)
    then rest
    else if not (client.client_port == port)
    then rest
    else client

-- The socket and the payload that register_send_output_to_client's subscriber sends.
unfoldable pub send_to_client : Bytes → ℕ → Bytes → List (ℕ × ClientInfo) → Option (ℕ × Bytes)
send_to_client ip port payload clients =
    let info : ClientInfo = get_client_info_from_ip_and_port ip port clients in
    if info.client_id == 0 then none else some (info.client_socket, payload)

-- find_client_from_input behind the ':'.
client_with : Option ClientInfo → Bytes → ClientInfo × Bytes
client_with none message = (no_client, [])
client_with (some info) message = (info, message)

find_target : ParsedInt → Bytes → List (ℕ × ClientInfo) → Option (ClientInfo × Bytes)
unfolding client_with
find_target undefined message clients = none
find_target minus_one message clients = some (no_client, [])
find_target (parsed id) message clients = some (client_with (find_in ◌==◌ id clients) message)

at_colon : Bytes × Option Bytes → List (ℕ × ClientInfo) → Option (ClientInfo × Bytes)
unfolding find_target
at_colon (target, none) clients = some (no_client, [])
at_colon (target, some message) clients = find_target (str_to_int target) message clients

-- The client and the message of an input `client_id:message`, and no client where there is none;
-- `none` is undefined behaviour, where the id overflows an int. No client stands under -1.
unfoldable pub find_client_from_input : Bytes → List (ℕ × ClientInfo) → Option (ClientInfo × Bytes)
unfolding at_colon
find_client_from_input line clients = at_colon (split_at b':' line) clients
