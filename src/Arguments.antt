-- ===== src/Arguments.antt =====
-- The command lines of client/client.cpp and server/server.cpp.
pub mod Ports
mod Examples
use remote_monitoring_tool.Prelude.{
  ℕ, Bool, ◌||◌, Option, none, some, List, [], ◌∷◌, Bytes, codes, ltb, ◌==◌, if◌then◌else◌, length,
  drop,
}
use remote_monitoring_tool.Util.{ParsedInt, parsed, minus_one, undefined, str_to_int}
use remote_monitoring_tool.Text.{starts_with}

-- The branches on the port that str_to_int gave, with the program's test for a bad one; `none` is
-- undefined behaviour, where the digits overflow an int.
take_port : (ℕ → Bool) → ParsedInt → ℕ → Option ℕ
take_port is_invalid undefined chosen_port = none
take_port is_invalid minus_one chosen_port = some chosen_port
take_port is_invalid (parsed port) chosen_port =
    some (if is_invalid port then chosen_port else port)

with_ip : Bytes → Option ℕ → Option (Bytes × ℕ)
with_ip ip none = none
with_ip ip (some port) = some (ip, port)

unfoldable pub client_invalid : ℕ → Bool
client_invalid port = port == 0 || ltb 65536 port

-- A round of the client's loop over its arguments, for the chosen address and port.
unfoldable pub client_argument : Bytes → Bytes × ℕ → Option (Bytes × ℕ)
unfolding take_port with_ip
client_argument arg (ip, port) =
    if starts_with (codes "--server-ip=") arg
    then some (drop (length (codes "--server-ip=")) arg, port)
    else if starts_with (codes "--server-port=") arg
    then with_ip ip
        (take_port client_invalid (str_to_int (drop (length (codes "--server-port=")) arg)) port)
    else some (ip, port)

client_after : Option (Bytes × ℕ) → (Bytes × ℕ → Option (Bytes × ℕ)) → Option (Bytes × ℕ)
client_after none rest = none
client_after (some chosen) rest = rest chosen

unfoldable pub client_arguments : List Bytes → Bytes × ℕ → Option (Bytes × ℕ)
unfolding client_after
client_arguments [] chosen = some chosen
client_arguments (arg ∷ args) chosen =
    client_after (client_argument arg chosen) (client_arguments args)

unfoldable pub server_invalid : ℕ → Bool
server_invalid port = ltb port 1024 || ltb 65536 port

-- A round of the server's loop.
unfoldable pub server_argument : Bytes → ℕ → Option ℕ
unfolding take_port
server_argument arg port =
    if starts_with (codes "--server-port=") arg
    then take_port server_invalid (str_to_int (drop (length (codes "--server-port=")) arg)) port
    else some port

server_after : Option ℕ → (ℕ → Option ℕ) → Option ℕ
server_after none rest = none
server_after (some port) rest = rest port

unfoldable pub server_arguments : List Bytes → ℕ → Option ℕ
unfolding server_after
server_arguments [] port = some port
server_arguments (arg ∷ args) port = server_after (server_argument arg port) (server_arguments args)
