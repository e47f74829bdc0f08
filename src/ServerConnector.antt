-- ===== src/ServerConnector.antt =====
-- client/server_connector.*: the client's connection to the server. What socket() and connect() do
-- in an attempt is a parameter; a connection that is made is a socket of the module Socket.
pub mod Attempts
mod Examples
use remote_monitoring_tool.Prelude.{
  ℕ, zero, suc, Bool, true, false, Option, none, some, List, [], ◌∷◌, ◌++◌, Bytes,
}
use remote_monitoring_tool.Result.{Result, ok, err}
use remote_monitoring_tool.Socket.{Socket, send_message, recv_message}
use remote_monitoring_tool.Backoff.{ExponentialBackoff, success, fail}

pub record ServerConnector : Type 0 where
  pub server_ip : Bytes
  pub server_port : ℕ
  pub client_socket : Socket
  pub is_connected : Bool

-- What an attempt comes to: no socket, a socket that connect() refused, or a connection.
pub data Attempt : Type 0 where
  no_socket : Attempt
  refused : Socket → Attempt
  accepted : Socket → Attempt

-- try_connect where there is no connection yet.
attempt_connect : Attempt → ServerConnector → Bool × ServerConnector
attempt_connect no_socket c = (false, c)
attempt_connect (refused s) c = (false, record c { client_socket = s })
attempt_connect (accepted s) c = (true, record c { client_socket = s; is_connected = true })

connect_unless : Bool → Attempt → ServerConnector → Bool × ServerConnector
unfolding attempt_connect
connect_unless true attempt c = (true, c)
connect_unless false attempt c = attempt_connect attempt c

unfoldable pub try_connect : Attempt → ServerConnector → Bool × ServerConnector
unfolding connect_unless
try_connect attempt c = connect_unless c.is_connected attempt c

-- The state of reconnect_indefinitely: the seconds slept so far, too, the latest first.
pub record Reconnecting : Type 0 where
  pub connector : ServerConnector
  pub backoff : ExponentialBackoff
  pub sleeps : List ℕ

after_attempt : Bool × ServerConnector → Reconnecting → Reconnecting
after_attempt (true, c) r = record r { connector = c; backoff = success r.backoff }
after_attempt (false, c) r = record r {
  connector = c;
  backoff = (fail r.backoff).1;
  sleeps = (fail r.backoff).0 ∷ r.sleeps;
}

reconnect_unless : Bool → Attempt → Reconnecting → Reconnecting
unfolding after_attempt
reconnect_unless true attempt r = r
reconnect_unless false attempt r = after_attempt (try_connect attempt r.connector) r

-- The inner loop of reconnect_indefinitely, for the attempts that it makes.
unfoldable pub reconnect : List Attempt → Reconnecting → Reconnecting
unfolding reconnect_unless
reconnect [] r = r
reconnect (attempt ∷ attempts) r =
    reconnect attempts (reconnect_unless r.connector.is_connected attempt r)

unfoldable pub get_client_socket : ServerConnector → Option Socket
get_client_socket c = elim (c.is_connected) [ true ↦ some c.client_socket | false ↦ none ]

-- The connection is given up after an exception.
received_from : Result (Bytes × Socket) → ServerConnector → Bytes × ServerConnector
received_from (ok (message, s)) c = (message, record c { client_socket = s })
received_from (err e) c = ([], record c { is_connected = false })

receive_if : Bool → ServerConnector → Bytes × ServerConnector
unfolding received_from
receive_if false c = ([], c)
receive_if true c = received_from (recv_message c.client_socket) c

-- The message, which is empty where nothing came.
unfoldable pub recv_input : ServerConnector → Bytes × ServerConnector
unfolding receive_if
recv_input c = receive_if c.is_connected c

sent_by : Result Socket → ServerConnector → Bool × ServerConnector
sent_by (ok s) c = (true, record c { client_socket = s })
sent_by (err e) c = (false, record c { is_connected = false })

send_if : Bool → Bytes → ServerConnector → Bool × ServerConnector
unfolding sent_by
send_if false message c = (false, c)
send_if true message c = sent_by (send_message message c.client_socket) c

unfoldable pub send_output : Bytes → ServerConnector → Bool × ServerConnector
unfolding send_if
send_output message c = send_if c.is_connected message c
