-- ===== src/Socket/Examples.antt =====
-- A message over sockets that move three bytes at a time.
use remote_monitoring_tool.Prelude.{ℕ, ◌≡◌, refl, [], ◌++◌, codes, arith}
use remote_monitoring_tool.Result.{ok}
use remote_monitoring_tool.Wire.Numbers.{encode_string}
use remote_monitoring_tool.Socket.{Socket, send_message, recv_message}
use remote_monitoring_tool.Socket.Framing.{recv_message-send_message}

abbrev sender : Socket
sender = record { incoming = []; outgoing = []; calls = 0; limit = λ i. 3 }

abbrev receiver : Socket
receiver = record {
  incoming = encode_string (codes "config ok") ++ codes "next";
  outgoing = [];
  calls = 0;
  limit = λ i. 3;
}

recv_message-send_message_example :
    ((n : ℕ) × (send_message (codes "config ok") sender
        ≡ ok (record sender { outgoing = [] ++ encode_string (codes "config ok"); calls = n })))
    × ((n : ℕ) × (recv_message receiver
          ≡ ok (codes "config ok", record receiver { incoming = codes "next"; calls = n })))
recv_message-send_message_example =
    recv_message-send_message sender receiver (codes "config ok") (codes "next") (λ i. omega arith)
      (λ i. omega arith) (omega arith) refl
