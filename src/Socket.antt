-- ===== src/Socket.antt =====
-- The socket functions of common/serializable.cpp: send_exact, recv_exact, send_message and
-- recv_message. A call of send() or recv() moves as many bytes as the operating system likes.
pub mod Framing
mod Examples
use remote_monitoring_tool.Prelude.{
  ℕ, zero, suc, ◌+◌, ◌-◌, ◌%◌, ◌^◌, min, Bool, true, false, List, [], ◌∷◌, ◌++◌, Bytes, length,
  take, drop, ◌==◌, if◌then◌else◌,
}
use remote_monitoring_tool.Result.{Result, ok, err, send_failed, recv_failed, ◌>>=◌}
use remote_monitoring_tool.Wire.{to_memory, of_memory, swap_endian32}

-- The bytes that wait to be received, those that were sent, the number of calls so far, and how many
-- bytes a call can move at most.
pub record Socket : Type 0 where
  pub incoming : Bytes
  pub outgoing : Bytes
  pub calls : ℕ
  pub limit : ℕ → ℕ

-- What a call of send() or recv() returns for `size` bytes, of `available` ones.
moved : Socket → ℕ → ℕ → ℕ
moved s size available = min (min size (s.limit s.calls)) available

received : ℕ → Socket → Socket
received n s = record s { incoming = drop n s.incoming; calls = s.calls + 1 }

sent : ℕ → Bytes → Socket → Socket
sent n buffer s = record s { outgoing = s.outgoing ++ take n buffer; calls = s.calls + 1 }

-- recv_exact, for the bytes that are missing. A round gets a byte at least, so there are at most as
-- many rounds as bytes.
recv_rest : ℕ → ℕ → Socket → Result (Bytes × Socket)
unfolding moved received
recv_rest fuel zero s = ok ([], s)
recv_rest zero (suc missing) s = err recv_failed
recv_rest (suc fuel) (suc missing) s =
    let n = moved s (suc missing) (length s.incoming) in
    let rest = recv_rest fuel (suc missing - n) (received n s) in
    if n == 0 then err recv_failed else rest >>= λ r. ok (take n s.incoming ++ r.0, r.1)

unfoldable pub recv_exact : ℕ → Socket → Result (Bytes × Socket)
unfolding recv_rest
recv_exact size s = recv_rest size size s

-- send_exact, for the bytes that are left.
send_rest : ℕ → Bytes → Socket → Result Socket
unfolding moved sent
send_rest fuel [] s = ok s
send_rest zero (b ∷ buffer) s = err send_failed
send_rest (suc fuel) (b ∷ buffer) s =
    let n = moved s (length (b ∷ buffer)) (length (b ∷ buffer)) in
    let rest = send_rest fuel (drop n (b ∷ buffer)) (sent n (b ∷ buffer) s) in
    if n == 0 then err send_failed else rest

unfoldable pub send_exact : Bytes → Socket → Result Socket
unfolding send_rest
send_exact buffer s = send_rest (length buffer) buffer s

unfoldable pub send_message : Bytes → Socket → Result Socket
send_message payload s =
    send_exact (to_memory 4 (swap_endian32 (length payload % 2 ^ 32))) s >>= send_exact payload

unfoldable pub recv_message : Socket → Result (Bytes × Socket)
recv_message s = do
  (net_size, s') ← recv_exact 4 s
  recv_exact (swap_endian32 (of_memory net_size)) s'
