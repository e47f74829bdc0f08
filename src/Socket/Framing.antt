-- ===== src/Socket/Framing.antt =====
-- A message that is sent arrives whole, however the bytes are cut.
use remote_monitoring_tool.Prelude.{
  ℕ, zero, suc, ◌-◌, ◌%◌, ◌^◌, ◌≤◌, ◌<◌, ◌≡◌, refl, sym, ap, ◌∙◌, min, false, List, [], ◌∷◌, ◌++◌,
  append-nil, append_assoc, arith, Bytes, length, length-append, length-drop, take, drop,
  take-append-drop, take-length-append, drop-length-append, ◌==◌,
}
use remote_monitoring_tool.Result.{Result, ok}
use remote_monitoring_tool.Wire.{to_memory, swap_endian32}
use remote_monitoring_tool.Wire.Memory.{big_endian, length-big_endian}
use remote_monitoring_tool.Wire.Numbers.{memory4, unswap32, encode_string}
use remote_monitoring_tool.Socket.{
  Socket, moved, received, sent, recv_rest, recv_exact, send_rest, send_exact, send_message,
  recv_message,
}

-- A call on an open connection moves a byte at least.
abbrev pub IsOpen : Socket → Type 0
IsOpen s = (i : ℕ) → 0 < s.limit i

-- The result holds what is expected, and the socket goes on.
record Received (buffer rest : Bytes) (s : Socket) (r : Result (Bytes × Socket)) : Type 0 where
  calls : ℕ
  result : r ≡ ok (buffer, record s { incoming = rest; calls = calls })

module _ {A : Type 0} where
  take_nil : (n : ℕ) → take {A = A} n [] ≡ []
  take_nil zero = refl
  take_nil (suc n) = refl

  drop_nil : (n : ℕ) → drop {A = A} n [] ≡ []
  drop_nil zero = refl
  drop_nil (suc n) = refl

  take-take-drop :
      (n m : ℕ) (xs : List A) → n ≤ m → take n xs ++ take (m - n) (drop n xs) ≡ take m xs
  take-take-drop zero m xs h = ap (λ (k : ℕ). take k xs) (omega arith)
  take-take-drop (suc n) zero xs h = absurd (omega arith)
  take-take-drop (suc n) (suc m) [] h = take_nil (suc m - suc n)
  take-take-drop (suc n) (suc m) (x ∷ xs) h =
      ap (λ (k : ℕ). x ∷ (take n xs ++ take k (drop n xs))) (omega arith)
      ∙ ap (λ r. x ∷ r) (take-take-drop n m xs (omega arith))

  drop-drop : (n m : ℕ) (xs : List A) → n ≤ m → drop (m - n) (drop n xs) ≡ drop m xs
  drop-drop zero m xs h = ap (λ (k : ℕ). drop k xs) (omega arith)
  drop-drop (suc n) zero xs h = absurd (omega arith)
  drop-drop (suc n) (suc m) [] h = drop_nil (suc m - suc n)
  drop-drop (suc n) (suc m) (x ∷ xs) h =
      ap (λ (k : ℕ). drop k (drop n xs)) (omega arith) ∙ drop-drop n m xs (omega arith)

recv_rest-Received :
    (fuel size : ℕ) (s : Socket)
    → IsOpen s
    → size ≤ fuel
    → size ≤ length s.incoming
    → Received (take size s.incoming) (drop size s.incoming) s (recv_rest fuel size s)
unfolding recv_rest moved received
recv_rest-Received fuel zero s o f h = record { calls = s.calls; result = refl }
recv_rest-Received zero (suc size) s o f h = absurd (omega arith)
recv_rest-Received (suc fuel) (suc size) s o f h =
    let n : ℕ = min (min (suc size) (s.limit s.calls)) (length s.incoming) in
    let pos : 0 < n = omega (arith, o s.calls) in
    let le : n ≤ suc size = omega arith in
    let more : Received (take (suc size - n) (drop n s.incoming))
        (drop (suc size - n) (drop n s.incoming)) (received n s)
        (recv_rest fuel (suc size - n) (received n s)) =
      recv_rest-Received fuel (suc size - n) (received n s) o (omega arith)
        (omega (arith, length-drop n s.incoming)) in
    record {
      calls = more.calls;
      result = rw (
        not_zero n pos,
        more.result,
        take-take-drop n (suc size) s.incoming le,
        drop-drop n (suc size) s.incoming le,
      );
    }
  where
    not_zero : (n : ℕ) → 0 < n → (n == 0) ≡ false
    not_zero n h = ground arith

record Sent (buffer : Bytes) (s : Socket) (r : Result Socket) : Type 0 where
  calls : ℕ
  result : r ≡ ok (record s { outgoing = s.outgoing ++ buffer; calls = calls })

send_rest-Sent :
    (fuel : ℕ) (buffer : Bytes) (s : Socket)
    → IsOpen s
    → length buffer ≤ fuel
    → Sent buffer s (send_rest fuel buffer s)
unfolding send_rest moved sent
send_rest-Sent fuel [] s o f = record {
  calls = s.calls;
  result = ap (λ out. ok (record s { outgoing = out })) (sym (append-nil s.outgoing));
}
send_rest-Sent zero (b ∷ buffer) s o f = absurd (omega arith)
send_rest-Sent (suc fuel) (b ∷ buffer) s o f =
    let n : ℕ = min (min (suc (length buffer)) (s.limit s.calls)) (suc (length buffer)) in
    let pos : 0 < n = omega (arith, o s.calls) in
    let more : Sent (drop n (b ∷ buffer)) (sent n (b ∷ buffer) s)
        (send_rest fuel (drop n (b ∷ buffer)) (sent n (b ∷ buffer) s)) =
      send_rest-Sent fuel (drop n (b ∷ buffer)) (sent n (b ∷ buffer) s) o
        (omega (arith, length-drop n (b ∷ buffer))) in
    record {
      calls = more.calls;
      result =
          rw (not_zero n pos, more.result)
            (ap (λ out. ok (record s { outgoing = out; calls = more.calls }))
              (append_assoc s.outgoing (take n (b ∷ buffer)) (drop n (b ∷ buffer))
                ∙ ap (λ d. s.outgoing ++ d) (take-append-drop n (b ∷ buffer))));
    }
  where
    not_zero : (n : ℕ) → 0 < n → (n == 0) ≡ false
    not_zero n h = ground arith

-- On open connections a message of less than 4 GiB is sent behind its length, and a receiver whose
-- incoming bytes start with that gets exactly the message, and leaves the bytes behind it, however
-- many bytes the calls move.
pub recv_message-send_message :
    (s r : Socket) (payload rest : Bytes)
    → IsOpen s
    → IsOpen r
    → length payload < 2 ^ 32
    → r.incoming ≡ encode_string payload ++ rest
    → ((n : ℕ) × (send_message payload s
          ≡ ok (record s { outgoing = s.outgoing ++ encode_string payload; calls = n })))
      × ((n : ℕ) × (recv_message r ≡ ok (payload, record r { incoming = rest; calls = n })))
unfolding send_message send_exact recv_message recv_exact encode_string
recv_message-send_message s r payload rest os or short waits = (
  (body.calls, rw (size, header.result) (body.result ∙ out)),
  (
    content.calls,
    rw (front.result, head_is, unswap32 (length payload) short) (content.result ∙ got),
  ),
)
  where
    size : to_memory 4 (swap_endian32 (length payload % 2 ^ 32)) ≡ big_endian 4 (length payload)
    size = ap (λ (n : ℕ). to_memory 4 (swap_endian32 n)) (omega arith) ∙ memory4 (length payload)

    len4 : length (big_endian 4 (length payload)) ≡ 4
    len4 = length-big_endian 4 (length payload)

    header :
        Sent
          (big_endian 4 (length payload))
          s
          (send_rest (length (big_endian 4 (length payload))) (big_endian 4 (length payload)) s)
    header = send_rest-Sent _ _ s os (omega arith)

    s' : Socket
    s' = record s { outgoing = s.outgoing ++ big_endian 4 (length payload); calls = header.calls }

    body : Sent payload s' (send_rest (length payload) payload s')
    body = send_rest-Sent (length payload) payload s' os (omega arith)

    out :
        ok (record s' { outgoing = s'.outgoing ++ payload; calls = body.calls })
        ≡ ok (record s {
          outgoing = s.outgoing ++ (big_endian 4 (length payload) ++ payload);
          calls = body.calls;
        })
    out =
        ap (λ o. ok (record s { outgoing = o; calls = body.calls }))
          (append_assoc s.outgoing (big_endian 4 (length payload)) payload)

    waits' : r.incoming ≡ big_endian 4 (length payload) ++ (payload ++ rest)
    waits' = waits ∙ append_assoc (big_endian 4 (length payload)) payload rest

    front : Received (take 4 r.incoming) (drop 4 r.incoming) r (recv_rest 4 4 r)
    front = recv_rest-Received 4 4 r or (omega arith) (
        omega (
          arith,
          ap length waits',
          length-append (big_endian 4 (length payload)) (payload ++ rest),
          len4,
        ))

    head_is : take 4 r.incoming ≡ big_endian 4 (length payload)
    head_is =
        ap (take 4) waits'
        ∙ ap (λ (n : ℕ). take n (big_endian 4 (length payload) ++ (payload ++ rest))) (sym len4)
        ∙ take-length-append (big_endian 4 (length payload)) (payload ++ rest)

    tail_is : drop 4 r.incoming ≡ payload ++ rest
    tail_is =
        ap (drop 4) waits'
        ∙ ap (λ (n : ℕ). drop n (big_endian 4 (length payload) ++ (payload ++ rest))) (sym len4)
        ∙ drop-length-append (big_endian 4 (length payload)) (payload ++ rest)

    r' : Socket
    r' = record r { incoming = drop 4 r.incoming; calls = front.calls }

    content :
        Received
          (take (length payload) r'.incoming)
          (drop (length payload) r'.incoming)
          r'
          (recv_rest (length payload) (length payload) r')
    content =
        recv_rest-Received (length payload) (length payload) r' or (omega arith)
          (omega (arith, ap length tail_is, length-append payload rest))

    arrived : Bytes → Bytes × Socket
    arrived bs = (
      take (length payload) bs,
      record r { incoming = drop (length payload) bs; calls = content.calls },
    )

    finished : Bytes × Socket
    finished = (payload, record r { incoming = rest; calls = content.calls })

    whole : arrived (payload ++ rest) ≡ finished
    whole = rw (take-length-append payload rest, drop-length-append payload rest)

    got : ok (arrived r'.incoming) ≡ ok finished
    got = ap (λ bs. ok (arrived bs)) tail_is ∙ ap ok whole
