-- ===== src/ClientHandler/Reception.antt =====
-- The thread that receives a client's messages: recv_input_from_client of server/client_handler.cpp.
use remote_monitoring_tool.Prelude.{
  ℕ, zero, suc, ◌+◌, ◌≤◌, ◌≡◌, ◌≢◌, refl, ap, ◌∙◌, Bool, true, false, List, [], ◌∷◌, ◌++◌,
  append_assoc, arith, Bytes, ltb, if◌then◌else◌, All, ltb-false,
}
use remote_monitoring_tool.Result.{Result, ok, err, recv_failed}

-- The failures since the last message, whether the thread has ended, and the state that the
-- subscribers change.
pub record Receiver (S : Type 0) : Type 0 where
  pub count_fail : ℕ
  pub ended : Bool
  pub state : S

abbrev pub max_tries : ℕ
max_tries = 10

module _ {S : Type 0} (publish : Bytes → S → Bool × S) where
  -- A failure, of recv_message or of a subscriber.
  failed : Receiver S → Receiver S
  failed r = record r { count_fail = r.count_fail + 1; ended = ltb max_tries (r.count_fail + 1) }

  published : Bool × S → Receiver S → Receiver S
  unfolding failed
  published (true, s) r = record r { count_fail = 0; state = s }
  published (false, s) r = failed (record r { state = s })

  -- A round, for what recv_message gives. publish says whether the subscribers return, and what they
  -- leave of the state.
  unfoldable pub receive_one : Result Bytes → Receiver S → Receiver S
  unfolding failed published
  receive_one (err e) r = failed r
  receive_one (ok []) r = r
  receive_one (ok (c ∷ message)) r = published (publish (c ∷ message) r.state) r

  -- The thread, for the results of the calls of recv_message.
  unfoldable pub recv_input_from_client : List (Result Bytes) → Receiver S → Receiver S
  recv_input_from_client [] r = r
  recv_input_from_client (result ∷ results) r =
      let rest = recv_input_from_client results (receive_one result r) in
      if r.ended then r else rest

  unfoldable pub fails : ℕ → List (Result Bytes)
  fails zero = []
  fails (suc n) = err recv_failed ∷ fails n

  -- Messages, each behind a number of failures, and then eleven failures.
  unfoldable pub received : List (ℕ × Bytes) → List (Result Bytes)
  received [] = fails (suc max_tries)
  received ((n, message) ∷ messages) = fails n ++ ok message ∷ received messages

  unfoldable pub publish_all : List (ℕ × Bytes) → S → S
  publish_all [] s = s
  publish_all ((n, message) ∷ messages) s = publish_all messages (publish message s).1

  abbrev pub IsMessage : ℕ × Bytes → Type 0
  IsMessage m = (m.0 ≤ max_tries) × (m.1 ≢ [])

  abbrev pub receiver : ℕ → S → Receiver S
  receiver n s = record { count_fail = n; ended = false; state = s }

  recv_fails :
      (n count : ℕ) (s : S) (rest : List (Result Bytes))
      → count + n ≤ max_tries
      → recv_input_from_client (fails n ++ rest) (receiver count s)
        ≡ recv_input_from_client rest (receiver (count + n) s)
  unfolding recv_input_from_client receive_one failed fails
  recv_fails zero count s rest h =
      let same : count ≡ count + 0 = omega arith in
      ap (λ n. recv_input_from_client rest (receiver n s)) same
  recv_fails (suc n) count s rest h = rw (ltb-false max_tries (count + 1) (omega arith)) (
      recv_fails n (count + 1) s rest (omega arith)
      ∙ ap (λ m. recv_input_from_client rest (receiver m s)) next)
    where
      next : count + 1 + n ≡ count + suc n
      next = omega arith

  recv_message_lem :
      (count : ℕ) (message : Bytes) (s : S) (rest : List (Result Bytes))
      → message ≢ []
      → (publish message s).0 ≡ true
      → recv_input_from_client (ok message ∷ rest) (receiver count s)
        ≡ recv_input_from_client rest (receiver 0 (publish message s).1)
  unfolding recv_input_from_client receive_one published
  recv_message_lem count [] s rest ne done = absurd (ne refl)
  recv_message_lem count (c ∷ message) s rest ne done =
      ap
        (λ b.
          recv_input_from_client rest
            (published (b, (publish (c ∷ message) s).1) (receiver count s)))
        done

  -- Eleven failures end the thread, and no more is done.
  gives_up :
      (more : List (Result Bytes)) (s : S)
      → recv_input_from_client (fails (suc max_tries) ++ more) (receiver 0 s)
        ≡ record { count_fail = 11; ended = true; state = s }
  unfolding recv_input_from_client receive_one failed fails
  gives_up [] s = refl
  gives_up (result ∷ results) s = refl

  -- The subscribers return for each of the messages, in the states that they leave.
  unfoldable pub AllReturn : List (ℕ × Bytes) → S → Type 0
  AllReturn [] s = Unit
  AllReturn ((n, message) ∷ messages) s =
      ((publish message s).0 ≡ true) × AllReturn messages (publish message s).1

  -- Let up to ten failures in a row of recv_message stand before each message, let the messages not be
  -- empty and the subscribers return for each of them, and let eleven failures follow. Then all
  -- messages are published in their order, the eleventh failure ends the thread, and whatever could
  -- have been received behind it is neither counted nor published.
  pub recv_input_from_client-received :
      (messages : List (ℕ × Bytes)) (more : List (Result Bytes)) (s : S)
      → AllReturn messages s
      → All IsMessage messages
      → recv_input_from_client (received messages ++ more) (receiver 0 s)
        ≡ record { count_fail = 11; ended = true; state = publish_all messages s }
  unfolding received publish_all AllReturn
  recv_input_from_client-received [] more s returns h = gives_up more s
  recv_input_from_client-received ((n, message) ∷ messages) more s (done, returns) ((few, ne), h) =
      ap (λ rs. recv_input_from_client rs (receiver 0 s))
        (append_assoc (fails n) (ok message ∷ received messages) more)
      ∙ recv_fails n 0 s (ok message ∷ (received messages ++ more)) (omega arith)
      ∙ recv_message_lem (0 + n) message s (received messages ++ more) ne done
      ∙ recv_input_from_client-received messages more (publish message s).1 returns h
