-- ===== src/Server/Logs.antt =====
-- A log message on the server's event bus, up to the reply that is given to the client's socket.
use remote_monitoring_tool.Prelude.{
  ℕ, ◌+◌, ◌^◌, ◌<◌, ◌≡◌, refl, sym, ap, ◌∙◌, true, false, Option, none, some, List, [], ◌∷◌, ◌++◌,
  map, arith, Bytes, bytes_eq, bytes_eq_refl, bytes_eq→eq, ◌==◌, ==_refl, length, append-nil,
  if◌then◌else◌, All, Bool-cases, inl, inr,
}
use remote_monitoring_tool.Result.{Result, ok, ◌>>=◌}
use remote_monitoring_tool.Event.{Event, network_send, network_recv}
use remote_monitoring_tool.Disk.{Disk, store}
use remote_monitoring_tool.Config.{Json}
use remote_monitoring_tool.LogEntry.{LogEntry, Junk}
use remote_monitoring_tool.LogQueue.Load.{print_all}
use remote_monitoring_tool.ClientHandler
use remote_monitoring_tool.ClientHandler.{ClientInfo, client_log_file}
use remote_monitoring_tool.ClientHandler.Accepted.{accepted, IsLog, IsLogged}
use remote_monitoring_tool.ClientHandler.Replies.{log_payload, ack_payload, on_event-IsLog}
use remote_monitoring_tool.ClientManager.{send_to_client, get_client_info_from_ip_and_port}
use remote_monitoring_tool.ClientManager.Routing.{Unused, get_info-append}
use remote_monitoring_tool.EventBus.{Callback, publish_next, run_callbacks, publish}
use remote_monitoring_tool.Server.{
  Server, user_input_handler, given_to, send_output_to_client, with_store, client_handler,
  subscribers,
}

module _ (junk : Junk) (run : Event → Server → Result Server) where
  abbrev handlers : List (ℕ × ClientInfo) → List (Callback Server)
  handlers clients = map (λ c. client_handler junk c.1) clients

  -- The handlers of other clients do nothing.
  run_others :
      (ip : Bytes) (port : ℕ) (payload : Bytes) (others rest : List (ℕ × ClientInfo)) (s : Server)
      → Unused ip port others
      → run_callbacks run (handlers (others ++ rest)) (network_recv ip port payload) s
        ≡ run_callbacks run (handlers rest) (network_recv ip port payload) s
  unfolding run_callbacks client_handler with_store ClientHandler.on_event publish_next
  run_others ip port payload [] rest s u = refl
  run_others ip port payload ((id, c) ∷ others) rest s (inl f, u) =
      rw (bytes_eq-false c.client_ip ip f) (run_others ip port payload others rest s u)
    where
      bytes_eq-false : (a b : Bytes) → bytes_eq a b ≡ false → bytes_eq b a ≡ false
      bytes_eq-false a b e = elim (Bool-cases (bytes_eq b a)) [
        | inl t ↦ absurd (cc (bytes_eq_refl a, bytes_eq→eq b a t, e))
        | inr t ↦ t
      ]
  run_others ip port payload ((id, c) ∷ others) rest s (inr f, u) =
      elim (Bool-cases (bytes_eq ip c.client_ip)) [
        | inl e ↦ rw (e, apart) (run_others ip port payload others rest s u)
        | inr e ↦ rw e (run_others ip port payload others rest s u)
      ]
    where
      apart : (port == c.client_port) ≡ false
      apart = ground (arith, f)

  -- No handler takes a message to be sent.
  run_sending :
      (ip : Bytes) (port : ℕ) (payload : Bytes) (clients : List (ℕ × ClientInfo)) (s : Server)
      → run_callbacks run (handlers clients) (network_send ip port payload) s ≡ ok s
  unfolding run_callbacks client_handler with_store ClientHandler.on_event publish_next
  run_sending ip port payload [] s = refl
  run_sending ip port payload (c ∷ clients) s = run_sending ip port payload clients s

  -- The handler of the client takes it, and what it publishes is run at once.
  run_own :
      (id : ℕ) (info : ClientInfo) (payload : Bytes) (after : List (ℕ × ClientInfo)) (s s' : Server)
      (d : Disk) (ip : Bytes) (port : ℕ) (reply : Bytes)
      → Unused info.client_ip info.client_port after
      → ClientHandler.on_event s.store info junk
          (network_recv info.client_ip info.client_port payload)
        ≡ ok (d, some (network_send ip port reply))
      → run (network_send ip port reply) (record s { store = d }) ≡ ok s'
      → run_callbacks run
          (handlers ((id, info) ∷ after))
          (network_recv info.client_ip info.client_port payload)
          s
        ≡ ok s'
  unfolding run_callbacks client_handler with_store publish_next
  run_own id info payload after s s' d ip port reply u handled sent =
      ap
        (λ r. r >>= with_store s >>= λ t. publish_next run t >>= λ s1.
          run_callbacks run (handlers after) (network_recv info.client_ip info.client_port payload)
            s1)
        handled
      ∙ ap
          (λ r. r >>= λ s1.
            run_callbacks run (handlers after)
              (network_recv info.client_ip info.client_port payload) s1)
          sent
      ∙ ap
          (λ l.
            run_callbacks run (handlers l) (network_recv info.client_ip info.client_port payload)
              s')
          (sym (append-nil after))
      ∙ run_others info.client_ip info.client_port payload after [] s' u

-- The reply goes to the client's own socket.
reply_sent :
    (deeper : Event → Server → Result Server) (json : Json) (junk : Junk) (id : ℕ)
    (info : ClientInfo) (before after : List (ℕ × ClientInfo)) (reply : Bytes) (s : Server)
    → s.client_handlers ≡ before ++ (id, info) ∷ after
    → Unused info.client_ip info.client_port before
    → 0 < info.client_id
    → publish deeper 1
        (subscribers json junk s.client_handlers)
        (network_send info.client_ip info.client_port reply)
        s
      ≡ ok (record s { sending = s.sending ++ (info.client_socket, reply) ∷ [] })
unfolding publish subscribers run_callbacks publish_next user_input_handler send_output_to_client
reply_sent deeper json junk id info before after reply s clients u pos =
    run_sending junk deeper info.client_ip info.client_port reply s.client_handlers
      (given_to (send_to_client info.client_ip info.client_port reply s.client_handlers) s)
    ∙ ap (λ o. ok (given_to o s)) found
  where
    not_zero : (info.client_id == 0) ≡ false
    not_zero = ground (arith, pos)

    lookup :
        get_client_info_from_ip_and_port info.client_ip info.client_port s.client_handlers ≡ info
    lookup =
        ap (get_client_info_from_ip_and_port info.client_ip info.client_port) clients
        ∙ get_info-append info.client_ip info.client_port id info before after u
            (bytes_eq_refl info.client_ip) (==_refl info.client_port)

    socket_of : ClientInfo → Option (ℕ × Bytes)
    socket_of i = if i.client_id == 0 then none else some (i.client_socket, reply)

    found :
        send_to_client info.client_ip info.client_port reply s.client_handlers
        ≡ some (info.client_socket, reply)
    found = unfold send_to_client in (ap socket_of lookup ∙ rw not_zero)

-- Let no two clients have the same address and port, and let a log message come from one of them,
-- whose log file holds the entries with the ids 1 to n (or is missing, with n = 0) and can be
-- written, with fewer than 2 ^ 32 loggable entries. Then publishing its reception writes the entries
-- that continue the sequence behind the others in the client's log file, gives the ack of the last
-- one to the client's own socket, and changes nothing else, however many clients there are.
pub publish-log_payload :
    (deeper : Event → Server → Result Server) (json : Json) (junk : Junk) (id : ℕ)
    (info : ClientInfo) (before after : List (ℕ × ClientInfo)) (es vec : List LogEntry) (s : Server)
    → s.client_handlers ≡ before ++ (id, info) ∷ after
    → Unused info.client_ip info.client_port before
    → Unused info.client_ip info.client_port after
    → 0 < info.client_id
    → IsLog (s.store.content (client_log_file info)) es
    → All IsLogged vec
    → length vec < 2 ^ 32
    → length es + length vec < 2 ^ 64
    → s.store.writable (client_log_file info) ≡ true
    → publish deeper 2
        (subscribers json junk s.client_handlers)
        (network_recv info.client_ip info.client_port (log_payload vec))
        s
      ≡ ok (record s {
        store = store s.store (client_log_file info) (print_all (es ++ accepted (length es) vec));
        sending =
            s.sending
            ++ (info.client_socket, ack_payload (length (es ++ accepted (length es) vec))) ∷ [];
      })
unfolding publish subscribers run_callbacks publish_next user_input_handler send_output_to_client
publish-log_payload deeper json junk id info before after es vec s clients ub ua pos is_log logged
      short room w =
    ap (λ l. run_callbacks run (handlers junk run l) event s) clients
    ∙ run_others junk run info.client_ip info.client_port (log_payload vec) before
        ((id, info) ∷ after) s ub
    ∙ run_own junk run id info (log_payload vec) after s _ _ info.client_ip info.client_port _ ua
        (on_event-IsLog s.store info junk es vec is_log logged short room w).0
        (reply_sent deeper json junk id info before after _ _ clients ub pos)
  where
    run : Event → Server → Result Server
    run = publish deeper 1 (subscribers json junk s.client_handlers)

    event : Event
    event = network_recv info.client_ip info.client_port (log_payload vec)
