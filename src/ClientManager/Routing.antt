-- ===== src/ClientManager/Routing.antt =====
-- Messages go to the client that they are meant for.
use remote_monitoring_tool.Prelude.{
  ℕ, ◌<◌, ◌≡◌, ◌≢◌, ◌⊎◌, inl, inr, true, false, List, [], ◌∷◌, ◌++◌, Bytes, bytes_eq, ◌==◌, All,
  Bool-cases,
}
use remote_monitoring_tool.ClientHandler.{ClientInfo}
use remote_monitoring_tool.ClientManager.{Clients, get_client_info_from_ip_and_port}

-- No client has the address and the port.
abbrev pub Unused : Bytes → ℕ → List (ℕ × ClientInfo) → Type 0
Unused ip port =
    All (λ c. (bytes_eq c.1.client_ip ip ≡ false) ⊎ ((c.1.client_port == port) ≡ false))

-- Each id stands in the list once.
unfoldable pub AllDiffer : List (ℕ × ClientInfo) → Type 0
AllDiffer [] = Unit
AllDiffer (h ∷ hs) = All (λ g. g.0 ≢ h.0) hs × AllDiffer hs

-- Different ids from 1 on, each below the next one, under which the clients stand.
abbrev pub HasIds : Clients → Type 0
HasIds c =
    (0 < c.next_id)
    × All (λ h. (0 < h.0) × (h.0 < c.next_id) × (h.1.client_id ≡ h.0)) c.handlers
    × AllDiffer c.handlers

pub get_info-append :
    (ip : Bytes) (port : ℕ) (id : ℕ) (info : ClientInfo) (clients after : List (ℕ × ClientInfo))
    → Unused ip port clients
    → bytes_eq info.client_ip ip ≡ true
    → (info.client_port == port) ≡ true
    → get_client_info_from_ip_and_port ip port (clients ++ (id, info) ∷ after) ≡ info
unfolding get_client_info_from_ip_and_port
get_info-append ip port id info [] after u hi hp = rw (hi, hp)
get_info-append ip port id info ((i, c) ∷ clients) after (inl f, u) hi hp =
    rw f (get_info-append ip port id info clients after u hi hp)
get_info-append ip port id info ((i, c) ∷ clients) after (inr f, u) hi hp =
    elim (Bool-cases (bytes_eq c.client_ip ip)) [
      | inl e ↦ rw (e, f) (get_info-append ip port id info clients after u hi hp)
      | inr e ↦ rw e (get_info-append ip port id info clients after u hi hp)
    ]

-- The client of a connection.
abbrev pub connected : Clients → ℕ → Bytes → ℕ → ClientInfo
connected c socket ip port = record {
  client_id = c.next_id;
  client_socket = socket;
  client_ip = ip;
  client_port = port;
}
