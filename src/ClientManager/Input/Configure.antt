-- ===== src/ClientManager/Input/Configure.antt =====
-- A configuration on its way from the server's user to a client.
use remote_monitoring_tool.Prelude.{
  ℕ, ◌+◌, ◌<◌, ◌^◌, ◌≡◌, ◌≢◌, refl, sym, ap, ◌∙◌, Bool, false, none, some, List, [], ◌∷◌, ◌++◌,
  arith, Bytes, codes, bytes_eq, bytes_eq→eq, ◌==◌, if◌then◌else◌, length, length-append, All,
  Bool-cases, inl, inr,
}
use remote_monitoring_tool.Result.{ok, err}
use remote_monitoring_tool.Assoc.{find_in}
use remote_monitoring_tool.Text.{decimal, split_at, starts_with}
use remote_monitoring_tool.Text.Decimal.{IsDigit, decimal-IsDigit}
use remote_monitoring_tool.Text.Lines.{Lacks, split_at_found}
use remote_monitoring_tool.Util.Ints.{str_to_int-decimal}
use remote_monitoring_tool.Wire.Numbers.{string-IsCodec}
use remote_monitoring_tool.Event.{network_send}
use remote_monitoring_tool.Disk.{Disk}
use remote_monitoring_tool.Config.{ConfigEntry, Json}
use remote_monitoring_tool.ClientHandler.{ClientInfo}
use remote_monitoring_tool.ClientManager.{
  at_colon, find_target, client_with, find_client_from_input,
}
use remote_monitoring_tool.ClientManager.Input.{
  Answer, send_text, send_parsed, send_file, for_client, on_input,
}
use remote_monitoring_tool.Client.Configured.Received.{config_payload}

IsDigit-Lacks : (s : Bytes) → All IsDigit s → Lacks b':' s
IsDigit-Lacks [] h = tt
IsDigit-Lacks (c ∷ s) (hc, h) = (λ e. omega arith, IsDigit-Lacks s h)

-- The line for a client.
abbrev pub line_for : ℕ → Bytes → Bytes
line_for id message = decimal id ++ b':' ∷ message

split_line :
    (id : ℕ) (message : Bytes) → split_at b':' (line_for id message) ≡ (decimal id, some message)
split_line id message =
    split_at_found b':' (decimal id) message (IsDigit-Lacks (decimal id) (decimal-IsDigit id))

line-ne-exit : (id : ℕ) (message : Bytes) → bytes_eq (line_for id message) (codes "exit") ≡ false
line-ne-exit id message = elim (Bool-cases (bytes_eq (line_for id message) (codes "exit"))) [
  | inl h ↦ absurd (
      some-ne-none (
        sym (ap (λ r. r.1) (split_line id message))
        ∙ ap (λ s. (split_at b':' s).1) (bytes_eq→eq _ _ h)
        ∙ exit_line))
  | inr h ↦ h
]
  where
    exit_line : (split_at b':' (codes "exit")).1 ≡ none
    exit_line = unfold split_at in refl

    some-ne-none : some message ≢ none
    some-ne-none e = cc

-- The client of a line, by its id, and the message behind the colon.
pub find_client-line_for :
    (id : ℕ) (message : Bytes) (clients : List (ℕ × ClientInfo)) (info : ClientInfo)
    → id < 2 ^ 31
    → find_in ◌==◌ id clients ≡ some info
    → find_client_from_input (line_for id message) clients ≡ some (info, message)
unfolding find_client_from_input at_colon find_target client_with
find_client-line_for id message clients info h found =
    ap (λ r. at_colon r clients) (split_line id message)
    ∙ ap (λ r. find_target r message clients) (str_to_int-decimal id h)
    ∙ ap (λ o. some (client_with o message)) found

abbrev silent : Bool → Answer
silent running = record { is_running = running; published = none }

config_line :
    (json : Json) (d : Disk) (clients : List (ℕ × ClientInfo)) (id : ℕ) (info : ClientInfo)
    (file : Bytes) (running : Bool)
    → id < 2 ^ 31
    → find_in ◌==◌ id clients ≡ some info
    → 0 < info.client_id
    → on_input json d clients (line_for id (codes "config " ++ file)) running
      ≡ some (send_file json info running (d.content file))
unfolding on_input for_client starts_with
config_line json d clients id info file running h found pos =
    ap
      (λ b.
        if b
        then some (record { is_running = false; published = none })
        else for_client json d running (find_client_from_input line clients))
      (line-ne-exit id (codes "config " ++ file))
    ∙ ap (for_client json d running)
        (find_client-line_for id (codes "config " ++ file) clients info h found)
    ∙ rw not_zero
  where
    line : Bytes
    line = line_for id (codes "config " ++ file)

    not_zero : (info.client_id == 0) ≡ false
    not_zero = ground arith

-- Let a client stand under a positive id. On the line with its id, a colon, `config ` and a file's
-- name, the server sends the text of the file, if it parses and has less than 4 GiB, to that
-- client's address and port. If the file is missing or does not parse, nothing is sent. In all
-- cases the server goes on.
pub on_input-line_for :
    (json : Json) (d : Disk) (clients : List (ℕ × ClientInfo)) (id : ℕ) (info : ClientInfo)
    (file : Bytes) (running : Bool)
    → id < 2 ^ 31
    → find_in ◌==◌ id clients ≡ some info
    → 0 < info.client_id
    → ((text : Bytes) (entries : List ConfigEntry)
        → d.content file ≡ some text
        → json.parse text ≡ ok entries
        → length text + 7 < 2 ^ 32
        → on_input json d clients (line_for id (codes "config " ++ file)) running
          ≡ some (record {
            is_running = running;
            published = some (network_send info.client_ip info.client_port (config_payload text));
          }))
      × ((text : Bytes) (e : _)
          → d.content file ≡ some text
          → json.parse text ≡ err e
          → on_input json d clients (line_for id (codes "config " ++ file)) running
            ≡ some (record { is_running = running; published = none }))
      × (d.content file ≡ none
          → on_input json d clients (line_for id (codes "config " ++ file)) running
            ≡ some (record { is_running = running; published = none }))
unfolding send_file send_parsed send_text
on_input-line_for json d clients id info file running h found pos =
    let line = config_line json d clients id info file running h found pos in
    (
      λ text entries there parsed short.
          line
          ∙ rw (
            there,
            parsed,
            string-IsCodec.writes [] (codes "config " ++ text)
                (omega (arith, length-append (codes "config ") text)),
          ),
      λ text e there failed. line ∙ rw (there, failed),
      λ missing. line ∙ rw missing,
    )
