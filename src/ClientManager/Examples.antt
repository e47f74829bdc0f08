-- ===== src/ClientManager/Examples.antt =====
-- The server's clients at concrete inputs.
use remote_monitoring_tool.Prelude.{[], ◌∷◌}
use remote_monitoring_tool.Samples.{client}
use remote_monitoring_tool.ClientManager.{Clients}

abbrev one_client : Clients
one_client = record { next_id = 2; handlers = (1, client) ∷ [] }
