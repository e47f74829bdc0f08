-- ===== src/Arguments/Examples.antt =====
-- Command lines of the server.
use remote_monitoring_tool.Prelude.{ℕ, ◌≡◌, refl, some, [], ◌∷◌, codes, arith}
use remote_monitoring_tool.Util.{str_to_int}
use remote_monitoring_tool.Text.{starts_with}
use remote_monitoring_tool.Arguments.{server_argument, server_arguments, server_invalid}
use remote_monitoring_tool.Arguments.Ports.{IsPort, is_readable, server_arguments-IsPort}

-- A port that is too low is passed over.
chosen_port :
    server_arguments (codes "--server-port=8080" ∷ codes "--server-port=80" ∷ []) 12345 ≡ some 8080
unfolding server_arguments server_argument server_invalid starts_with str_to_int
chosen_port = refl

server_arguments-IsPort_example :
    (chosen : ℕ) × (server_arguments
        (codes "--server-port=8080" ∷ codes "--server-port=80" ∷ [])
        12345
      ≡ some chosen)
    × IsPort 1024 chosen
unfolding is_readable starts_with str_to_int
server_arguments-IsPort_example =
    server_arguments-IsPort (codes "--server-port=8080" ∷ codes "--server-port=80" ∷ []) 12345
      (refl, (refl, tt)) (omega arith, omega arith)
