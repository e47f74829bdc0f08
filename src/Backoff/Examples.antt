-- ===== src/Backoff/Examples.antt =====
-- Delays at concrete inputs.
use remote_monitoring_tool.Prelude.{◌*◌, ◌^◌, ◌≤◌, ◌≡◌, min, max, arith}
use remote_monitoring_tool.Backoff.{create, success, fail}
use remote_monitoring_tool.Backoff.Delay.{after_fails, fail-after_fails}

fail-after_fails_example :
    ((fail (after_fails 3 (create 1 10 2))).0 ≡ min (1 * max 2 2 ^ 3) 10)
    × ((after_fails 3 (create 1 10 2)).current_delay * (after_fails 3 (create 1 10 2)).multipler
        ≤ 10 * max 2 2)
    × (success (after_fails 3 (create 1 10 2)) ≡ create 1 10 2)
fail-after_fails_example = fail-after_fails 3 1 10 2 (omega arith)
