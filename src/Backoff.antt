-- ===== src/Backoff.antt =====
-- common/exponential_backoff.*: the delay in seconds before a call is tried again.
pub mod Delay
mod Examples
use remote_monitoring_tool.Prelude.{ℕ, ◌*◌, min, max}

-- The fields are ints, of which the program only makes positive ones; a product of a delay and the
-- multiplier has to fit an int, which the theorems say where it matters.
pub record ExponentialBackoff : Type 0 where
  pub start : ℕ
  pub stop : ℕ
  pub multipler : ℕ
  pub current_delay : ℕ

-- The constructors.
unfoldable pub create_default : ExponentialBackoff
create_default = record { start = 1; stop = 30; multipler = 2; current_delay = 1 }

unfoldable pub create : ℕ → ℕ → ℕ → ExponentialBackoff
create n_start n_stop n_multiplier = record {
  start = n_start;
  stop = n_stop;
  multipler = max n_multiplier 2;
  current_delay = n_start;
}

unfoldable pub success : ExponentialBackoff → ExponentialBackoff
success b = record b { current_delay = b.start }

-- The seconds that the call sleeps, and the new state.
unfoldable pub fail : ExponentialBackoff → ℕ × ExponentialBackoff
fail b = (b.current_delay, record b { current_delay = min (b.current_delay * b.multipler) b.stop })
