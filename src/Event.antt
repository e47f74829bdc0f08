-- ===== src/Event.antt =====
-- common/event.hpp, input_event.*, network_event.*: the events that the event bus carries.
use remote_monitoring_tool.Prelude.{ℕ, Bytes}

pub data Event : Type 0 where
  input : Bytes → Event
  network_send : Bytes → ℕ → Bytes → Event
  network_recv : Bytes → ℕ → Bytes → Event
