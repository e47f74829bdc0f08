-- ===== src/InputHandler.antt =====
-- common/input_handler.cpp: the lines of standard input, each published on the event bus.
use remote_monitoring_tool.Prelude.{List, [], ◌∷◌, Bytes}
use remote_monitoring_tool.Result.{Result, ok, ◌>>=◌}
use remote_monitoring_tool.Event.{Event, input}

-- The thread, for the lines up to the end of the input. An empty line is skipped.
module _ {S : Type 0} (publish : Event → S → Result S) where
  unfoldable pub do_input_indefinitely : List Bytes → S → Result S
  do_input_indefinitely [] s = ok s
  do_input_indefinitely ([] ∷ lines) s = do_input_indefinitely lines s
  do_input_indefinitely ((c ∷ line) ∷ lines) s = do
    s' ← publish (input (c ∷ line)) s
    do_input_indefinitely lines s'
