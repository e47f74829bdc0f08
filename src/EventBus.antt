-- ===== src/EventBus.antt =====
-- common/event_bus.*: publish runs the subscribers one after the other, in place, and a subscriber
-- may publish in turn. A subscriber is a function of the event and the state; it gives the new state
-- and the event that it publishes last, if any. Subscribing appends.
pub mod Ranked
pub mod Sends
use remote_monitoring_tool.Prelude.{ℕ, zero, suc, Option, none, some, List, [], ◌∷◌, ◌++◌}
use remote_monitoring_tool.Result.{Result, ok, err, ◌>>=◌}
use remote_monitoring_tool.Event.{Event}

abbrev pub Callback : Type 0 → Type 0
Callback S = Event → S → Result (S × Option Event)

module _ {S : Type 0} where
  unfoldable pub subscribe : Callback S → List (Callback S) → List (Callback S)
  subscribe cb subscribers = subscribers ++ cb ∷ []

  -- The event that a callback publishes.
  unfoldable pub publish_next : (Event → S → Result S) → S × Option Event → Result S
  publish_next publish (s, none) = ok s
  publish_next publish (s, some event) = publish event s

  -- `for (auto& cb : copy) cb(event);`
  unfoldable pub run_callbacks : (Event → S → Result S) → List (Callback S) → Event → S → Result S
  unfolding publish_next
  run_callbacks publish [] event s = ok s
  run_callbacks publish (cb ∷ cbs) event s = do
    r ← cb event s
    s' ← publish_next publish r
    run_callbacks publish cbs event s'

  -- The fuel is the depth of the calls; `deeper` stands for those behind it.
  unfoldable pub publish : (Event → S → Result S) → ℕ → List (Callback S) → Event → S → Result S
  publish deeper zero subscribers event s = deeper event s
  publish deeper (suc fuel) subscribers event s =
      run_callbacks (publish deeper fuel subscribers) subscribers event s
