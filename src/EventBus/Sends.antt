-- ===== src/EventBus/Sends.antt =====
-- Results of subscribers that publish nothing but messages to be sent.
use remote_monitoring_tool.Prelude.{
  ℕ, ◌<◌, ◌≡◌, subst, Bool, true, false, Option, none, some, arith, Bytes, if◌then◌else◌,
}
use remote_monitoring_tool.Result.{Result, ok, err, ◌>>=◌}
use remote_monitoring_tool.Event.{Event, input, network_send, network_recv}

-- Messages to be sent have the lowest rank.
abbrev pub rank : Event → ℕ
rank (input payload) = 1
rank (network_send ip port payload) = 0
rank (network_recv ip port payload) = 1

abbrev pub IsSend : Option Event → Type 0
IsSend none = Unit
IsSend (some event) = rank event < 1

module _ {A : Type 0} where
  unfoldable pub Sends : Result (A × Option Event) → Type 0
  Sends (err e) = Unit
  Sends (ok r) = IsSend r.1

  pub silent-Sends : (a : A) → Sends (ok (a, none))
  unfolding Sends
  silent-Sends a = tt

  pub send-Sends :
      (a : A) (ip : Bytes) (port : ℕ) (payload : Bytes)
      → Sends (ok (a, some (network_send ip port payload)))
  unfolding Sends
  send-Sends a ip port payload = omega arith

  pub bind-Sends :
      {B : Type 0} (r : Result B) (f : B → Result (A × Option Event))
      → ((b : B) → Sends (f b))
      → Sends (r >>= f)
  unfolding Sends
  bind-Sends (err e) f h = tt
  bind-Sends (ok b) f h = h b

  pub if-Sends :
      (b : Bool) (x y : Result (A × Option Event)) → Sends x → Sends y → Sends (if b then x else y)
  if-Sends true x y h k = h
  if-Sends false x y h k = k

  -- What is published has a low rank.
  pub Sends-rank :
      (r : Result (A × Option Event)) (a : A) (next : Event)
      → Sends r
      → r ≡ ok (a, some next)
      → rank next < 1
  unfolding Sends
  Sends-rank r a next h e = subst Sends e h
