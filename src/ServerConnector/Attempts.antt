-- ===== src/ServerConnector/Attempts.antt =====
-- What the connector does in a row of failures.
use mathlib.Core.List.{append-nil}
use remote_monitoring_tool.Prelude.{
  ℕ, zero, suc, ◌+◌, ◌*◌, ◌^◌, ◌≤◌, ◌≡◌, refl, sym, ap, ◌∙◌, true, false, List, [], ◌∷◌, ◌++◌, min,
  max, length, arith, Option, none, some,
}
use remote_monitoring_tool.Backoff.{ExponentialBackoff, create, fail}
use remote_monitoring_tool.Backoff.Delay.{after_fails, fail-after_fails}
use remote_monitoring_tool.Socket.{Socket}
use remote_monitoring_tool.ServerConnector.{
  ServerConnector, Attempt, accepted, refused, no_socket, Reconnecting, reconnect, reconnect_unless,
  after_attempt, try_connect, connect_unless, attempt_connect,
}

-- An attempt that fails: without a socket, or with a socket that connect() refuses.
failure : Option Socket → Attempt
failure none = no_socket
failure (some s) = refused s

unfoldable pub failures : List (Option Socket) → List Attempt
unfolding failure
failures [] = []
failures (o ∷ os) = failure o ∷ failures os

-- The seconds to be slept in n failures in a row, the latest first.
unfoldable pub delays : ℕ → ℕ → ℕ → ℕ → List ℕ
delays n_start n_stop n_multiplier zero = []
delays n_start n_stop n_multiplier (suc n) =
    min (n_start * max n_multiplier 2 ^ n) n_stop ∷ delays n_start n_stop n_multiplier n

after_fails-suc :
    (n : ℕ) (b : ExponentialBackoff) → (fail (after_fails n b)).1 ≡ after_fails (suc n) b
unfolding after_fails
after_fails-suc zero b = refl
after_fails-suc (suc n) b = after_fails-suc n (fail b).1

-- reconnect_indefinitely behind its first line, without a connection.
abbrev pub disconnected : ServerConnector → ℕ → ℕ → ℕ → Reconnecting
disconnected c n_start n_stop n_multiplier = record {
  connector = record c { is_connected = false };
  backoff = create n_start n_stop n_multiplier;
  sleeps = [];
}

module _ (c : ServerConnector) (n_start n_stop n_multiplier : ℕ) (le : n_start ≤ n_stop) where
  -- The state after k failures.
  waiting : ℕ → Socket → Reconnecting
  waiting k s = record {
    connector = record c { client_socket = s; is_connected = false };
    backoff = after_fails k (create n_start n_stop n_multiplier);
    sleeps = delays n_start n_stop n_multiplier k;
  }

  connected : Socket → List ℕ → Reconnecting
  connected s sleeps = record {
    connector = record c { client_socket = s; is_connected = true };
    backoff = create n_start n_stop n_multiplier;
    sleeps = sleeps;
  }

  slept_once :
      (k : ℕ) (s : Socket)
      → record {
        connector = record c { client_socket = s; is_connected = false };
        backoff = (fail (after_fails k (create n_start n_stop n_multiplier))).1;
        sleeps =
            (fail (after_fails k (create n_start n_stop n_multiplier))).0
            ∷ delays n_start n_stop n_multiplier k;
      }
        ≡ waiting (suc k) s
  unfolding waiting delays
  slept_once k s =
      rw
        (
          after_fails-suc k (create n_start n_stop n_multiplier),
          (fail-after_fails k n_start n_stop n_multiplier le).0,
        )
        refl

  reconnect_fails :
      (os : List (Option Socket)) (rest : List Attempt) (k : ℕ) (s : Socket)
      → (s' : Socket) × (reconnect (failures os ++ rest) (waiting k s)
          ≡ reconnect rest (waiting (k + length os) s'))
  unfolding reconnect reconnect_unless after_attempt try_connect connect_unless attempt_connect
      failures failure waiting
  reconnect_fails [] rest k s =
      let same : k ≡ k + 0 = omega arith in (s, ap (λ n. reconnect rest (waiting n s)) same)
  reconnect_fails (none ∷ os) rest k s =
      let (s', e) = reconnect_fails os rest (suc k) s in
      let same : suc k + length os ≡ k + suc (length os) = omega arith in
      (
        s',
        ap (reconnect (failures os ++ rest)) (slept_once k s)
            ∙ e
            ∙ ap (λ n. reconnect rest (waiting n s')) same,
      )
  reconnect_fails (some t ∷ os) rest k s =
      let (s', e) = reconnect_fails os rest (suc k) t in
      let same : suc k + length os ≡ k + suc (length os) = omega arith in
      (
        s',
        ap (reconnect (failures os ++ rest)) (slept_once k t)
            ∙ e
            ∙ ap (λ n. reconnect rest (waiting n s')) same,
      )

  stays :
      (s : Socket) (sleeps : List ℕ) (attempts : List Attempt)
      → reconnect attempts (connected s sleeps) ≡ connected s sleeps
  unfolding reconnect reconnect_unless connected
  stays s sleeps [] = refl
  stays s sleeps (a ∷ attempts) = stays s sleeps attempts

  connects :
      (s s' : Socket) (k : ℕ) (more : List Attempt)
      → reconnect (accepted s ∷ more) (waiting k s')
        ≡ reconnect more (connected s (delays n_start n_stop n_multiplier k))
  unfolding reconnect reconnect_unless after_attempt try_connect connect_unless attempt_connect
      waiting connected
  connects s s' k more =
      ap
        (λ b. reconnect more (record {
          connector = record c { client_socket = s; is_connected = true };
          backoff = b;
          sleeps = delays n_start n_stop n_multiplier k;
        }))
        (fail-after_fails k n_start n_stop n_multiplier le).2

  -- Let there be no connection and the backoff be new, with a start of at most its stop, and let
  -- attempts fail, each for want of a socket or by a refused connect(), before one succeeds. Then
  -- there is no connection after the failures; after the success the connector is connected by the
  -- socket of that attempt and otherwise as it was, and the backoff is as new; the sleep behind the
  -- i-th failure, counted from 0, was min(start * m ^ i, stop) seconds, where m is the multiplier but
  -- at least 2; and further attempts are not made.
  pub reconnect-accepted :
      (os : List (Option Socket)) (s : Socket) (more : List Attempt)
      → ((reconnect
            (failures os)
            (disconnected c n_start n_stop n_multiplier)).connector.is_connected
          ≡ false)
        × (reconnect (failures os ++ accepted s ∷ more) (disconnected c n_start n_stop n_multiplier)
            ≡ record {
              connector = record c { client_socket = s; is_connected = true };
              backoff = create n_start n_stop n_multiplier;
              sleeps = delays n_start n_stop n_multiplier (length os);
            })
  unfolding waiting connected after_fails delays
  reconnect-accepted os s more =
      let (s1, e1) = reconnect_fails os [] 0 c.client_socket in
      let (s2, e2) = reconnect_fails os (accepted s ∷ more) 0 c.client_socket in
      let same : 0 + length os ≡ length os = omega arith in
      (
        ap (λ l. (reconnect l (waiting 0 c.client_socket)).connector.is_connected)
              (sym (append-nil (failures os)))
            ∙ ap (λ r. r.connector.is_connected) e1
            ∙ (unfold reconnect in refl),
        e2
            ∙ connects s s2 (0 + length os) more
            ∙ stays s (delays n_start n_stop n_multiplier (0 + length os)) more
            ∙ ap (λ n. connected s (delays n_start n_stop n_multiplier n)) same,
      )
