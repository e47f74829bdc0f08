-- ===== src/EventBus/Ranked.antt =====
-- Publishing ends where each subscriber publishes only events of a lower rank.
use remote_monitoring_tool.Prelude.{
  ℕ, zero, suc, ◌<◌, ◌≡◌, refl, ap, ◌∙◌, Option, none, some, List, [], ◌∷◌, arith, All,
}
use remote_monitoring_tool.Result.{Result, ok, err, ◌>>=◌}
use remote_monitoring_tool.Event.{Event}
use remote_monitoring_tool.EventBus.{Callback, publish_next, run_callbacks, publish}

module _ {S : Type 0} (rank : Event → ℕ) where
  -- What a callback publishes for an event has a lower rank.
  unfoldable pub IsRanked : Callback S → Type 0
  IsRanked cb =
      (event : Event) (s s' : S) (next : Event)
      → cb event s ≡ ok (s', some next)
      → rank next < rank event

  next_same :
      (p q : Event → S → Result S) (n : ℕ)
      → ((event : Event) (s : S) → rank event < n → p event s ≡ q event s)
      → (r : S × Option Event) → ((event : Event) → r.1 ≡ some event → rank event < n)
      → publish_next p r ≡ publish_next q r
  unfolding publish_next
  next_same p q n same (s, none) h = refl
  next_same p q n same (s, some event) h = same event s (h event refl)

  run_same :
      (p q : Event → S → Result S) (event : Event)
      → ((next : Event) (s : S) → rank next < rank event → p next s ≡ q next s)
      → (cbs : List (Callback S)) → All IsRanked cbs
      → (s : S) → run_callbacks p cbs event s ≡ run_callbacks q cbs event s
  unfolding run_callbacks IsRanked
  run_same p q event same [] h s = refl
  run_same p q event same (cb ∷ cbs) (hc, h) s =
      after (cb event s) refl (run_same p q event same cbs h)
    where
      paired : S → Option Event → Result (S × Option Event)
      paired s' o = ok (s', o)

      bind_same :
          (r : Result S) (f g : S → Result S) → ((s' : S) → f s' ≡ g s') → (r >>= f) ≡ (r >>= g)
      bind_same (err e) f g e' = refl
      bind_same (ok s') f g e' = e' s'

      after :
          (r : Result (S × Option Event))
          → cb event s ≡ r
          → ((s' : S) → run_callbacks p cbs event s' ≡ run_callbacks q cbs event s')
          → (r >>= λ t. publish_next p t >>= run_callbacks p cbs event)
            ≡ (r >>= λ t. publish_next q t >>= run_callbacks q cbs event)
      after (err e) is rest = refl
      after (ok t) is rest =
          ap (λ r. r >>= run_callbacks p cbs event)
            (next_same p q (rank event) same t
              (λ next e. hc event s t.0 next (is ∙ ap (paired t.0) e)))
          ∙ bind_same (publish_next q t) (run_callbacks p cbs event) (run_callbacks q cbs event)
              rest

  -- Let the events that a subscriber publishes have a lower rank than the one that it gets. Then
  -- publish ends, with calls nested no deeper than the rank of the event and one: with more fuel
  -- than the rank no call is behind the fuel, so that the result is the same whatever such calls
  -- would give, and however much fuel there is.
  pub publish-IsRanked :
      (p q : Event → S → Result S) (f g : ℕ) (subscribers : List (Callback S)) (event : Event)
      (s : S)
      → All IsRanked subscribers
      → rank event < f
      → rank event < g
      → publish p f subscribers event s ≡ publish q g subscribers event s
  unfolding publish
  publish-IsRanked p q zero g subscribers event s h lt lt' = absurd (omega arith)
  publish-IsRanked p q (suc f) zero subscribers event s h lt lt' = absurd (omega arith)
  publish-IsRanked p q (suc f) (suc g) subscribers event s h lt lt' =
      run_same (publish p f subscribers) (publish q g subscribers) event
        (λ next s' lower.
          publish-IsRanked p q f g subscribers next s' h (omega arith) (omega arith))
        subscribers h s
