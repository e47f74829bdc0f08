-- ===== src/Backoff/Delay.antt =====
-- The delays of consecutive failures.
use native.Mathlib.Nat.{
  pow-zero, pow-succ', one-le-pow, min-eq_left, min-eq_right, le-mul_of_pos_right, mul-le-mul_right,
  le_trans, mul_assoc, min-le_right,
}
use remote_monitoring_tool.Prelude.{
  ℕ, zero, suc, ◌*◌, ◌^◌, ◌≤◌, ◌<◌, ◌≡◌, refl, sym, ap, ◌∙◌, min, max, arith, leb, leb→le,
  leb-false→lt, Bool-cases, inl, inr,
}
use remote_monitoring_tool.Backoff.{ExponentialBackoff, create, success, fail}

-- The state after n failures in a row.
unfoldable pub after_fails : ℕ → ExponentialBackoff → ExponentialBackoff
after_fails zero b = b
after_fails (suc n) b = after_fails n (fail b).1

-- A delay that was cut off stays cut off.
min-cut : (x y p : ℕ) → 0 < y → min (min x p * y) p ≡ min (x * y) p
min-cut x y p h = elim (Bool-cases (leb x p)) [
  | inl e ↦ ap (λ (z : ℕ). min (z * y) p) (min-eq_left (leb→le x p e))
  | inr e ↦
      ap (λ (z : ℕ). min (z * y) p) (min-eq_right (lt→le (leb-false→lt x p e)))
      ∙ min-eq_right (le-mul_of_pos_right p h)
      ∙ sym (
          min-eq_right
            (le_trans (le-mul_of_pos_right p h) (mul-le-mul_right y (lt→le (leb-false→lt x p e)))))
]
  where
    lt→le : {a b : ℕ} → a < b → a ≤ b
    lt→le lt = omega arith

after_fails_lem :
    (n : ℕ) (b : ExponentialBackoff)
    → 0 < b.multipler
    → min (after_fails n b).current_delay b.stop ≡ min (b.current_delay * b.multipler ^ n) b.stop
unfolding after_fails fail
after_fails_lem zero b h = ap (λ (x : ℕ). min x b.stop) (rw pow-zero (omega arith))
after_fails_lem (suc n) b h =
    after_fails_lem n _ h
    ∙ min-cut (b.current_delay * b.multipler) (b.multipler ^ n) b.stop (one-le-pow n b.multipler h)
    ∙ ap (λ (x : ℕ). min x b.stop) (rw pow-succ' (mul_assoc b.current_delay b.multipler _))

-- Failures keep the fixed fields, and a delay of at most `stop`.
record IsSteady (start stop multipler : ℕ) (b : ExponentialBackoff) : Type 0 where
  start_kept : b.start ≡ start
  stop_kept : b.stop ≡ stop
  multipler_kept : b.multipler ≡ multipler
  bounded : b.current_delay ≤ stop

after_fails-IsSteady :
    (start stop multipler n : ℕ) (b : ExponentialBackoff)
    → IsSteady start stop multipler b
    → IsSteady start stop multipler (after_fails n b)
unfolding after_fails fail
after_fails-IsSteady start stop multipler zero b h = h
after_fails-IsSteady start stop multipler (suc n) b h =
    after_fails-IsSteady start stop multipler n _ (record {
      start_kept = h.start_kept;
      stop_kept = h.stop_kept;
      multipler_kept = h.multipler_kept;
      bounded = le_trans (min-le_right _ b.stop) (omega (arith, h.stop_kept));
    })

-- Let a backoff start at a delay of at most `stop`. After n failures in a row the next failure
-- sleeps min(start * m ^ n, stop) seconds, where m is the multiplier but at least 2; the product
-- that the next delay is cut from is at most stop * m, so that no int overflows where that one
-- fits; and a success brings the first state back.
pub fail-after_fails :
    (n n_start n_stop n_multiplier : ℕ)
    → n_start ≤ n_stop
    → ((fail (after_fails n (create n_start n_stop n_multiplier))).0
        ≡ min (n_start * max n_multiplier 2 ^ n) n_stop)
      × ((after_fails n (create n_start n_stop n_multiplier)).current_delay
            * (after_fails n (create n_start n_stop n_multiplier)).multipler
          ≤ n_stop * max n_multiplier 2)
      × (success (after_fails n (create n_start n_stop n_multiplier))
          ≡ create n_start n_stop n_multiplier)
unfolding fail success create
fail-after_fails n n_start n_stop n_multiplier le = (
  sym (min-eq_left steady.bounded)
      ∙ after_fails_lem n (create n_start n_stop n_multiplier) (omega arith),
  rw (steady.multipler_kept) (mul-le-mul_right (max n_multiplier 2) steady.bounded),
  rw (steady.start_kept, steady.stop_kept, steady.multipler_kept),
)
  where
    b : ExponentialBackoff
    b = after_fails n (create n_start n_stop n_multiplier)

    steady : IsSteady n_start n_stop (max n_multiplier 2) b
    steady =
        after_fails-IsSteady n_start n_stop (max n_multiplier 2) n _
          (record { start_kept = refl; stop_kept = refl; multipler_kept = refl; bounded = le })
