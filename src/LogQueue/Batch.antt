-- ===== src/LogQueue/Batch.antt =====
-- The batch that is sent: the front of the queue.
use native.Mathlib.Nat.{min-eq_left}
use remote_monitoring_tool.Prelude.{
  ℕ, zero, suc, ◌%◌, ◌^◌, ◌≤◌, ◌<◌, ◌≡◌, refl, sym, ap, ◌∙◌, min, some, List, [], ◌∷◌, ◌++◌,
  append_assoc, arith, length, length-append, get_elem?-append_length, take, take_all, inl, inr,
  leb, leb→le, leb-false→lt, Bool-cases,
}
use mathlib.Core.Path.{ap₂}
use remote_monitoring_tool.LogEntry.{LogEntry}
use remote_monitoring_tool.LogQueue.{LogQueue, push_front, peek, batch_of, get_batch_log}

peek-take :
    (rounds : ℕ) (pre entries : List LogEntry)
    → rounds ≤ length entries
    → peek rounds (length pre) (pre ++ entries) ≡ some (take rounds entries)
unfolding peek push_front
peek-take zero pre entries h = refl
peek-take (suc rounds) pre [] h = absurd (omega arith)
peek-take (suc rounds) pre (e ∷ es) h = ap₂ push_front (get_elem?-append_length pre es e) (
    ap₂ (peek rounds) (sym (length-append pre (e ∷ []))) (sym (append_assoc pre (e ∷ []) es))
    ∙ peek-take rounds (pre ++ e ∷ []) es (omega arith))

-- get_batch_log never throws, and gives at most `batch_size` entries from the front of the queue,
-- without taking them off.
pub get_batch_log-take :
    (q : LogQueue) (batch_size : ℕ)
    → get_batch_log q batch_size
      ≡ some (take (min batch_size (length q.log_entries % 2 ^ 32)) q.log_entries)
unfolding get_batch_log batch_of
get_batch_log-take q batch_size = go q.log_entries
  where
    go :
        (es : List LogEntry)
        → batch_of es batch_size ≡ some (take (min batch_size (length es % 2 ^ 32)) es)
    go [] = ap some (sym (take_all _ [] (omega arith)))
    go (e ∷ es) = peek-take _ [] (e ∷ es) (omega arith)

take-min : (n : ℕ) (es : List LogEntry) → take (min n (length es)) es ≡ take n es
take-min n es = elim (Bool-cases (leb n (length es))) [
  | inl h ↦ ap (λ (k : ℕ). take k es) (min-eq_left (leb→le n (length es) h))
  | inr h ↦
      take_all (min n (length es)) es (omega (arith, leb-false→lt n (length es) h))
      ∙ sym (take_all n es (omega (arith, leb-false→lt n (length es) h)))
]

-- In a queue of fewer than 2 ^ 32 entries, get_batch_log does not throw, and gives the first
-- `batch_size` entries, or all of them where there are fewer.
pub get_batch_log_small :
    (q : LogQueue) (batch_size : ℕ)
    → length q.log_entries < 2 ^ 32
    → get_batch_log q batch_size ≡ some (take batch_size q.log_entries)
get_batch_log_small q batch_size h =
    get_batch_log-take q batch_size
    ∙ ap (λ (n : ℕ). some (take (min batch_size n) q.log_entries)) (omega arith)
    ∙ ap some (take-min batch_size q.log_entries)
