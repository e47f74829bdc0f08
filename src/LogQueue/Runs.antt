-- ===== src/LogQueue/Runs.antt =====
-- Entries in sequence, as get_new_id numbers them.
use remote_monitoring_tool.Prelude.{
  ℕ, suc, ◌+◌, ◌<◌, ◌≡◌, subst, List, [], ◌∷◌, ◌++◌, arith, All, length,
}
use remote_monitoring_tool.LogEntry.{LogEntry}

-- Ids that rise by one from entry to entry.
abbrev pub Run : ℕ → List LogEntry → Type 0
Run from [] = Unit
Run from (e ∷ es) = (e.id ≡ from) × Run (suc from) es

pub Run-above : (from n : ℕ) (es : List LogEntry) → n < from → Run from es → All (λ e. n < e.id) es
Run-above from n [] lt h = tt
Run-above from n (e ∷ es) lt (he, h) = (omega arith, Run-above (suc from) n es (omega arith) h)

pub Run-append :
    (from : ℕ) (es fs : List LogEntry)
    → Run from es
    → Run (from + length es) fs
    → Run from (es ++ fs)
Run-append from [] fs h k = subst (λ n. Run n fs) (omega arith) k
Run-append from (e ∷ es) fs (he, h) k =
    (he, Run-append (suc from) es fs h (subst (λ n. Run n fs) (omega arith) k))

pub Run-append_right :
    (from : ℕ) (es fs : List LogEntry) → Run from (es ++ fs) → Run (from + length es) fs
Run-append_right from [] fs h = subst (λ n. Run n fs) (omega arith) h
Run-append_right from (e ∷ es) fs (he, h) =
    subst (λ n. Run n fs) (omega arith) (Run-append_right (suc from) es fs h)
