-- ===== src/Proc/Parentheses.antt =====
-- Skipping the name of a process, which stands in parentheses and may hold some.
use remote_monitoring_tool.Prelude.{
  ℕ, ◌+◌, ◌-◌, ◌<◌, ◌≡◌, ◌≢◌, Bool, true, false, ◌&&◌, some, [], ◌∷◌, ◌++◌, arith, Bytes, ◌==◌,
  if◌then◌else◌, ltb, Bool-cases, inl, inr, lt→ltb,
}
use remote_monitoring_tool.Proc.{skip_parentheses}

-- Whether the parentheses of a name are paired, from the number of open ones on.
unfoldable pub closes : ℕ → Bytes → Bool
closes open_para [] = open_para == 1
closes open_para (c ∷ s) =
    let more = closes (open_para + 1) s in
    let same = closes open_para s in
    let less = closes (open_para - 1) s in
    if c == b'(' then more else if c == b')' then ltb 1 open_para && less else same

pub skip_parentheses_lem :
    (open_para : ℕ) (name rest : Bytes)
    → 0 < open_para
    → closes open_para name ≡ true
    → skip_parentheses open_para (name ++ b')' ∷ rest) ≡ some rest
unfolding skip_parentheses closes
skip_parentheses_lem open_para [] rest h e = ground arith
skip_parentheses_lem open_para (c ∷ s) rest h e = elim (Bool-cases (c == b'(')) [
  | inl p ↦ rw p (skip_parentheses_lem (open_para + 1) s rest (omega arith) (rw p at e))
  | inr p ↦ elim (Bool-cases (c == b')')) [
    | inl q ↦ elim (Bool-cases (ltb 1 open_para)) [
      | inl r ↦
          rw (p, q, r) (skip_parentheses_lem (open_para - 1) s rest (above r) (rw (p, q, r) at e))
      | inr r ↦ absurd (false-ne-true (rw (p, q, r) at e))
    ]
    | inr q ↦
        rw (p, q, lt→ltb 0 open_para h) (skip_parentheses_lem open_para s rest h (rw (p, q) at e))
  ]
]
  where
    above : ltb 1 open_para ≡ true → 0 < open_para - 1
    above r = ground arith

    false-ne-true : false ≢ true
    false-ne-true e' = cc
