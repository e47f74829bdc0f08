-- ===== src/Protocol/Prefix.antt =====
-- The server's log stays a front part of what the client made.
use remote_monitoring_tool.Prelude.{
  ℕ, zero, suc, ◌+◌, ◌≤◌, ◌≡◌, refl, sym, ap, subst, ◌∙◌, List, [], ◌∷◌, ◌++◌, append-nil,
  append_assoc, arith, length, length-append, take, take-length-append, ◌==◌, ==_iff, Bool-cases,
  inl, inr,
}
use remote_monitoring_tool.LogEntry.{LogEntry}
use remote_monitoring_tool.LogQueue.Runs.{Run}
use remote_monitoring_tool.ClientHandler.Accepted.{accepted}

pub Run-id :
    (from : ℕ) (pre : List LogEntry) (e : LogEntry) (post : List LogEntry)
    → Run from (pre ++ e ∷ post)
    → e.id ≡ from + length pre
Run-id from [] e post (he, h) = omega arith
Run-id from (p ∷ pre) e post (hp, h) = omega (arith, Run-id (suc from) pre e post h)

pub take-append_left {ℓ} :
    {A : Type ℓ} (n : ℕ) (xs ys : List A) → n ≤ length xs → take n (xs ++ ys) ≡ take n xs
take-append_left zero xs ys h = refl
take-append_left (suc n) [] ys h = absurd (omega arith)
take-append_left (suc n) (x ∷ xs) ys h = ap (λ r. x ∷ r) (take-append_left n xs ys (omega arith))

take-suc :
    (n : ℕ) (pre : List LogEntry) (e : LogEntry) (post : List LogEntry)
    → n ≡ length pre
    → take (suc n) (pre ++ e ∷ post) ≡ take n (pre ++ e ∷ post) ++ e ∷ []
take-suc n pre e post h =
    ap (λ g. take (suc n) g) (sym (append_assoc pre (e ∷ []) post))
    ∙ ap (λ (k : ℕ). take k ((pre ++ e ∷ []) ++ post)) len
    ∙ take-length-append (pre ++ e ∷ []) post
    ∙ ap (λ xs. xs ++ e ∷ []) (sym (take-length-append pre (e ∷ post)))
    ∙ ap (λ (k : ℕ). take k (pre ++ e ∷ post) ++ e ∷ []) (sym h)
  where
    len : suc n ≡ length (pre ++ e ∷ [])
    len = omega (arith, length-append pre (e ∷ []))

-- What the server takes from a part of the sequence, behind its first n entries, continues them.
pub take-accepted :
    (n : ℕ) (pre b post : List LogEntry)
    → Run 1 (pre ++ (b ++ post))
    → n ≤ length (pre ++ (b ++ post))
    → (take n (pre ++ (b ++ post)) ++ accepted n b
        ≡ take (n + length (accepted n b)) (pre ++ (b ++ post)))
      × (n + length (accepted n b) ≤ length (pre ++ (b ++ post)))
unfolding accepted
take-accepted n pre [] post run le = (
  append-nil _ ∙ ap (λ (k : ℕ). take k (pre ++ post)) {x = n} {y = n + 0} (omega arith),
  omega arith,
)
take-accepted n pre (e ∷ b) post run le = elim (Bool-cases (e.id == suc n)) [
  | inl t ↦ rw t (
      taken (omega (arith, Run-id 1 pre e (b ++ post) run, (==_iff e.id (suc n)).0 t))
        (λ k le''. take-accepted k (pre ++ e ∷ []) b post run' le''))
  | inr t ↦
      rw t (subst (Goal n (accepted n b)) moved (take-accepted n (pre ++ e ∷ []) b post run' le'))
]
  where
    moved : (pre ++ e ∷ []) ++ (b ++ post) ≡ pre ++ ((e ∷ b) ++ post)
    moved = append_assoc pre (e ∷ []) (b ++ post)

    Goal : ℕ → List LogEntry → List LogEntry → Type 0
    Goal k acc g = (take k g ++ acc ≡ take (k + length acc) g) × (k + length acc ≤ length g)

    run' : Run 1 ((pre ++ e ∷ []) ++ (b ++ post))
    run' = subst (Run 1) (sym moved) run

    le' : n ≤ length ((pre ++ e ∷ []) ++ (b ++ post))
    le' = omega (arith, ap length moved)

    taken :
        n ≡ length pre
        → ((k : ℕ)
            → k ≤ length ((pre ++ e ∷ []) ++ (b ++ post))
            → Goal k (accepted k b) ((pre ++ e ∷ []) ++ (b ++ post)))
        → Goal n (e ∷ accepted (suc n) b) (pre ++ ((e ∷ b) ++ post))
    taken h later =
        let rest : Goal (suc n) (accepted (suc n) b) (pre ++ ((e ∷ b) ++ post)) =
          subst (Goal (suc n) (accepted (suc n) b)) moved (
            later (suc n) (
              omega
                (arith, length-append (pre ++ e ∷ []) (b ++ post), length-append pre (e ∷ [])))) in
        (
          sym (append_assoc (take n _) (e ∷ []) (accepted (suc n) b))
              ∙ ap (λ xs. xs ++ accepted (suc n) b) (sym (take-suc n pre e (b ++ post) h))
              ∙ rest.0
              ∙ ap (λ (k : ℕ). take k (pre ++ ((e ∷ b) ++ post))) (omega arith),
          omega (arith, rest.1),
        )
