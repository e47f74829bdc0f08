-- ===== src/Result.antt =====
-- The errors that the program raises, and the result of code that may raise one. The errors that
-- carry a text in the source (`std::runtime_error("read failed")`) are constructors here.

pub data Error : Type 0 where
  read_failed string_too_large send_failed recv_failed parse_failed out_of_range terminated : Error

pub data Result {ℓ} (R : Type ℓ) : Type ℓ where
  err : Error → Result R
  ok : R → Result R

-- The rest of a call's statements, which an exception skips.
infixl 5 ◌>>=◌
abbrev pub ◌>>=◌ {ℓ κ} : {R : Type ℓ} {S : Type κ} → Result R → (R → Result S) → Result S
err thrown >>= rest = err thrown
ok value >>= rest = rest value
