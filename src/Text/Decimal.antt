-- ===== src/Text/Decimal.antt =====
-- Printing a number in decimal and reading it back.
use mathlib.Core.Logic.{dif_pos, dif_neg}
use mathlib.Core.WellFounded.{Acc}
use native.Mathlib.Decide.{dec_lt}
use native.Mathlib.Bridge.{le_prop}
use native.Mathlib.Nat.{pow-suc}
use remote_monitoring_tool.Prelude.{
  ℕ, zero, suc, ◌+◌, ◌-◌, ◌*◌, ◌/◌, ◌%◌, ◌^◌, ◌≤◌, ◌<◌, ◌≡◌, ◌≢◌, refl, ap, ◌∙◌, true, false, [],
  ◌∷◌, ◌++◌, arith, Bytes, length, All, ◌==◌, Bool-cases, inl, inr, lt→ltb,
}
use remote_monitoring_tool.Text.{
  less_wf, fewer_digits, put_digits, decimal, digits_value, starts_with_digit, from_chars,
  extract_uint64,
}

abbrev pub IsDigit : ℕ → Type 0
IsDigit c = (b'0' ≤ c) × (c ≤ b'9')

-- Reading the digits in front of `out` gives back the number that they print.
digits_value-put_digits :
    (n : ℕ) (w : Acc ◌<◌ n) (out : Bytes) → digits_value (put_digits n w out) 0 ≡ digits_value out n
unfolding put_digits
digits_value-put_digits n (Acc.intro _ below) out = elim (dec_lt 0 n) [
  | yes h ↦ rw (dif_pos (dec_lt 0 n) le_prop h) (
      digits_value-put_digits (n / 10) (below (n / 10) (fewer_digits h)) ((n % 10 + b'0') ∷ out)
      ∙ last)
  | no h ↦ rw (dif_neg (dec_lt 0 n) h) (ap (digits_value out) (omega arith))
]
  where
    last : digits_value ((n % 10 + b'0') ∷ out) (n / 10) ≡ digits_value out n
    last = unfold digits_value in ground arith

put_digits-IsDigit :
    (n : ℕ) (w : Acc ◌<◌ n) (out : Bytes) → All IsDigit out → All IsDigit (put_digits n w out)
unfolding put_digits
put_digits-IsDigit n (Acc.intro _ below) out h = elim (dec_lt 0 n) [
  | yes p ↦ rw (dif_pos (dec_lt 0 n) le_prop p) (
      put_digits-IsDigit (n / 10) (below (n / 10) (fewer_digits p)) ((n % 10 + b'0') ∷ out)
        ((omega arith, omega arith), h))
  | no p ↦ rw (dif_neg (dec_lt 0 n) p) h
]

put_digits-ne-nil : (n : ℕ) (w : Acc ◌<◌ n) (out : Bytes) → out ≢ [] → put_digits n w out ≢ []
unfolding put_digits
put_digits-ne-nil n (Acc.intro _ below) out h = elim (dec_lt 0 n) [
  | yes p ↦ rw (dif_pos (dec_lt 0 n) le_prop p) (
      put_digits-ne-nil (n / 10) (below (n / 10) (fewer_digits p)) ((n % 10 + b'0') ∷ out)
        (λ e. cc))
  | no p ↦ rw (dif_neg (dec_lt 0 n) p) h
]

put_digits_pos-ne-nil : (n : ℕ) (w : Acc ◌<◌ n) → 0 < n → put_digits n w [] ≢ []
unfolding put_digits
put_digits_pos-ne-nil n (Acc.intro _ below) h =
    rw (dif_pos (dec_lt 0 n) le_prop h) (
      put_digits-ne-nil (n / 10) (below (n / 10) (fewer_digits h)) ((n % 10 + b'0') ∷ []) (λ e. cc))

-- A printed number is one or more digits.
pub decimal-IsDigit : (n : ℕ) → All IsDigit (decimal n)
unfolding decimal
decimal-IsDigit n = elim (Bool-cases (n == 0)) [
  | inl e ↦ rw e (omega arith)
  | inr e ↦ rw e (put_digits-IsDigit n (less_wf.apply n) [] tt)
]

pub decimal-ne-nil : (n : ℕ) → decimal n ≢ []
unfolding decimal
decimal-ne-nil n = elim (Bool-cases (n == 0)) [
  | inl e ↦ rw e (λ p. cc)
  | inr e ↦ rw e (put_digits_pos-ne-nil n (less_wf.apply n) (ground arith))
]

pub digits_value-decimal : (n : ℕ) → digits_value (decimal n) 0 ≡ n
unfolding decimal
digits_value-decimal n = elim (Bool-cases (n == 0)) [
  | inl e ↦ rw e (unfold digits_value in ground arith)
  | inr e ↦ rw e (digits_value-put_digits n (less_wf.apply n) [] ∙ (unfold digits_value in refl))
]

-- Reading goes on behind digits, and stops at anything else.
digits_value-append :
    (s rest : Bytes) (n : ℕ)
    → All IsDigit s
    → starts_with_digit rest ≡ false
    → digits_value (s ++ rest) n ≡ digits_value s n
unfolding digits_value
digits_value-append [] [] n h e = refl
digits_value-append [] (c ∷ rest) n h e = unfold starts_with_digit in rw e
digits_value-append (c ∷ s) rest n (hc, h) e =
    ground (arith, digits_value-append s rest (n * 10 + (c - b'0')) h e)

starts_with_digit-append :
    (s rest : Bytes) → s ≢ [] → All IsDigit s → starts_with_digit (s ++ rest) ≡ true
unfolding starts_with_digit
starts_with_digit-append [] rest ne h = absurd (ne refl)
starts_with_digit-append (c ∷ s) rest ne (hc, h) = ground arith

-- What `<<` prints, `from_chars` reads back, if the number fits and no digit follows.
pub from_chars-decimal :
    (bound n old : ℕ) (rest : Bytes)
    → n < bound
    → starts_with_digit rest ≡ false
    → from_chars bound (decimal n ++ rest) old ≡ n
unfolding from_chars
from_chars-decimal bound n old rest h e = rw (
  digits_value-append (decimal n) rest 0 (decimal-IsDigit n) e,
  digits_value-decimal n,
  starts_with_digit-append (decimal n) rest (decimal-ne-nil n) (decimal-IsDigit n),
  lt→ltb n bound h,
)

extract_digits :
    (s : Bytes) (old : ℕ)
    → s ≢ []
    → All IsDigit s
    → digits_value s 0 < 2 ^ 64
    → extract_uint64 s old ≡ digits_value s 0
unfolding extract_uint64
extract_digits [] old ne h fits = absurd (ne refl)
extract_digits (c ∷ s) old ne (hc, h) fits = ground arith

-- What `<<` prints of a uint64_t, `>>` reads back.
pub extract_uint64-decimal : (n old : ℕ) → n < 2 ^ 64 → extract_uint64 (decimal n) old ≡ n
extract_uint64-decimal n old h =
    extract_digits (decimal n) old (decimal-ne-nil n) (decimal-IsDigit n)
      (rw (digits_value-decimal n) h)
    ∙ digits_value-decimal n

length-put_digits :
    (k n : ℕ) (w : Acc ◌<◌ n) (out : Bytes)
    → n < 10 ^ k
    → length (put_digits n w out) ≤ k + length out
unfolding put_digits
length-put_digits zero n (Acc.intro _ below) out h =
    rw (dif_neg (dec_lt 0 n) (omega arith)) (omega arith)
length-put_digits (suc k) n (Acc.intro _ below) out h = elim (dec_lt 0 n) [
  | yes p ↦ rw (dif_pos (dec_lt 0 n) le_prop p) (
      omega (
        arith,
        length-put_digits k (n / 10) (below (n / 10) (fewer_digits p)) ((n % 10 + b'0') ∷ out)
            (omega (arith, pow-suc 10 k)),
      ))
  | no p ↦ rw (dif_neg (dec_lt 0 n) p) (omega arith)
]

-- A number below 10 ^ k prints as k digits at most.
pub length-decimal : (k n : ℕ) → 0 < k → n < 10 ^ k → length (decimal n) ≤ k
unfolding decimal
length-decimal k n pos h = elim (Bool-cases (n == 0)) [
  | inl e ↦ rw e (omega arith)
  | inr e ↦ rw e (omega (arith, length-put_digits k n (less_wf.apply n) [] h))
]

-- A uint64_t prints as 20 digits at most.
pub length-decimal-le : (n : ℕ) → n < 2 ^ 64 → length (decimal n) ≤ 20
length-decimal-le n h = length-decimal 20 n (omega arith) (omega arith)
