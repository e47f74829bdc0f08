-- ===== src/Util/Ints.antt =====
-- Converting the text of a number to an int: str_to_int of common/util.cpp.
use remote_monitoring_tool.Prelude.{
  ℕ, ◌+◌, ◌-◌, ◌*◌, ◌^◌, ◌≤◌, ◌<◌, ◌≡◌, refl, sym, subst, ◌∙◌, ap, [], ◌∷◌, arith, Bytes, All,
}
use remote_monitoring_tool.Text.{decimal, digits_value}
use remote_monitoring_tool.Text.Decimal.{IsDigit, decimal-IsDigit, digits_value-decimal}
use remote_monitoring_tool.Util.{parsed, str_to_int_loop, str_to_int}

-- More digits only make the number larger.
digits_value_ge : (s : Bytes) (n : ℕ) → All IsDigit s → n ≤ digits_value s n
unfolding digits_value
digits_value_ge [] n h = omega arith
digits_value_ge (c ∷ s) n (hc, h) = ground (arith, digits_value_ge s (n * 10 + (c - b'0')) h)

-- The loop computes the number where it fits an int.
str_to_int_loop_lem :
    (s : Bytes) (n : ℕ)
    → All IsDigit s
    → digits_value s n < 2 ^ 31
    → str_to_int_loop s n ≡ parsed (digits_value s n)
unfolding str_to_int_loop digits_value
str_to_int_loop_lem [] n h fits = refl
str_to_int_loop_lem (c ∷ s) n (hc, h) fits = ground (
  arith,
  digits_value_ge s (n * 10 + (c - b'0')) h,
  str_to_int_loop_lem s (n * 10 + (c - b'0')) h,
)

-- What `<<` prints of an int that is not negative, str_to_int reads back.
pub str_to_int-decimal : (n : ℕ) → n < 2 ^ 31 → str_to_int (decimal n) ≡ parsed n
unfolding str_to_int
str_to_int-decimal n h =
    str_to_int_loop_lem (decimal n) 0 (decimal-IsDigit n)
      (subst (λ m. m < 2 ^ 31) (sym (digits_value-decimal n)) h)
    ∙ ap parsed (digits_value-decimal n)
