-- ===== src/Text.antt =====
-- The parts of the C++ standard library's text input and output that the program uses, over bytes:
-- decimal printing (operator<< of an unsigned integer), std::from_chars, std::getline with a
-- delimiter, and operator>> into a uint64_t. The locale is "C".
pub mod Decimal
pub mod Lines
use native.Mathlib.Decide.{dec_lt}
use mathlib.Core.WellFounded.{Acc, WellFounded}
use mathlib.Core.Logic.{dite}
use remote_monitoring_tool.Prelude.{
  ℕ, zero, suc, ◌+◌, ◌-◌, ◌*◌, ◌/◌, ◌%◌, ◌^◌, ◌<◌, Bool, true, false, ◌&&◌, ◌||◌, not, Option, none,
  some, [], ◌∷◌, arith, Bytes, ltb, leb, ◌==◌, if◌then◌else◌,
}

-- Recursion on a number that falls.
less_acc : (n bound : ℕ) → n < bound → Acc ◌<◌ n
less_acc n zero lt = absurd (omega arith)
less_acc n (suc bound) lt = Acc.intro n λ m h. less_acc m bound (omega arith)

less_wf : WellFounded ◌<◌
unfolding less_acc
less_wf = record { apply = λ m. less_acc m (suc m) (omega arith) }

abbrev fewer_digits : {n : ℕ} → 0 < n → n / 10 < n
fewer_digits h = omega arith

-- The digits of a positive number in front of `out`, and nothing for 0.
put_digits : (n : ℕ) → Acc ◌<◌ n → Bytes → Bytes
put_digits n (Acc.intro _ below) out =
    dite (dec_lt 0 n)
      (λ h. put_digits (n / 10) (below (n / 10) (fewer_digits h)) ((n % 10 + b'0') ∷ out))
      (λ _. out)

-- os << n
unfoldable pub decimal : ℕ → Bytes
unfolding put_digits less_wf dec_lt
decimal n = if n == 0 then b'0' ∷ [] else put_digits n (less_wf.apply n) []

abbrev pub is_digit : ℕ → Bool
is_digit c = leb b'0' c && leb c b'9'

-- The number that the leading digits spell behind n, with no bound.
unfoldable pub digits_value : Bytes → ℕ → ℕ
digits_value [] n = n
digits_value (c ∷ s) n =
    let rest = digits_value s (n * 10 + (c - b'0')) in if is_digit c then rest else n

unfoldable pub starts_with_digit : Bytes → Bool
starts_with_digit [] = false
starts_with_digit (c ∷ s) = is_digit c

-- std::from_chars(first, last, value) at an unsigned type of `bound` values: the new value of the
-- variable, which keeps its old value where no digit stands in front or the number does not fit.
unfoldable pub from_chars : ℕ → Bytes → ℕ → ℕ
unfolding starts_with_digit digits_value
from_chars bound s old =
    let n = digits_value s 0 in if starts_with_digit s && ltb n bound then n else old

-- A text input stream: the bytes not yet read, and whether it can still be read (no end of file
-- was met, and nothing failed).
pub record TextStream : Type 0 where
  pub rest : Bytes
  pub ended : Bool

abbrev pub text : Bytes → TextStream
text bytes = record { rest = bytes; ended = false }

-- The bytes before the first delimiter, and those behind it, if there is one.
unfoldable pub split_at : ℕ → Bytes → Bytes × Option Bytes
split_at delim [] = ([], none)
split_at delim (c ∷ s) =
    let (line, rest) = split_at delim s in if c == delim then ([], some s) else (c ∷ line, rest)

pub record Line : Type 0 where
  pub got : Bool
  pub line : Bytes
  pub stream : TextStream

-- What a scan of the bytes that are left comes to.
end_line : Bytes → Bytes × Option Bytes → Line
end_line all (line, some rest) = record { got = true; line = line; stream = text rest }
end_line [] (line, none) = record {
  got = false;
  line = [];
  stream = record { rest = []; ended = true };
}
end_line (c ∷ s) (line, none) = record {
  got = true;
  line = c ∷ s;
  stream = record { rest = []; ended = true };
}

-- std::getline(is, str, delim): whether the stream converts to true, the new value of `str` and the
-- stream. A stream that has ended keeps `str`; one that ends here with no byte read clears it.
unfoldable pub getline : ℕ → TextStream → Bytes → Line
unfolding end_line
getline delim is str =
    if is.ended
    then record { got = false; line = str; stream = is }
    else end_line is.rest (split_at delim is.rest)

abbrev is_space : ℕ → Bool
is_space c = c == b' ' || (leb 9 c && leb c 13)

skip_space : Bytes → Bytes
skip_space [] = []
skip_space (c ∷ s) = let rest = skip_space s in if is_space c then rest else c ∷ s

-- The value of digits in a uint64_t, the largest one if they do not fit; 0 if there is none.
saturated : Bytes → ℕ
saturated s = let n = digits_value s 0 in if ltb n (2 ^ 64) then n else 2 ^ 64 - 1

-- What `is >> n` leaves in a uint64_t: at the end of the stream the old value, where no number
-- stands 0, and a number behind `-` negated.
extract_number : Bytes → ℕ → ℕ
unfolding saturated
extract_number [] old = old
extract_number (c ∷ s) old =
    if c == b'-'
    then if ltb (digits_value s 0) (2 ^ 64)
      then (2 ^ 64 - digits_value s 0) % 2 ^ 64
      else 2 ^ 64 - 1
    else if c == b'+'
    then saturated s
    else saturated (c ∷ s)

unfoldable pub extract_uint64 : Bytes → ℕ → ℕ
unfolding skip_space extract_number
extract_uint64 s old = extract_number (skip_space s) old

-- std::string::starts_with
unfoldable pub starts_with : Bytes → Bytes → Bool
starts_with [] s = true
starts_with (c ∷ prefix) [] = false
starts_with (c ∷ prefix) (b ∷ s) = let rest = starts_with prefix s in c == b && rest
