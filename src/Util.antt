-- ===== src/Util.antt =====
-- common/util.cpp: the conversion of a text to an int, and the last line of a file.
pub mod LastLine
pub mod Ints
mod Examples
use remote_monitoring_tool.Prelude.{
  newline, carriage_return, ℕ, zero, suc, ◌+◌, ◌-◌, ◌*◌, ◌^◌, Bool, true, false, ◌||◌, Option, none,
  some, [], ◌∷◌, ◌++◌, reverse, Bytes, ltb, ◌==◌, if◌then◌else◌, length, get_or,
}
use remote_monitoring_tool.Text.{is_digit}

-- An int that is not negative, the error value -1, or undefined behaviour by signed overflow.
pub data ParsedInt : Type 0 where
  parsed : ℕ → ParsedInt
  minus_one : ParsedInt
  undefined : ParsedInt

-- The loop of str_to_int from the value `ret` on.
str_to_int_loop : Bytes → ℕ → ParsedInt
str_to_int_loop [] ret = parsed ret
str_to_int_loop (c ∷ s) ret =
    let rest = str_to_int_loop s (ret * 10 + (c - b'0')) in
    if is_digit c
    then (if ltb (2 ^ 31 - 1) (ret * 10 + (c - b'0')) then undefined else rest)
    else minus_one

unfoldable pub str_to_int : Bytes → ParsedInt
unfolding str_to_int_loop
str_to_int str = str_to_int_loop str 0

-- `while (pos > 0)`: back over the line ends at the end of the file.
skip_line_ends : Bytes → ℕ → ℕ
skip_line_ends file zero = zero
skip_line_ends file (suc pos) =
    let ch = get_or file pos 0 in
    let back = skip_line_ends file pos in
    if ch == newline || ch == carriage_return then back else pos

-- One round of the second loop: whether it goes on, and the bytes so far.
take_char : ℕ → Bytes → Bool × Bytes
take_char ch reversed =
    if ch == newline
    then (false, reversed)
    else (true, if ch == carriage_return then reversed else reversed ++ ch ∷ [])

-- `while (pos >= 0)`: the bytes of the line, last first.
collect : Bytes → ℕ → Bytes → Bytes
unfolding take_char
collect file zero reversed = (take_char (get_or file 0 0) reversed).1
collect file (suc pos) reversed =
    let (more, reversed') = take_char (get_or file (suc pos) 0) reversed in
    let rest = collect file pos reversed' in if more then rest else reversed'

-- A file that cannot be opened is `none`.
unfoldable pub get_last_line_of_file : Option Bytes → Bytes
unfolding skip_line_ends collect
get_last_line_of_file none = []
get_last_line_of_file (some []) = []
get_last_line_of_file (some (c ∷ s)) =
    let file = c ∷ s in reverse (collect file (skip_line_ends file (length file)) [])
