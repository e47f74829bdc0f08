-- ===== src/Wire/Memory.antt =====
-- The object representation of integers, and network order.

use mathlib.Core.Path.{ap₂}
use mathlib.Core.List.{reverse_aux}
use native.Mathlib.Nat.{pow-suc}
use remote_monitoring_tool.Prelude.{
  ℕ, zero, suc, ◌+◌, ◌*◌, ◌/◌, ◌%◌, ◌^◌, ◌<◌, ◌≡◌, refl, ap, ◌∙◌, [], ◌∷◌, arith, reverse, Bytes,
  length, All, IsByte,
}
use remote_monitoring_tool.Wire.{to_memory, of_memory}

-- The number that bytes spell behind q, highest first.
abbrev pub horner : ℕ → Bytes → ℕ
horner q [] = q
horner q (b ∷ bs) = horner (q * 256 + b) bs

pub length-to_memory : (n v : ℕ) → length (to_memory n v) ≡ n
unfolding to_memory
length-to_memory zero v = refl
length-to_memory (suc n) v = ap suc (length-to_memory n (v / 256))

pub to_memory-IsByte : (n v : ℕ) → All IsByte (to_memory n v)
unfolding to_memory
to_memory-IsByte zero v = tt
to_memory-IsByte (suc n) v = (omega arith, to_memory-IsByte n (v / 256))

-- Bytes are the object representation of the number that they spell.
pub to_memory-of_memory : (bs : Bytes) → All IsByte bs → to_memory (length bs) (of_memory bs) ≡ bs
unfolding to_memory of_memory
to_memory-of_memory [] h = refl
to_memory-of_memory (b ∷ bs) (hb, hbs) =
    ap₂ (λ x xs. x ∷ xs) low (ap (to_memory (length bs)) high ∙ to_memory-of_memory bs hbs)
  where
    low : (b + 256 * of_memory bs) % 256 ≡ b
    low = omega arith

    high : (b + 256 * of_memory bs) / 256 ≡ of_memory bs
    high = omega arith

-- A number that fits n bytes is the number of its object representation.
pub of_memory-to_memory : (n v : ℕ) → v < 256 ^ n → of_memory (to_memory n v) ≡ v
unfolding to_memory of_memory
of_memory-to_memory zero v h = omega arith
of_memory-to_memory (suc n) v h =
    omega (arith, of_memory-to_memory n (v / 256) (omega (arith, pow-suc 256 n)))

pub of_memory-lt : (bs : Bytes) → All IsByte bs → of_memory bs < 256 ^ length bs
unfolding of_memory
of_memory-lt [] h = omega arith
of_memory-lt (b ∷ bs) (hb, h) = omega (arith, of_memory-lt bs h, pow-suc 256 (length bs))

-- Reversed bytes spell, lowest first, what the bytes spell highest first.
pub of_memory-reverse :
    (bs acc : Bytes) → of_memory (reverse_aux bs acc) ≡ horner (of_memory acc) bs
unfolding of_memory
of_memory-reverse [] acc = refl
of_memory-reverse (b ∷ bs) acc =
    of_memory-reverse bs (b ∷ acc) ∙ ap (λ (q : ℕ). horner q bs) (omega arith)

pub All-reverse_aux :
    (bs acc : Bytes) → All IsByte bs → All IsByte acc → All IsByte (reverse_aux bs acc)
All-reverse_aux [] acc h k = k
All-reverse_aux (b ∷ bs) acc (hb, h) k = All-reverse_aux bs (b ∷ acc) h (hb, k)

pub length-reverse_aux : (bs acc : Bytes) → length (reverse_aux bs acc) ≡ length bs + length acc
length-reverse_aux [] acc = omega arith
length-reverse_aux (b ∷ bs) acc = omega (arith, length-reverse_aux bs (b ∷ acc))

-- The bytes of a number in network order, highest first.
unfoldable pub big_endian : ℕ → ℕ → Bytes
big_endian zero v = []
big_endian (suc n) v = (v / 256 ^ n % 256) ∷ big_endian n v

pub length-big_endian : (n v : ℕ) → length (big_endian n v) ≡ n
unfolding big_endian
length-big_endian zero v = refl
length-big_endian (suc n) v = ap suc (length-big_endian n v)

pub reverse-to_memory4 : (v : ℕ) → reverse (to_memory 4 v) ≡ big_endian 4 v
unfolding to_memory big_endian
reverse-to_memory4 v = ground (arith)

pub reverse-to_memory8 : (v : ℕ) → reverse (to_memory 8 v) ≡ big_endian 8 v
unfolding to_memory big_endian
reverse-to_memory8 v = ground (arith)
