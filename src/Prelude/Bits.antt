-- ===== src/Prelude/Bits.antt =====
-- Bitwise operations at variables: a byte mask is a remainder, a shifted mask is a shifted result,
-- and the union of disjoint fields is a sum.
use Prim.Native.Nat.{
  ℕ, zero, suc, ◌+◌, ◌*◌, ◌/◌, ◌%◌, ◌^◌, ◌≤◌, ◌<◌, min, max, bit_and, bit_or, digits, bitwise,
  bit_and-bitwise, bit_or-bitwise,
}
use mathlib.Core.Path.{◌≡◌, refl, ap}
use native.Mathlib.Nat.{pow-suc, div-add-mod}
use native.Mathlib.Omega.{arith}

-- The count of digits that is passed on does not matter, as long as it is enough.
enough_digits : (z : ℕ → ℕ) (f : ℕ → ℕ → ℕ) (n a b : ℕ) → a ≤ n → digits z f n a b ≡ bitwise z f a b
enough_digits z f n a b p = go n a a b p (omega arith)
  where
    go : (n m a b : ℕ) → a ≤ n → a ≤ m → digits z f n a b ≡ digits z f m a b
    go zero zero a b p q = refl
    go zero (suc m) zero b p q = refl
    go zero (suc m) (suc a) b p q = absurd (omega arith)
    go (suc n) zero zero b p q = refl
    go (suc n) zero (suc a) b p q = absurd (omega arith)
    go (suc n) (suc m) zero b p q = refl
    go (suc n) (suc m) (suc a) b p q =
        ap (λ (t : ℕ). t * 2 + f (suc a % 2) (b % 2))
          (go n m (suc a / 2) (b / 2) (omega arith) (omega arith))

and_step : (x y : ℕ) → bit_and x y ≡ min (x % 2) (y % 2) + bit_and (x / 2) (y / 2) * 2
and_step zero b = omega (arith, bit_and-bitwise 0 b, bit_and-bitwise 0 (b / 2))
and_step (suc a) b = omega (
  arith,
  bit_and-bitwise (suc a) b,
  bit_and-bitwise (suc a / 2) (b / 2),
  enough_digits (λ y. 0) min a (suc a / 2) (b / 2) (omega arith),
)

or_step : (x y : ℕ) → bit_or x y ≡ max (x % 2) (y % 2) + bit_or (x / 2) (y / 2) * 2
or_step zero b = omega (arith, bit_or-bitwise 0 b, bit_or-bitwise 0 (b / 2))
or_step (suc a) b = omega (
  arith,
  bit_or-bitwise (suc a) b,
  bit_or-bitwise (suc a / 2) (b / 2),
  enough_digits (λ y. y) max a (suc a / 2) (b / 2) (omega arith),
)

and-zero : (n a : ℕ) → a ≤ n → bit_and a 0 ≡ 0
and-zero zero a h = omega (arith, and_step a 0, bit_and-bitwise a 0, ap (λ t. bit_and t 0) a_eq)
  where
    a_eq : a ≡ 0
    a_eq = omega arith
and-zero (suc n) zero h = refl
and-zero (suc n) (suc a) h = omega (arith, and_step (suc a) 0, and-zero n (suc a / 2) (omega arith))

pub bit_and-zero : (a : ℕ) → bit_and a 0 ≡ 0
bit_and-zero a = and-zero a a (omega arith)

or-zero : (n a : ℕ) → a ≤ n → bit_or a 0 ≡ a
or-zero n zero h = refl
or-zero zero (suc a) h = absurd (omega arith)
or-zero (suc n) (suc a) h = omega (arith, or_step (suc a) 0, or-zero n (suc a / 2) (omega arith))

double_pow : (q k : ℕ) → q * 2 ^ suc k ≡ 2 * (q * 2 ^ k)
double_pow q k = omega (arith, ap (λ (t : ℕ). q * t) (pow-suc 2 k))

-- `(q << k) | r` is a sum where `r` fits k bits.
pub bit_or_sum : (k q r : ℕ) → r < 2 ^ k → bit_or (q * 2 ^ k) r ≡ q * 2 ^ k + r
bit_or_sum zero q r h =
    omega
      (arith, or-zero q q (omega arith), ap (λ t. bit_or (q * 1) t) r_eq, ap (λ t. bit_or t 0) q_eq)
  where
    r_eq : r ≡ 0
    r_eq = omega arith

    q_eq : q * 1 ≡ q
    q_eq = omega arith
bit_or_sum (suc k) q r h =
    ground (arith, or_step (q * 2 ^ suc k) r, double_pow q k, pow-suc 2 k, bit_or_sum k q (r / 2))

-- A mask above the low k bits reads the number above them.
pub bit_and_above :
    (k q r m : ℕ) → r < 2 ^ k → bit_and (q * 2 ^ k + r) (m * 2 ^ k) ≡ bit_and q m * 2 ^ k
bit_and_above zero q r m h = ground (arith)
bit_and_above (suc k) q r m h = ground (
  arith,
  and_step (q * 2 ^ suc k + r) (m * 2 ^ suc k),
  double_pow q k,
  double_pow m k,
  double_pow (bit_and q m) k,
  pow-suc 2 k,
  bit_and_above k q (r / 2) m,
)

-- A byte of a number, read in place by a shifted mask.
bit_and_field :
    (k a m : ℕ) → a % 2 ^ k < 2 ^ k → bit_and a (m * 2 ^ k) ≡ bit_and (a / 2 ^ k) m * 2 ^ k
bit_and_field k a m h =
    rw (ap (λ (t : ℕ). bit_and t (m * 2 ^ k)) split) (bit_and_above k (a / 2 ^ k) (a % 2 ^ k) m h)
  where
    split : a ≡ a / 2 ^ k * 2 ^ k + a % 2 ^ k
    split = omega (arith, div-add-mod a (2 ^ k))

and_odd : (a m : ℕ) → bit_and a (2 * m + 1) ≡ bit_and (a / 2) m * 2 + a % 2
and_odd a m = omega (arith, and_step a (2 * m + 1), ap (λ t. bit_and (a / 2) t) half)
  where
    half : (2 * m + 1) / 2 ≡ m
    half = omega arith

-- The mask 0xff is the remainder by 256.
pub bit_and_ff : (a : ℕ) → bit_and a 0xff ≡ a % 256
bit_and_ff a = omega (
  arith,
  and_odd a 127,
  and_odd (a / 2) 63,
  and_odd (a / 2 / 2) 31,
  and_odd (a / 2 / 2 / 2) 15,
  and_odd (a / 2 / 2 / 2 / 2) 7,
  and_odd (a / 2 / 2 / 2 / 2 / 2) 3,
  and_odd (a / 2 / 2 / 2 / 2 / 2 / 2) 1,
  and_odd (a / 2 / 2 / 2 / 2 / 2 / 2 / 2) 0,
  bit_and-zero (a / 2 / 2 / 2 / 2 / 2 / 2 / 2 / 2),
)

pub bit_and_byte1 : (a : ℕ) → bit_and a 0xff00 ≡ a / 2 ^ 8 % 256 * 2 ^ 8
bit_and_byte1 a = omega (arith, bit_and_field 8 a 255 (omega arith), bit_and_ff (a / 2 ^ 8))

pub bit_and_byte2 : (a : ℕ) → bit_and a 0xff0000 ≡ a / 2 ^ 16 % 256 * 2 ^ 16
bit_and_byte2 a = omega (arith, bit_and_field 16 a 255 (omega arith), bit_and_ff (a / 2 ^ 16))

pub bit_and_byte3 : (a : ℕ) → bit_and a 0xff000000 ≡ a / 2 ^ 24 % 256 * 2 ^ 24
bit_and_byte3 a = omega (arith, bit_and_field 24 a 255 (omega arith), bit_and_ff (a / 2 ^ 24))
