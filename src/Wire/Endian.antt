-- ===== src/Wire/Endian.antt =====
-- What `swap_endian` does to the bytes of an integer.
use Prim.Native.Nat.{bit_or}
use mathlib.Core.Path.{ap₂}
use mathlib.Core.List.{reverse-reverse}
use native.Mathlib.Nat.{one-le-pow, pow-le-pow_right, mod-eq_of_lt, le_trans, div-div-eq-div-mul}
use native.Mathlib.Numerals.{towards_suc}
use remote_monitoring_tool.Prelude.{
  ℕ, zero, suc, ◌+◌, ◌-◌, ◌*◌, ◌/◌, ◌%◌, ◌^◌, ◌≤◌, ◌<◌, ◌≡◌, refl, sym, ap, subst, ◌∙◌, [], ◌∷◌,
  arith, reverse, Bytes, length, All, IsByte,
}
use remote_monitoring_tool.Prelude.Bits.{
  bit_or_sum, bit_and_ff, bit_and_byte1, bit_and_byte2, bit_and_byte3,
}
use remote_monitoring_tool.Wire.{
  to_memory, of_memory, swap_endian32, swap_endian64, scatter, gather,
}
use remote_monitoring_tool.Wire.Memory.{
  horner, length-to_memory, to_memory-IsByte, to_memory-of_memory, of_memory-to_memory,
  of_memory-lt, of_memory-reverse, All-reverse_aux, length-reverse_aux,
}

or_field : (k q a r : ℕ) → a ≡ q * 2 ^ k → r < 2 ^ k → bit_or a r ≡ a + r
or_field k q a r e lt = rw e (bit_or_sum k q r lt)

-- The four masked and shifted terms are the bytes of v at their new places.
swap32_sum :
    (v : ℕ)
    → swap_endian32 v
      ≡ v % 256 * 2 ^ 24 + v / 2 ^ 8 % 256 * 2 ^ 16 + v / 2 ^ 16 % 256 * 2 ^ 8 + v / 2 ^ 24 % 256
unfolding swap_endian32
swap32_sum v =
    rw (bit_and_ff, bit_and_byte1, bit_and_byte2, bit_and_byte3, t0, t1, t2, t3)
      (rw
        (
          or_field 24 b0 (b0 * 2 ^ 24) (b1 * 2 ^ 16) refl (omega arith),
          or_field 16 (b0 * 256 + b1) (b0 * 2 ^ 24 + b1 * 2 ^ 16) (b2 * 2 ^ 8) (omega arith)
              (omega arith),
        )
        (or_field 8 (b0 * 65536 + b1 * 256 + b2) (b0 * 2 ^ 24 + b1 * 2 ^ 16 + b2 * 2 ^ 8) b3
          (omega arith) (omega arith)))
  where
    b0 : ℕ
    b0 = v % 256

    b1 : ℕ
    b1 = v / 2 ^ 8 % 256

    b2 : ℕ
    b2 = v / 2 ^ 16 % 256

    b3 : ℕ
    b3 = v / 2 ^ 24 % 256

    t0 : v % 256 * 2 ^ 24 % 2 ^ 32 ≡ v % 256 * 2 ^ 24
    t0 = omega arith

    t1 : v / 2 ^ 8 % 256 * 2 ^ 8 * 2 ^ 8 % 2 ^ 32 ≡ v / 2 ^ 8 % 256 * 2 ^ 16
    t1 = omega arith

    t2 : v / 2 ^ 16 % 256 * 2 ^ 16 / 2 ^ 8 ≡ v / 2 ^ 16 % 256 * 2 ^ 8
    t2 = omega arith

    t3 : v / 2 ^ 24 % 256 * 2 ^ 24 / 2 ^ 24 ≡ v / 2 ^ 24 % 256
    t3 = omega arith

-- `swap_endian` of a uint32_t reverses the four bytes of its object representation.
pub swap_endian32_lem : (v : ℕ) → swap_endian32 v ≡ of_memory (reverse (to_memory 4 v))
unfolding to_memory of_memory
swap_endian32_lem v = omega (arith, swap32_sum v)

pow_up : (i : ℕ) → 2 ^ (8 * (i + 1)) ≡ 2 ^ (8 * i) * 256
pow_up i = rw (eq) (simp towards_suc (omega arith))
  where
    eq : 8 * (i + 1) ≡ 8 * i + 8
    eq = omega arith

-- The first loop stores the object representation.
scatter-to_memory : (n i v : ℕ) → scatter n i v ≡ to_memory n (v / 2 ^ (8 * i))
unfolding scatter to_memory
scatter-to_memory zero i v = refl
scatter-to_memory (suc n) i v =
    ap₂ (λ x xs. x ∷ xs) (bit_and_ff (v / 2 ^ (8 * i)))
      (scatter-to_memory n (i + 1) v
        ∙ ap (to_memory n) (rw pow_up (sym (div-div-eq-div-mul v (2 ^ (8 * i)) 256))))

-- What b puts at place k fits below place k + 1, and below 64 bits.
below_next : (k b : ℕ) → b < 256 → b * 2 ^ (8 * k) < 2 ^ (8 * (k + 1))
below_next k b h = rw pow_up (grind (arith, one-le-pow (8 * k) 2))

pow_bound : (k : ℕ) → k ≤ 8 → 2 ^ (8 * k) ≤ 2 ^ 64
pow_bound k h = pow-le-pow_right {n = 2} (omega arith) {i = 8 * k} {j = 64} (omega arith)

-- One round of the second loop, with `k` places below the byte that it adds.
gather_round :
    (k q b : ℕ)
    → k < 8
    → b < 256
    → bit_or (q * 2 ^ (8 * (k + 1))) (b * 2 ^ (8 * k) % 2 ^ 64) ≡ (q * 256 + b) * 2 ^ (8 * k)
gather_round k q b hk hb =
    rw (mod-eq_of_lt (le_trans (below_next k b hb) (pow_bound (k + 1) (omega arith))))
      (bit_or_sum (8 * (k + 1)) q (b * 2 ^ (8 * k)) (below_next k b hb) ∙ rw pow_up (omega arith))

-- The second loop spells the bytes highest first.
gather-horner :
    (bs : Bytes) (i q : ℕ)
    → i + length bs ≡ 8
    → All IsByte bs
    → gather bs i (q * 2 ^ (8 * length bs)) ≡ horner q bs
unfolding gather
gather-horner [] i q e h = omega arith
gather-horner (b ∷ bs) i q e (hb, hbs) =
    ap (gather bs (i + 1)) (rw (suc_eq, place) (gather_round (length bs) q b (omega arith) hb))
    ∙ gather-horner bs (i + 1) (q * 256 + b) (omega arith) hbs
  where
    suc_eq : suc (length bs) ≡ length bs + 1
    suc_eq = omega arith

    place : 7 - i ≡ length bs
    place = omega arith

-- `swap_endian` of a uint64_t reverses the eight bytes of its object representation.
pub swap_endian64_lem : (v : ℕ) → swap_endian64 v ≡ of_memory (reverse (to_memory 8 v))
unfolding swap_endian64 of_memory to_memory
swap_endian64_lem v =
    ap (λ bs. gather bs 0 0) (scatter-to_memory 8 0 v ∙ ap (to_memory 8) (omega arith))
    ∙ gather-horner (to_memory 8 v) 0 0 (omega (arith, length-to_memory 8 v)) (to_memory-IsByte 8 v)
    ∙ sym (of_memory-reverse (to_memory 8 v) [])

-- The object representation of a reversed number is the reversed one.
reversed_memory :
    (n v : ℕ) → to_memory n (of_memory (reverse (to_memory n v))) ≡ reverse (to_memory n v)
reversed_memory n v =
    ap (λ k. to_memory k (of_memory (reverse bytes))) (sym len)
    ∙ to_memory-of_memory (reverse bytes) (All-reverse_aux bytes [] (to_memory-IsByte n v) tt)
  where
    bytes : Bytes
    bytes = to_memory n v

    len : length (reverse bytes) ≡ n
    len = omega (arith, length-reverse_aux bytes [], length-to_memory n v)

reversed-lt : (n v : ℕ) → of_memory (reverse (to_memory n v)) < 256 ^ n
reversed-lt n v =
    subst (λ k. of_memory (reverse (to_memory n v)) < 256 ^ k) len
      (of_memory-lt _ (All-reverse_aux (to_memory n v) [] (to_memory-IsByte n v) tt))
  where
    len : length (reverse (to_memory n v)) ≡ n
    len = omega (arith, length-reverse_aux (to_memory n v) [], length-to_memory n v)

pub swap_endian_small : (v : ℕ) → (swap_endian32 v < 2 ^ 32) × (swap_endian64 v < 2 ^ 64)
swap_endian_small v = (
  subst (λ (t : ℕ). t < 2 ^ 32) (sym (swap_endian32_lem v)) (reversed-lt 4 v),
  subst (λ (t : ℕ). t < 2 ^ 64) (sym (swap_endian64_lem v)) (reversed-lt 8 v),
)

-- Both the masking 32-bit version and the looping 64-bit version of swap_endian reverse the
-- bytes of an integer in memory.
pub swap_endian_memory :
    (v : ℕ)
    → (to_memory 4 (swap_endian32 v) ≡ reverse (to_memory 4 v))
      × (to_memory 8 (swap_endian64 v) ≡ reverse (to_memory 8 v))
swap_endian_memory v = (
  ap (to_memory 4) (swap_endian32_lem v) ∙ reversed_memory 4 v,
  ap (to_memory 8) (swap_endian64_lem v) ∙ reversed_memory 8 v,
)

-- Swapping twice gives the number back, where it fits the width.
pub swap_endian_twice :
    (v w : ℕ)
    → v < 2 ^ 32
    → w < 2 ^ 64
    → (swap_endian32 (swap_endian32 v) ≡ v) × (swap_endian64 (swap_endian64 w) ≡ w)
swap_endian_twice v w hv hw = (
  swap_endian32_lem (swap_endian32 v)
      ∙ ap (λ m. of_memory (reverse m)) (swap_endian_memory v).0
      ∙ ap of_memory (reverse-reverse (to_memory 4 v))
      ∙ of_memory-to_memory 4 v hv,
  swap_endian64_lem (swap_endian64 w)
      ∙ ap (λ m. of_memory (reverse m)) (swap_endian_memory w).1
      ∙ ap of_memory (reverse-reverse (to_memory 8 w))
      ∙ of_memory-to_memory 8 w hw,
)
