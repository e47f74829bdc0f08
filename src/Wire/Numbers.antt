-- ===== src/Wire/Numbers.antt =====
-- The number, text and vector functions of serializable.cpp write network order and read it back.
use remote_monitoring_tool.Prelude.{
  ℕ, ◌≤◌, ◌<◌, ◌+◌, ◌-◌, ◌^◌, ◌%◌, ◌≡◌, sym, ap, ◌∙◌, List, ◌++◌, append_assoc, arith, Bytes,
  length, length-append, take-length-append, drop-length-append, All, ltb, ltb-false, lt→ltb, false,
}
use remote_monitoring_tool.Result.{Result, ok, err, string_too_large}
use remote_monitoring_tool.Wire.{
  Reader, stream, read, to_memory, of_memory, swap_endian32, swap_endian64, write_uint32,
  write_uint64, read_uint32, read_uint64, write_string, read_string, read_bytes, write_vector,
  read_vector,
}
use remote_monitoring_tool.Wire.Endian.{swap_endian_memory, swap_endian_small, swap_endian_twice}
use remote_monitoring_tool.Wire.Memory.{
  big_endian, length-big_endian, reverse-to_memory4, reverse-to_memory8, of_memory-to_memory,
}
use remote_monitoring_tool.Wire.Codec.{IsCodec, encode_all, write_items_lem, read_items_lem}

-- A stream that holds the bytes asked for gives them and stays good.
pub read_front : (bs rest : Bytes) → read (length bs) (stream (bs ++ rest)) ≡ (bs, stream rest)
unfolding read
read_front bs rest = rw (enough, take-length-append bs rest, drop-length-append bs rest)
  where
    enough : ltb (length (bs ++ rest)) (length bs) ≡ false
    enough = ltb-false _ _ (omega (arith, length-append bs rest))

read_front_n :
    (n : ℕ) (bs rest : Bytes) → length bs ≡ n → read n (stream (bs ++ rest)) ≡ (bs, stream rest)
read_front_n n bs rest e = rw (← e) (read_front bs rest)

pub memory4 : (v : ℕ) → to_memory 4 (swap_endian32 v) ≡ big_endian 4 v
memory4 v = (swap_endian_memory v).0 ∙ reverse-to_memory4 v

memory8 : (v : ℕ) → to_memory 8 (swap_endian64 v) ≡ big_endian 8 v
memory8 v = (swap_endian_memory v).1 ∙ reverse-to_memory8 v

pub write_uint32_lem : (os : Bytes) (v : ℕ) → write_uint32 os v ≡ os ++ big_endian 4 v
unfolding write_uint32
write_uint32_lem os v = ap (λ m. os ++ m) (memory4 v)

pub write_uint64_lem : (os : Bytes) (v : ℕ) → write_uint64 os v ≡ os ++ big_endian 8 v
unfolding write_uint64
write_uint64_lem os v = ap (λ m. os ++ m) (memory8 v)

-- The number behind the bytes that were read.
pub unswap32 : (v : ℕ) → v < 2 ^ 32 → swap_endian32 (of_memory (big_endian 4 v)) ≡ v
unswap32 v h =
    ap (λ m. swap_endian32 (of_memory m)) (sym (memory4 v))
    ∙ ap swap_endian32 (of_memory-to_memory 4 (swap_endian32 v) (swap_endian_small v).0)
    ∙ (swap_endian_twice v 0 h (omega arith)).0

unswap64 : (v : ℕ) → v < 2 ^ 64 → swap_endian64 (of_memory (big_endian 8 v)) ≡ v
unswap64 v h =
    ap (λ m. swap_endian64 (of_memory m)) (sym (memory8 v))
    ∙ ap swap_endian64 (of_memory-to_memory 8 (swap_endian64 v) (swap_endian_small v).1)
    ∙ (swap_endian_twice 0 v (omega arith) h).1

-- A uint32_t travels as four bytes in network order.
pub uint32-IsCodec :
    IsCodec (λ v. v < 2 ^ 32) (big_endian 4) (λ os v. ok (write_uint32 os v)) read_uint32
unfolding read_uint32
uint32-IsCodec = record {
  writes = λ os v h. ap ok (write_uint32_lem os v);
  reads =
      λ v rest h. rw (read_front_n 4 (big_endian 4 v) rest (length-big_endian 4 v), unswap32 v h);
}

-- A uint64_t travels as eight bytes in network order.
pub uint64-IsCodec :
    IsCodec (λ v. v < 2 ^ 64) (big_endian 8) (λ os v. ok (write_uint64 os v)) read_uint64
unfolding read_uint64
uint64-IsCodec = record {
  writes = λ os v h. ap ok (write_uint64_lem os v);
  reads =
      λ v rest h. rw (read_front_n 8 (big_endian 8 v) rest (length-big_endian 8 v), unswap64 v h);
}

-- A text travels behind its length.
unfoldable pub encode_string : Bytes → Bytes
encode_string s = big_endian 4 (length s) ++ s

pub length-encode_string : (s : Bytes) → length (encode_string s) ≡ 4 + length s
unfolding encode_string
length-encode_string s =
    omega (arith, length-append (big_endian 4 (length s)) s, length-big_endian 4 (length s))

fits : (n : ℕ) → n < 2 ^ 32 → n % 2 ^ 32 ≡ n
fits n h = omega arith

pub string-IsCodec : IsCodec (λ s. length s < 2 ^ 32) encode_string write_string read_string
unfolding write_string read_string read_bytes encode_string write_uint32
string-IsCodec = record {
  writes = λ os s h. rw (
    ltb-false (2 ^ 32 - 1) (length s) (omega arith),
    fits (length s) h,
    memory4 (length s),
    append_assoc,
  );
  reads = λ s rest h.
      rw (append_assoc, uint32-IsCodec.reads (length s) (s ++ rest) h, read_front s rest);
}

-- A text of 4 GiB or more is refused, and nothing is written.
pub write_string_large :
    (os s : Bytes) → 2 ^ 32 ≤ length s → write_string os s ≡ err string_too_large
unfolding write_string
write_string_large os s h = rw (lt→ltb (2 ^ 32 - 1) (length s) (omega arith))

-- The encoding of a vector: the count, then the elements.
abbrev pub encode_vector {ℓ} : {A : Type ℓ} → (A → Bytes) → List A → Bytes
encode_vector encode vec = big_endian 4 (length vec) ++ encode_all encode vec

abbrev pub VectorFits {ℓ} : {A : Type ℓ} → (A → Type 0) → List A → Type 0
VectorFits Fits vec = (length vec < 2 ^ 32) × All Fits vec

-- Let the elements' methods be a codec. Then for fewer than 2 ^ 32 elements,
-- write_vector_serializeable appends the count and the elements, and read_vector_serializeable
-- takes exactly them from the front of a stream and leaves the rest, whatever an unread count
-- would hold.
pub vector-IsCodec {ℓ} :
    {A : Type ℓ} {Fits : A → Type 0} {encode : A → Bytes} {write : Bytes → A → Result Bytes}
    {read : Reader A} (junk : ℕ)
    → IsCodec Fits encode write read
    → IsCodec (VectorFits Fits) (encode_vector encode) (write_vector write) (read_vector read junk)
unfolding write_vector read_vector
vector-IsCodec {encode} {write} {read} junk codec = record {
  writes = λ os vec h.
      rw (fits (length vec) h.0, memory4 (length vec))
        (write_items_lem codec (os ++ big_endian 4 (length vec)) vec h.1
          ∙ ap ok (append_assoc os (big_endian 4 (length vec)) (encode_all encode vec)));
  reads = λ vec rest h.
      rw
        (
          append_assoc,
          read_front_n 4 (big_endian 4 (length vec)) (encode_all encode vec ++ rest)
              (length-big_endian 4 (length vec)),
          unswap32 (length vec) h.0,
        )
        (read_items_lem codec vec rest h.1);
}
