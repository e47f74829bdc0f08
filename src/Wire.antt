-- ===== src/Wire.antt =====
-- common/serializable.hpp and serializable.cpp: the binary form of numbers, texts and vectors.
-- The host is little-endian, as the platforms that the program supports are: `to_memory` is the
-- object representation that `reinterpret_cast<char*>` shows. An output stream is the bytes written
-- so far; writing to a string stream does not fail. Allocation is taken to succeed.
pub mod Memory
pub mod Endian
pub mod Codec
pub mod Numbers
mod Examples
use Prim.Native.Nat.{bit_and, bit_or}
use remote_monitoring_tool.Prelude.{
  ℕ, zero, suc, ◌+◌, ◌-◌, ◌*◌, ◌/◌, ◌%◌, ◌^◌, Bool, true, false, List, [], ◌∷◌, ◌++◌, Bytes, length,
  take, drop, ltb, if◌then◌else◌,
}
use remote_monitoring_tool.Result.{Result, ok, err, read_failed, string_too_large, ◌>>=◌}

-- The bytes of an unsigned integer of n bytes, lowest first, and the integer of such bytes.
unfoldable pub to_memory : ℕ → ℕ → Bytes
to_memory zero v = []
to_memory (suc n) v = (v % 256) ∷ to_memory n (v / 256)

unfoldable pub of_memory : Bytes → ℕ
of_memory [] = 0
of_memory (b ∷ bs) = b + 256 * of_memory bs

-- A uint32_t shifted left loses what leaves its 32 bits.
unfoldable pub swap_endian32 : ℕ → ℕ
swap_endian32 value =
    bit_or
      (bit_or
        (bit_or (bit_and value 0x000000ff * 2 ^ 24 % 2 ^ 32)
          (bit_and value 0x0000ff00 * 2 ^ 8 % 2 ^ 32))
        (bit_and value 0x00ff0000 / 2 ^ 8))
      (bit_and value 0xff000000 / 2 ^ 24)

-- The first loop of the 64-bit version, from round i on: bytes[i] = value >> (8 * i) & 0xff.
scatter : ℕ → ℕ → ℕ → Bytes
scatter zero i value = []
scatter (suc rounds) i value = bit_and (value / 2 ^ (8 * i)) 0xff ∷ scatter rounds (i + 1) value

-- The second loop: value | (bytes[i] << (8 * (7 - i))).
gather : Bytes → ℕ → ℕ → ℕ
gather [] i value = value
gather (b ∷ bytes) i value = gather bytes (i + 1) (bit_or value (b * 2 ^ (8 * (7 - i)) % 2 ^ 64))

unfoldable pub swap_endian64 : ℕ → ℕ
unfolding scatter gather
swap_endian64 value = gather (scatter 8 0 value) 0 0

unfoldable pub write_uint32 : Bytes → ℕ → Bytes
write_uint32 os value = os ++ to_memory 4 (swap_endian32 value)

unfoldable pub write_uint64 : Bytes → ℕ → Bytes
write_uint64 os value = os ++ to_memory 8 (swap_endian64 value)

unfoldable pub write_string : Bytes → Bytes → Result Bytes
write_string os str =
    if ltb (2 ^ 32 - 1) (length str)
    then err string_too_large
    else ok (write_uint32 os (length str % 2 ^ 32) ++ str)

-- A std::istringstream: the bytes not yet read, and whether no error bit is set.
pub record InStream : Type 0 where
  pub rest : Bytes
  pub good : Bool

abbrev pub stream : Bytes → InStream
stream bytes = record { rest = bytes; good = true }

-- is.read(…, n): the bytes that were stored, and the stream; a short read stores what there is.
unfoldable pub read : ℕ → InStream → Bytes × InStream
read n is =
    if is.good
    then if ltb (length is.rest) n
      then (is.rest, record { rest = []; good = false })
      else (take n is.rest, record { rest = drop n is.rest; good = true })
    else ([], is)

abbrev pub Reader {ℓ} : Type ℓ → Type ℓ
Reader A = InStream → Result (A × InStream)

unfoldable pub read_uint32 : Reader ℕ
read_uint32 is =
    let (be, is') = read 4 is in
    if is'.good then ok (swap_endian32 (of_memory be), is') else err read_failed

unfoldable pub read_uint64 : Reader ℕ
read_uint64 is =
    let (be, is') = read 8 is in
    if is'.good then ok (swap_endian64 (of_memory be), is') else err read_failed

read_bytes : ℕ → Reader Bytes
read_bytes size is =
    let (str, is') = read size is in if is'.good then ok (str, is') else err read_failed

unfoldable pub read_string : Reader Bytes
unfolding read_bytes
read_string is = do (size, is') ← read_uint32 is; read_bytes size is'

-- The element loops of the vector functions, over the elements' own methods.
module _ {ℓ} {A : Type ℓ} where
  pub write_items : (Bytes → A → Result Bytes) → Bytes → List A → Result Bytes
  write_items serialize os [] = ok os
  write_items serialize os (item ∷ vec) = do os' ← serialize os item; write_items serialize os' vec

  -- write_vector_serializeable
  unfoldable pub write_vector : (Bytes → A → Result Bytes) → Bytes → List A → Result Bytes
  unfolding write_items
  write_vector serialize os vec =
      let count = length vec % 2 ^ 32 in
      write_items serialize (os ++ to_memory 4 (swap_endian32 count)) vec

  pub read_items : Reader A → ℕ → Reader (List A)
  read_items deserialize zero is = ok ([], is)
  read_items deserialize (suc count) is = do
    (item, is1) ← deserialize is
    (vec, is2) ← read_items deserialize count is1
    ok (item ∷ vec, is2)

  -- read_vector_serializeable. The stream is not tested after the count was read: a short read
  -- leaves `net_count` with an indeterminate value, `junk`.
  unfoldable pub read_vector : Reader A → ℕ → Reader (List A)
  unfolding read_items
  read_vector deserialize junk is =
      let (bytes, is') = read 4 is in
      let net_count = if is'.good then of_memory bytes else junk in
      read_items deserialize (swap_endian32 net_count) is'

unfoldable pub write_vector_string : Bytes → List Bytes → Result Bytes
write_vector_string = write_vector write_string

unfoldable pub read_vector_string : ℕ → Reader (List Bytes)
read_vector_string = read_vector read_string
