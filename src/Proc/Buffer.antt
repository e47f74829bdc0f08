-- ===== src/Proc/Buffer.antt =====
-- The static buffer behind a read_file.
use remote_monitoring_tool.Prelude.{
  ℕ, ◌+◌, ◌-◌, ◌≤◌, ◌≡◌, ◌≢◌, refl, ap, ◌∙◌, Option, some, [], ◌∷◌, ◌++◌, append_assoc, Bytes,
  length, take, drop, take-append, take_all,
}
use remote_monitoring_tool.Proc.{buffer_size, put_buffer, bytes_read, read_file}

-- A file that fits the buffer stands in it, with a 0 behind it.
pub read_file_short :
    (content buffer : Bytes)
    → content ≢ []
    → length content ≤ buffer_size - 1
    → read_file (some content) buffer
      ≡ (some (length content), content ++ 0 ∷ drop (length content + 1) buffer)
unfolding read_file bytes_read put_buffer
read_file_short [] buffer ne h = absurd (ne refl)
read_file_short (c ∷ content) buffer ne h =
    ap (λ bytes. bytes_read bytes buffer) (take_all (buffer_size - 1) (c ∷ content) h)

pub append-ne-nil : (xs ys : Bytes) (y : ℕ) → xs ++ y ∷ ys ≢ []
append-ne-nil [] ys y e = cc
append-ne-nil (x ∷ xs) ys y e = cc

-- A file starts with bytes that fit the buffer: so does the buffer afterwards.
pub read_file-append :
    (front more buffer : Bytes)
    → front ≢ []
    → length front ≤ buffer_size - 1
    → (n : ℕ) × (behind : Bytes) × (read_file (some (front ++ more)) buffer
        ≡ (some n, front ++ behind))
unfolding read_file bytes_read put_buffer
read_file-append [] more buffer ne h = absurd (ne refl)
read_file-append (c ∷ front) more buffer ne h =
    let kept : Bytes = take (buffer_size - 1 - length (c ∷ front)) more in
    let all : Bytes = (c ∷ front) ++ kept in
    (
      length all,
      kept ++ 0 ∷ drop (length all + 1) buffer,
      ap (λ bytes. bytes_read bytes buffer) (take-append (buffer_size - 1) (c ∷ front) more h)
          ∙ ap (with_count (length all))
              (append_assoc (c ∷ front) kept (0 ∷ drop (length all + 1) buffer)),
    )
  where
    with_count : ℕ → Bytes → Option ℕ × Bytes
    with_count n bytes = (some n, bytes)
