-- ===== src/Proc/Io.antt =====
-- The disk usage of a process: what read_pid_io makes of its file.
use remote_monitoring_tool.Prelude.{
  ℕ, suc, ◌-◌, ◌^◌, ◌<◌, ◌≤◌, ◌≡◌, refl, sym, ap, ◌∙◌, some, none, [], ◌∷◌, ◌++◌, append-nil,
  append_assoc, arith, Bytes, newline, length, All,
}
use remote_monitoring_tool.Undefined.{bind_some}
use remote_monitoring_tool.Text.{decimal, from_chars, starts_with_digit}
use remote_monitoring_tool.Text.Lines.{Lacks}
use remote_monitoring_tool.Text.Decimal.{IsDigit, from_chars-decimal, decimal-IsDigit}
use remote_monitoring_tool.Proc.{
  buffer_size, read_file, skip_lines, number_line, parse_io, io_read, read_pid_io,
}
use remote_monitoring_tool.Proc.Buffer.{read_file-append, append-ne-nil}
use remote_monitoring_tool.Proc.Fields.{scan_lem}

-- The first six lines: the four that are passed over, and the names and numbers of two.
pub record IoText : Type 0 where
  pub rchar : Bytes
  pub wchar : Bytes
  pub syscr : Bytes
  pub syscw : Bytes
  pub read_name : Bytes
  pub read_bytes : ℕ
  pub write_name : Bytes
  pub write_bytes : ℕ

pub record IsIoText (t : IoText) : Type 0 where
  pub rchar_line : Lacks newline t.rchar
  pub wchar_line : Lacks newline t.wchar
  pub syscr_line : Lacks newline t.syscr
  pub syscw_line : Lacks newline t.syscw
  pub read_word : Lacks b' ' t.read_name
  pub read_small : t.read_bytes < 2 ^ 64
  pub write_word : Lacks b' ' t.write_name
  pub write_small : t.write_bytes < 2 ^ 64

abbrev numbers_then : IoText → Bytes → Bytes
numbers_then t tail =
    t.read_name
    ++ b' '
      ∷ (decimal t.read_bytes
          ++ newline ∷ (t.write_name ++ b' ' ∷ (decimal t.write_bytes ++ newline ∷ tail)))

abbrev io_then : IoText → Bytes → Bytes
io_then t tail =
    t.rchar
    ++ newline
      ∷ (t.wchar ++ newline ∷ (t.syscr ++ newline ∷ (t.syscw ++ newline ∷ numbers_then t tail)))

abbrev pub io_text : IoText → Bytes
io_text t = io_then t []

io_then-append : (t : IoText) (more : Bytes) → io_then t [] ++ more ≡ io_then t more
io_then-append t more = simp append_assoc

IsDigit-Lacks-newline : (s : Bytes) → All IsDigit s → Lacks newline s
IsDigit-Lacks-newline [] h = tt
IsDigit-Lacks-newline (c ∷ s) (hc, h) = (λ e. omega arith, IsDigit-Lacks-newline s h)

number_line_lem :
    (junk v : ℕ) (name tail : Bytes)
    → Lacks b' ' name
    → v < 2 ^ 64
    → number_line junk (name ++ b' ' ∷ (decimal v ++ newline ∷ tail)) ≡ some (v, tail)
unfolding number_line
number_line_lem junk v name tail h fits = bind_some _ (scan_lem b' ' name _ h) (
    bind_some _
      (scan_lem newline (decimal v) tail (IsDigit-Lacks-newline (decimal v) (decimal-IsDigit v)))
      (ap (λ n. some (n, tail))
        (ap (λ s. from_chars (2 ^ 64) s junk) (sym (append-nil (decimal v)))
          ∙ from_chars-decimal (2 ^ 64) v junk [] fits (unfold starts_with_digit in refl))))

skip_lines_lem :
    (lines : ℕ) (line tail : Bytes)
    → Lacks newline line
    → skip_lines (suc lines) (line ++ newline ∷ tail) ≡ skip_lines lines tail
unfolding skip_lines
skip_lines_lem lines line tail h = bind_some _ (scan_lem newline line tail h) refl

parse_io_lem :
    (junk_read junk_write : ℕ) (t : IoText) (tail : Bytes)
    → IsIoText t
    → parse_io junk_read junk_write (io_then t tail)
      ≡ some (record { disk_read = some t.read_bytes; disk_write = some t.write_bytes })
unfolding parse_io skip_lines
parse_io_lem junk_read junk_write t tail h =
    bind_some _
      (skip_lines_lem 3 t.rchar _ h.rchar_line
        ∙ skip_lines_lem 2 t.wchar _ h.wchar_line
        ∙ skip_lines_lem 1 t.syscr _ h.syscr_line
        ∙ skip_lines_lem 0 t.syscw (numbers_then t tail) h.syscw_line)
      (bind_some _ (number_line_lem junk_read t.read_bytes t.read_name _ h.read_word h.read_small) (
        bind_some _
          (number_line_lem junk_write t.write_bytes t.write_name tail h.write_word h.write_small)
          refl))

-- Let the io file of a process start with four lines and then two with a word, a space and a number
-- below 2 ^ 64, which fit the buffer. Then read_pid_io gives the two numbers, whatever follows and
-- whatever the buffer held. A file that cannot be read gives no numbers.
pub read_pid_io-io_text :
    (junk_read junk_write : ℕ) (t : IoText) (more buffer : Bytes)
    → IsIoText t
    → length (io_text t) ≤ buffer_size - 1
    → ((read_pid_io junk_read junk_write (some (io_text t ++ more)) buffer).0
        ≡ some (record { disk_read = some t.read_bytes; disk_write = some t.write_bytes }))
      × ((read_pid_io junk_read junk_write none buffer).0
          ≡ some (record { disk_read = none; disk_write = none }))
unfolding read_pid_io io_read read_file
read_pid_io-io_text junk_read junk_write t more buffer h fits =
    let (n, behind, got) =
      read_file-append (io_text t) more buffer (append-ne-nil t.rchar _ newline) fits in
    (
      ap (λ r. (io_read junk_read junk_write r).0) got
          ∙ ap (parse_io junk_read junk_write) (io_then-append t behind)
          ∙ parse_io_lem junk_read junk_write t behind h,
      refl,
    )
