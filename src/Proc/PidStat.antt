-- ===== src/Proc/PidStat.antt =====
-- The file of a process with its usage, as read_pid_stat_cpu_mem reads it.
pub mod Read
use remote_monitoring_tool.Prelude.{
  ℕ, zero, suc, ◌+◌, ◌-◌, ◌*◌, ◌%◌, ◌^◌, ◌<◌, ◌≤◌, ◌≡◌, ◌≢◌, ◌⊎◌, refl, sym, ap, ◌∙◌, Bool, true,
  false, ◌&&◌, Option, none, some, List, [], ◌∷◌, ◌++◌, append-nil, append_assoc, arith, map, Bytes,
  codes, newline, ◌==◌, if◌then◌else◌, length, length-append, take, drop, take_all, All, All-append,
  ltb, Bool-cases, inl, inr, lt→ltb, ltb→lt,
}
use remote_monitoring_tool.Result.{Result, ok}
use remote_monitoring_tool.Undefined.{◌>>=◌, bind_some}
use remote_monitoring_tool.Text.{decimal, from_chars, starts_with_digit}
use remote_monitoring_tool.Text.Lines.{Lacks}
use remote_monitoring_tool.Text.Decimal.{from_chars-decimal, decimal-IsDigit}
use remote_monitoring_tool.ProcessTable.Update.{CpuMemStat}
use remote_monitoring_tool.Proc.{
  buffer_size, put_buffer, bytes_read, read_file, scan, skip_spaces, skip_parentheses, one_field,
  read_fields, take_cpu_mem, no_cpu_mem, parse_pid_stat, stat_read, read_pid_stat_cpu_mem,
}
use remote_monitoring_tool.Proc.Fields.{
  IsField, field, decimal-IsField, append-IsField, IsDigit-Lacks-space, join, take_fields,
  read_fields_one, read_fields_lem, read_fields_space, scan_lem, scan_missing,
}
use remote_monitoring_tool.Proc.Parentheses.{closes}

-- The file of a process: its id and its name, the fields 3 to 51 and the last one. The fields 14
-- and 24 are numbers.
pub record PidStat : Type 0 where
  pub pid : ℕ
  pub name : Bytes
  pub before : List Bytes
  pub utime : ℕ
  pub between : List Bytes
  pub rss : ℕ
  pub after : List Bytes
  pub last : Bytes

pub record IsPidStat (s : PidStat) : Type 0 where
  pub pairs : closes 1 s.name ≡ true
  pub before_fields : All IsField s.before
  pub before_count : length s.before ≡ 11
  pub utime_small : s.utime < 2 ^ 64
  pub between_fields : All IsField s.between
  pub between_count : length s.between ≡ 9
  pub rss_small : s.rss < 2 ^ 64
  pub after_fields : All IsField s.after
  pub after_count : length s.after ≡ 27
  pub last_field : IsField s.last

-- The line, with what stands behind the last field.
abbrev pub fields_then : PidStat → Bytes → Bytes
fields_then s tail =
    join s.before
    ++ (decimal s.utime
        ++ b' ' ∷ (join s.between ++ (decimal s.rss ++ b' ' ∷ (join s.after ++ (s.last ++ tail)))))

abbrev pub text_then : PidStat → Bytes → Bytes
text_then s tail = decimal s.pid ++ b' ' ∷ b'(' ∷ (s.name ++ b')' ∷ b' ' ∷ fields_then s tail)

abbrev pub pid_stat_text : PidStat → Bytes
pid_stat_text s = text_then s (newline ∷ [])

pub text_then-append :
    (s : PidStat) (tail more : Bytes) → text_then s tail ++ more ≡ text_then s (tail ++ more)
text_then-append s tail more = simp append_assoc
