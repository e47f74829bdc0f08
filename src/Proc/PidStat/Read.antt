-- ===== src/Proc/PidStat/Read.antt =====
-- The usage of a process: what read_pid_stat_cpu_mem makes of its file.
use remote_monitoring_tool.Prelude.{
  ℕ, suc, ◌+◌, ◌-◌, ◌*◌, ◌%◌, ◌^◌, ◌<◌, ◌≤◌, ◌≡◌, ◌≢◌, ◌⊎◌, refl, sym, ap, ◌∙◌, false, Option, none,
  some, List, [], ◌∷◌, ◌++◌, append-nil, append_assoc, arith, Bytes, newline, ◌==◌, length, drop,
  All, All-append,
}
use remote_monitoring_tool.Result.{Result, ok}
use remote_monitoring_tool.Undefined.{bind_some}
use remote_monitoring_tool.Text.{decimal, from_chars, starts_with_digit}
use remote_monitoring_tool.Text.Lines.{Lacks}
use remote_monitoring_tool.Text.Decimal.{from_chars-decimal, decimal-IsDigit}
use remote_monitoring_tool.ProcessTable.Update.{CpuMemStat}
use remote_monitoring_tool.Proc.{
  buffer_size, skip_spaces, skip_parentheses, one_field, read_fields, take_cpu_mem, no_cpu_mem,
  parse_pid_stat, stat_read, read_pid_stat_cpu_mem,
}
use remote_monitoring_tool.Proc.Fields.{
  IsField, field, decimal-IsField, append-IsField, IsDigit-Lacks-space, join, take_fields,
  read_fields_one, read_fields_lem, scan_lem, scan_missing,
}
use remote_monitoring_tool.Proc.Buffer.{read_file_short, append-ne-nil}
use remote_monitoring_tool.Proc.Parentheses.{skip_parentheses_lem}
use remote_monitoring_tool.Proc.PidStat.{
  PidStat, IsPidStat, fields_then, text_then, pid_stat_text, text_then-append,
}

-- Fields with other numbers than 14 and 24 are passed over.
take_fields-other :
    (page_size n : ℕ) (fs : List Bytes) (stat : CpuMemStat)
    → (n + length fs ≤ 14) ⊎ ((14 < n) × (n + length fs ≤ 24)) ⊎ (24 < n)
    → take_fields (take_cpu_mem page_size) n fs stat ≡ stat
unfolding take_fields take_cpu_mem
take_fields-other page_size n [] stat h = refl
take_fields-other page_size n (f ∷ fs) stat h =
    rw (not_utime, not_rss) (take_fields-other page_size (n + 1) fs stat (omega arith))
  where
    not_utime : (n == 14) ≡ false
    not_utime = ground arith

    not_rss : (n == 24) ≡ false
    not_rss = ground arith

from_chars_all : (v old : ℕ) → v < 2 ^ 64 → from_chars (2 ^ 64) (decimal v) old ≡ v
from_chars_all v old h =
    ap (λ s. from_chars (2 ^ 64) s old) (sym (append-nil (decimal v)))
    ∙ from_chars-decimal (2 ^ 64) v old [] h (unfold starts_with_digit in refl)

abbrev usage : ℕ → PidStat → CpuMemStat
usage page_size s = record { total_cpu_usage = s.utime; mem_usage = s.rss * page_size % 2 ^ 64 }

take_utime :
    (page_size v : ℕ)
    → v < 2 ^ 64
    → take_cpu_mem page_size 14 (decimal v) no_cpu_mem
      ≡ record { total_cpu_usage = v; mem_usage = 0 }
unfolding take_cpu_mem
take_utime page_size v h =
    ap (λ n. record { total_cpu_usage = n; mem_usage = 0 }) (from_chars_all v 0 h)

take_rss :
    (page_size u v : ℕ)
    → v < 2 ^ 64
    → take_cpu_mem page_size 24 (decimal v) (record { total_cpu_usage = u; mem_usage = 0 })
      ≡ record { total_cpu_usage = u; mem_usage = v * page_size % 2 ^ 64 }
unfolding take_cpu_mem
take_rss page_size u v h =
    ap (λ n. record { total_cpu_usage = u; mem_usage = n * page_size % 2 ^ 64 })
      (from_chars_all v 0 h)

-- A group of fields that are passed over, and a number behind it.
group_read :
    (page_size all left n n' : ℕ) (fs : List Bytes) (v : ℕ) (p : Bytes) (stat stat' : CpuMemStat)
    → All IsField fs
    → all ≡ length fs + (1 + left)
    → n' ≡ n + length fs
    → (n' ≤ 14) ⊎ ((14 < n) × (n' ≤ 24))
    → take_cpu_mem page_size n' (decimal v) stat ≡ stat'
    → read_fields (take_cpu_mem page_size) all n (join fs ++ (decimal v ++ b' ' ∷ p)) stat
      ≡ read_fields (take_cpu_mem page_size) left (n' + 1) p stat'
group_read page_size all left n n' fs v p stat stat' hf e e' apart same =
    read_fields_lem take fs all (suc left) n n' (decimal v ++ b' ' ∷ p) stat hf (omega arith) e'
    ∙ ap (λ st. read_fields take (suc left) n' (decimal v ++ b' ' ∷ p) st)
        (take_fields-other page_size n fs stat (omega arith))
    ∙ read_fields_one take left n' (decimal v) p stat (decimal-IsField v)
    ∙ ap (λ st. read_fields take left (n' + 1) p st) same
  where
    take : ℕ → Bytes → CpuMemStat → CpuMemStat
    take = take_cpu_mem page_size

fields_read :
    (page_size : ℕ) (s : PidStat) (tail : Bytes)
    → IsPidStat s
    → read_fields (take_cpu_mem page_size) 50 3 (fields_then s tail) no_cpu_mem
      ≡ read_fields (take_cpu_mem page_size) 1 52 (s.last ++ tail) (usage page_size s)
fields_read page_size s tail h =
    group_read page_size 50 38 3 14 s.before s.utime _ no_cpu_mem _ h.before_fields
      (omega (arith, h.before_count)) (omega (arith, h.before_count)) (omega arith)
      (take_utime page_size s.utime h.utime_small)
    ∙ group_read page_size 38 28 15 24 s.between s.rss _ _ _ h.between_fields
        (omega (arith, h.between_count)) (omega (arith, h.between_count)) (omega arith)
        (take_rss page_size s.utime s.rss h.rss_small)
    ∙ read_fields_lem (take_cpu_mem page_size) s.after 28 1 25 52 (s.last ++ tail) _ h.after_fields
        (omega (arith, h.after_count)) (omega (arith, h.after_count))
    ∙ ap (λ st. read_fields (take_cpu_mem page_size) 1 52 (s.last ++ tail) st)
        (take_fields-other page_size 25 s.after _ (omega arith))

parse_pid_stat_lem :
    (page_size : ℕ) (s : PidStat) (tail : Bytes)
    → IsPidStat s
    → parse_pid_stat page_size (text_then s tail)
      ≡ read_fields (take_cpu_mem page_size) 1 52 (s.last ++ tail) (usage page_size s)
unfolding parse_pid_stat skip_parentheses
parse_pid_stat_lem page_size s tail h =
    bind_some _
      (scan_lem b' ' (decimal s.pid) _
        (IsDigit-Lacks-space (decimal s.pid) (decimal-IsDigit s.pid)))
      (bind_some _ (opened s tail h) (fields_read page_size s tail h))
  where
    opened :
        (s : PidStat) (tail : Bytes)
        → IsPidStat s
        → skip_parentheses 0 (b'(' ∷ (s.name ++ b')' ∷ b' ' ∷ fields_then s tail))
          ≡ some (b' ' ∷ fields_then s tail)
    opened s tail h = skip_parentheses_lem 1 s.name _ (omega arith) h.pairs

-- The last field is read up to a space that an earlier call left in the buffer.
last_read :
    (page_size : ℕ) (last between more : Bytes) (stat : CpuMemStat)
    → IsField last
    → Lacks b' ' between
    → read_fields
        (take_cpu_mem page_size)
        1
        52
        (last ++ newline ∷ 0 ∷ (between ++ b' ' ∷ more))
        stat
      ≡ some (ok stat)
unfolding read_fields take_cpu_mem
last_read page_size last between more stat hl hb =
    ap (λ p. read_fields (take_cpu_mem page_size) 1 52 p stat)
      (sym (append_assoc last (newline ∷ 0 ∷ between) (b' ' ∷ more)))
    ∙ read_fields_one (take_cpu_mem page_size) 0 52 (last ++ newline ∷ 0 ∷ between) more stat
        (append-IsField last (newline ∷ 0 ∷ between) hl (λ e. omega arith, (λ e. omega arith, hb)))

last_unread :
    (page_size : ℕ) (last stale : Bytes) (stat : CpuMemStat)
    → IsField last
    → Lacks b' ' stale
    → read_fields (take_cpu_mem page_size) 1 52 (last ++ newline ∷ 0 ∷ stale) stat ≡ none
unfolding read_fields one_field skip_spaces
last_unread page_size _ stale stat (field c s nz h) hs =
    rw (no_space, no_end, scan_missing b' ' ((c ∷ s) ++ newline ∷ 0 ∷ stale) lacks) refl
  where
    no_space : (c == b' ') ≡ false
    no_space = ground (arith, h.0)

    no_end : (c == 0) ≡ false
    no_end = ground (arith, nz)

    lacks : Lacks b' ' ((c ∷ s) ++ newline ∷ 0 ∷ stale)
    lacks =
        All-append (λ b. b ≢ b' ') (c ∷ s) (newline ∷ 0 ∷ stale) h
          (λ e. omega arith, (λ e. omega arith, hs))

-- Let the file of a process have its 52 fields, with paired parentheses in its name, and fit the
-- buffer with its last newline. If earlier calls left a space in the buffer behind the file, then
-- read_pid_stat_cpu_mem gives the field 14 as the time and the field 24 times the page size as the
-- memory. If they left none, the loop for the last field runs out of the buffer.
pub read_pid_stat_cpu_mem-pid_stat_text :
    (page_size : ℕ) (s : PidStat) (buffer : Bytes)
    → IsPidStat s
    → length (pid_stat_text s) ≤ buffer_size - 1
    → ((between more : Bytes)
        → drop (length (pid_stat_text s) + 1) buffer ≡ between ++ b' ' ∷ more
        → Lacks b' ' between
        → (read_pid_stat_cpu_mem page_size (some (pid_stat_text s)) buffer).0
          ≡ some
              (ok (record { total_cpu_usage = s.utime; mem_usage = s.rss * page_size % 2 ^ 64 })))
      × (Lacks b' ' (drop (length (pid_stat_text s) + 1) buffer)
          → (read_pid_stat_cpu_mem page_size (some (pid_stat_text s)) buffer).0 ≡ none)
unfolding read_pid_stat_cpu_mem stat_read
read_pid_stat_cpu_mem-pid_stat_text page_size s buffer h fits = (
  λ between more left hb.
      up_to_last
      ∙ ap (λ p. last_field (s.last ++ newline ∷ 0 ∷ p)) left
      ∙ last_read page_size s.last between more _ h.last_field hb,
  λ lacks. up_to_last ∙ last_unread page_size s.last stale _ h.last_field lacks,
)
  where
    stale : Bytes
    stale = drop (length (pid_stat_text s) + 1) buffer

    last_field : Bytes → Option (Result CpuMemStat)
    last_field p = read_fields (take_cpu_mem page_size) 1 52 p (usage page_size s)

    up_to_last :
        (read_pid_stat_cpu_mem page_size (some (pid_stat_text s)) buffer).0
        ≡ last_field (s.last ++ newline ∷ 0 ∷ stale)
    up_to_last =
        ap (λ r. (stat_read page_size r).0)
          (read_file_short (pid_stat_text s) buffer (append-ne-nil (decimal s.pid) _ b' ') fits)
        ∙ ap (parse_pid_stat page_size) (text_then-append s (newline ∷ []) (0 ∷ stale))
        ∙ parse_pid_stat_lem page_size s (newline ∷ 0 ∷ stale) h
