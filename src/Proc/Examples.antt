-- ===== src/Proc/Examples.antt =====
-- Files of /proc at concrete inputs.
use remote_monitoring_tool.Prelude.{
  ℕ, ◌^◌, ◌<◌, ◌≡◌, refl, Bool, true, not, ◌&&◌, ◌==◌, Option, none, some, List, [], ◌∷◌, ◌++◌,
  arith, map, Bytes, codes, newline,
}
use remote_monitoring_tool.Result.{ok}
use remote_monitoring_tool.Text.{decimal, from_chars, digits_value, starts_with_digit}
use remote_monitoring_tool.Text.Lines.{Lacks}
use remote_monitoring_tool.Proc.Fields.{join, decimal-IsField}
use remote_monitoring_tool.Proc.{
  list_pids, read_stat_cpu, read_pid_stat_cpu_mem, read_pid_io, read_process_metadata,
  get_socket_inode_list, list_pids,
}
use remote_monitoring_tool.Proc.Stat.{CpuTimes, cpu_line, decimals-IsField, read_stat_cpu-cpu_line}
use remote_monitoring_tool.Proc.Parentheses.{closes}
use remote_monitoring_tool.Proc.PidStat.{PidStat, IsPidStat, pid_stat_text}
use remote_monitoring_tool.Proc.PidStat.Read.{read_pid_stat_cpu_mem-pid_stat_text}
use remote_monitoring_tool.Proc.Io.{IoText, io_text, read_pid_io-io_text}
use remote_monitoring_tool.Proc.Cmdline.{cmdline_text, read_process_metadata-cmdline_text}
use remote_monitoring_tool.Proc.Sockets.{socket_link, get_socket_inode_list-socket_link}

abbrev times : CpuTimes
times = record {
  user = 100;
  nice = 2;
  system = 30;
  idle = 4000;
  others = 5 ∷ 0 ∷ 6 ∷ 0 ∷ 0 ∷ [];
  guest_nice = 0;
}

cpu_line_test : cpu_line times (codes "cpu0") ≡ codes "cpu  100 2 30 4000 5 0 6 0 0 0\ncpu0 "
unfolding decimal join
cpu_line_test = refl

lacks : ℕ → Bytes → Bool
lacks delim [] = true
lacks delim (c ∷ s) = let rest = lacks delim s in not (c == delim) && rest

Lacks-lacks : (delim : ℕ) (s : Bytes) → lacks delim s ≡ true → Lacks delim s
unfolding lacks
Lacks-lacks delim [] h = tt
Lacks-lacks delim (c ∷ s) h = (λ e. ground arith, Lacks-lacks delim s (ground arith))

read_stat_cpu-cpu_line_example :
    (read_stat_cpu 9 (some (cpu_line times (codes "cpu0") ++ codes "100 2")) []).0
    ≡ some (ok (record { cpu_usage = 4143; cpu_idle = 30 }))
unfolding decimal join
read_stat_cpu-cpu_line_example =
    read_stat_cpu-cpu_line 9 times (codes "cpu0") (codes "100 2") []
      (
        omega arith,
        (
          omega arith,
          (
            omega arith,
            (
              omega arith,
              (omega arith, (omega arith, (omega arith, (omega arith, (omega arith, tt))))),
            ),
          ),
        ),
      )
      refl (omega arith)
      (λ e. omega arith, (λ e. omega arith, (λ e. omega arith, (λ e. omega arith, tt))))
      (omega arith)

-- The process 77, with parentheses in its name.
abbrev sample : PidStat
sample = record {
  pid = 77;
  name = codes "(sd-pam)";
  before = map decimal (1 ∷ 2 ∷ 3 ∷ 4 ∷ 5 ∷ 6 ∷ 7 ∷ 8 ∷ 9 ∷ 10 ∷ 11 ∷ []);
  utime = 1234;
  between = map decimal (1 ∷ 2 ∷ 3 ∷ 4 ∷ 5 ∷ 6 ∷ 7 ∷ 8 ∷ 9 ∷ []);
  rss = 56;
  after = map decimal (
      1 ∷ 2 ∷ 3 ∷ 4 ∷ 5 ∷ 6 ∷ 7 ∷ 8 ∷ 9 ∷ 1 ∷ 2 ∷ 3 ∷ 4 ∷ 5 ∷ 6 ∷ 7 ∷ 8 ∷ 9 ∷ 1 ∷ 2 ∷ 3 ∷ 4 ∷ 5 ∷ 6
      ∷ 7 ∷ 8 ∷ 9 ∷ []);
  last = decimal 0;
}

sample-IsPidStat : IsPidStat sample
unfolding closes
sample-IsPidStat = record {
  pairs = refl;
  before_fields = decimals-IsField (1 ∷ 2 ∷ 3 ∷ 4 ∷ 5 ∷ 6 ∷ 7 ∷ 8 ∷ 9 ∷ 10 ∷ 11 ∷ []);
  before_count = refl;
  utime_small = omega arith;
  between_fields = decimals-IsField (1 ∷ 2 ∷ 3 ∷ 4 ∷ 5 ∷ 6 ∷ 7 ∷ 8 ∷ 9 ∷ []);
  between_count = refl;
  rss_small = omega arith;
  after_fields = decimals-IsField (
      1 ∷ 2 ∷ 3 ∷ 4 ∷ 5 ∷ 6 ∷ 7 ∷ 8 ∷ 9 ∷ 1 ∷ 2 ∷ 3 ∷ 4 ∷ 5 ∷ 6 ∷ 7 ∷ 8 ∷ 9 ∷ 1 ∷ 2 ∷ 3 ∷ 4 ∷ 5 ∷ 6
      ∷ 7 ∷ 8 ∷ 9 ∷ []);
  after_count = refl;
  last_field = decimal-IsField 0;
}

-- An earlier call left two spaces behind the file.
abbrev stale_buffer : Bytes
stale_buffer = pid_stat_text sample ++ 0 ∷ codes "  x"

read_pid_stat_cpu_mem-pid_stat_text_example :
    (read_pid_stat_cpu_mem 4096 (some (pid_stat_text sample)) stale_buffer).0
    ≡ some (ok (record { total_cpu_usage = 1234; mem_usage = 229376 }))
unfolding decimal join
read_pid_stat_cpu_mem-pid_stat_text_example =
    (read_pid_stat_cpu_mem-pid_stat_text 4096 sample stale_buffer sample-IsPidStat (omega arith)).0
      [] (codes " x") refl tt

abbrev io_sample : IoText
io_sample = record {
  rchar = codes "rchar: 100";
  wchar = codes "wchar: 20";
  syscr = codes "syscr: 3";
  syscw = codes "syscw: 4";
  read_name = codes "read_bytes:";
  read_bytes = 4096;
  write_name = codes "write_bytes:";
  write_bytes = 8192;
}

read_pid_io-io_text_example :
    ((read_pid_io 1 2 (some (io_text io_sample ++ codes "cancelled_write_bytes: 0")) []).0
      ≡ some (record { disk_read = some 4096; disk_write = some 8192 }))
    × ((read_pid_io 1 2 none []).0 ≡ some (record { disk_read = none; disk_write = none }))
unfolding decimal lacks
read_pid_io-io_text_example =
    read_pid_io-io_text 1 2 io_sample (codes "cancelled_write_bytes: 0") []
      (record {
        rchar_line = Lacks-lacks newline (codes "rchar: 100") refl;
        wchar_line = Lacks-lacks newline (codes "wchar: 20") refl;
        syscr_line = Lacks-lacks newline (codes "syscr: 3") refl;
        syscw_line = Lacks-lacks newline (codes "syscw: 4") refl;
        read_word = Lacks-lacks b' ' (codes "read_bytes:") refl;
        read_small = omega arith;
        write_word = Lacks-lacks b' ' (codes "write_bytes:") refl;
        write_small = omega arith;
      })
      (omega arith)

read_process_metadata-cmdline_text_example :
    (read_process_metadata 77
      (some (cmdline_text (codes "/usr/bin/cat" ∷ codes "file" ∷ [])))
      none
      []).0
    ≡ ok (record {
      pid = 77;
      process_name = codes "cat";
      args = codes "/usr/bin/cat" ∷ codes "file" ∷ [];
    })
unfolding cmdline_text lacks
read_process_metadata-cmdline_text_example =
    read_process_metadata-cmdline_text 77 (codes "/usr/bin") (codes "cat") (codes "file" ∷ []) none
      [] (Lacks-lacks b'/' (codes "cat") refl) (Lacks-lacks 0 (codes "/usr/bin/cat") refl)
      (Lacks-lacks 0 (codes "file") refl, tt) (omega arith)

abbrev others : List (Option Bytes)
others = none ∷ some (codes "/dev/null") ∷ []

get_socket_inode_list-socket_link_example :
    (get_socket_inode_list 9 none ≡ some [])
    × (get_socket_inode_list 9 (some others) ≡ some [])
    × (12345 < 10 ^ 7
        → get_socket_inode_list 9 (some (others ++ some (socket_link 12345) ∷ [])) ≡ none)
get_socket_inode_list-socket_link_example =
    get_socket_inode_list-socket_link 9 others [] 12345 (tt, (refl, tt))

list_pids_test : list_pids 9 (codes "1" ∷ codes "self" ∷ codes "4242" ∷ []) ≡ 1 ∷ 4242 ∷ []
unfolding list_pids from_chars digits_value starts_with_digit
list_pids_test = refl
