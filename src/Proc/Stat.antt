-- ===== src/Proc/Stat.antt =====
-- The times of the processors: what read_stat_cpu makes of /proc/stat.
use remote_monitoring_tool.Prelude.{
  ℕ, ◌+◌, ◌-◌, ◌%◌, ◌^◌, ◌<◌, ◌≤◌, ◌≡◌, refl, sym, ap, ◌∙◌, false, some, List, [], ◌∷◌, ◌++◌,
  append-nil, append_assoc, arith, map, Bytes, codes, newline, ◌==◌, if◌then◌else◌, length,
  length-map, sum, All, ltb,
}
use remote_monitoring_tool.Result.{ok}
use remote_monitoring_tool.Text.{decimal, starts_with_digit}
use remote_monitoring_tool.Text.Lines.{Lacks}
use remote_monitoring_tool.Text.Decimal.{from_chars-decimal}
use remote_monitoring_tool.ProcessTable.{CpuStat}
use remote_monitoring_tool.Proc.{buffer_size, read_fields, take_cpu, cpu_read, read_stat_cpu}
use remote_monitoring_tool.Proc.Buffer.{read_file-append}
use remote_monitoring_tool.Proc.Fields.{
  IsField, field, decimal-IsField, append-IsField, join, take_fields, read_fields_one,
  read_fields_lem, read_fields_space,
}

-- The times with one more number: all are added up, and the fourth field is the idle time.
abbrev after : ℕ → ℕ → CpuStat → CpuStat
after n v stat = record {
  cpu_usage = (stat.cpu_usage + v) % 2 ^ 64;
  cpu_idle = if n == 4 then v else stat.cpu_idle;
}

take_cpu-decimal :
    (junk n v : ℕ) (rest : Bytes) (stat : CpuStat)
    → 2 ≤ n
    → v < 2 ^ 64
    → starts_with_digit rest ≡ false
    → take_cpu junk n (decimal v ++ rest) stat ≡ after n v stat
unfolding take_cpu
take_cpu-decimal junk n v rest stat h fits e =
    rw (late, from_chars-decimal (2 ^ 64) v junk rest fits e) refl
  where
    late : ltb n 2 ≡ false
    late = ground arith

take_next :
    (junk n v : ℕ) (fs : List Bytes) (stat : CpuStat)
    → 2 ≤ n
    → v < 2 ^ 64
    → take_fields (take_cpu junk) n (decimal v ∷ fs) stat
      ≡ take_fields (take_cpu junk) (n + 1) fs (after n v stat)
unfolding take_fields
take_next junk n v fs stat h fits = ap (take_fields (take_cpu junk) (n + 1) fs) (
    ap (λ s. take_cpu junk n s stat) (sym (append-nil (decimal v)))
    ∙ take_cpu-decimal junk n v [] stat h fits (unfold starts_with_digit in refl))

-- The numbers behind the fourth.
take_fields-usage :
    (junk n : ℕ) (vs : List ℕ) (stat : CpuStat)
    → 4 < n
    → All (λ v. v < 2 ^ 64) vs
    → stat.cpu_usage < 2 ^ 64
    → take_fields (take_cpu junk) n (map decimal vs) stat
      ≡ record { cpu_usage = (stat.cpu_usage + sum vs) % 2 ^ 64; cpu_idle = stat.cpu_idle }
unfolding take_fields
take_fields-usage junk n [] stat h hv small =
    let same : stat.cpu_usage ≡ (stat.cpu_usage + 0) % 2 ^ 64 = omega arith in
    ap (λ u. record { cpu_usage = u; cpu_idle = stat.cpu_idle }) same
take_fields-usage junk n (v ∷ vs) stat h (hv, hvs) small =
    take_next junk n v (map decimal vs) stat (omega arith) hv
    ∙ take_fields-usage junk (n + 1) vs (after n v stat) (omega arith) hvs (omega arith)
    ∙ rw (behind, joined) refl
  where
    behind : (n == 4) ≡ false
    behind = ground arith

    joined :
        ((stat.cpu_usage + v) % 2 ^ 64 + sum vs) % 2 ^ 64 ≡ (stat.cpu_usage + (v + sum vs)) % 2 ^ 64
    joined = omega arith

-- The times in the first line of /proc/stat.
pub record CpuTimes : Type 0 where
  pub user : ℕ
  pub nice : ℕ
  pub system : ℕ
  pub idle : ℕ
  -- iowait, irq, softirq, steal and guest
  pub others : List ℕ
  pub guest_nice : ℕ

abbrev pub numbers : CpuTimes → List ℕ
numbers t = t.user ∷ (t.nice ∷ (t.system ∷ (t.idle ∷ t.others)))

-- The line, the name of the next one and a space.
abbrev pub cpu_line : CpuTimes → Bytes → Bytes
cpu_line t name =
    codes "cpu"
    ++ b' '
      ∷ b' '
      ∷ (join (map decimal (numbers t)) ++ ((decimal t.guest_nice ++ newline ∷ name) ++ b' ' ∷ []))

abbrev no_times : CpuStat
no_times = record { cpu_usage = 0; cpu_idle = 0 }

cpu_fields :
    (junk : ℕ) (t : CpuTimes)
    → All (λ v. v < 2 ^ 64) (numbers t)
    → take_fields (take_cpu junk) 2 (map decimal (numbers t)) no_times
      ≡ record { cpu_usage = sum (numbers t) % 2 ^ 64; cpu_idle = t.system }
cpu_fields junk t (hu, (hn, (hs, h))) =
    take_next junk 2 t.user _ no_times (omega arith) hu
    ∙ take_next junk 3 t.nice _ _ (omega arith) hn
    ∙ take_next junk 4 t.system _ _ (omega arith) hs
    ∙ take_fields-usage junk 5 (t.idle ∷ t.others) _ (omega arith) h (omega arith)
    ∙ ap (λ u. record { cpu_usage = u; cpu_idle = t.system }) joined
  where
    joined :
        ((((0 + t.user) % 2 ^ 64 + t.nice) % 2 ^ 64 + t.system) % 2 ^ 64 + sum (t.idle ∷ t.others))
          % 2 ^ 64
        ≡ sum (numbers t) % 2 ^ 64
    joined = omega arith

pub decimals-IsField : (vs : List ℕ) → All IsField (map decimal vs)
decimals-IsField [] = tt
decimals-IsField (v ∷ vs) = (decimal-IsField v, decimals-IsField vs)

cpu_line_read :
    (junk : ℕ) (t : CpuTimes) (name behind : Bytes)
    → All (λ v. v < 2 ^ 64) (numbers t)
    → length t.others ≡ 5
    → t.guest_nice < 2 ^ 64
    → Lacks b' ' name
    → read_fields (take_cpu junk) 11 1 (cpu_line t name ++ behind) no_times
      ≡ some (
          ok
            (record { cpu_usage = (sum (numbers t) + t.guest_nice) % 2 ^ 64; cpu_idle = t.system }))
unfolding read_fields take_cpu
cpu_line_read junk t name behind h five hg hn =
    read_fields_one take 10 1 (codes "cpu") (b' ' ∷ ((fields ++ (last ++ b' ' ∷ [])) ++ behind))
      no_times
      (field b'c' (codes "pu") (λ e. omega arith)
        (λ e. omega arith, (λ e. omega arith, (λ e. omega arith, tt))))
    ∙ read_fields_space take 10 2 ((fields ++ (last ++ b' ' ∷ [])) ++ behind) no_times
    ∙ ap (λ p. read_fields take 10 2 p no_times)
        (append_assoc fields (last ++ b' ' ∷ []) behind
          ∙ ap (λ p. fields ++ p) (append_assoc last (b' ' ∷ []) behind))
    ∙ read_fields_lem take (map decimal (numbers t)) 10 1 2 11 (last ++ b' ' ∷ behind) no_times
        (decimals-IsField (numbers t)) (omega (arith, five, length-map decimal t.others))
        (omega (arith, five, length-map decimal t.others))
    ∙ ap (λ s. read_fields take 1 11 (last ++ b' ' ∷ behind) s) (cpu_fields junk t h)
    ∙ read_fields_one take 0 11 last behind _ (
        append-IsField (decimal t.guest_nice) (newline ∷ name) (decimal-IsField t.guest_nice)
          (λ e. omega arith, hn))
    ∙ ap (λ s. some (ok s))
        (take_cpu-decimal junk 11 t.guest_nice (newline ∷ name) _ (omega arith) hg
            (unfold starts_with_digit in refl)
          ∙ ap (λ u. record { cpu_usage = u; cpu_idle = t.system }) total)
  where
    take : ℕ → Bytes → CpuStat → CpuStat
    take = take_cpu junk

    fields : Bytes
    fields = join (map decimal (numbers t))

    last : Bytes
    last = decimal t.guest_nice ++ newline ∷ name

    total :
        (sum (numbers t) % 2 ^ 64 + t.guest_nice) % 2 ^ 64
        ≡ (sum (numbers t) + t.guest_nice) % 2 ^ 64
    total = omega arith

-- Let /proc/stat start with the ten times of all processors, and let them, the name that the next
-- line starts with and the space behind it fit the buffer. Then read_stat_cpu reads no further,
-- gives the sum of the ten times in 64 bits, and as the idle time the third one, which is the time
-- in system mode.
pub read_stat_cpu-cpu_line :
    (junk : ℕ) (t : CpuTimes) (name more buffer : Bytes)
    → All (λ v. v < 2 ^ 64) (numbers t)
    → length t.others ≡ 5
    → t.guest_nice < 2 ^ 64
    → Lacks b' ' name
    → length (cpu_line t name) ≤ buffer_size - 1
    → (read_stat_cpu junk (some (cpu_line t name ++ more)) buffer).0
      ≡ some (
          ok
            (record { cpu_usage = (sum (numbers t) + t.guest_nice) % 2 ^ 64; cpu_idle = t.system }))
unfolding read_stat_cpu cpu_read
read_stat_cpu-cpu_line junk t name more buffer h five hg hn fits =
    let (n, behind, got) = read_file-append (cpu_line t name) more buffer (λ e. cc) fits in
    ap (λ r. (cpu_read junk r).0) got ∙ cpu_line_read junk t name behind h five hg hn
