-- ===== src/ProcessTable/Grouped.antt =====
-- Grouping the processes by their name: the sums that the groups hold.
use remote_monitoring_tool.Prelude.{
  ℕ, ◌+◌, ◌%◌, ◌^◌, ◌<◌, subst, ◌≡◌, refl, sym, ap, ◌∙◌, true, false, some, List, [], ◌∷◌, arith,
  Bytes, bytes_eq, bytes_eq_refl, bytes_eq→eq, if◌then◌else◌, Bool-cases, inl, inr,
}
use remote_monitoring_tool.Assoc.{find_in, put, value_or, find_in-put_same, find_in-put_other}
use remote_monitoring_tool.ProcessTable.{
  ProcessFullStat, ProcessStat, ProcessTable, no_stat, total, add_stat, group_by_name, full_stats,
  get_map_program_name_resource, resources,
}

-- The sum of a number over the processes with a name.
unfoldable pub sum_named : (ProcessStat → ℕ) → Bytes → List ProcessFullStat → ℕ
sum_named number name [] = 0
sum_named number name (f ∷ fs) =
    let rest = sum_named number name fs in
    if bytes_eq name f.meta.process_name then number f.stat + rest else rest

-- The numbers of a statistic, with the missing ones as 0, and the width of each.
pub data Number : Type 0 where
  cpu_usage mem_usage disk_read disk_write network_recv network_send : Number

unfoldable pub number_of : Number → ProcessStat → ℕ
number_of cpu_usage s = s.cpu_usage_percent
number_of mem_usage s = s.mem_usage
number_of disk_read s = value_or s.disk_usage.disk_read 0
number_of disk_write s = value_or s.disk_usage.disk_write 0
number_of network_recv s = value_or s.network_usage.network_recv 0
number_of network_send s = value_or s.network_usage.network_send 0

unfoldable pub width : Number → ℕ
width cpu_usage = 2 ^ 32
width mem_usage = 2 ^ 64
width disk_read = 2 ^ 64
width disk_write = 2 ^ 64
width network_recv = 2 ^ 64
width network_send = 2 ^ 64

-- What a map of groups says of a name; a name that is not there has the default statistic.
abbrev pub stat_of : Bytes → List (Bytes × ProcessStat) → ProcessStat
stat_of name groups = value_or (find_in bytes_eq name groups) no_stat

number_of-add_stat :
    (n : Number) (a s : ProcessStat)
    → number_of n (add_stat a s) ≡ (number_of n a + number_of n s) % width n
unfolding number_of width add_stat total
number_of-add_stat cpu_usage a s = refl
number_of-add_stat mem_usage a s = refl
number_of-add_stat disk_read a s = refl
number_of-add_stat disk_write a s = refl
number_of-add_stat network_recv a s = refl
number_of-add_stat network_send a s = refl

joined : (j k i : Bytes) → bytes_eq j i ≡ true → bytes_eq k i ≡ true → bytes_eq j k ≡ true
joined j k i h g = rw (bytes_eq→eq j i h ∙ sym (bytes_eq→eq k i g)) (bytes_eq_refl k)

stat_of-put :
    (name other : Bytes) (s : ProcessStat) (groups : List (Bytes × ProcessStat))
    → stat_of name (put bytes_eq other s groups)
      ≡ (if bytes_eq name other then s else stat_of name groups)
stat_of-put name other s groups = elim (Bool-cases (bytes_eq name other)) [
  | inl h ↦
      rw (h, bytes_eq→eq name other h)
        (ap (λ o. value_or o no_stat) (find_in-put_same bytes_eq bytes_eq_refl other s groups))
  | inr h ↦ rw h (
      ap (λ o. value_or o no_stat)
        (find_in-put_other bytes_eq name other (joined name other) h s groups))
]

mod_sum : (n : Number) (a b c : ℕ) → ((a + b) % width n + c) % width n ≡ (a + (b + c)) % width n
unfolding width
mod_sum cpu_usage a b c = omega arith
mod_sum mem_usage a b c = omega arith
mod_sum disk_read a b c = omega arith
mod_sum disk_write a b c = omega arith
mod_sum network_recv a b c = omega arith
mod_sum network_send a b c = omega arith

pub mod-width :
    (n : Number) (a : ℕ) → (a % width n < width n) × (a < width n → a ≡ (a + 0) % width n)
unfolding width
mod-width cpu_usage a = (omega arith, λ h. omega arith)
mod-width mem_usage a = (omega arith, λ h. omega arith)
mod-width disk_read a = (omega arith, λ h. omega arith)
mod-width disk_write a = (omega arith, λ h. omega arith)
mod-width network_recv a = (omega arith, λ h. omega arith)
mod-width network_send a = (omega arith, λ h. omega arith)

group_by_name_lem :
    (n : Number) (name : Bytes) (fs : List ProcessFullStat) (groups : List (Bytes × ProcessStat))
    → number_of n (stat_of name groups) < width n
    → number_of n (stat_of name (group_by_name fs groups))
      ≡ (number_of n (stat_of name groups) + sum_named (number_of n) name fs) % width n
unfolding group_by_name sum_named
group_by_name_lem n name [] groups fits = (mod-width n (number_of n (stat_of name groups))).1 fits
group_by_name_lem n name (f ∷ fs) groups fits =
    elim (Bool-cases (bytes_eq name f.meta.process_name)) [
      | inl h ↦
          group_by_name_lem n name fs _
            (subst (λ (x : ℕ). x < width n) (sym (added h)) (mod-width n _).0)
          ∙ ap (λ (x : ℕ). (x + sum_named (number_of n) name fs) % width n) (added h)
          ∙ rw h (mod_sum n _ _ _)
      | inr h ↦
          group_by_name_lem n name fs _ (subst (λ (x : ℕ). x < width n) (sym (kept h)) fits)
          ∙ ap (λ (x : ℕ). (x + sum_named (number_of n) name fs) % width n) (kept h)
          ∙ rw h
    ]
  where
    next : List (Bytes × ProcessStat)
    next =
        put bytes_eq f.meta.process_name
          (add_stat (value_or (find_in bytes_eq f.meta.process_name groups) no_stat) f.stat) groups

    added :
        bytes_eq name f.meta.process_name ≡ true
        → number_of n (stat_of name next)
          ≡ (number_of n (stat_of name groups) + number_of n f.stat) % width n
    added h =
        ap (number_of n) (stat_of-put name f.meta.process_name _ groups ∙ rw h)
        ∙ number_of-add_stat n _ f.stat
        ∙ ap (λ s. (number_of n (stat_of s groups) + number_of n f.stat) % width n)
            (sym (bytes_eq→eq name f.meta.process_name h))

    kept :
        bytes_eq name f.meta.process_name ≡ false
        → number_of n (stat_of name next) ≡ number_of n (stat_of name groups)
    kept h = ap (number_of n) (stat_of-put name f.meta.process_name _ groups ∙ rw h)

number_of-no_stat : (n : Number) → number_of n no_stat ≡ 0
unfolding number_of
number_of-no_stat cpu_usage = refl
number_of-no_stat mem_usage = refl
number_of-no_stat disk_read = refl
number_of-no_stat disk_write = refl
number_of-no_stat network_recv = refl
number_of-no_stat network_send = refl

width-pos : (n : Number) → 0 < width n
width-pos n = omega (arith, (mod-width n 0).0)

-- If each listed process has its statistic, the map of groups is made, and each number that it has
-- for a name is the sum of that number over the processes with that name, in the number's width.
pub get_map_program_name_resource_lem :
    (t : ProcessTable) (fs : List ProcessFullStat)
    → full_stats t.list_table t.stat_table ≡ some fs
    → (groups : List (Bytes × ProcessStat)) × (get_map_program_name_resource t ≡ some groups)
      × ((n : Number) (name : Bytes)
          → number_of n (stat_of name groups) ≡ sum_named (number_of n) name fs % width n)
unfolding get_map_program_name_resource resources find_in
get_map_program_name_resource_lem t fs h = (
  group_by_name fs [],
  ap resources h,
  λ n name.
      group_by_name_lem n name fs []
        (subst (λ (x : ℕ). x < width n) (sym (none_yet n name)) (width-pos n))
      ∙ ap (λ (x : ℕ). (x + sum_named (number_of n) name fs) % width n) (none_yet n name)
      ∙ ap (λ (x : ℕ). x % width n) (omega arith),
)
  where
    none_yet : (n : Number) (name : Bytes) → number_of n (stat_of name []) ≡ 0
    none_yet n name = number_of-no_stat n
