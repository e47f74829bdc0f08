-- ===== src/ProcessTable.antt =====
-- client/process_table.hpp and process_table.cpp: the table of processes (the branch for systems
-- other than Windows), with process_stat.hpp and process_listing.*.
pub mod Order
pub mod Grouped
pub mod Update
mod Examples
use remote_monitoring_tool.Prelude.{
  ℕ, suc, ◌+◌, ◌-◌, ◌%◌, ◌^◌, min, Bool, true, false, not, ◌&&◌, ◌||◌, Option, none, some, List, [],
  ◌∷◌, ◌++◌, map, Bytes, ltb, ◌==◌, if◌then◌else◌, length, take, bytes_eq,
}
use remote_monitoring_tool.Assoc.{find_in, put, value_or, has_value}

pub record DiskStat : Type 0 where
  pub disk_read : Option ℕ
  pub disk_write : Option ℕ

pub record NetworkStat : Type 0 where
  pub network_recv : Option ℕ
  pub network_send : Option ℕ

pub record ProcessStat : Type 0 where
  pub cpu_usage_percent : ℕ
  pub mem_usage : ℕ
  pub disk_usage : DiskStat
  pub network_usage : NetworkStat

pub record ProcessListing : Type 0 where
  pub pid : ℕ
  pub process_name : Bytes
  pub args : List Bytes

-- get_args_as_string: the arguments with spaces between them.
join_args : Bytes → List Bytes → Bytes
join_args arg [] = arg
join_args arg (next ∷ args) = arg ++ b' ' ∷ join_args next args

unfoldable pub get_args_as_string : ProcessListing → Bytes
unfolding join_args
get_args_as_string listing = elim (listing.args) [ [] ↦ [] | arg ∷ args ↦ join_args arg args ]

pub record ProcessLastStat : Type 0 where
  pub total_cpu_usage : ℕ
  pub disk_stat : DiskStat

pub record CpuStat : Type 0 where
  pub cpu_usage : ℕ
  pub cpu_idle : ℕ

-- The default values of the fields.
abbrev pub no_disk : DiskStat
no_disk = record { disk_read = none; disk_write = none }

abbrev pub no_network : NetworkStat
no_network = record { network_recv = none; network_send = none }

abbrev pub no_stat : ProcessStat
no_stat = record {
  cpu_usage_percent = 0;
  mem_usage = 0;
  disk_usage = no_disk;
  network_usage = no_network;
}

-- The members, and the static `last_cpu` of update_table.
pub record ProcessTable : Type 0 where
  pub list_table : List (ℕ × ProcessListing)
  pub stat_table : List (ℕ × ProcessStat)
  pub last_stat_table : List (ℕ × ProcessLastStat)
  pub last_cpu : CpuStat

pub data ProcessSortType : Type 0 where
  by_cpu by_mem by_disk_read by_disk_write by_disk_total : ProcessSortType
  by_network_recv by_network_send by_network_total : ProcessSortType

-- ProcessFullStat, with the objects that its pointers point to.
pub record ProcessFullStat : Type 0 where
  pub pid : ℕ
  pub meta : ProcessListing
  pub stat : ProcessStat

-- The cases of the comparator for one number, and for one number that may be missing; `last` is the
-- return behind the switch.
compare_value : ℕ → ℕ → Bool → Bool
compare_value lhs rhs last = if not (lhs == rhs) then ltb rhs lhs else last

compare_option : Option ℕ → Option ℕ → Bool → Bool
unfolding compare_value
compare_option (some a) none last = true
compare_option none (some b) last = false
compare_option (some a) (some b) last = compare_value a b last
compare_option none none last = last

-- The sum of two numbers that may be missing, in a uint64_t.
unfoldable pub total : Option ℕ → Option ℕ → ℕ
total a b = (value_or a 0 + value_or b 0) % 2 ^ 64

-- The cases for the sum of two numbers.
compare_total : Bool → Bool → ℕ → ℕ → ℕ → ℕ → Bool
compare_total left_ok right_ok left right lhs_pid rhs_pid =
    if not left_ok && not right_ok
    then ltb rhs_pid lhs_pid
    else if not (left_ok && right_ok)
    then left_ok
    else ltb right left

-- get_comparator
unfoldable pub comparator : ProcessSortType → ProcessFullStat → ProcessFullStat → Bool
unfolding compare_value compare_option compare_total
comparator by_cpu lhs rhs =
    compare_value (lhs.stat.cpu_usage_percent) (rhs.stat.cpu_usage_percent) (ltb lhs.pid rhs.pid)
comparator by_mem lhs rhs =
    compare_value (lhs.stat.mem_usage) (rhs.stat.mem_usage) (ltb lhs.pid rhs.pid)
comparator by_disk_read lhs rhs =
    compare_option lhs.stat.disk_usage.disk_read rhs.stat.disk_usage.disk_read (ltb lhs.pid rhs.pid)
comparator by_disk_write lhs rhs =
    compare_option lhs.stat.disk_usage.disk_write rhs.stat.disk_usage.disk_write
      (ltb lhs.pid rhs.pid)
comparator by_disk_total lhs rhs =
    let l : DiskStat = lhs.stat.disk_usage in
    let r : DiskStat = rhs.stat.disk_usage in
    compare_total (has_value l.disk_read || has_value l.disk_write)
      (has_value r.disk_read || has_value r.disk_write) (total l.disk_read l.disk_write)
      (total r.disk_read r.disk_write) lhs.pid rhs.pid
comparator by_network_recv lhs rhs =
    compare_option lhs.stat.network_usage.network_recv rhs.stat.network_usage.network_recv
      (ltb lhs.pid rhs.pid)
comparator by_network_send lhs rhs =
    compare_option lhs.stat.network_usage.network_send rhs.stat.network_usage.network_send
      (ltb lhs.pid rhs.pid)
comparator by_network_total lhs rhs =
    let l : NetworkStat = lhs.stat.network_usage in
    let r : NetworkStat = rhs.stat.network_usage in
    compare_total (has_value l.network_recv || has_value l.network_send)
      (has_value r.network_recv || has_value r.network_send) (total l.network_recv l.network_send)
      (total r.network_recv r.network_send) lhs.pid rhs.pid

-- The loop that both get_sorted and get_map_program_name_resource run over the list table, with
-- `none` for the exception of at().
cons_stat :
    ℕ
    → ProcessListing
    → Option ProcessStat
    → Option (List ProcessFullStat)
    → Option (List ProcessFullStat)
cons_stat pid listing (some s) (some rest) =
    some (record { pid = pid; meta = listing; stat = s } ∷ rest)
cons_stat pid listing (some s) none = none
cons_stat pid listing none rest = none

unfoldable pub full_stats :
    List (ℕ × ProcessListing) → List (ℕ × ProcessStat) → Option (List ProcessFullStat)
unfolding cons_stat
full_stats [] stats = some []
full_stats ((pid, listing) ∷ ls) stats =
    cons_stat pid listing (find_in ◌==◌ pid stats) (full_stats ls stats)

-- What a process adds to the group of its name.
unfoldable pub add_stat : ProcessStat → ProcessStat → ProcessStat
unfolding total
add_stat this_name s = record {
  cpu_usage_percent = (this_name.cpu_usage_percent + s.cpu_usage_percent) % 2 ^ 32;
  mem_usage = (this_name.mem_usage + s.mem_usage) % 2 ^ 64;
  disk_usage = record {
    disk_read = some (total this_name.disk_usage.disk_read s.disk_usage.disk_read);
    disk_write = some (total this_name.disk_usage.disk_write s.disk_usage.disk_write);
  };
  network_usage = record {
    network_recv = some (total this_name.network_usage.network_recv s.network_usage.network_recv);
    network_send = some (total this_name.network_usage.network_send s.network_usage.network_send);
  };
}

group_by_name : List ProcessFullStat → List (Bytes × ProcessStat) → List (Bytes × ProcessStat)
group_by_name [] groups = groups
group_by_name (f ∷ fs) groups = group_by_name fs (
    put bytes_eq f.meta.process_name
      (add_stat (value_or (find_in bytes_eq f.meta.process_name groups) no_stat) f.stat) groups)

resources : Option (List ProcessFullStat) → Option (List (Bytes × ProcessStat))
unfolding group_by_name
resources none = none
resources (some fs) = some (group_by_name fs [])

unfoldable pub get_map_program_name_resource : ProcessTable → Option (List (Bytes × ProcessStat))
unfolding resources
get_map_program_name_resource t = resources (full_stats t.list_table t.stat_table)
