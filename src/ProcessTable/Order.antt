-- ===== src/ProcessTable/Order.antt =====
-- The comparator of the process table orders as std::partial_sort demands.
use remote_monitoring_tool.Prelude.{
  ℕ, suc, ◌≡◌, Bool, true, false, Option, none, some, arith, ltb, ◌==◌, if◌then◌else◌, ◌||◌,
}
use remote_monitoring_tool.Assoc.{has_value}
use remote_monitoring_tool.ProcessTable.{
  ProcessFullStat, ProcessSortType, compare_value, compare_option, compare_total, total, comparator,
  by_cpu, by_mem, by_disk_read, by_disk_write, by_disk_total, by_network_recv, by_network_send,
  by_network_total, DiskStat, NetworkStat,
}

-- A strict weak order: irreflexive and transitive, and so is being apart in neither direction.
pub record IsStrictWeakOrder {ℓ} {A : Type ℓ} (less : A → A → Bool) : Type ℓ where
  pub irreflexive : (a : A) → less a a ≡ false
  pub transitive : (a b c : A) → less a b ≡ true → less b c ≡ true → less a c ≡ true
  pub tie_transitive :
      (a b c : A)
      → less a b ≡ false
      → less b a ≡ false
      → less b c ≡ false
      → less c b ≡ false
      → less a c ≡ false

-- A place in a listing: a higher rank first, then a lower number `up`, then a higher one `down`.
record Place : Type 0 where
  rank : ℕ
  up : ℕ
  down : ℕ

ahead : Place → Place → Bool
ahead a b =
    if a.rank == b.rank
    then (if a.up == b.up then ltb b.down a.down else ltb a.up b.up)
    else ltb b.rank a.rank

ahead-IsStrictWeakOrder : IsStrictWeakOrder ahead
unfolding ahead
ahead-IsStrictWeakOrder = record {
  irreflexive = λ a. ground arith;
  transitive = λ a b c h k. ground arith;
  tie_transitive = λ a b c h1 h2 h3 h4. ground arith;
}

option_rank : Option ℕ → ℕ
option_rank none = 0
option_rank (some n) = suc n

total_place : Bool → ℕ → ℕ → Place
total_place false n pid = record { rank = 0; up = 0; down = pid }
total_place true n pid = record { rank = suc n; up = 0; down = 0 }

place : ProcessSortType → ProcessFullStat → Place
unfolding option_rank total_place
place by_cpu f = record { rank = f.stat.cpu_usage_percent; up = f.pid; down = 0 }
place by_mem f = record { rank = f.stat.mem_usage; up = f.pid; down = 0 }
place by_disk_read f = record {
  rank = option_rank f.stat.disk_usage.disk_read;
  up = f.pid;
  down = 0;
}
place by_disk_write f = record {
  rank = option_rank f.stat.disk_usage.disk_write;
  up = f.pid;
  down = 0;
}
place by_disk_total f =
    let d : DiskStat = f.stat.disk_usage in
    total_place (has_value d.disk_read || has_value d.disk_write) (total d.disk_read d.disk_write)
      f.pid
place by_network_recv f = record {
  rank = option_rank f.stat.network_usage.network_recv;
  up = f.pid;
  down = 0;
}
place by_network_send f = record {
  rank = option_rank f.stat.network_usage.network_send;
  up = f.pid;
  down = 0;
}
place by_network_total f =
    let n : NetworkStat = f.stat.network_usage in
    total_place (has_value n.network_recv || has_value n.network_send)
      (total n.network_recv n.network_send) f.pid

compare_value-ahead :
    (a b p q : ℕ)
    → compare_value a b (ltb p q)
      ≡ ahead (record { rank = a; up = p; down = 0 }) (record { rank = b; up = q; down = 0 })
unfolding compare_value ahead
compare_value-ahead a b p q = ground arith

compare_option-ahead :
    (a b : Option ℕ) (p q : ℕ)
    → compare_option a b (ltb p q)
      ≡ ahead
          (record { rank = option_rank a; up = p; down = 0 })
          (record { rank = option_rank b; up = q; down = 0 })
unfolding compare_option compare_value option_rank ahead
compare_option-ahead (some a) none p q = ground arith
compare_option-ahead none (some b) p q = ground arith
compare_option-ahead (some a) (some b) p q = ground arith
compare_option-ahead none none p q = ground arith

compare_total-ahead :
    (left_ok right_ok : Bool) (left right p q : ℕ)
    → compare_total left_ok right_ok left right p q
      ≡ ahead (total_place left_ok left p) (total_place right_ok right q)
unfolding compare_total total_place ahead
compare_total-ahead true true l r p q = ground arith
compare_total-ahead true false l r p q = ground arith
compare_total-ahead false true l r p q = ground arith
compare_total-ahead false false l r p q = ground arith

comparator-ahead :
    (type : ProcessSortType) (a b : ProcessFullStat)
    → comparator type a b ≡ ahead (place type a) (place type b)
unfolding comparator place
comparator-ahead by_cpu a b = compare_value-ahead _ _ a.pid b.pid
comparator-ahead by_mem a b = compare_value-ahead _ _ a.pid b.pid
comparator-ahead by_disk_read a b = compare_option-ahead _ _ a.pid b.pid
comparator-ahead by_disk_write a b = compare_option-ahead _ _ a.pid b.pid
comparator-ahead by_disk_total a b = compare_total-ahead _ _ _ _ a.pid b.pid
comparator-ahead by_network_recv a b = compare_option-ahead _ _ a.pid b.pid
comparator-ahead by_network_send a b = compare_option-ahead _ _ a.pid b.pid
comparator-ahead by_network_total a b = compare_total-ahead _ _ _ _ a.pid b.pid

-- For each of the eight sort types, the comparator is a strict weak order on all entries, with
-- missing numbers or without, as std::partial_sort demands.
pub comparator-IsStrictWeakOrder : (type : ProcessSortType) → IsStrictWeakOrder (comparator type)
comparator-IsStrictWeakOrder type = record {
  irreflexive = λ a. rw comparator-ahead (o.irreflexive (place type a));
  transitive = λ a b c.
      rw (comparator-ahead type a b, comparator-ahead type b c, comparator-ahead type a c)
        (o.transitive (place type a) (place type b) (place type c));
  tie_transitive = λ a b c.
      rw
        (
          comparator-ahead type a b,
          comparator-ahead type b a,
          comparator-ahead type b c,
          comparator-ahead type c b,
          comparator-ahead type a c,
        )
        (o.tie_transitive (place type a) (place type b) (place type c));
}
  where
    o : IsStrictWeakOrder ahead
    o = ahead-IsStrictWeakOrder
