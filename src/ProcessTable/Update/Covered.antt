-- ===== src/ProcessTable/Update/Covered.antt =====
-- After an update each listed process has its statistic, so that at() does not throw.
use remote_monitoring_tool.Prelude.{
  ℕ, ◌≡◌, refl, sym, ap, subst, ◌∙◌, Bool, true, false, Option, none, some, List, [], ◌∷◌, arith,
  ◌==◌, ==_refl, ==_iff, Bool-cases, inl, inr, ◌%◌, Bytes,
}
use remote_monitoring_tool.Result.{Result, ok, err}
use remote_monitoring_tool.Assoc.{
  find_in, put, erase, value_or, has_value, find_in-put_same, find_in-put_other,
  find_in-erase_other,
}
use remote_monitoring_tool.ProcessTable.{
  ProcessTable, ProcessFullStat, ProcessListing, ProcessStat, ProcessLastStat, CpuStat, cons_stat,
  full_stats, get_map_program_name_resource,
}
use remote_monitoring_tool.ProcessTable.Grouped.{
  Number, number_of, width, stat_of, sum_named, get_map_program_name_resource_lem,
}
use remote_monitoring_tool.ProcessTable.Update.{
  Readings, Round, CpuMemStat, is_empty, drop_stats, write_stats, with_listing, update_pid,
  update_pids, sweep, swept, update_from, update_table,
}

abbrev pub is_seen : ℕ → List (ℕ × Bool) → Bool
is_seen pid seen = value_or (find_in ◌==◌ pid seen) false

abbrev pub has_stat : ℕ → List (ℕ × ProcessStat) → Bool
has_stat pid stats = has_value (find_in ◌==◌ pid stats)

-- The processes that were seen have their statistics.
abbrev pub SeenHave : List (ℕ × Bool) → List (ℕ × ProcessStat) → Type 0
SeenHave seen stats = (pid : ℕ) → is_seen pid seen ≡ true → has_stat pid stats ≡ true

joined : (j k i : ℕ) → (j == i) ≡ true → (k == i) ≡ true → (j == k) ≡ true
joined j k i h g = ground arith

has_stat-put_same :
    (j k : ℕ) (s : ProcessStat) (stats : List (ℕ × ProcessStat))
    → (j == k) ≡ true
    → has_stat j (put ◌==◌ k s stats) ≡ true
has_stat-put_same j k s stats h =
    rw ((==_iff j k).0 h) (ap has_value (find_in-put_same ◌==◌ ==_refl k s stats))

has_stat-put :
    (j k : ℕ) (s : ProcessStat) (stats : List (ℕ × ProcessStat))
    → has_stat j stats ≡ true
    → has_stat j (put ◌==◌ k s stats) ≡ true
has_stat-put j k s stats h = elim (Bool-cases (j == k)) [
  | inl e ↦ has_stat-put_same j k s stats e
  | inr e ↦ ap has_value (find_in-put_other ◌==◌ j k (joined j k) e s stats) ∙ h
]

pub SeenHave-put :
    (seen : List (ℕ × Bool)) (stats : List (ℕ × ProcessStat)) (k : ℕ) (s : ProcessStat)
    → SeenHave seen stats
    → SeenHave (put ◌==◌ k true seen) (put ◌==◌ k s stats)
SeenHave-put seen stats k s h j = elim (Bool-cases (j == k)) [
  | inl e ↦ λ _. has_stat-put_same j k s stats e
  | inr e ↦ λ g. has_stat-put j k s stats (
      h j (
        sym (ap (λ o. value_or o false) (find_in-put_other ◌==◌ j k (joined j k) e true seen)) ∙ g))
]

abbrev pub Kept : Round → Type 0
Kept round = SeenHave round.seen round.table.stat_table

Kept-write_stats :
    (r : Readings) (delta : CpuStat) (pid : ℕ) (s : ProcessStat) (last : ProcessLastStat)
    (now : Result CpuMemStat) (round : Round)
    → Kept round
    → Kept (write_stats r delta pid s last now round)
unfolding write_stats
Kept-write_stats r delta pid s last (err e) round h =
    λ j g. has_stat-put j pid s round.table.stat_table (h j g)
Kept-write_stats r delta pid s last (ok now) round h =
    SeenHave-put round.seen round.table.stat_table pid _ h

Kept-with_listing :
    (r : Readings) (delta : CpuStat) (pid : ℕ) (old : ProcessListing) (l : Result ProcessListing)
    (round : Round)
    → Kept round
    → Kept (with_listing r delta pid old l round)
unfolding with_listing
Kept-with_listing r delta pid old (err e) round h = h
Kept-with_listing r delta pid old (ok l) round h = elim (Bool-cases (is_empty l.args)) [
  | inl e ↦ rw e h
  | inr e ↦ rw e (Kept-write_stats r delta pid _ _ (r.cpu_mem pid) _ h)
]

Kept-update_pids :
    (r : Readings) (delta : CpuStat) (pids : List ℕ) (round : Round)
    → Kept round
    → Kept (update_pids r delta pids round)
unfolding update_pids update_pid
Kept-update_pids r delta [] round h = h
Kept-update_pids r delta (pid ∷ pids) round h =
    Kept-update_pids r delta pids _ (Kept-with_listing r delta pid _ _ round h)

SeenHave-erase :
    (seen : List (ℕ × Bool)) (stats : List (ℕ × ProcessStat)) (k : ℕ)
    → is_seen k seen ≡ false
    → SeenHave seen stats
    → SeenHave seen (erase ◌==◌ k stats)
SeenHave-erase seen stats k gone h j g = elim (Bool-cases (j == k)) [
  | inl e ↦ absurd (cc (subst (λ (i : ℕ). is_seen i seen ≡ true) ((==_iff j k).0 e) g, gone))
  | inr e ↦ ap has_value (find_in-erase_other ◌==◌ j k (joined j k) e stats) ∙ h j g
]

-- Each process of the list has its statistic.
abbrev pub IsCovered : ProcessTable → Type 0
IsCovered t = (fs : List ProcessFullStat) × (full_stats t.list_table t.stat_table ≡ some fs)

cover :
    (pid : ℕ) (l : ProcessListing) (o : Option ProcessStat) (rest : Option (List ProcessFullStat))
    → has_value o ≡ true
    → (fs : List ProcessFullStat) × (rest ≡ some fs)
    → (fs : List ProcessFullStat) × (cons_stat pid l o rest ≡ some fs)
unfolding cons_stat
cover pid l none rest h c = absurd cc
cover pid l (some s) rest h (fs, e) =
    (record { pid = pid; meta = l; stat = s } ∷ fs, ap (cons_stat pid l (some s)) e)

sweep-covers :
    (seen : List (ℕ × Bool)) (ls : List (ℕ × ProcessListing)) (t : ProcessTable)
    → SeenHave seen t.stat_table
    → SeenHave seen (sweep seen ls t).stat_table × IsCovered (sweep seen ls t)
unfolding sweep drop_stats full_stats
sweep-covers seen [] t h = (h, ([], refl))
sweep-covers seen ((pid, l) ∷ ls) t h = elim (Bool-cases (is_seen pid seen)) [
  | inl e ↦ let (k, c) = sweep-covers seen ls t h in rw e (k, cover pid l _ _ (k pid e) c)
  | inr e ↦
      rw e (sweep-covers seen ls (drop_stats pid t) (SeenHave-erase seen t.stat_table pid e h))
]

pub swept-covers : (round : Round) → Kept round → IsCovered (swept round)
unfolding swept
swept-covers round h = (sweep-covers round.seen round.table.list_table round.table h).1

pub none_seen : (stats : List (ℕ × ProcessStat)) → SeenHave [] stats
unfolding find_in
none_seen stats j g = absurd (cc g)

ok-injective : {t u : ProcessTable} → ok t ≡ ok u → t ≡ u
ok-injective h = cc

update_from-covers :
    (r : Readings) (c : Result CpuStat) (t t' : ProcessTable)
    → update_from r c t ≡ ok t'
    → IsCovered t'
unfolding update_from
update_from-covers r (err e) t t' h = absurd cc
update_from-covers r (ok c) t t' h =
    subst IsCovered (ok-injective h)
      (swept-covers _ (Kept-update_pids r _ r.pids _ (none_seen t.stat_table)))

-- Whatever the table held and whatever was read, if update_table returns, then each listed process
-- has its statistic, get_map_program_name_resource returns a map, and each number that the map has
-- for a name is the sum of that number over the listed processes with that name, in its width.
pub update_table-get_map_program_name_resource :
    (r : Readings) (t t' : ProcessTable)
    → update_table r t ≡ ok t'
    → (fs : List ProcessFullStat) × (full_stats t'.list_table t'.stat_table ≡ some fs)
      × (groups : List (Bytes × ProcessStat)) × (get_map_program_name_resource t' ≡ some groups)
      × ((n : Number) (name : Bytes)
          → number_of n (stat_of name groups) ≡ sum_named (number_of n) name fs % width n)
unfolding update_table
update_table-get_map_program_name_resource r t t' h =
    let (fs, e) = update_from-covers r r.stat_cpu t t' h in
    let (groups, made, sums) = get_map_program_name_resource_lem t' fs e in
    (fs, e, groups, made, sums)
