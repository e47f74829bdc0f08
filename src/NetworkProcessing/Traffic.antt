-- ===== src/NetworkProcessing/Traffic.antt =====
-- The sums that the traffic of a process comes to.
use remote_monitoring_tool.Prelude.{
  ℕ, ◌+◌, ◌%◌, ◌^◌, ◌<◌, ◌≡◌, refl, ap, ◌∙◌, Bool, true, not, ◌&&◌, Option, none, some, List, [],
  ◌∷◌, arith, ◌==◌, ==_refl, ==_iff, if◌then◌else◌, Bool-cases, inl, inr, sum,
}
use remote_monitoring_tool.Assoc.{find_in, put, value_or, find_in-put_same, find_in-put_other}
use remote_monitoring_tool.ProcessTable.{NetworkStat, no_network}
use remote_monitoring_tool.NetworkProcessing.{add_recv, add_send}

-- Some bytes that a process received or sent.
pub record Item : Type 0 where
  pub pid : ℕ
  pub size : ℕ
  pub receive : Bool

-- The sizes of the items that are wanted.
unfoldable pub sizes : (Item → Bool) → List Item → List ℕ
sizes wanted [] = []
sizes wanted (i ∷ is) = let rest = sizes wanted is in if wanted i then i.size ∷ rest else rest

-- The sum of sizes in a uint64_t, and no value where there are none.
unfoldable pub traffic : List ℕ → Option ℕ
traffic [] = none
traffic (n ∷ ns) = some (sum (n ∷ ns) % 2 ^ 64)

-- What all items together say of a process.
unfoldable pub expected : ℕ → List Item → NetworkStat
unfolding sizes traffic
expected pid items = record {
  network_recv = traffic (sizes (λ i. pid == i.pid && i.receive) items);
  network_send = traffic (sizes (λ i. pid == i.pid && not i.receive) items);
}

-- What a map says of a process.
abbrev pub stat_of : ℕ → List (ℕ × NetworkStat) → NetworkStat
stat_of pid m = value_or (find_in ◌==◌ pid m) no_network

abbrev add : Bool → ℕ → NetworkStat → NetworkStat
add receive size s = if receive then add_recv size s else add_send size s

unfoldable pub add_item : Item → List (ℕ × NetworkStat) → List (ℕ × NetworkStat)
add_item i m = put ◌==◌ i.pid (add i.receive i.size (stat_of i.pid m)) m

unfoldable pub add_items : List Item → List (ℕ × NetworkStat) → List (ℕ × NetworkStat)
add_items [] m = m
add_items (i ∷ is) m = add_items is (add_item i m)

-- A number with more sizes.
plus : Option ℕ → List ℕ → Option ℕ
plus o [] = o
plus o (n ∷ ns) = plus (some ((value_or o 0 + n) % 2 ^ 64)) ns

plus-some : (a : ℕ) (ns : List ℕ) → a < 2 ^ 64 → plus (some a) ns ≡ some ((a + sum ns) % 2 ^ 64)
unfolding plus
plus-some a [] h = ap some (omega arith)
plus-some a (n ∷ ns) h = plus-some ((a + n) % 2 ^ 64) ns (omega arith) ∙ ap some (omega arith)

plus-none : (ns : List ℕ) → plus none ns ≡ traffic ns
unfolding plus traffic
plus-none [] = refl
plus-none (n ∷ ns) = plus-some ((0 + n) % 2 ^ 64) ns (omega arith) ∙ ap some (omega arith)

plus_all : NetworkStat → ℕ → List Item → NetworkStat
unfolding plus sizes
plus_all s pid items = record {
  network_recv = plus s.network_recv (sizes (λ i. pid == i.pid && i.receive) items);
  network_send = plus s.network_send (sizes (λ i. pid == i.pid && not i.receive) items);
}

joined : (j k i : ℕ) → (j == i) ≡ true → (k == i) ≡ true → (j == k) ≡ true
joined j k i h g = ground arith

stat_of-add_item :
    (pid : ℕ) (i : Item) (m : List (ℕ × NetworkStat))
    → stat_of pid (add_item i m)
      ≡ (if pid == i.pid then add i.receive i.size (stat_of pid m) else stat_of pid m)
unfolding add_item
stat_of-add_item pid i m = elim (Bool-cases (pid == i.pid)) [
  | inl h ↦
      rw (h, (==_iff pid i.pid).0 h)
        (ap (λ o. value_or o no_network) (find_in-put_same ◌==◌ ==_refl i.pid _ m))
  | inr h ↦
      rw h (
        ap (λ o. value_or o no_network) (find_in-put_other ◌==◌ pid i.pid (joined pid i.pid) h _ m))
]

plus_all-step :
    (s : NetworkStat) (pid : ℕ) (i : Item) (is : List Item)
    → plus_all (if pid == i.pid then add i.receive i.size s else s) pid is ≡ plus_all s pid (i ∷ is)
unfolding plus_all plus sizes add_recv add_send
plus_all-step s pid i is = elim (Bool-cases (pid == i.pid)) [
  | inl h ↦ elim (Bool-cases i.receive) [ inl r ↦ rw (h, r) refl | inr r ↦ rw (h, r) refl ]
  | inr h ↦ rw h refl
]

stat_of-add_items :
    (pid : ℕ) (is : List Item) (m : List (ℕ × NetworkStat))
    → stat_of pid (add_items is m) ≡ plus_all (stat_of pid m) pid is
unfolding add_items
stat_of-add_items pid [] m = unfold plus_all in refl
stat_of-add_items pid (i ∷ is) m =
    stat_of-add_items pid is (add_item i m)
    ∙ ap (λ s. plus_all s pid is) (stat_of-add_item pid i m)
    ∙ plus_all-step (stat_of pid m) pid i is

-- Adding the items to no statistics gives the sums.
pub stat_of-add_items_lem :
    (pid : ℕ) (is : List Item) → stat_of pid (add_items is []) ≡ expected pid is
unfolding expected plus_all find_in
stat_of-add_items_lem pid is =
    stat_of-add_items pid is []
    ∙ rw
        (
          plus-none (sizes (λ i. pid == i.pid && i.receive) is),
          plus-none (sizes (λ i. pid == i.pid && not i.receive) is),
        )
        refl
