-- ===== src/NetworkProcessing/Events.antt =====
-- The traffic that the kernel's events report, between two calls of get_pid_network_stat.
use remote_monitoring_tool.Prelude.{ℕ, ◌≡◌, refl, ap, ◌∙◌, List, [], ◌∷◌, map}
use remote_monitoring_tool.ProcessTable.{NetworkStat}
use remote_monitoring_tool.NetworkProcessing.{
  NetworkPacketInfo, on_event, on_events, get_pid_network_stat,
}
use remote_monitoring_tool.NetworkProcessing.Traffic.{
  Item, expected, stat_of, add_item, add_items, stat_of-add_items_lem,
}

-- What an event reports.
abbrev pub item : NetworkPacketInfo → Item
item i = record { pid = i.pid; size = i.size; receive = i.receive }

on_events_lem :
    (is : List NetworkPacketInfo) (m : List (ℕ × NetworkStat))
    → on_events is m ≡ add_items (map item is) m
unfolding on_events on_event add_items add_item
on_events_lem [] m = refl
on_events_lem (i ∷ is) m = on_events_lem is (on_event i m)

-- Two rounds of events, each followed by a call of get_pid_network_stat, from no statistics on: the
-- first call gives each process the sums of what the first events report that it received and sent,
-- in 64 bits, and the second one those of the second events alone.
pub get_pid_network_stat-on_events :
    (first second : List NetworkPacketInfo) (pid : ℕ)
    → (stat_of pid (get_pid_network_stat (on_events first [])).0 ≡ expected pid (map item first))
      × (stat_of pid
            (get_pid_network_stat
              (on_events second (get_pid_network_stat (on_events first [])).1)).0
          ≡ expected pid (map item second))
unfolding get_pid_network_stat
get_pid_network_stat-on_events first second pid = (
  ap (stat_of pid) (on_events_lem first []) ∙ stat_of-add_items_lem pid (map item first),
  ap (stat_of pid) (on_events_lem second []) ∙ stat_of-add_items_lem pid (map item second),
)
