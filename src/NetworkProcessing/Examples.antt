-- ===== src/NetworkProcessing/Examples.antt =====
-- Traffic at concrete inputs.
use remote_monitoring_tool.Prelude.{
  ℕ, ◌^◌, ◌<◌, ◌≡◌, refl, true, none, some, List, [], ◌∷◌, map, arith,
}
use remote_monitoring_tool.Assoc.{find_in, put}
use remote_monitoring_tool.Wire.{to_memory}
use remote_monitoring_tool.ProcessTable.{NetworkStat}
use remote_monitoring_tool.NetworkProcessing.{
  NetworkPacketInfo, on_events, get_pid_network_stat, process_packets, count_packet, add_recv,
}
use remote_monitoring_tool.NetworkProcessing.Traffic.{expected, stat_of}
use remote_monitoring_tool.NetworkProcessing.Events.{item, get_pid_network_stat-on_events}
use remote_monitoring_tool.NetworkProcessing.Frames.{Segment, IsSegment, frame, packet}
use remote_monitoring_tool.NetworkProcessing.Frames.Counted.{
  item_of, items_of, process_packets-expected,
}

-- 10.0.0.7, as the host reads it, and another address.
abbrev local : ℕ
local = 117440522

abbrev segment : ℕ → ℕ → ℕ → ℕ → ℕ → Segment
segment source destination src_port dst_port len = record {
  ethernet = 1 ∷ 2 ∷ 3 ∷ 4 ∷ 5 ∷ 6 ∷ 7 ∷ 8 ∷ 9 ∷ 10 ∷ 11 ∷ 12 ∷ 8 ∷ 0 ∷ [];
  version = 4;
  ip_hl = 5;
  lengths = 0 ∷ 0 ∷ 60 ∷ 0 ∷ 0 ∷ 64 ∷ 0 ∷ 64 ∷ [];
  protocol = 6;
  checksum = 171 ∷ 205 ∷ [];
  source = source;
  destination = destination;
  options = [];
  src_port = src_port;
  dst_port = dst_port;
  rest = 0 ∷ 0 ∷ [];
  len = len;
}

segment-IsSegment :
    (source destination src_port dst_port len : ℕ)
    → source < 2 ^ 32
    → IsSegment (segment source destination src_port dst_port len)
segment-IsSegment source destination src_port dst_port len h = record {
  ethernet_size = refl;
  lengths_size = refl;
  checksum_size = refl;
  options_size = omega arith;
  header_size = omega arith;
  source_size = h;
}

-- Out of port 443 of the process 77, and in to it.
abbrev segments : List Segment
segments =
    segment local 99 443 9000 60
    ∷ segment 99 local 9000 443 1500
    ∷ segment local 99 443 9000 40
    ∷ []

process_packets-expected_example :
    (m : List (ℕ × NetworkStat)) × (process_packets local ((443, 77) ∷ []) (map packet segments)
      ≡ some m)
    × ((pid : ℕ) → stat_of pid m ≡ expected pid (items_of local ((443, 77) ∷ []) segments))
process_packets-expected_example =
    process_packets-expected local ((443, 77) ∷ []) segments
      (
        segment-IsSegment local 99 443 9000 60 (omega arith),
        (
          segment-IsSegment 99 local 9000 443 1500 (omega arith),
          (segment-IsSegment local 99 443 9000 40 (omega arith), tt),
        ),
      )
      (refl, (refl, (refl, tt)))

-- A frame between two other machines is counted, too, where its destination port is one of a process.
foreign_test :
    process_packets local ((443, 77) ∷ []) (packet (segment 99 100 9000 443 1500) ∷ [])
    ≡ some ((77, record { network_recv = some 1500; network_send = none }) ∷ [])
unfolding process_packets frame count_packet to_memory find_in put add_recv
foreign_test = refl

expected_test :
    expected 77 (items_of local ((443, 77) ∷ []) segments)
    ≡ record { network_recv = some 1500; network_send = some 100 }
unfolding expected items_of item_of find_in
expected_test = refl

abbrev event : ℕ → ℕ → NetworkPacketInfo
event pid size = record {
  pid = pid;
  size = size;
  local_addr = local;
  local_port = 443;
  remote_addr = 99;
  remote_port = 9000;
  receive = true;
}

get_pid_network_stat-on_events_example :
    (stat_of 77
        (get_pid_network_stat (on_events (event 77 10 ∷ event 78 20 ∷ event 77 30 ∷ []) [])).0
      ≡ expected 77 (map item (event 77 10 ∷ event 78 20 ∷ event 77 30 ∷ [])))
    × (stat_of 77
          (get_pid_network_stat (
            on_events
              (event 77 5 ∷ [])
              (get_pid_network_stat
                (on_events (event 77 10 ∷ event 78 20 ∷ event 77 30 ∷ []) [])).1)).0
        ≡ expected 77 (map item (event 77 5 ∷ [])))
get_pid_network_stat-on_events_example =
    get_pid_network_stat-on_events (event 77 10 ∷ event 78 20 ∷ event 77 30 ∷ []) (event 77 5 ∷ [])
      77
