-- ===== src/NetworkProcessing.antt =====
-- client/network_processing.*: the traffic of each process. Outside Windows it is counted from the
-- frames that libpcap captured, under Windows from events of the kernel.
pub mod Traffic
pub mod Frames
pub mod Events
mod Examples
use remote_monitoring_tool.Prelude.{
  ℕ, ◌+◌, ◌*◌, ◌%◌, ◌^◌, Bool, true, false, not, Option, none, some, List, [], ◌∷◌, Bytes, ◌==◌,
  if◌then◌else◌, get_elem?,
}
use remote_monitoring_tool.Undefined.{◌>>=◌}
use remote_monitoring_tool.Assoc.{find_in, put, value_or}
use remote_monitoring_tool.ProcessTable.{NetworkStat, no_network}

-- What pcap_next gives: the bytes that were captured, and the length of the frame in the header.
pub record Packet : Type 0 where
  pub captured : Bytes
  pub len : ℕ

-- A statistic with a packet more, in a uint64_t each.
unfoldable pub add_recv : ℕ → NetworkStat → NetworkStat
add_recv size s = record s { network_recv = some ((value_or s.network_recv 0 + size) % 2 ^ 64) }

unfoldable pub add_send : ℕ → NetworkStat → NetworkStat
add_send size s = record s { network_send = some ((value_or s.network_send 0 + size) % 2 ^ 64) }

-- ntohs of two bytes of the packet.
pub read_port : Bytes → ℕ → Option ℕ
read_port packet i = do
  high ← get_elem? packet i
  low ← get_elem? packet (i + 1)
  some (high * 2 ^ 8 + low)

-- ip_src.s_addr: four bytes of the packet, in the order of the host.
pub read_s_addr : Bytes → ℕ → Option ℕ
read_s_addr packet i = do
  a ← get_elem? packet i
  b ← get_elem? packet (i + 1)
  c ← get_elem? packet (i + 2)
  d ← get_elem? packet (i + 3)
  some (a + b * 2 ^ 8 + c * 2 ^ 16 + d * 2 ^ 24)

-- What a packet adds to the process of its port, if there is one.
count_for : Option ℕ → (NetworkStat → NetworkStat) → List (ℕ × NetworkStat) → List (ℕ × NetworkStat)
count_for none add m = m
count_for (some pid) add m = put ◌==◌ pid (add (value_or (find_in ◌==◌ pid m) no_network)) m

-- IPPROTO_TCP
abbrev pub ipproto_tcp : ℕ
ipproto_tcp = 6

count_tcp : ℕ → List (ℕ × ℕ) → Packet → List (ℕ × NetworkStat) → Option (List (ℕ × NetworkStat))
unfolding read_port read_s_addr count_for
count_tcp local_ip port_to_pid_map p m = do
  ip_hl ← get_elem? p.captured 14
  src_port ← read_port p.captured (14 + ip_hl % 2 ^ 4 * 4)
  dst_port ← read_port p.captured (14 + ip_hl % 2 ^ 4 * 4 + 2)
  ip_src ← read_s_addr p.captured (14 + 12)
  some (
      if ip_src == local_ip
      then count_for (find_in ◌==◌ src_port port_to_pid_map) (add_send p.len) m
      else count_for (find_in ◌==◌ dst_port port_to_pid_map) (add_recv p.len) m)

-- A round of process_packets' loop. The Ethernet header has 14 bytes.
unfoldable pub count_packet :
    ℕ → List (ℕ × ℕ) → Packet → List (ℕ × NetworkStat) → Option (List (ℕ × NetworkStat))
unfolding count_tcp
count_packet local_ip port_to_pid_map p m = do
  ip_p ← get_elem? p.captured (14 + 9)
  if not (ip_p == ipproto_tcp) then some m else count_tcp local_ip port_to_pid_map p m

count_packets :
    ℕ → List (ℕ × ℕ) → List Packet → List (ℕ × NetworkStat) → Option (List (ℕ × NetworkStat))
count_packets local_ip port_to_pid_map [] m = some m
count_packets local_ip port_to_pid_map (p ∷ ps) m = do
  m' ← count_packet local_ip port_to_pid_map p m
  count_packets local_ip port_to_pid_map ps m'

-- The packets are those that pcap_next gives before it gives none; `none` is a read behind the
-- captured bytes.
unfoldable pub process_packets : ℕ → List (ℕ × ℕ) → List Packet → Option (List (ℕ × NetworkStat))
unfolding count_packets
process_packets local_ip port_to_pid_map packets = count_packets local_ip port_to_pid_map packets []

-- The Windows branch.
pub record NetworkPacketInfo : Type 0 where
  pub pid : ℕ
  pub size : ℕ
  pub local_addr : ℕ
  pub local_port : ℕ
  pub remote_addr : ℕ
  pub remote_port : ℕ
  pub receive : Bool

-- OnEvent, for an event that was decoded: pid_network_stat_map afterwards.
unfoldable pub on_event : NetworkPacketInfo → List (ℕ × NetworkStat) → List (ℕ × NetworkStat)
on_event network_packet_info m =
    let i : NetworkPacketInfo = network_packet_info in
    let network_stat = value_or (find_in ◌==◌ i.pid m) no_network in
    put ◌==◌ i.pid
      (if i.receive then add_recv i.size network_stat else add_send i.size network_stat) m

unfoldable pub on_events : List NetworkPacketInfo → List (ℕ × NetworkStat) → List (ℕ × NetworkStat)
on_events [] m = m
on_events (i ∷ is) m = on_events is (on_event i m)

-- The map, which is empty afterwards.
unfoldable pub get_pid_network_stat :
    List (ℕ × NetworkStat) → List (ℕ × NetworkStat) × List (ℕ × NetworkStat)
get_pid_network_stat pid_network_stat_map = (pid_network_stat_map, [])
