-- ===== src/NetworkProcessing/Frames/Counted.antt =====
-- Counting the packets of frames, against the sums of what each process sent and received.
use remote_monitoring_tool.Prelude.{
  ℕ, ◌+◌, ◌*◌, ◌/◌, ◌%◌, ◌^◌, ◌≡◌, refl, ap, ◌∙◌, Bool, true, false, not, ◌||◌, Option, none, some,
  List, [], ◌∷◌, ◌++◌, arith, map, ◌==◌, if◌then◌else◌, get_elem?, All, Bool-cases, inl, inr,
}
use remote_monitoring_tool.Assoc.{find_in}
use remote_monitoring_tool.Undefined.{bind_some}
use remote_monitoring_tool.ProcessTable.{NetworkStat}
use remote_monitoring_tool.NetworkProcessing.{
  add_recv, add_send, read_port, count_for, ipproto_tcp, count_tcp, count_packet, count_packets,
  process_packets,
}
use remote_monitoring_tool.NetworkProcessing.Traffic.{
  Item, expected, stat_of, add_item, add_items, stat_of-add_items_lem,
}
use remote_monitoring_tool.NetworkProcessing.Frames.{
  Segment, IsSegment, frame, port_bytes, packet, frame_ports, read_first, read_protocol,
  read_source,
}

-- The process of a port sends or receives a frame.
item_for : Option ℕ → ℕ → Bool → Option Item
item_for none size receive = none
item_for (some pid) size receive = some (record { pid = pid; size = size; receive = receive })

-- What a frame should count for: one of TCP from the machine for the process of its source port, one
-- of TCP to the machine for that of its destination port, and no other.
unfoldable pub item_of : ℕ → List (ℕ × ℕ) → Segment → Option Item
unfolding item_for
item_of local_ip port_to_pid_map s =
    if not (s.protocol == ipproto_tcp)
    then none
    else if s.source == local_ip
    then item_for (find_in ◌==◌ s.src_port port_to_pid_map) s.len false
    else if s.destination == local_ip
    then item_for (find_in ◌==◌ s.dst_port port_to_pid_map) s.len true
    else none

-- Not a frame of TCP between other machines.
abbrev pub IsOurs : ℕ → Segment → Type 0
IsOurs local_ip s =
    (not (s.protocol == ipproto_tcp) || (s.source == local_ip || s.destination == local_ip)) ≡ true

cons_some : Option Item → List Item → List Item
cons_some none items = items
cons_some (some i) items = i ∷ items

unfoldable pub items_of : ℕ → List (ℕ × ℕ) → List Segment → List Item
unfolding cons_some
items_of local_ip port_to_pid_map [] = []
items_of local_ip port_to_pid_map (s ∷ ss) =
    cons_some (item_of local_ip port_to_pid_map s) (items_of local_ip port_to_pid_map ss)

add_option : Option Item → List (ℕ × NetworkStat) → List (ℕ × NetworkStat)
unfolding add_item
add_option none m = m
add_option (some i) m = add_item i m

index : Segment → ℕ
index s = 14 + (s.version * 16 + s.ip_hl) % 2 ^ 4 * 4

index_is : (s : Segment) (i : ℕ) → IsSegment s → index s + i ≡ 14 + (4 * s.ip_hl + i)
unfolding index
index_is s i h = omega (arith, h.header_size)

port_byte :
    (s : Segment) (i : ℕ)
    → IsSegment s
    → get_elem? (frame s) (index s + i)
      ≡ get_elem? (port_bytes s.src_port ++ (port_bytes s.dst_port ++ s.rest)) i
port_byte s i h = ap (get_elem? (frame s)) (index_is s i h) ∙ frame_ports s i h

port_value : (port : ℕ) → port / 2 ^ 8 * 2 ^ 8 + port % 2 ^ 8 ≡ port
port_value port = omega arith

read_src_port : (s : Segment) → IsSegment s → read_port (frame s) (index s) ≡ some s.src_port
unfolding read_port port_bytes
read_src_port s h =
    ap (λ i. read_port (frame s) i) start
    ∙ rw (port_byte s 0 h, ap (get_elem? (frame s)) next ∙ port_byte s 1 h)
        (ap some (port_value s.src_port))
  where
    start : index s ≡ index s + 0
    start = omega arith

    next : index s + 0 + 1 ≡ index s + 1
    next = omega arith

read_dst_port : (s : Segment) → IsSegment s → read_port (frame s) (index s + 2) ≡ some s.dst_port
unfolding read_port port_bytes
read_dst_port s h =
    rw (port_byte s 2 h, ap (get_elem? (frame s)) next ∙ port_byte s 3 h)
      (ap some (port_value s.dst_port))
  where
    next : index s + 2 + 1 ≡ index s + 3
    next = omega arith

count_for_send :
    (o : Option ℕ) (size : ℕ) (m : List (ℕ × NetworkStat))
    → count_for o (add_send size) m ≡ add_option (item_for o size false) m
unfolding count_for add_option add_item item_for
count_for_send none size m = refl
count_for_send (some pid) size m = refl

count_for_recv :
    (o : Option ℕ) (size : ℕ) (m : List (ℕ × NetworkStat))
    → count_for o (add_recv size) m ≡ add_option (item_for o size true) m
unfolding count_for add_option add_item item_for
count_for_recv none size m = refl
count_for_recv (some pid) size m = refl

count_tcp_lem :
    (local_ip : ℕ) (ports : List (ℕ × ℕ)) (s : Segment) (m : List (ℕ × NetworkStat))
    → IsSegment s
    → count_tcp local_ip ports (packet s) m
      ≡ some (
          if s.source == local_ip
          then count_for (find_in ◌==◌ s.src_port ports) (add_send s.len) m
          else count_for (find_in ◌==◌ s.dst_port ports) (add_recv s.len) m)
unfolding count_tcp index
count_tcp_lem local_ip ports s m h = bind_some _ (read_first s h) (
    bind_some _ (read_src_port s h)
      (bind_some _ (read_dst_port s h) (bind_some _ (read_source s h) refl)))

count_packet_lem :
    (local_ip : ℕ) (ports : List (ℕ × ℕ)) (s : Segment) (m : List (ℕ × NetworkStat))
    → IsSegment s
    → IsOurs local_ip s
    → count_packet local_ip ports (packet s) m ≡ some (add_option (item_of local_ip ports s) m)
unfolding count_packet item_of
count_packet_lem local_ip ports s m h ours =
    bind_some _ (read_protocol s h) (elim (Bool-cases (s.protocol == ipproto_tcp)) [
      | inl t ↦ rw t (
          count_tcp_lem local_ip ports s m h
          ∙ ap some (by_ends (s.source == local_ip) (s.destination == local_ip) (rw t at ours)))
      | inr t ↦ rw t (unfold add_option in refl)
    ])
  where
    by_ends :
        (out into : Bool)
        → (out || into) ≡ true
        → (if out
            then count_for (find_in ◌==◌ s.src_port ports) (add_send s.len) m
            else count_for (find_in ◌==◌ s.dst_port ports) (add_recv s.len) m)
          ≡ add_option
              (if out
                then item_for (find_in ◌==◌ s.src_port ports) s.len false
                else if into
                then item_for (find_in ◌==◌ s.dst_port ports) s.len true
                else none)
              m
    by_ends true into e = count_for_send (find_in ◌==◌ s.src_port ports) s.len m
    by_ends false true e = count_for_recv (find_in ◌==◌ s.dst_port ports) s.len m
    by_ends false false e = absurd (cc e)

count_packets_lem :
    (local_ip : ℕ) (ports : List (ℕ × ℕ)) (segments : List Segment) (m : List (ℕ × NetworkStat))
    → All IsSegment segments
    → All (IsOurs local_ip) segments
    → count_packets local_ip ports (map packet segments) m
      ≡ some (add_items (items_of local_ip ports segments) m)
unfolding count_packets items_of add_items add_option
count_packets_lem local_ip ports [] m h ours = refl
count_packets_lem local_ip ports (s ∷ ss) m (hs, h) (o, ours) =
    bind_some _ (count_packet_lem local_ip ports s m hs o) (
      count_packets_lem local_ip ports ss (add_option (item_of local_ip ports s) m) h ours
      ∙ ap some (add_cons (item_of local_ip ports s) (items_of local_ip ports ss)))
  where
    add_cons :
        (o : Option Item) (items : List Item)
        → add_items items (add_option o m) ≡ add_items (cons_some o items) m
    add_cons none items = refl
    add_cons (some i) items = refl

-- Let the captured packets be frames with a header of IPv4, captured as far as the ports, and let each
-- of TCP be from the machine's address or to it, of which the code tests the first only. Then
-- process_packets reads nothing behind them, and has for each process the sum of the lengths of the
-- frames of TCP from the machine out of one of the process's ports, and of the others to the machine
-- in to one of its ports, in 64 bits, and no number where there is no such frame.
pub process_packets-expected :
    (local_ip : ℕ) (ports : List (ℕ × ℕ)) (segments : List Segment)
    → All IsSegment segments
    → All (IsOurs local_ip) segments
    → (m : List (ℕ × NetworkStat)) × (process_packets local_ip ports (map packet segments) ≡ some m)
      × ((pid : ℕ) → stat_of pid m ≡ expected pid (items_of local_ip ports segments))
unfolding process_packets
process_packets-expected local_ip ports segments h ours = (
  add_items (items_of local_ip ports segments) [],
  count_packets_lem local_ip ports segments [] h ours,
  λ pid. stat_of-add_items_lem pid (items_of local_ip ports segments),
)
