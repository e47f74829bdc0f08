-- ===== src/NetworkProcessing/Frames.antt =====
-- The frames of an Ethernet with IPv4, and the packets that they are counted as.
pub mod Counted
use remote_monitoring_tool.Prelude.{
  ℕ, ◌+◌, ◌-◌, ◌*◌, ◌/◌, ◌%◌, ◌^◌, ◌<◌, ◌≡◌, ◌≤◌, refl, sym, ap, ◌∙◌, Bool, true, false, not,
  Option, none, some, List, [], ◌∷◌, ◌++◌, append_assoc, arith, map, Bytes, ◌==◌, if◌then◌else◌,
  length, length-append, get_elem?, get_elem?-append_behind, get_elem?-append_within, All,
  Bool-cases, inl, inr,
}
use remote_monitoring_tool.Assoc.{find_in, put, value_or}
use remote_monitoring_tool.Undefined.{◌>>=◌}
use remote_monitoring_tool.Wire.{to_memory}
use remote_monitoring_tool.Wire.Memory.{length-to_memory}
use remote_monitoring_tool.ProcessTable.{NetworkStat, no_network}
use remote_monitoring_tool.NetworkProcessing.{
  Packet, add_recv, add_send, read_port, read_s_addr, count_for, ipproto_tcp, count_tcp,
  count_packet, count_packets, process_packets,
}
use remote_monitoring_tool.NetworkProcessing.Traffic.{
  Item, expected, stat_of, add_item, add_items, stat_of-add_items_lem,
}

-- A frame with its header of IPv4, whose parts that are not read are bytes; the ports are the first
-- bytes of a segment of TCP. `len` is what was on the wire, `rest` what was captured of it.
pub record Segment : Type 0 where
  pub ethernet : Bytes
  pub version : ℕ
  pub ip_hl : ℕ
  pub lengths : Bytes
  pub protocol : ℕ
  pub checksum : Bytes
  pub source : ℕ
  pub destination : ℕ
  pub options : Bytes
  pub src_port : ℕ
  pub dst_port : ℕ
  pub rest : Bytes
  pub len : ℕ

-- The sizes of the parts, by the standard of IPv4.
pub record IsSegment (s : Segment) : Type 0 where
  pub ethernet_size : length s.ethernet ≡ 14
  pub lengths_size : length s.lengths ≡ 8
  pub checksum_size : length s.checksum ≡ 2
  pub options_size : 20 + length s.options ≡ 4 * s.ip_hl
  pub header_size : s.ip_hl < 16
  pub source_size : s.source < 2 ^ 32

pub port_bytes : ℕ → Bytes
port_bytes port = port / 2 ^ 8 ∷ port % 2 ^ 8 ∷ []

header : Segment → Bytes
header s =
    (s.version * 16 + s.ip_hl)
    ∷ (s.lengths
        ++ (s.protocol
            ∷ (s.checksum ++ (to_memory 4 s.source ++ (to_memory 4 s.destination ++ s.options)))))

unfoldable pub frame : Segment → Bytes
unfolding header port_bytes
frame s = s.ethernet ++ (header s ++ (port_bytes s.src_port ++ (port_bytes s.dst_port ++ s.rest)))

abbrev pub packet : Segment → Packet
packet s = record { captured = frame s; len = s.len }

length-header : (s : Segment) → IsSegment s → length (header s) ≡ 4 * s.ip_hl
unfolding header
length-header s h =
    rw
      (
        length-append s.lengths,
        length-append s.checksum,
        length-append (to_memory 4 s.source),
        length-to_memory 4 s.source,
        length-append (to_memory 4 s.destination),
        length-to_memory 4 s.destination,
      )
      (omega (arith, h.lengths_size, h.checksum_size, h.options_size))

-- A byte of the header, and bytes behind it.
frame-header :
    (s : Segment) (i c : ℕ)
    → IsSegment s
    → get_elem? (header s) i ≡ some c
    → get_elem? (frame s) (14 + i) ≡ some c
unfolding frame
frame-header s i c h e =
    get_elem?-append_behind s.ethernet _ 14 i h.ethernet_size
    ∙ get_elem?-append_within (header s) _ i c e

pub frame_ports :
    (s : Segment) (i : ℕ)
    → IsSegment s
    → get_elem? (frame s) (14 + (4 * s.ip_hl + i))
      ≡ get_elem? (port_bytes s.src_port ++ (port_bytes s.dst_port ++ s.rest)) i
unfolding frame
frame_ports s i h =
    get_elem?-append_behind s.ethernet _ 14 (4 * s.ip_hl + i) h.ethernet_size
    ∙ get_elem?-append_behind (header s) _ (4 * s.ip_hl) i (length-header s h)

header_lengths :
    (s : Segment) (i : ℕ)
    → IsSegment s
    → get_elem? (header s) (1 + (8 + i))
      ≡ get_elem?
          (s.protocol
            ∷ (s.checksum ++ (to_memory 4 s.source ++ (to_memory 4 s.destination ++ s.options))))
          i
unfolding header
header_lengths s i h =
    get_elem?-append_behind ((s.version * 16 + s.ip_hl) ∷ []) _ 1 (8 + i) refl
    ∙ get_elem?-append_behind s.lengths _ 8 i h.lengths_size

header_source :
    (s : Segment) (i c : ℕ)
    → IsSegment s
    → get_elem? (to_memory 4 s.source) i ≡ some c
    → get_elem? (header s) (1 + (8 + (1 + (2 + i)))) ≡ some c
header_source s i c h e =
    header_lengths s (1 + (2 + i)) h
    ∙ get_elem?-append_behind (s.protocol ∷ []) _ 1 (2 + i) refl
    ∙ get_elem?-append_behind s.checksum _ 2 i h.checksum_size
    ∙ get_elem?-append_within (to_memory 4 s.source) _ i c e

pub read_first :
    (s : Segment) → IsSegment s → get_elem? (frame s) 14 ≡ some (s.version * 16 + s.ip_hl)
read_first s h = frame-header s 0 (s.version * 16 + s.ip_hl) h (unfold header in refl)

pub read_protocol : (s : Segment) → IsSegment s → get_elem? (frame s) (14 + 9) ≡ some s.protocol
read_protocol s h = frame-header s 9 s.protocol h (header_lengths s 0 h)

source_byte :
    (s : Segment) (i c : ℕ)
    → IsSegment s
    → get_elem? (to_memory 4 s.source) i ≡ some c
    → get_elem? (frame s) (14 + (1 + (8 + (1 + (2 + i))))) ≡ some c
source_byte s i c h e = frame-header s (1 + (8 + (1 + (2 + i)))) c h (header_source s i c h e)

pub read_source : (s : Segment) → IsSegment s → read_s_addr (frame s) (14 + 12) ≡ some s.source
unfolding read_s_addr to_memory
read_source s h =
    rw
      (
        source_byte s 0 _ h refl,
        source_byte s 1 _ h refl,
        source_byte s 2 _ h refl,
        source_byte s 3 _ h refl,
      )
      (ap some (omega (arith, h.source_size)))
