-- ===== src/Proc.antt =====
-- The readers of /proc in client/process_table.cpp, outside Windows. A pointer into the static
-- buffer is the part of the buffer from there on; `none` is a read behind the buffer, which is
-- undefined behaviour. What a file holds is a parameter, `none` where it cannot be opened or read.
pub mod Buffer
pub mod Fields
pub mod Stat
pub mod Parentheses
pub mod PidStat
pub mod Io
pub mod Cmdline
pub mod Sockets
mod Examples
use remote_monitoring_tool.Prelude.{
  ℕ, zero, suc, ◌+◌, ◌-◌, ◌*◌, ◌%◌, ◌^◌, min, Bool, true, false, not, ◌&&◌, Option, none, some,
  List, [], ◌∷◌, ◌++◌, Bytes, codes, newline, bytes_eq, ltb, ◌==◌, if◌then◌else◌, length, take,
  drop,
}
use remote_monitoring_tool.Result.{Result, ok, err, read_failed, parse_failed}
use remote_monitoring_tool.Undefined.{◌>>=◌}
use remote_monitoring_tool.Text.{is_digit, from_chars}
use remote_monitoring_tool.Assoc.{find_in, put}
use remote_monitoring_tool.ProcessTable.{ProcessListing, CpuStat, DiskStat, no_disk}
use remote_monitoring_tool.ProcessTable.Update.{CpuMemStat}

abbrev pub buffer_size : ℕ
buffer_size = 4096

-- The number of bytes read, if the file can be read, and the buffer. Behind them stands a 0, and
-- then what an earlier call left; where nothing is read, all of the buffer is from earlier calls.
put_buffer : Bytes → Bytes → Bytes
put_buffer [] buffer = buffer
put_buffer (b ∷ bytes) buffer = (b ∷ bytes) ++ 0 ∷ drop (length (b ∷ bytes) + 1) buffer

bytes_read : Bytes → Bytes → Option ℕ × Bytes
unfolding put_buffer
bytes_read bytes buffer = (some (length bytes), put_buffer bytes buffer)

unfoldable pub read_file : Option Bytes → Bytes → Option ℕ × Bytes
unfolding bytes_read
read_file none buffer = (none, buffer)
read_file (some content) buffer = bytes_read (take (buffer_size - 1) content) buffer

-- read_program_name
name_read : Option ℕ × Bytes → Result Bytes × Bytes
name_read (none, buffer) = (err read_failed, buffer)
name_read (some comm_read, buffer) = (ok (take comm_read buffer), buffer)

unfoldable pub read_program_name : Option Bytes → Bytes → Result Bytes × Bytes
unfolding name_read
read_program_name comm buffer = name_read (read_file comm buffer)

-- The loop of parse_cmdline, with the bytes since `now`.
unfoldable pub split_args : Bytes → Bytes → List Bytes
split_args now [] = []
split_args now (c ∷ s) =
    let rest = split_args [] s in
    let longer = split_args (now ++ c ∷ []) s in if c == 0 then now ∷ rest else longer

args_read : Option ℕ × Bytes → Result (List Bytes) × Bytes
args_read (none, buffer) = (err read_failed, buffer)
args_read (some cmdline_read, buffer) = (ok (split_args [] (take cmdline_read buffer)), buffer)

unfoldable pub parse_cmdline : Option Bytes → Bytes → Result (List Bytes) × Bytes
unfolding args_read
parse_cmdline cmdline buffer = args_read (read_file cmdline buffer)

-- std::filesystem::path(…).filename(): what stands behind the last '/', from the bytes since the
-- last one on.
unfoldable pub filename_from : Bytes → Bytes → Bytes
filename_from name [] = name
filename_from name (c ∷ s) =
    let rest = filename_from [] s in
    let longer = filename_from (name ++ c ∷ []) s in if c == b'/' then rest else longer

named : ℕ → Result Bytes × Bytes → Result ProcessListing × Bytes
named pid (err e, buffer) = (err e, buffer)
named pid (ok program_name, buffer) =
    (ok (record { pid = pid; process_name = program_name; args = [] }), buffer)

listed : ℕ → Option Bytes → Result (List Bytes) × Bytes → Result ProcessListing × Bytes
unfolding named
listed pid comm (err e, buffer) = (err e, buffer)
listed pid comm (ok [], buffer) = named pid (read_program_name comm buffer)
listed pid comm (ok (arg ∷ args), buffer) =
    (ok (record { pid = pid; process_name = filename_from [] arg; args = arg ∷ args }), buffer)

unfoldable pub read_process_metadata :
    ℕ → Option Bytes → Option Bytes → Bytes → Result ProcessListing × Bytes
unfolding listed
read_process_metadata pid cmdline comm buffer = listed pid comm (parse_cmdline cmdline buffer)

-- `while (*p != c) ++p;`: the bytes passed, and the pointer, which then stands at c.
unfoldable pub scan : ℕ → Bytes → Option (Bytes × Bytes)
scan c [] = none
scan c (b ∷ s) =
    let rest = scan c s in if b == c then some ([], b ∷ s) else rest >>= λ r. some (b ∷ r.0, r.1)

-- `if (*p == ' ') { ++p; continue; }`
unfoldable pub skip_spaces : Bytes → Option Bytes
skip_spaces [] = none
skip_spaces (c ∷ s) = let rest = skip_spaces s in if c == b' ' then rest else some (c ∷ s)

-- The loops over the fields of a line, with what is done with the bytes of a field.
module _ {A : Type 0} (take_field : ℕ → Bytes → A → A) where
  one_field : (ℕ → Bytes → A → Option (Result A)) → ℕ → Bytes → A → Option (Result A)
  one_field rest field [] stat = none
  one_field rest field (c ∷ s) stat =
      if c == 0
      then some (err parse_failed)
      else scan b' ' (c ∷ s) >>= λ r. rest (field + 1) r.1 (take_field field r.0 stat)

  -- The first number is that of the fields left.
  unfoldable pub read_fields : ℕ → ℕ → Bytes → A → Option (Result A)
  unfolding one_field
  read_fields zero field p stat = some (ok stat)
  read_fields (suc fields) field p stat =
      skip_spaces p >>= λ p'. one_field (read_fields fields) field p' stat

-- The loop over the second field, from the number of open parentheses on. It ends at 0 and below.
unfoldable pub skip_parentheses : ℕ → Bytes → Option Bytes
skip_parentheses open_para [] = none
skip_parentheses open_para (c ∷ s) =
    let more = skip_parentheses (open_para + 1) s in
    let same = skip_parentheses open_para s in
    let less = skip_parentheses (open_para - 1) s in
    if c == b'('
    then more
    else if c == b')'
    then if ltb 1 open_para then less else some s
    else if ltb 0 open_para
    then same
    else some s

unfoldable pub take_cpu_mem : ℕ → ℕ → Bytes → CpuMemStat → CpuMemStat
take_cpu_mem page_size field bytes stat =
    if field == 14
    then record stat { total_cpu_usage = from_chars (2 ^ 64) bytes stat.total_cpu_usage }
    else if field == 24
    then record stat { mem_usage = from_chars (2 ^ 64) bytes stat.mem_usage * page_size % 2 ^ 64 }
    else stat

abbrev pub no_cpu_mem : CpuMemStat
no_cpu_mem = record { total_cpu_usage = 0; mem_usage = 0 }

-- The fields 3 to 52.
unfoldable pub parse_pid_stat : ℕ → Bytes → Option (Result CpuMemStat)
parse_pid_stat page_size buffer = scan b' ' buffer >>= λ first.
    skip_parentheses 0 (drop 1 first.1) >>= λ second.
    read_fields (take_cpu_mem page_size) 50 3 (drop 1 second) no_cpu_mem

stat_read : ℕ → Option ℕ × Bytes → Option (Result CpuMemStat) × Bytes
stat_read page_size (none, buffer) = (some (err read_failed), buffer)
stat_read page_size (some n, buffer) = (parse_pid_stat page_size buffer, buffer)

unfoldable pub read_pid_stat_cpu_mem : ℕ → Option Bytes → Bytes → Option (Result CpuMemStat) × Bytes
unfolding stat_read
read_pid_stat_cpu_mem page_size stat buffer = stat_read page_size (read_file stat buffer)

-- `number` is not initialised, so that it keeps junk where no number stands.
unfoldable pub take_cpu : ℕ → ℕ → Bytes → CpuStat → CpuStat
take_cpu junk field bytes stat =
    let number = from_chars (2 ^ 64) bytes junk in
    if ltb field 2 then stat else record {
      cpu_usage = (stat.cpu_usage + number) % 2 ^ 64;
      cpu_idle = if field == 4 then number else stat.cpu_idle;
    }

cpu_read : ℕ → Option ℕ × Bytes → Option (Result CpuStat) × Bytes
cpu_read junk (none, buffer) = (some (err read_failed), buffer)
cpu_read junk (some n, buffer) =
    (read_fields (take_cpu junk) 11 1 buffer (record { cpu_usage = 0; cpu_idle = 0 }), buffer)

unfoldable pub read_stat_cpu : ℕ → Option Bytes → Bytes → Option (Result CpuStat) × Bytes
unfolding cpu_read
read_stat_cpu junk stat buffer = cpu_read junk (read_file stat buffer)

-- The lines of a process's io file: the first four are passed over, the next two hold a number
-- behind a space.
skip_lines : ℕ → Bytes → Option Bytes
skip_lines zero p = some p
skip_lines (suc lines) p = scan newline p >>= λ r. skip_lines lines (drop 1 r.1)

number_line : ℕ → Bytes → Option (ℕ × Bytes)
number_line junk p = scan b' ' p >>= λ r.
    scan newline (drop 1 r.1) >>= λ line. some (from_chars (2 ^ 64) line.0 junk, drop 1 line.1)

unfoldable pub parse_io : ℕ → ℕ → Bytes → Option DiskStat
unfolding skip_lines number_line
parse_io junk_read junk_write buffer = skip_lines 4 buffer >>= λ p.
    number_line junk_read p >>= λ read. number_line junk_write read.1 >>= λ write.
    some (record { disk_read = some read.0; disk_write = some write.0 })

io_read : ℕ → ℕ → Option ℕ × Bytes → Option DiskStat × Bytes
io_read junk_read junk_write (none, buffer) = (some no_disk, buffer)
io_read junk_read junk_write (some n, buffer) = (parse_io junk_read junk_write buffer, buffer)

unfoldable pub read_pid_io : ℕ → ℕ → Option Bytes → Bytes → Option DiskStat × Bytes
unfolding io_read
read_pid_io junk_read junk_write io buffer = io_read junk_read junk_write (read_file io buffer)

-- The number in a link to a socket, 0 for other links. The range that is given to from_chars ends
-- nine bytes before the end of the link, and it may start behind its end, which is undefined
-- behaviour.
unfoldable pub parse_socket_inode : ℕ → Bytes → Option ℕ
parse_socket_inode junk link =
    if not (bytes_eq (take 8 link) (codes "socket:["))
    then some 0
    else if ltb (length link) (8 + 9)
    then none
    else some (from_chars (2 ^ 64) (take (length link - 9 - 8) (drop 8 link)) junk)

push_inode : ℕ → List ℕ → List ℕ
push_inode inode sockets = if inode == 0 then sockets else sockets ++ inode ∷ []

-- The links of the process's open files; `none` is one that cannot be read. The inode is cut to 32
-- bits.
inode_list : ℕ → List (Option Bytes) → List ℕ → Option (List ℕ)
unfolding push_inode
inode_list junk [] sockets = some sockets
inode_list junk (none ∷ links) sockets = inode_list junk links sockets
inode_list junk (some link ∷ links) sockets = parse_socket_inode junk link >>= λ inode.
    inode_list junk links (push_inode (inode % 2 ^ 32) sockets)

-- A directory that cannot be opened is `none`.
unfoldable pub get_socket_inode_list : ℕ → Option (List (Option Bytes)) → Option (List ℕ)
unfolding inode_list
get_socket_inode_list junk none = some []
get_socket_inode_list junk (some links) = inode_list junk links []

-- The names in /proc that start with a digit.
starts_as_pid : Bytes → Bool
starts_as_pid [] = false
starts_as_pid (c ∷ name) = is_digit c

-- `pid` is not initialised in a round, so that it keeps junk where the number does not fit.
unfoldable pub list_pids : ℕ → List Bytes → List ℕ
unfolding starts_as_pid
list_pids junk [] = []
list_pids junk (name ∷ names) =
    let pids = list_pids junk names in
    if starts_as_pid name then from_chars (2 ^ 32) name junk ∷ pids else pids

pub record SocketInode : Type 0 where
  pub inode : ℕ
  pub local_ip : ℕ
  pub local_port : ℕ
  pub rem_ip : ℕ
  pub rem_port : ℕ

-- The loops of update_table that combine the inodes of a process with those of the connections.
map_port : Option SocketInode → ℕ → List (ℕ × ℕ) → List (ℕ × ℕ)
map_port none pid ports = ports
map_port (some inode) pid ports = put ◌==◌ inode.local_port pid ports

map_inodes : List (ℕ × SocketInode) → ℕ → List ℕ → List (ℕ × ℕ) → List (ℕ × ℕ)
unfolding map_port
map_inodes inode_list_all pid [] ports = ports
map_inodes inode_list_all pid (inode ∷ inodes) ports =
    map_inodes inode_list_all pid inodes (map_port (find_in ◌==◌ inode inode_list_all) pid ports)

unfoldable pub port_to_pid_map :
    List (ℕ × SocketInode) → List (ℕ × List ℕ) → List (ℕ × ℕ) → List (ℕ × ℕ)
unfolding map_inodes
port_to_pid_map inode_list_all [] ports = ports
port_to_pid_map inode_list_all ((pid, inodes) ∷ processes) ports =
    port_to_pid_map inode_list_all processes (map_inodes inode_list_all pid inodes ports)

-- inode_list_all.begin()->second.local_ip: the first connection in the map's order. With no
-- connection that is undefined behaviour.
unfoldable pub local_ip_of : List (ℕ × SocketInode) → Option ℕ
local_ip_of [] = none
local_ip_of ((inode, connection) ∷ rest) = some connection.local_ip
