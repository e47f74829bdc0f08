-- ===== src/LogEntry.antt =====
-- common/log_entry.hpp and log_entry.cpp: a log entry and its binary and text forms.
pub mod Binary
pub mod Printed
mod Examples
use remote_monitoring_tool.Prelude.{
  newline, ℕ, ◌<◌, ◌^◌, length, Bool, true, false, not, [], ◌∷◌, ◌++◌, Bytes, bytes_eq, ◌==◌,
  if◌then◌else◌,
}
use remote_monitoring_tool.Result.{Result, ok, ◌>>=◌}
use remote_monitoring_tool.Text.{TextStream, text, decimal, from_chars, getline}
use remote_monitoring_tool.Wire.{
  Reader, write_uint32, write_uint64, write_string, read_uint32, read_uint64, read_string,
}

-- enum LogType, by its underlying value: the casts of the source keep any number.
abbrev pub cpu : ℕ
cpu = 1

abbrev pub mem : ℕ
mem = 2

abbrev pub disk : ℕ
disk = 3

abbrev pub net : ℕ
net = 4

pub record LogEntry : Type 0 where
  pub id : ℕ
  pub process_name : Bytes
  pub timestamp_ms : ℕ
  pub log_type : ℕ
  pub value : ℕ

-- What uninitialised memory holds: the fields of a default-constructed entry, the local
-- `temp_number` of deserialize_str, and another integer that is read before it was set.
pub record Junk : Type 0 where
  pub entry : LogEntry
  pub temp_number : ℕ
  pub number : ℕ

unfoldable pub serialize : Bytes → LogEntry → Result Bytes
serialize os e = do
  os1 ← write_string (write_uint64 os e.id) e.process_name
  ok (write_uint64 (write_uint32 (write_uint64 os1 e.timestamp_ms) e.log_type) e.value)

unfoldable pub deserialize : Reader LogEntry
deserialize is = do
  (n_id, is1) ← read_uint64 is
  (name, is2) ← read_string is1
  (ts, is3) ← read_uint64 is2
  (ty, is4) ← read_uint32 is3
  (val, is5) ← read_uint64 is4
  ok (record { id = n_id; process_name = name; timestamp_ms = ts; log_type = ty; value = val }, is5)

-- operator==
unfoldable pub entry_eq : LogEntry → LogEntry → Bool
entry_eq lhs rhs =
    if not (lhs.id == rhs.id)
    then false
    else if not (bytes_eq lhs.process_name rhs.process_name)
    then false
    else if not (lhs.timestamp_ms == rhs.timestamp_ms)
    then false
    else if not (lhs.log_type == rhs.log_type)
    then false
    else if not (lhs.value == rhs.value)
    then false
    else true

-- The text form: one line, the fields separated by '|'.
unfoldable pub serialize_str : Bytes → LogEntry → Bytes
serialize_str os e =
    os
    ++ (decimal e.id
        ++ b'|'
          ∷ (e.process_name
              ++ b'|'
                ∷ (decimal e.timestamp_ms
                    ++ b'|' ∷ (decimal e.log_type ++ b'|' ∷ (decimal e.value ++ newline ∷ [])))))

-- The part of deserialize_str behind the tests on the line. `this` holds what the entry held
-- before, and `temp_number` the value that the uninitialised local of that name has.
unfoldable pub parse_line : Bytes → LogEntry → ℕ → LogEntry
parse_line line this temp_number =
    let l1 = getline b'|' (text line) [] in
    let l2 = getline b'|' l1.stream this.process_name in
    let l3 = getline b'|' l2.stream l1.line in
    let l4 = getline b'|' l3.stream l3.line in
    let l5 = getline b'|' l4.stream l4.line in
    record {
      id = from_chars (2 ^ 64) l1.line this.id;
      process_name = l2.line;
      timestamp_ms = from_chars (2 ^ 64) l3.line this.timestamp_ms;
      log_type = from_chars (2 ^ 32) l4.line temp_number;
      value = from_chars (2 ^ 64) l5.line this.value;
    }

-- The return code and the entry, from whether a line was got and the line.
parse_got : Bool → Bytes → LogEntry → ℕ → ℕ × LogEntry
parse_got false line this temp_number = (1, this)
parse_got true [] this temp_number = (1, this)
parse_got true (c ∷ s) this temp_number = (0, parse_line (c ∷ s) this temp_number)

-- The return code, the entry and the stream.
unfoldable pub deserialize_str : TextStream → LogEntry → ℕ → ℕ × LogEntry × TextStream
unfolding parse_got
deserialize_str is this temp_number =
    let l = getline newline is [] in
    let (ret, entry) = parse_got l.got l.line this temp_number in (ret, entry, l.stream)

-- What the types of the fields guarantee of an entry, and a name that its length prefix can tell.
pub record IsEntry (e : LogEntry) : Type 0 where
  pub id_fits : e.id < 2 ^ 64
  pub name_fits : length e.process_name < 2 ^ 32
  pub timestamp_fits : e.timestamp_ms < 2 ^ 64
  pub type_fits : e.log_type < 2 ^ 32
  pub value_fits : e.value < 2 ^ 64
