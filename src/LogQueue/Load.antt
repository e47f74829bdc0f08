-- ===== src/LogQueue/Load.antt =====
-- Loading the log file: the printed entries that were not acked come back in order.
use remote_monitoring_tool.Prelude.{
  ℕ, zero, suc, ◌+◌, ◌≤◌, ◌≡◌, refl, sym, ap, ◌∙◌, List, [], ◌∷◌, ◌++◌, append-nil, append_assoc,
  arith, Bytes, All, length, length-append, ltb, if◌then◌else◌, Bool-cases, inl, inr,
}
use remote_monitoring_tool.Text.{TextStream, text}
use remote_monitoring_tool.LogEntry.{LogEntry, Junk, serialize_str}
use remote_monitoring_tool.LogEntry.Printed.{
  IsPrintable, deserialize_str-serialize_str, serialize_str-pos, deserialize_str_empty,
}
use remote_monitoring_tool.LogQueue.{keep, load, load_file}

-- The lines of entries, one after the other.
unfoldable pub print_all : List LogEntry → Bytes
print_all [] = []
print_all (e ∷ es) = serialize_str [] e ++ print_all es

pub print_all-append : (es fs : List LogEntry) → print_all (es ++ fs) ≡ print_all es ++ print_all fs
unfolding print_all
print_all-append [] fs = refl
print_all-append (e ∷ es) fs =
    ap (λ s. serialize_str [] e ++ s) (print_all-append es fs)
    ∙ sym (append_assoc (serialize_str [] e) _ _)

-- The entries with an id above `ack_id`.
unfoldable pub unacked : ℕ → List LogEntry → List LogEntry
unacked ack_id [] = []
unacked ack_id (e ∷ es) = let rest = unacked ack_id es in if ltb ack_id e.id then e ∷ rest else rest

load_end :
    (fuel : ℕ) (junk : Junk) (ack_id : ℕ) (entries : List LogEntry)
    → load (suc (suc fuel)) junk ack_id (text []) entries ≡ entries
unfolding load
load_end fuel junk ack_id entries =
    ap
      (λ (r : ℕ × LogEntry × TextStream).
        load (suc fuel) junk ack_id r.2 (keep ack_id r.0 r.1 entries))
      (deserialize_str_empty junk.entry junk.temp_number)

load_step :
    (fuel : ℕ) (junk : Junk) (ack_id : ℕ) (e : LogEntry) (rest : Bytes) (entries : List LogEntry)
    → IsPrintable e
    → load (suc fuel) junk ack_id (text (serialize_str [] e ++ rest)) entries
      ≡ load fuel junk ack_id (text rest) (keep ack_id 0 e entries)
unfolding load
load_step fuel junk ack_id e rest entries p =
    rw (deserialize_str-serialize_str e junk.entry junk.temp_number rest p)

keep-unacked :
    (ack_id : ℕ) (e : LogEntry) (entries es : List LogEntry)
    → keep ack_id 0 e entries ++ unacked ack_id es ≡ entries ++ unacked ack_id (e ∷ es)
unfolding keep unacked
keep-unacked ack_id e entries es = elim (Bool-cases (ltb ack_id e.id)) [
  | inl h ↦ rw h (append_assoc entries (e ∷ []) (unacked ack_id es))
  | inr h ↦ rw h
]

load-print_all :
    (es : List LogEntry) (fuel : ℕ) (junk : Junk) (ack_id : ℕ) (entries : List LogEntry)
    → All IsPrintable es
    → length es + 2 ≤ fuel
    → load fuel junk ack_id (text (print_all es)) entries ≡ entries ++ unacked ack_id es
unfolding print_all
load-print_all [] zero junk ack_id entries h f = absurd (omega arith)
load-print_all [] (suc zero) junk ack_id entries h f = absurd (omega arith)
load-print_all [] (suc (suc fuel)) junk ack_id entries h f =
    unfold unacked in load_end fuel junk ack_id entries ∙ sym (append-nil entries)
load-print_all (e ∷ es) zero junk ack_id entries h f = absurd (omega arith)
load-print_all (e ∷ es) (suc fuel) junk ack_id entries (he, h) f =
    load_step fuel junk ack_id e (print_all es) entries he
    ∙ load-print_all es fuel junk ack_id (keep ack_id 0 e entries) h (omega arith)
    ∙ keep-unacked ack_id e entries es

-- Every entry takes a byte of the file, so the fuel is enough.
length-print_all : (es : List LogEntry) → length es ≤ length (print_all es)
unfolding print_all
length-print_all [] = omega arith
length-print_all (e ∷ es) = omega (
  arith,
  length-print_all es,
  length-append (serialize_str [] e) (print_all es),
  serialize_str-pos e,
)

-- A file of printed entries loads to those that were not acked.
pub load_file-print_all :
    (junk : Junk) (ack_id : ℕ) (es : List LogEntry)
    → All IsPrintable es
    → load_file junk ack_id (print_all es) ≡ unacked ack_id es
unfolding load_file
load_file-print_all junk ack_id es h =
    load-print_all es (length (print_all es) + 2) junk ack_id [] h
      (omega (arith, length-print_all es))
