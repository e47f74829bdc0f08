-- ===== src/LogEntry/Printed.antt =====
-- The text form of a log entry is read back.
use remote_monitoring_tool.Prelude.{
  newline, ℕ, ◌<◌, ◌^◌, ◌≡◌, ◌≢◌, refl, sym, ap, ◌∙◌, ◌⊎◌, inl, inr, true, [], ◌∷◌, ◌++◌,
  append_assoc, append-nil, arith, length, length-append, Bytes, All, All-append,
}
use remote_monitoring_tool.Text.{text, decimal, from_chars, getline, split_at, starts_with_digit}
use remote_monitoring_tool.Text.Decimal.{
  IsDigit, decimal-IsDigit, from_chars-decimal, decimal-ne-nil,
}
use remote_monitoring_tool.Text.Lines.{Lacks, getline_found, getline_last}
use remote_monitoring_tool.LogEntry.{
  LogEntry, IsEntry, serialize_str, parse_line, parse_got, deserialize_str,
}

-- An entry whose name can stand in a line.
pub record IsPrintable (e : LogEntry) : Type 0 where
  pub entry : IsEntry e
  pub no_bar : Lacks b'|' e.process_name
  pub no_newline : Lacks newline e.process_name

digits-Lacks :
    (delim : ℕ) → (b'9' < delim) ⊎ (delim < b'0') → (s : Bytes) → All IsDigit s → Lacks delim s
digits-Lacks delim out [] h = tt
digits-Lacks delim out (c ∷ s) (hc, h) = (λ e. ground arith, digits-Lacks delim out s h)

decimal-Lacks_bar : (n : ℕ) → Lacks b'|' (decimal n)
decimal-Lacks_bar n = digits-Lacks b'|' (inl (omega arith)) (decimal n) (decimal-IsDigit n)

-- A printed field with nothing behind it in its part of the line.
field_back : (bound n old : ℕ) → n < bound → from_chars bound (decimal n) old ≡ n
field_back bound n old h =
    ap (λ s. from_chars bound s old) (sym (append-nil (decimal n)))
    ∙ from_chars-decimal bound n old [] h (unfold starts_with_digit in refl)

-- The line of an entry, without its end.
abbrev pub line_of : LogEntry → Bytes
line_of e =
    decimal e.id
    ++ b'|'
      ∷ (e.process_name
          ++ b'|'
            ∷ (decimal e.timestamp_ms ++ b'|' ∷ (decimal e.log_type ++ b'|' ∷ decimal e.value)))

getline-decimal_last :
    (n : ℕ) (str : Bytes) → (getline b'|' (text (decimal n)) str).line ≡ decimal n
getline-decimal_last n str = go (decimal n) (decimal-ne-nil n) (decimal-Lacks_bar n)
  where
    go : (s : Bytes) → s ≢ [] → Lacks b'|' s → (getline b'|' (text s) str).line ≡ s
    go [] ne h = absurd (ne refl)
    go (c ∷ s) ne h = rw (getline_last b'|' c s str h)

pub parse_line-line_of :
    (e this : LogEntry) (junk : ℕ) → IsPrintable e → parse_line (line_of e) this junk ≡ e
unfolding parse_line
parse_line-line_of e this junk p = rw (
  getline_found b'|' (decimal e.id) _ [] (decimal-Lacks_bar e.id),
  getline_found b'|' e.process_name _ this.process_name p.no_bar,
  getline_found b'|' (decimal e.timestamp_ms) _ (decimal e.id) (decimal-Lacks_bar e.timestamp_ms),
  getline_found b'|' (decimal e.log_type) _ (decimal e.timestamp_ms) (decimal-Lacks_bar e.log_type),
  getline-decimal_last e.value (decimal e.log_type),
  field_back (2 ^ 64) e.id this.id p.entry.id_fits,
  field_back (2 ^ 64) e.timestamp_ms this.timestamp_ms p.entry.timestamp_fits,
  field_back (2 ^ 32) e.log_type junk p.entry.type_fits,
  field_back (2 ^ 64) e.value this.value p.entry.value_fits,
)

-- Only the name can bring a byte into the line that no field is printed with.
pub line_of-Lacks :
    (delim : ℕ) (e : LogEntry) → delim < b'0' → Lacks delim e.process_name → Lacks delim (line_of e)
line_of-Lacks delim e lt h = All-append _ (decimal e.id) _ (number e.id) (
  bar,
  All-append _ e.process_name _ h (
    bar,
    All-append _ (decimal e.timestamp_ms) _ (number e.timestamp_ms)
        (bar, All-append _ (decimal e.log_type) _ (number e.log_type) (bar, number e.value)),
  ),
)
  where
    bar : b'|' ≢ delim
    bar = omega arith

    number : (n : ℕ) → Lacks delim (decimal n)
    number n = digits-Lacks delim (inr lt) (decimal n) (decimal-IsDigit n)

pub serialize_str-line_of :
    (e : LogEntry) (rest : Bytes) → serialize_str [] e ++ rest ≡ line_of e ++ newline ∷ rest
unfolding serialize_str
serialize_str-line_of e rest = simp append_assoc

parse_got-line_of :
    (e this : LogEntry) (junk : ℕ) → IsPrintable e → parse_got true (line_of e) this junk ≡ (0, e)
parse_got-line_of e this junk p =
    go (decimal e.id) (decimal-ne-nil e.id) _ (parse_line-line_of e this junk p)
  where
    go :
        (d : Bytes)
        → d ≢ []
        → (r : Bytes) → parse_line (d ++ r) this junk ≡ e
        → parse_got true (d ++ r) this junk ≡ (0, e)
    go [] ne r h = absurd (ne refl)
    go (c ∷ d) ne r h = unfold parse_got in ap (λ x. (0, x)) h

-- Of an entry whose fields fit their types and whose name has neither '|' nor a line end,
-- deserialize_str reads back what serialize_str printed, from the front of a stream, returns 0
-- and leaves the rest, whatever the entry and the uninitialised local variable held before.
pub deserialize_str-serialize_str :
    (e this : LogEntry) (junk : ℕ) (rest : Bytes)
    → IsPrintable e
    → deserialize_str (text (serialize_str [] e ++ rest)) this junk ≡ (0, e, text rest)
unfolding deserialize_str
deserialize_str-serialize_str e this junk rest p = rw (
  serialize_str-line_of e rest,
  getline_found newline (line_of e) rest [] (line_of-Lacks newline e (omega arith) p.no_newline),
  parse_got-line_of e this junk p,
)

-- A printed entry is not empty.
pub serialize_str-pos : (e : LogEntry) → 0 < length (serialize_str [] e)
unfolding serialize_str
serialize_str-pos e = omega (arith, length-append (decimal e.id) (b'|' ∷ _))

-- Printing appends to what was printed before.
pub serialize_str-append :
    (os : Bytes) (e : LogEntry) → serialize_str os e ≡ os ++ serialize_str [] e
unfolding serialize_str
serialize_str-append os e = refl

-- Nothing is read at the end of a file, and the stream has then ended.
pub deserialize_str_empty :
    (this : LogEntry) (junk : ℕ)
    → deserialize_str (text []) this junk ≡ (1, this, record { rest = []; ended = true })
unfolding deserialize_str getline split_at
deserialize_str_empty this junk = refl

-- The line of an entry is read back where no line end follows it, too.
pub deserialize_str-line_of :
    (e this : LogEntry) (junk : ℕ)
    → IsPrintable e
    → deserialize_str (text (line_of e)) this junk ≡ (0, e, record { rest = []; ended = true })
deserialize_str-line_of e this junk p =
    go (decimal e.id) (decimal-ne-nil e.id) _ (line_of-Lacks newline e (omega arith) p.no_newline)
      (parse_got-line_of e this junk p)
  where
    go :
        (d : Bytes)
        → d ≢ []
        → (r : Bytes) → Lacks newline (d ++ r)
        → parse_got true (d ++ r) this junk ≡ (0, e)
        → deserialize_str (text (d ++ r)) this junk ≡ (0, e, record { rest = []; ended = true })
    go [] ne r l h = absurd (ne refl)
    go (c ∷ d) ne r l h =
        unfold deserialize_str in
        rw (getline_last newline c (d ++ r) [] l)
          (ap (λ (x : ℕ × LogEntry). (x.0, x.1, record { rest = []; ended = true })) h)

pub line_of-ne-nil : (e : LogEntry) → line_of e ≢ []
line_of-ne-nil e = go (decimal e.id) (decimal-ne-nil e.id) _
  where
    go : (d : Bytes) → d ≢ [] → (r : Bytes) → d ++ r ≢ []
    go [] ne r = absurd (ne refl)
    go (c ∷ d) ne r = λ e. cc
