-- ===== src/ClientHandler/Accepted.antt =====
-- Whatever a client sends, the server's log file is an unbroken sequence of entries, and the ack is
-- the id of the last one.
use mathlib.Core.Path.{ap₂}
use remote_monitoring_tool.Prelude.{
  newline, ℕ, suc, ◌+◌, ◌%◌, ◌^◌, ◌<◌, ◌≤◌, ◌≡◌, ◌≢◌, refl, sym, ap, subst, ◌∙◌, ◌⊎◌, inl, inr,
  true, Option, none, some, List, [], ◌∷◌, ◌++◌, append-nil, append_assoc, arith, Bytes, All,
  All-append_right, length, length-append, ◌==◌, if◌then◌else◌, Bool-cases, ==_iff,
}
use remote_monitoring_tool.Text.{TextStream, text}
use remote_monitoring_tool.Text.Lines.{Lacks}
use remote_monitoring_tool.Util.{get_last_line_of_file}
use remote_monitoring_tool.Util.LastLine.{InLine, EndsLine, get_last_line-line}
use remote_monitoring_tool.LogEntry.{LogEntry, Junk, serialize_str, deserialize_str}
use remote_monitoring_tool.LogEntry.Printed.{
  IsPrintable, line_of, line_of-Lacks, line_of-ne-nil, deserialize_str-line_of,
  serialize_str-append, serialize_str-line_of,
}
use remote_monitoring_tool.LogQueue.Load.{print_all, print_all-append}
use remote_monitoring_tool.LogQueue.Runs.{Run}
use remote_monitoring_tool.ClientHandler.{id_of_line, last_acked_id, accept}

-- The entries of a message that the server takes.
unfoldable pub accepted : ℕ → List LogEntry → List LogEntry
accepted last_acked [] = []
accepted last_acked (e ∷ es) =
    let skip = accepted last_acked es in
    let take = e ∷ accepted (suc last_acked) es in if e.id == suc last_acked then take else skip

pub accept-accepted :
    (last_acked : ℕ) (file : Bytes) (es : List LogEntry)
    → last_acked + length es < 2 ^ 64
    → accept last_acked file es
      ≡ (last_acked + length (accepted last_acked es), file ++ print_all (accepted last_acked es))
unfolding accept accepted
accept-accepted last file [] h =
    unfold print_all in ap₂ (λ x y. (x, y)) (omega arith) (sym (append-nil file))
accept-accepted last file (e ∷ es) h = elim (Bool-cases (e.id == suc last)) [
  | inl t ↦
      rw (wrap, t)
        (accept-accepted (suc last) (serialize_str file e) es (omega arith)
          ∙ ap₂ (λ x y. (x, y)) (omega arith) (printed t))
  | inr t ↦ rw (wrap, t) (accept-accepted last file es (omega arith))
]
  where
    wrap : (last + 1) % 2 ^ 64 ≡ suc last
    wrap = omega arith

    printed :
        (e.id == suc last) ≡ true
        → serialize_str file e ++ print_all (accepted (suc last) es)
          ≡ file ++ print_all (e ∷ accepted (suc last) es)
    printed t =
        unfold print_all in
        ap (λ s. s ++ print_all (accepted (suc last) es)) (serialize_str-append file e)
        ∙ append_assoc file (serialize_str [] e) (print_all (accepted (suc last) es))

pub Run-accepted :
    (last_acked : ℕ) (es : List LogEntry) → Run (suc last_acked) (accepted last_acked es)
unfolding accepted
Run-accepted last [] = tt
Run-accepted last (e ∷ es) = elim (Bool-cases (e.id == suc last)) [
  | inl t ↦ rw t ((==_iff e.id (suc last)).0 t, Run-accepted (suc last) es)
  | inr t ↦ rw t (Run-accepted last es)
]

pub All-accepted {κ} :
    (P : LogEntry → Type κ) (last_acked : ℕ) (es : List LogEntry)
    → All P es
    → All P (accepted last_acked es)
unfolding accepted
All-accepted P last [] h = tt
All-accepted P last (e ∷ es) (he, h) = elim (Bool-cases (e.id == suc last)) [
  | inl t ↦ rw t (he, All-accepted P (suc last) es h)
  | inr t ↦ rw t (All-accepted P last es h)
]

pub length-accepted :
    (last_acked : ℕ) (es : List LogEntry) → length (accepted last_acked es) ≤ length es
unfolding accepted
length-accepted last [] = omega arith
length-accepted last (e ∷ es) =
    ground (arith, length-accepted last es, length-accepted (suc last) es)

-- A name that can stand in a log file of the server: no '\r' is in it either.
pub record IsLogged (e : LogEntry) : Type 0 where
  pub printable : IsPrintable e
  pub no_return : Lacks 13 e.process_name

-- The server's log of a client: entries with the ids from 1 on.
pub record IsLog (content : Option Bytes) (es : List LogEntry) : Type 0 where
  pub in_file : (content ≡ some (print_all es)) ⊎ ((content ≡ none) × (es ≡ []))
  pub run : Run 1 es
  pub logged : All IsLogged es

Run-last :
    (from : ℕ) (es : List LogEntry) (e : LogEntry)
    → Run from (es ++ e ∷ [])
    → e.id ≡ from + length es
Run-last from [] e (he, h) = omega arith
Run-last from (f ∷ es) e (hf, h) = omega (arith, Run-last (suc from) es e h)

last_view :
    (es : List LogEntry) → (es ≡ []) ⊎ ((fs : List LogEntry) × (e : LogEntry) × (es ≡ fs ++ e ∷ []))
last_view [] = inl refl
last_view (e ∷ es) = inr (go e es)
  where
    go :
        (e : LogEntry) (es : List LogEntry)
        → (fs : List LogEntry) × (l : LogEntry) × (e ∷ es ≡ fs ++ l ∷ [])
    go e [] = ([], e, refl)
    go e (f ∷ es) = let (fs, l, p) = go f es in (e ∷ fs, l, ap (λ r. e ∷ r) p)

print_last :
    (fs : List LogEntry) (e : LogEntry)
    → print_all (fs ++ e ∷ []) ≡ print_all fs ++ line_of e ++ newline ∷ []
unfolding print_all
print_last fs e =
    print_all-append fs (e ∷ [])
    ∙ ap (λ s. print_all fs ++ s) (serialize_str-line_of e [])
    ∙ sym (append_assoc (print_all fs) (line_of e) (newline ∷ []))

EndsLine-print_all : (es : List LogEntry) → EndsLine (print_all es)
EndsLine-print_all es = elim (last_view es) [
  | inl p ↦ inl (ap print_all p ∙ (unfold print_all in refl))
  | inr (fs, e, p) ↦ inr (print_all fs ++ line_of e, ap print_all p ∙ print_last fs e)
]

InLine-line_of : (e : LogEntry) → IsLogged e → All InLine (line_of e)
InLine-line_of e h =
    both (line_of e) (line_of-Lacks newline e (omega arith) h.printable.no_newline)
      (line_of-Lacks 13 e (omega arith) h.no_return)
  where
    both : (s : Bytes) → Lacks newline s → Lacks 13 s → All InLine s
    both [] a b = tt
    both (c ∷ s) (ha, a) (hb, b) = ((ha, hb), both s a b)

id_of_line-line :
    (s : Bytes) (junk : Junk)
    → s ≢ []
    → id_of_line s junk ≡ (deserialize_str (text s) junk.entry junk.temp_number).1.id
unfolding id_of_line
id_of_line-line [] junk ne = absurd (ne refl)
id_of_line-line (c ∷ s) junk ne = refl

id_of_last :
    (fs : List LogEntry) (e : LogEntry) (junk : Junk)
    → IsLogged e
    → last_acked_id (some (print_all (fs ++ e ∷ []))) junk ≡ e.id
unfolding last_acked_id
id_of_last fs e junk h =
    ap (λ s. id_of_line (get_last_line_of_file (some s)) junk) (print_last fs e)
    ∙ ap (λ s. id_of_line s junk)
        (get_last_line-line (print_all fs) (line_of e) (line_of-ne-nil e) (InLine-line_of e h)
          (EndsLine-print_all fs))
    ∙ id_of_line-line (line_of e) junk (line_of-ne-nil e)
    ∙ ap (λ (r : ℕ × LogEntry × TextStream). r.1.id)
        (deserialize_str-line_of e junk.entry junk.temp_number h.printable)

no_line :
    (content : Option Bytes) (junk : Junk)
    → (content ≡ none) ⊎ (content ≡ some [])
    → last_acked_id content junk ≡ 0
no_line content junk (inl p) = rw p (unfold last_acked_id get_last_line_of_file in refl)
no_line content junk (inr p) = rw p (unfold last_acked_id get_last_line_of_file in refl)

-- The last acked id that the server reads from a client's log is the number of its entries.
pub last_acked_id-IsLog :
    (content : Option Bytes) (es : List LogEntry) (junk : Junk)
    → IsLog content es
    → last_acked_id content junk ≡ length es
last_acked_id-IsLog content es junk h = elim (h.in_file) [
  | inr (gone, empty) ↦ no_line content junk (inl gone) ∙ sym (ap length empty)
  | inl there ↦ elim (last_view es) [
    | inl empty ↦
        no_line content junk
          (inr (there ∙ ap (λ l. some (print_all l)) empty ∙ (unfold print_all in refl)))
        ∙ sym (ap length empty)
    | inr (fs, e, p) ↦
        ap (λ c. last_acked_id c junk) (there ∙ ap (λ l. some (print_all l)) p)
        ∙ id_of_last fs e junk (All-append_right _ fs (e ∷ []) (subst (All IsLogged) p h.logged)).0
        ∙ omega
            (arith, Run-last 1 fs e (subst (Run 1) p h.run), ap length p, length-append fs (e ∷ []))
  ]
]
