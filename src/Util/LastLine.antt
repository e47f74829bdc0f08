-- ===== src/Util/LastLine.antt =====
-- The last line of a file that ends in a line end.
use mathlib.Core.List.{reverse_aux, reverse-cons, reverse-reverse}
use remote_monitoring_tool.Prelude.{
  newline, carriage_return, ℕ, zero, suc, ◌≡◌, ◌≢◌, refl, sym, ap, subst, ◌∙◌, ◌⊎◌, inl, inr, Bool,
  true, some, [], ◌∷◌, ◌++◌, append-nil, append_assoc, arith, reverse, Bytes, length, length-append,
  get_or, get_or-append_length, All,
}
use remote_monitoring_tool.Util.{skip_line_ends, take_char, collect, get_last_line_of_file}

-- A byte that is part of a line.
abbrev pub InLine : ℕ → Type 0
InLine c = (c ≢ newline) × (c ≢ carriage_return)

-- A line may begin behind this text.
abbrev pub EndsLine : Bytes → Type 0
EndsLine pre = (pre ≡ []) ⊎ ((front : Bytes) × (pre ≡ front ++ newline ∷ []))

take_char_in : (c : ℕ) (rev : Bytes) → InLine c → take_char c rev ≡ (true, rev ++ c ∷ [])
unfolding take_char
take_char_in c rev h = ground arith

-- One round at a byte of the line.
collect_step :
    (file pre back : Bytes) (c : ℕ) (rev : Bytes)
    → file ≡ pre ++ c ∷ back
    → InLine c
    → (pos : ℕ) → suc pos ≡ length pre
    → collect file (suc pos) rev ≡ collect file pos (rev ++ c ∷ [])
unfolding collect
collect_step file pre back c rev e h pos p = rw (at, take_char_in c rev h)
  where
    at : get_or file (suc pos) 0 ≡ c
    at =
        ap (λ f. get_or f (suc pos) 0) e
        ∙ ap (λ n. get_or (pre ++ c ∷ back) n 0) p
        ∙ get_or-append_length pre back c 0

collect_first :
    (file back : Bytes) (c : ℕ) (rev : Bytes)
    → file ≡ c ∷ back
    → InLine c
    → collect file zero rev ≡ rev ++ c ∷ []
unfolding collect
collect_first file back c rev e h = rw (e) (ap (λ (r : Bool × Bytes). r.1) (take_char_in c rev h))

collect_stop :
    (file pre back : Bytes) (rev : Bytes)
    → file ≡ pre ++ newline ∷ back
    → (pos : ℕ) → pos ≡ length pre
    → collect file pos rev ≡ rev
collect_stop file pre back rev e pos p = go pos at
  where
    at : get_or file pos 0 ≡ newline
    at =
        ap (λ f. get_or f pos 0) e
        ∙ ap (λ n. get_or (pre ++ newline ∷ back) n 0) p
        ∙ get_or-append_length pre back newline 0

    go : (k : ℕ) → get_or file k 0 ≡ newline → collect file k rev ≡ rev
    go zero h = unfold collect take_char in ap (λ ch. (take_char ch rev).1) h
    go (suc k) h = unfold collect take_char in rw h

-- The second loop takes a whole line, read backwards.
collect-line :
    (file pre : Bytes) (r : Bytes) (c : ℕ) (back rev : Bytes) (pos : ℕ)
    → file ≡ (pre ++ reverse r) ++ c ∷ back
    → pos ≡ length (pre ++ reverse r)
    → All InLine (c ∷ r)
    → EndsLine pre
    → collect file pos rev ≡ rev ++ c ∷ r
collect-line file pre [] c back rev pos e p (hc, h) (inl first) =
    ap (λ k. collect file k rev) at_start ∙ collect_first file back c rev only hc
  where
    at_start : pos ≡ 0
    at_start = p ∙ ap (λ x. length (x ++ [])) first

    only : file ≡ c ∷ back
    only = e ∙ ap (λ x. (x ++ []) ++ c ∷ back) first
collect-line file pre [] c back rev pos e p (hc, h) (inr (front, ends)) =
    ap (λ k. collect file k rev) (p ∙ len)
    ∙ collect_step file (pre ++ []) back c rev e hc (length front) (sym len)
    ∙ collect_stop file front (c ∷ back) (rev ++ c ∷ []) behind (length front) refl
  where
    len : length (pre ++ []) ≡ suc (length front)
    len = omega (arith, length-append pre [], ap length ends, length-append front (newline ∷ []))

    behind : file ≡ front ++ newline ∷ (c ∷ back)
    behind = e ∙ ap (λ x. (x ++ []) ++ c ∷ back) ends ∙ simp (append_assoc, append-nil)
collect-line file pre (d ∷ r) c back rev pos e p (hc, h) ends =
    ap (λ k. collect file k rev) (p ∙ len)
    ∙ collect_step file (pre ++ reverse (d ∷ r)) back c rev e hc (length (pre ++ reverse r))
        (sym len)
    ∙ collect-line file pre r d (c ∷ back) (rev ++ c ∷ []) (length (pre ++ reverse r)) here refl h
        ends
    ∙ append_assoc rev (c ∷ []) (d ∷ r)
  where
    grouped : pre ++ reverse (d ∷ r) ≡ (pre ++ reverse r) ++ d ∷ []
    grouped = ap (λ x. pre ++ x) (reverse-cons d r) ∙ sym (append_assoc pre (reverse r) (d ∷ []))

    len : length (pre ++ reverse (d ∷ r)) ≡ suc (length (pre ++ reverse r))
    len = omega (arith, ap length grouped, length-append (pre ++ reverse r) (d ∷ []))

    here : file ≡ (pre ++ reverse r) ++ d ∷ (c ∷ back)
    here = e ∙ ap (λ x. x ++ c ∷ back) grouped ∙ append_assoc (pre ++ reverse r) (d ∷ []) (c ∷ back)

-- The first loop stops at the last byte of a line that one line end follows.
skip_line_ends-end :
    (file front : Bytes) (c : ℕ)
    → file ≡ front ++ c ∷ newline ∷ []
    → InLine c
    → skip_line_ends file (length file) ≡ length front
skip_line_ends-end file front c e h =
    ap (skip_line_ends file) len ∙ back (suc (length front)) at_end ∙ stay (length front) at_char
  where
    back :
        (pos : ℕ)
        → get_or file pos 0 ≡ newline
        → skip_line_ends file (suc pos) ≡ skip_line_ends file pos
    back pos p = unfold skip_line_ends in rw p

    stay : (pos : ℕ) → get_or file pos 0 ≡ c → skip_line_ends file (suc pos) ≡ pos
    stay pos p = unfold skip_line_ends in rw p (ground arith)

    len : length file ≡ suc (suc (length front))
    len = omega (arith, ap length e, length-append front (c ∷ newline ∷ []))

    at_char : get_or file (length front) 0 ≡ c
    at_char = ap (λ f. get_or f (length front) 0) e ∙ get_or-append_length front (newline ∷ []) c 0

    at_end : get_or file (suc (length front)) 0 ≡ newline
    at_end =
        ap (λ f. get_or f (suc (length front)) 0)
          (e ∙ sym (append_assoc front (c ∷ []) (newline ∷ [])))
        ∙ ap (λ n. get_or ((front ++ c ∷ []) ++ newline ∷ []) n 0)
            (omega (arith, length-append front (c ∷ [])))
        ∙ get_or-append_length (front ++ c ∷ []) [] newline 0

reversed_lines :
    (file pre r : Bytes) (c : ℕ)
    → file ≡ (pre ++ reverse r) ++ c ∷ newline ∷ []
    → All InLine (c ∷ r)
    → EndsLine pre
    → get_last_line_of_file (some file) ≡ reverse (c ∷ r)
reversed_lines file pre r c e h ends = go file e
  where
    go :
        (f : Bytes)
        → f ≡ (pre ++ reverse r) ++ c ∷ newline ∷ []
        → get_last_line_of_file (some f) ≡ reverse (c ∷ r)
    go [] e' =
        absurd (omega (arith, ap length e', length-append (pre ++ reverse r) (c ∷ newline ∷ [])))
    go (x ∷ xs) e' =
        unfold get_last_line_of_file in
        ap (λ k. reverse (collect (x ∷ xs) k []))
          (skip_line_ends-end (x ∷ xs) (pre ++ reverse r) c e' h.0)
        ∙ ap reverse (
            collect-line (x ∷ xs) pre r c (newline ∷ []) [] (length (pre ++ reverse r)) e' refl h
              ends)

All-reverse_aux :
    (bs acc : Bytes) → All InLine bs → All InLine acc → All InLine (reverse_aux bs acc)
All-reverse_aux [] acc h k = k
All-reverse_aux (b ∷ bs) acc (hb, h) k = All-reverse_aux bs (b ∷ acc) h (hb, k)

-- Let a file end in a line that is not empty and has no '\r', closed by one line end, behind a
-- part that is empty or ends in a line end. Then get_last_line_of_file gives that line.
pub get_last_line-line :
    (pre line : Bytes)
    → line ≢ []
    → All InLine line
    → EndsLine pre
    → get_last_line_of_file (some (pre ++ line ++ newline ∷ [])) ≡ line
get_last_line-line pre line ne h ends = go (reverse line) refl
  where
    go :
        (l : Bytes)
        → reverse line ≡ l
        → get_last_line_of_file (some (pre ++ line ++ newline ∷ [])) ≡ line
    go [] e = absurd (ne (sym (reverse-reverse line) ∙ ap reverse e))
    go (c ∷ r) e =
        reversed_lines (pre ++ line ++ newline ∷ []) pre r c
          (ap (λ x. pre ++ x ++ newline ∷ []) (turned ∙ reverse-cons c r) ∙ simp append_assoc)
          (subst (All InLine) e (All-reverse_aux line [] h tt)) ends
        ∙ sym turned
      where
        turned : line ≡ reverse (c ∷ r)
        turned = sym (reverse-reverse line) ∙ ap reverse e
