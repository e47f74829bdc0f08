-- ===== src/Text/Lines.antt =====
-- std::getline on a text that holds its delimiter, and on one that does not.
use remote_monitoring_tool.Prelude.{
  ℕ, ◌≡◌, ◌≢◌, refl, ap, true, false, none, some, [], ◌∷◌, ◌++◌, arith, Bytes, All,
}
use remote_monitoring_tool.Text.{text, split_at, end_line, getline}

abbrev pub Lacks : ℕ → Bytes → Type 0
Lacks delim = All (λ c. c ≢ delim)

pub split_at_found :
    (delim : ℕ) (line rest : Bytes)
    → Lacks delim line
    → split_at delim (line ++ delim ∷ rest) ≡ (line, some rest)
unfolding split_at
split_at_found delim [] rest h = ground arith
split_at_found delim (c ∷ line) rest (hc, h) = ground (arith, split_at_found delim line rest h)

split_at_missing :
    (delim : ℕ) (line : Bytes) → Lacks delim line → split_at delim line ≡ (line, none)
unfolding split_at
split_at_missing delim [] h = refl
split_at_missing delim (c ∷ line) (hc, h) = ground (arith, split_at_missing delim line h)

-- A delimiter is there: the text before it is the line, and reading goes on behind it.
pub getline_found :
    (delim : ℕ) (line rest str : Bytes)
    → Lacks delim line
    → getline delim (text (line ++ delim ∷ rest)) str
      ≡ record { got = true; line = line; stream = text rest }
unfolding getline
getline_found delim line rest str h =
    ap (end_line (line ++ delim ∷ rest)) (split_at_found delim line rest h)

-- No delimiter is there: the rest of the text is the line, and the stream has ended.
pub getline_last :
    (delim : ℕ) (c : ℕ) (line str : Bytes)
    → Lacks delim (c ∷ line)
    → getline delim (text (c ∷ line)) str
      ≡ record { got = true; line = c ∷ line; stream = record { rest = []; ended = true } }
unfolding getline
getline_last delim c line str h = rw (split_at_missing delim (c ∷ line) h)

pub getline_empty :
    (delim : ℕ) (str : Bytes)
    → getline delim (text []) str
      ≡ record { got = false; line = []; stream = record { rest = []; ended = true } }
unfolding getline split_at
getline_empty delim str = refl
