-- ===== src/Proc/Sockets.antt =====
-- The links of sockets, and the ids of processes.
use remote_monitoring_tool.Prelude.{
  ℕ, ◌^◌, ◌<◌, ◌≡◌, ◌≢◌, refl, sym, ap, ◌∙◌, true, false, Option, some, none, List, [], ◌∷◌, ◌++◌,
  append-nil, arith, Bytes, codes, bytes_eq, length, length-append, take, lt→ltb, All,
}
use remote_monitoring_tool.Text.{decimal, from_chars, starts_with_digit}
use remote_monitoring_tool.Text.Decimal.{
  IsDigit, from_chars-decimal, decimal-IsDigit, decimal-ne-nil, length-decimal,
}
use remote_monitoring_tool.Proc.{
  parse_socket_inode, push_inode, inode_list, get_socket_inode_list, starts_as_pid, list_pids,
}

-- The link of a socket.
abbrev pub socket_link : ℕ → Bytes
socket_link inode = codes "socket:[" ++ (decimal inode ++ b']' ∷ [])

parse_socket_inode-small :
    (junk inode : ℕ) → inode < 10 ^ 7 → parse_socket_inode junk (socket_link inode) ≡ none
unfolding parse_socket_inode
parse_socket_inode-small junk inode h = rw (lt→ltb (length (socket_link inode)) 17 short) refl
  where
    short : length (socket_link inode) < 17
    short =
        omega
          (arith, length-append (decimal inode) (b']' ∷ []), length-decimal 7 inode (omega arith) h)

-- The links before the first socket: those that cannot be read, and those that are not of a socket.
abbrev pub IsOther : Option Bytes → Type 0
IsOther none = Unit
IsOther (some link) = bytes_eq (take 8 link) (codes "socket:[") ≡ false

inode_list-other :
    (junk : ℕ) (others rest : List (Option Bytes)) (sockets : List ℕ)
    → All IsOther others
    → inode_list junk (others ++ rest) sockets ≡ inode_list junk rest sockets
unfolding inode_list parse_socket_inode push_inode
inode_list-other junk [] rest sockets h = refl
inode_list-other junk (none ∷ others) rest sockets (ho, h) =
    inode_list-other junk others rest sockets h
inode_list-other junk (some link ∷ others) rest sockets (ho, h) =
    rw ho (inode_list-other junk others rest sockets h)

-- Where a process has no sockets open, get_socket_inode_list gives none, as it does for a directory
-- that cannot be opened. Where the first socket in the directory has an inode of up to seven
-- digits, parse_socket_inode gives from_chars a range that starts behind its end, which is undefined
-- behaviour.
pub get_socket_inode_list-socket_link :
    (junk : ℕ) (others rest : List (Option Bytes)) (inode : ℕ)
    → All IsOther others
    → (get_socket_inode_list junk none ≡ some [])
      × (get_socket_inode_list junk (some others) ≡ some [])
      × (inode < 10 ^ 7
          → get_socket_inode_list junk (some (others ++ some (socket_link inode) ∷ rest)) ≡ none)
unfolding get_socket_inode_list inode_list
get_socket_inode_list-socket_link junk others rest inode h = (
  refl,
  ap (λ l. inode_list junk l []) (sym (append-nil others)) ∙ inode_list-other junk others [] [] h,
  λ small.
      inode_list-other junk others (some (socket_link inode) ∷ rest) [] h
      ∙ rw (parse_socket_inode-small junk inode small) refl,
)

-- The names in /proc: of processes, and others.
pub data Name : Type 0 where
  process : ℕ → Name
  other : Bytes → Name

abbrev pub text_of : Name → Bytes
text_of (process pid) = decimal pid
text_of (other name) = name

abbrev pub IsName : Name → Type 0
IsName (process pid) = pid < 2 ^ 32
IsName (other name) = starts_with_digit name ≡ false

unfoldable pub pids_of : List Name → List ℕ
pids_of [] = []
pids_of (process pid ∷ names) = pid ∷ pids_of names
pids_of (other name ∷ names) = pids_of names

abbrev pub texts : List Name → List Bytes
texts [] = []
texts (name ∷ names) = text_of name ∷ texts names

starts_as_digit : (name : Bytes) → starts_as_pid name ≡ starts_with_digit name
unfolding starts_as_pid starts_with_digit
starts_as_digit [] = refl
starts_as_digit (c ∷ name) = refl

decimal-starts : (s : Bytes) → s ≢ [] → All IsDigit s → starts_as_pid s ≡ true
unfolding starts_as_pid
decimal-starts [] ne h = absurd (ne refl)
decimal-starts (c ∷ s) ne (hc, h) = ground arith

-- list_pids gives the processes of /proc in the order of the directory, and nothing for the names
-- that do not start with a digit.
pub list_pids-texts :
    (junk : ℕ) (names : List Name) → All IsName names → list_pids junk (texts names) ≡ pids_of names
unfolding list_pids pids_of
list_pids-texts junk [] h = refl
list_pids-texts junk (process pid ∷ names) (hp, h) =
    rw
      (
        decimal-starts (decimal pid) (decimal-ne-nil pid) (decimal-IsDigit pid),
        list_pids-texts junk names h,
      )
      (ap (λ n. n ∷ pids_of names)
        (ap (λ s. from_chars (2 ^ 32) s junk) (sym (append-nil (decimal pid)))
          ∙ from_chars-decimal (2 ^ 32) pid junk [] hp (unfold starts_with_digit in refl)))
list_pids-texts junk (other name ∷ names) (ho, h) =
    rw (starts_as_digit name ∙ ho) (list_pids-texts junk names h)
