-- ===== src/Arguments/Ports.antt =====
-- The ports that the command lines can choose.
use remote_monitoring_tool.Prelude.{
  ℕ, ◌≤◌, ◌≡◌, refl, Bool, true, false, not, ◌||◌, All, drop, length, Option, some, List, [], ◌∷◌,
  arith, Bytes, codes, Bool-cases, inl, inr,
}
use remote_monitoring_tool.Util.{ParsedInt, parsed, minus_one, undefined, str_to_int}
use remote_monitoring_tool.Text.{starts_with}
use remote_monitoring_tool.Arguments.{
  take_port, server_invalid, server_argument, server_after, server_arguments,
}

abbrev pub IsPort : ℕ → ℕ → Type 0
IsPort low port = (low ≤ port) × (port ≤ 65536)

-- No signed overflow in the conversion.
fits_int : ParsedInt → Bool
fits_int undefined = false
fits_int minus_one = true
fits_int (parsed port) = true

-- If the argument chooses a port, then its digits fit an int.
unfoldable pub is_readable : Bytes → Bool
unfolding fits_int
is_readable arg =
    not (starts_with (codes "--server-port=") arg)
    || fits_int (str_to_int (drop (length (codes "--server-port=")) arg))

abbrev Chooses : ℕ → Option ℕ → Type 0
Chooses low o = (chosen : ℕ) × (o ≡ some chosen) × IsPort low chosen

take_port-IsPort :
    (is_invalid : ℕ → Bool) (low : ℕ)
    → ((port : ℕ) → is_invalid port ≡ false → IsPort low port)
    → (p : ParsedInt) (chosen : ℕ) → fits_int p ≡ true
    → IsPort low chosen
    → Chooses low (take_port is_invalid p chosen)
unfolding take_port fits_int
take_port-IsPort is_invalid low valid undefined chosen f h = absurd (cc f)
take_port-IsPort is_invalid low valid minus_one chosen f h = (chosen, refl, h)
take_port-IsPort is_invalid low valid (parsed port) chosen f h =
    elim (Bool-cases (is_invalid port)) [
      | inl e ↦ (chosen, rw e refl, h)
      | inr e ↦ (port, rw e refl, valid port e)
    ]

server_valid : (port : ℕ) → server_invalid port ≡ false → IsPort 1024 port
unfolding server_invalid
server_valid port h = ground arith

server_argument-IsPort :
    (arg : Bytes) (port : ℕ)
    → is_readable arg ≡ true
    → IsPort 1024 port
    → Chooses 1024 (server_argument arg port)
unfolding server_argument is_readable
server_argument-IsPort arg port r h = elim (Bool-cases (starts_with (codes "--server-port=") arg)) [
  | inl e ↦ rw e (take_port-IsPort server_invalid 1024 server_valid _ port (rw e at r) h)
  | inr e ↦ (port, rw e refl, h)
]

-- Let the digits of each port that the arguments give fit an int; the conversion of others is
-- undefined behaviour. Then, whatever else the arguments hold, the loop over them ends in a port, and
-- it is between 1024 and 65536, if the default was, where 65536 is accepted by the code's test
-- although it is no port.
pub server_arguments-IsPort :
    (args : List Bytes) (port : ℕ)
    → All (λ arg. is_readable arg ≡ true) args
    → IsPort 1024 port
    → (chosen : ℕ) × (server_arguments args port ≡ some chosen) × IsPort 1024 chosen
unfolding server_arguments server_after
server_arguments-IsPort [] port r h = (port, refl, h)
server_arguments-IsPort (arg ∷ args) port (r, rs) h =
    let (next, e, hn) = server_argument-IsPort arg port r h in
    let (chosen, done, hc) = server_arguments-IsPort args next rs hn in (chosen, rw e done, hc)
