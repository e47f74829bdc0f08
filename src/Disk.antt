-- ===== src/Disk.antt =====
-- The files that the program keeps: what std::ifstream, std::ofstream and std::rename do to them.
-- Which paths can be written or renamed is up to the operating system, and part of the state.
use remote_monitoring_tool.Prelude.{
  ◌≡◌, Bool, false, Option, none, some, [], Bytes, bytes_eq, bytes_eq_refl, if◌then◌else◌,
}

pub record Disk : Type 0 where
  pub content : Bytes → Option Bytes
  pub writable : Bytes → Bool
  pub renamable : Bytes → Bytes → Bool

-- The file at a path now holds the bytes.
unfoldable pub store : Disk → Bytes → Bytes → Disk
store d path bytes = record d { content = λ p. if bytes_eq p path then some bytes else d.content p }

-- std::rename where it succeeds.
unfoldable pub move : Disk → Bytes → Bytes → Disk
move d from to = record d {
  content =
      λ p. if bytes_eq p to then d.content from else if bytes_eq p from then none else d.content p;
}

-- The bytes of a file, where a file that is not there has none.
abbrev pub bytes_or_none : Option Bytes → Bytes
bytes_or_none none = []
bytes_or_none (some bytes) = bytes

abbrev pub bytes_at : Disk → Bytes → Bytes
bytes_at d path = bytes_or_none (d.content path)

pub store_same : (d : Disk) (path bytes : Bytes) → (store d path bytes).content path ≡ some bytes
unfolding store
store_same d path bytes = rw (bytes_eq_refl path)

pub store_other :
    (d : Disk) (path bytes p : Bytes)
    → bytes_eq p path ≡ false
    → (store d path bytes).content p ≡ d.content p
unfolding store
store_other d path bytes p h = rw h
