-- ===== src/Proc/Cmdline.antt =====
-- The command line of a process, and the listing that is made from it.
use remote_monitoring_tool.Prelude.{
  ℕ, ◌+◌, ◌-◌, ◌≤◌, ◌≡◌, refl, sym, ap, ◌∙◌, false, Option, some, List, [], ◌∷◌, ◌++◌, append-nil,
  append_assoc, arith, Bytes, length, drop, Bool-cases, inl, inr, take-length-append, ◌==◌, All,
}
use remote_monitoring_tool.Result.{Result, ok}
use remote_monitoring_tool.Text.Lines.{Lacks}
use remote_monitoring_tool.Proc.{
  buffer_size, split_args, args_read, parse_cmdline, filename_from, listed, read_process_metadata,
}
use remote_monitoring_tool.Proc.Buffer.{read_file_short, append-ne-nil}

-- Each argument with a 0 behind it.
unfoldable pub cmdline_text : List Bytes → Bytes
cmdline_text [] = []
cmdline_text (arg ∷ args) = arg ++ 0 ∷ cmdline_text args

split_args_one :
    (now arg tail : Bytes)
    → Lacks 0 arg
    → split_args now (arg ++ 0 ∷ tail) ≡ (now ++ arg) ∷ split_args [] tail
unfolding split_args
split_args_one now [] tail h = ap (λ a. a ∷ split_args [] tail) (sym (append-nil now))
split_args_one now (c ∷ arg) tail (hc, h) = rw differs (
    split_args_one (now ++ c ∷ []) arg tail h
    ∙ ap (λ a. a ∷ split_args [] tail) (append_assoc now (c ∷ []) arg))
  where
    differs : (c == 0) ≡ false
    differs = ground (arith, hc)

split_args_lem : (args : List Bytes) → All (Lacks 0) args → split_args [] (cmdline_text args) ≡ args
unfolding cmdline_text split_args
split_args_lem [] h = refl
split_args_lem (arg ∷ args) (ha, h) =
    split_args_one [] arg (cmdline_text args) ha ∙ ap (λ r. arg ∷ r) (split_args_lem args h)

-- The name behind the last '/'.
filename_plain : (name now : Bytes) → Lacks b'/' name → filename_from now name ≡ now ++ name
unfolding filename_from
filename_plain [] now h = sym (append-nil now)
filename_plain (c ∷ name) now (hc, h) =
    rw differs (filename_plain name (now ++ c ∷ []) h ∙ append_assoc now (c ∷ []) name)
  where
    differs : (c == b'/') ≡ false
    differs = ground (arith, hc)

filename_lem :
    (directory name now : Bytes)
    → Lacks b'/' name
    → filename_from now (directory ++ b'/' ∷ name) ≡ name
unfolding filename_from
filename_lem [] name now h = filename_plain name [] h
filename_lem (c ∷ directory) name now h = elim (Bool-cases (c == b'/')) [
  | inl e ↦ rw e (filename_lem directory name [] h)
  | inr e ↦ rw e (filename_lem directory name (now ++ c ∷ []) h)
]

-- Let the command line of a process have a program and arguments, each with a 0 behind it and none
-- inside, and fit the buffer. Then read_process_metadata lists the process with exactly these
-- arguments, and with the name of the program behind its last '/', whatever the buffer held.
pub read_process_metadata-cmdline_text :
    (pid : ℕ) (directory name : Bytes) (args : List Bytes) (comm : Option Bytes) (buffer : Bytes)
    → Lacks b'/' name
    → Lacks 0 (directory ++ b'/' ∷ name)
    → All (Lacks 0) args
    → length (cmdline_text ((directory ++ b'/' ∷ name) ∷ args)) ≤ buffer_size - 1
    → (read_process_metadata pid
        (some (cmdline_text ((directory ++ b'/' ∷ name) ∷ args)))
        comm
        buffer).0
      ≡ ok (record { pid = pid; process_name = name; args = (directory ++ b'/' ∷ name) ∷ args })
unfolding read_process_metadata parse_cmdline args_read listed cmdline_text
read_process_metadata-cmdline_text pid directory name args comm buffer hn hp ha fits =
    ap (λ r. (listed pid comm (args_read r)).0)
      (read_file_short text buffer (append-ne-nil program (cmdline_text args) 0) fits)
    ∙ ap (λ s. (listed pid comm (with_buffer (split_args [] s))).0)
        (take-length-append text (0 ∷ drop (length text + 1) buffer))
    ∙ ap (λ l. (listed pid comm (with_buffer l)).0) (split_args_lem (program ∷ args) (hp, ha))
    ∙ ap (λ n. ok (record { pid = pid; process_name = n; args = program ∷ args }))
        (filename_lem directory name [] hn)
  where
    program : Bytes
    program = directory ++ b'/' ∷ name

    text : Bytes
    text = cmdline_text (program ∷ args)

    with_buffer : List Bytes → Result (List Bytes) × Bytes
    with_buffer l = (ok l, text ++ 0 ∷ drop (length text + 1) buffer)
