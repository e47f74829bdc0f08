-- ===== src/Proc/Fields.antt =====
-- Lines of fields with spaces between them.
use remote_monitoring_tool.Prelude.{
  ℕ, zero, suc, ◌+◌, ◌≡◌, ◌≢◌, refl, ap, ◌∙◌, false, none, some, List, [], ◌∷◌, ◌++◌, append_assoc,
  arith, Bytes, ◌==◌, length, All, All-append,
}
use remote_monitoring_tool.Undefined.{bind_some}
use remote_monitoring_tool.Text.{decimal}
use remote_monitoring_tool.Text.Lines.{Lacks}
use remote_monitoring_tool.Text.Decimal.{IsDigit, decimal-IsDigit, decimal-ne-nil}
use remote_monitoring_tool.Proc.{scan, skip_spaces, read_fields, one_field}

pub scan_lem :
    (c : ℕ) (bytes rest : Bytes)
    → Lacks c bytes
    → scan c (bytes ++ c ∷ rest) ≡ some (bytes, c ∷ rest)
unfolding scan
scan_lem c [] rest h = ground arith
scan_lem c (b ∷ bytes) rest (hb, h) = rw (differs, scan_lem c bytes rest h) refl
  where
    differs : (b == c) ≡ false
    differs = ground arith

pub scan_missing : (c : ℕ) (bytes : Bytes) → Lacks c bytes → scan c bytes ≡ none
unfolding scan
scan_missing c [] h = refl
scan_missing c (b ∷ bytes) (hb, h) = rw (differs, scan_missing c bytes h) refl
  where
    differs : (b == c) ≡ false
    differs = ground arith

-- What can stand between two spaces: bytes without one, the first of which is not 0.
pub data IsField : Bytes → Type 0 where
  field : (c : ℕ) (s : Bytes) → c ≢ 0 → Lacks b' ' (c ∷ s) → IsField (c ∷ s)

pub IsDigit-Lacks-space : (s : Bytes) → All IsDigit s → Lacks b' ' s
IsDigit-Lacks-space [] h = tt
IsDigit-Lacks-space (c ∷ s) (hc, h) = (λ e. omega arith, IsDigit-Lacks-space s h)

digits-IsField : (s : Bytes) → s ≢ [] → All IsDigit s → IsField s
digits-IsField [] ne h = absurd (ne refl)
digits-IsField (c ∷ s) ne (hc, h) =
    field c s (λ e. omega arith) (IsDigit-Lacks-space (c ∷ s) (hc, h))

pub decimal-IsField : (n : ℕ) → IsField (decimal n)
decimal-IsField n = digits-IsField (decimal n) (decimal-ne-nil n) (decimal-IsDigit n)

pub append-IsField : (f w : Bytes) → IsField f → Lacks b' ' w → IsField (f ++ w)
append-IsField _ w (field c s nz h) hw =
    field c (s ++ w) nz (All-append (λ b. b ≢ b' ') (c ∷ s) w h hw)

-- Each field with a space behind it.
unfoldable pub join : List Bytes → Bytes
join [] = []
join (f ∷ fs) = f ++ b' ' ∷ join fs

module _ {A : Type 0} (take_field : ℕ → Bytes → A → A) where
  unfoldable pub take_fields : ℕ → List Bytes → A → A
  take_fields n [] stat = stat
  take_fields n (f ∷ fs) stat = take_fields (n + 1) fs (take_field n f stat)

  -- A space in front is skipped, where fields are left to be read.
  pub read_fields_space :
      (left n : ℕ) (p : Bytes) (stat : A)
      → read_fields take_field left n (b' ' ∷ p) stat ≡ read_fields take_field left n p stat
  unfolding read_fields skip_spaces
  read_fields_space zero n p stat = refl
  read_fields_space (suc left) n p stat = refl

  pub read_fields_one :
      (left n : ℕ) (f p : Bytes) (stat : A)
      → IsField f
      → read_fields take_field (suc left) n (f ++ b' ' ∷ p) stat
        ≡ read_fields take_field left (n + 1) p (take_field n f stat)
  unfolding read_fields one_field skip_spaces
  read_fields_one left n _ p stat (field c s nz h) =
      rw (no_space, no_end)
        (bind_some _ (scan_lem b' ' (c ∷ s) p h)
          (read_fields_space left (n + 1) p (take_field n (c ∷ s) stat)))
    where
      no_space : (c == b' ') ≡ false
      no_space = ground (arith, h.0)

      no_end : (c == 0) ≡ false
      no_end = ground (arith, nz)

  -- Each field is taken with its number.
  pub read_fields_lem :
      (fs : List Bytes) (all left n n' : ℕ) (p : Bytes) (stat : A)
      → All IsField fs
      → all ≡ length fs + left
      → n' ≡ n + length fs
      → read_fields take_field all n (join fs ++ p) stat
        ≡ read_fields take_field left n' p (take_fields n fs stat)
  unfolding join take_fields
  read_fields_lem [] all left n n' p stat h e e' =
      let same : all ≡ left = omega arith in
      let same' : n ≡ n' = omega arith in
      ap (λ m. read_fields take_field m n p stat) same
      ∙ ap (λ m. read_fields take_field left m p stat) same'
  read_fields_lem (f ∷ fs) zero left n n' p stat (hf, h) e e' = absurd (omega arith)
  read_fields_lem (f ∷ fs) (suc all) left n n' p stat (hf, h) e e' =
      rw (append_assoc f (b' ' ∷ join fs) p) (
        read_fields_one all n f (join fs ++ p) stat hf
        ∙ read_fields_lem fs all left (n + 1) n' p (take_field n f stat) h (omega arith)
            (omega arith))
