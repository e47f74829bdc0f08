-- ===== src/Wire/Codec.antt =====
-- What a pair of a writing and a reading method promises: the writer appends the `encode` of a
-- value, and the reader takes exactly that from the front of a stream.
use remote_monitoring_tool.Prelude.{
  ◌≡◌, refl, sym, ap, ◌∙◌, List, [], ◌∷◌, ◌++◌, append-nil, append_assoc, Bytes, length, All,
}
use remote_monitoring_tool.Result.{Result, ok}
use remote_monitoring_tool.Wire.{Reader, stream, write_items, read_items}

pub record IsCodec {ℓ} {A : Type ℓ} (Fits : A → Type 0) (encode : A → Bytes)
    (write : Bytes → A → Result Bytes) (read : Reader A) : Type ℓ where
  pub writes : (os : Bytes) (a : A) → Fits a → write os a ≡ ok (os ++ encode a)
  pub reads :
      (a : A) (rest : Bytes) → Fits a → read (stream (encode a ++ rest)) ≡ ok (a, stream rest)

-- The encodings of the elements, one after the other.
abbrev pub encode_all {ℓ} : {A : Type ℓ} → (A → Bytes) → List A → Bytes
encode_all encode [] = []
encode_all encode (a ∷ as') = encode a ++ encode_all encode as'

module _ {ℓ} {A : Type ℓ} {Fits : A → Type 0} {encode : A → Bytes}
    {write : Bytes → A → Result Bytes} {read : Reader A}
    (codec : IsCodec Fits encode write read) where
  pub write_items_lem :
      (os : Bytes) (vec : List A)
      → All Fits vec
      → write_items write os vec ≡ ok (os ++ encode_all encode vec)
  unfolding write_items
  write_items_lem os [] h = ap ok (sym (append-nil os))
  write_items_lem os (a ∷ vec) (ha, h) = rw (codec.writes os a ha) (
      write_items_lem (os ++ encode a) vec h
      ∙ ap ok (append_assoc os (encode a) (encode_all encode vec)))

  pub read_items_lem :
      (vec : List A) (rest : Bytes)
      → All Fits vec
      → read_items read (length vec) (stream (encode_all encode vec ++ rest))
        ≡ ok (vec, stream rest)
  unfolding read_items
  read_items_lem [] rest h = refl
  read_items_lem (a ∷ vec) rest (ha, h) =
      rw (append_assoc, codec.reads a (encode_all encode vec ++ rest) ha, read_items_lem vec rest h)
