-- ===== src/Dmt/Log/Frame/Headers.antt =====
-- The headers of the records: their length, and the fields at their places.
use datura.Prelude.{
  ℕ, ◌+◌, ◌^◌, ◌<◌, ◌≡◌, refl, ap, ◌∙◌, sym, [], ◌++◌, append_assoc, append-nil, arith, length,
  take, drop, length-append,
}
use datura.Prelude.Bytes.{Bytes}
use datura.Dmt.Log.Frame.{slice_of, le_bytes, le_value, u32_length, insert_header, delete_header}
use datura.Dmt.Log.Frame.Fields.{
  length-le_bytes, le_value-le_bytes, take-length, drop-length_eq, first_field, behind_field,
}

-- The fields of the headers.
module _ (term index : ℕ) (w : term < 2 ^ 64) (w' : index < 2 ^ 64) where
  abbrev pub positions : Bytes → Bytes
  positions rest = le_bytes 8 term ++ (le_bytes 8 index ++ rest)

  pub term_field : (rest : Bytes) → le_value (slice_of (positions rest) 0 8) ≡ term
  term_field rest =
      ap le_value (first_field 8 term (le_bytes 8 index ++ rest)) ∙ le_value-le_bytes 8 term w

  pub index_field : (rest : Bytes) → le_value (slice_of (positions rest) 8 16) ≡ index
  index_field rest =
      ap (λ (b : Bytes). le_value (take 8 b)) (behind_field 8 term (le_bytes 8 index ++ rest))
      ∙ ap le_value (first_field 8 index rest)
      ∙ le_value-le_bytes 8 index w'

  sizes_behind : (rest : Bytes) → drop 16 (positions rest) ≡ rest
  sizes_behind rest =
      ap (drop 16) (sym (append_assoc (le_bytes 8 term) (le_bytes 8 index) rest))
      ∙ drop-length_eq (le_bytes 8 term ++ le_bytes 8 index) rest 16 (
          length-append (le_bytes 8 term) (le_bytes 8 index)
          ∙ omega (arith, length-le_bytes 8 term, length-le_bytes 8 index))

  pub key_size_field :
      (key rest : Bytes)
      → length key < 2 ^ 32
      → le_value (slice_of (positions (le_bytes 4 (u32_length key) ++ rest)) 16 20) ≡ length key
  key_size_field key rest s =
      ap (λ (b : Bytes). le_value (take 4 b)) (sizes_behind (le_bytes 4 (u32_length key) ++ rest))
      ∙ ap le_value (first_field 4 (u32_length key) rest)
      ∙ le_value-le_bytes 4 (u32_length key) (omega arith)
      ∙ omega arith

  pub length-positions : (rest : Bytes) → length (positions rest) ≡ 16 + length rest
  length-positions rest = omega (
    arith,
    length-append (le_bytes 8 term) (le_bytes 8 index ++ rest),
    length-append (le_bytes 8 index) rest,
    length-le_bytes 8 term,
    length-le_bytes 8 index,
  )

  pub value_size_field :
      (key value : Bytes)
      → length value < 2 ^ 32
      → le_value (slice_of (insert_header term index key value) 20 24) ≡ length value
  value_size_field key value s =
      ap (λ (b : Bytes). le_value (take 4 b)) (behind_sizes (le_bytes 4 (u32_length value)))
      ∙ ap le_value
          (take-length (le_bytes 4 (u32_length value)) [] 4 (length-le_bytes 4 (u32_length value)))
      ∙ le_value-le_bytes 4 (u32_length value) (omega arith)
      ∙ omega arith
    where
      whole :
          (b : Bytes)
          → positions (le_bytes 4 (u32_length key) ++ b)
            ≡ positions (le_bytes 4 (u32_length key)) ++ b
      whole b = simp (append_assoc) refl

      behind_sizes :
          (last : Bytes) → drop 20 (positions (le_bytes 4 (u32_length key) ++ last)) ≡ last ++ []
      behind_sizes last =
          ap (drop 20) (
            ap (λ (b : Bytes). positions (le_bytes 4 (u32_length key) ++ b)) (sym (append-nil last))
            ∙ whole (last ++ []))
          ∙ drop-length_eq (positions (le_bytes 4 (u32_length key))) (last ++ []) 20 (
              length-positions (le_bytes 4 (u32_length key))
              ∙ omega (arith, length-le_bytes 4 (u32_length key)))

  pub length-insert_header : (key value : Bytes) → length (insert_header term index key value) ≡ 24
  length-insert_header key value = omega (
    arith,
    length-positions (le_bytes 4 (u32_length key) ++ le_bytes 4 (u32_length value)),
    length-append (le_bytes 4 (u32_length key)) (le_bytes 4 (u32_length value)),
    length-le_bytes 4 (u32_length key),
    length-le_bytes 4 (u32_length value),
  )

  pub length-delete_header : (key : Bytes) → length (delete_header term index key) ≡ 20
  length-delete_header key =
      omega
        (arith, length-positions (le_bytes 4 (u32_length key)), length-le_bytes 4 (u32_length key))
