-- ===== src/Dmt/Log/Replay/Whole.antt =====
-- One round of the loop over a whole record.
use datura.Prelude.{
  ℕ, ◌^◌, ◌<◌, ◌≡◌, refl, ap, ◌∙◌, sym, none, List, [], ◌∷◌, ◌++◌, append-nil, arith, length,
  length-append, leb, true,
}
use datura.Prelude.Bytes.{Bytes}
use datura.Dmt.Guard.{failed, guard_value}
use datura.Dmt.Log.Frame.{
  slice_of, op_insert, op_delete, WalEntry, le_bytes, le_value, u32_length, insert_header,
  delete_header,
}
use datura.Dmt.Log.Frame.Fields.{length-le_bytes, le_value-le_bytes, take-length, drop-length_eq}
use datura.Dmt.Log.Frame.Headers.{
  positions, term_field, index_field, key_size_field, value_size_field, length-insert_header,
  length-delete_header,
}
use datura.Dmt.Log.Replay.{
  Reading, read_full, read_guarded, replay_insert, replay_delete, replay_term, replay_snapshot,
}

-- A reading without an error.
abbrev pub reading : Bytes → List WalEntry → ℕ → ℕ → Reading
reading input entries last_term last_index = record {
  batch = record { err = none };
  input = input;
  entries = entries;
  last_term = last_term;
  last_index = last_index;
}

read_full_whole :
    (n : ℕ) (a rest : Bytes) → length a ≡ n → read_full n (a ++ rest) ≡ (a, none, rest)
unfolding read_full
read_full_whole n a rest h =
    let enough : leb n (length (a ++ rest)) ≡ true = ground (arith, length-append a rest) in
    rw (enough, take-length a rest n h, drop-length_eq a rest n h) refl

-- The whole of a field is read.
pub read_whole :
    (n : ℕ) (a rest : Bytes) (es : List WalEntry) (t i : ℕ)
    → length a ≡ n
    → read_guarded n (reading (a ++ rest) es t i) ≡ (a, reading rest es t i)
unfolding read_guarded guard_value
read_whole n a rest es t i h = rw (read_full_whole n a rest h) refl

module _ (term index : ℕ) (w : term < 2 ^ 64) (w' : index < 2 ^ 64) where
  pub replay_insert_whole :
      (key value rest : Bytes) (es : List WalEntry) (t i : ℕ)
      → length key < 2 ^ 32
      → length value < 2 ^ 32
      → replay_insert
          (reading (insert_header term index key value ++ (key ++ (value ++ rest))) es t i)
        ≡ reading rest
            (es
              ++ (record { op = op_insert; term = term; index = index; key = key; value = value }
                  ∷ []))
            term
            index
  unfolding replay_insert failed
  replay_insert_whole key value rest es t i s s' =
      rw
        (
          read_whole 24 (insert_header term index key value) (key ++ (value ++ rest)) es t i
              (length-insert_header term index w w' key value),
          term_field term index w w' (le_bytes 4 (u32_length key) ++ le_bytes 4 (u32_length value)),
          index_field term index w w'
              (le_bytes 4 (u32_length key) ++ le_bytes 4 (u32_length value)),
          key_size_field term index w w' key (le_bytes 4 (u32_length value)) s,
          value_size_field term index w w' key value s',
          read_whole (length key) key (value ++ rest) es t i refl,
          read_whole (length value) value rest es t i refl,
        )
        refl

  pub replay_delete_whole :
      (key rest : Bytes) (es : List WalEntry) (t i : ℕ)
      → length key < 2 ^ 32
      → replay_delete (reading (delete_header term index key ++ (key ++ rest)) es t i)
        ≡ reading rest
            (es
              ++ (record { op = op_delete; term = term; index = index; key = key; value = [] }
                  ∷ []))
            term
            index
  unfolding replay_delete failed
  replay_delete_whole key rest es t i s =
      rw
        (
          read_whole 20 (delete_header term index key) (key ++ rest) es t i
              (length-delete_header term index w w' key),
          term_field term index w w' (le_bytes 4 (u32_length key)),
          index_field term index w w' (le_bytes 4 (u32_length key)),
          last_size key s,
          read_whole (length key) key rest es t i refl,
        )
        refl
    where
      last_size :
          (k : Bytes)
          → length k < 2 ^ 32
          → le_value (slice_of (delete_header term index k) 16 20) ≡ length k
      last_size k h =
          ap (λ (b : Bytes). le_value (slice_of (positions term index w w' b) 16 20))
            (sym (append-nil (le_bytes 4 (u32_length k))))
          ∙ key_size_field term index w w' k [] h

  pub replay_snapshot_whole :
      (rest : Bytes) (es : List WalEntry) (t i : ℕ)
      → replay_snapshot (reading ((le_bytes 8 term ++ le_bytes 8 index) ++ rest) es t i)
        ≡ reading rest es term index
  unfolding replay_snapshot failed
  replay_snapshot_whole rest es t i =
      rw
        (
          read_whole 16 (le_bytes 8 term ++ le_bytes 8 index) rest es t i (
              length-append (le_bytes 8 term) (le_bytes 8 index)
              ∙ omega (arith, length-le_bytes 8 term, length-le_bytes 8 index)),
          ap (λ (b : Bytes). le_value (slice_of (le_bytes 8 term ++ b) 0 8))
                (sym (append-nil (le_bytes 8 index)))
              ∙ term_field term index w w' [],
          ap (λ (b : Bytes). le_value (slice_of (le_bytes 8 term ++ b) 8 16))
                (sym (append-nil (le_bytes 8 index)))
              ∙ index_field term index w w' [],
        )
        refl

pub replay_term_whole :
    (term : ℕ) (rest : Bytes) (es : List WalEntry) (t i : ℕ)
    → term < 2 ^ 64
    → replay_term (reading (le_bytes 8 term ++ rest) es t i) ≡ reading rest es term i
unfolding replay_term failed
replay_term_whole term rest es t i w =
    rw
      (
        read_whole 8 (le_bytes 8 term) rest es t i (length-le_bytes 8 term),
        le_value-le_bytes 8 term w,
      )
      refl
