-- ===== src/Dmt/Log/Frame.antt =====
-- The records of the write-ahead log as bytes.
pub mod Fields
pub mod Headers
use datura.Prelude.{
  ℕ, zero, suc, ◌-◌, ◌%◌, ◌/◌, ◌*◌, ◌+◌, ◌^◌, List, [], ◌∷◌, ◌++◌, length, take, drop,
}
use datura.Prelude.Bytes.{Bytes}

abbrev pub op_insert : ℕ
op_insert = 0

abbrev pub op_delete : ℕ
op_delete = 1

abbrev pub op_snapshot : ℕ
op_snapshot = 2

abbrev pub op_term_update : ℕ
op_term_update = 3

-- `WALEntry`.
pub record WalEntry : Type 0 where
  pub op : ℕ
  pub term : ℕ
  pub index : ℕ
  pub key : Bytes
  pub value : Bytes

-- `binary.LittleEndian`: the low `n` bytes of a number, the lowest first, and the number of such.
unfoldable pub le_bytes : ℕ → ℕ → Bytes
le_bytes zero v = []
le_bytes (suc n) v = (v % 256) ∷ le_bytes n (v / 256)

unfoldable pub le_value : Bytes → ℕ
le_value [] = 0
le_value (b ∷ bs) = b + 256 * le_value bs

-- `bytes[from:to]`
abbrev pub slice_of : Bytes → ℕ → ℕ → Bytes
slice_of bytes from to = take (to - from) (drop from bytes)

-- `uint32(len(key))`
abbrev pub u32_length : Bytes → ℕ
u32_length bs = length bs % 2 ^ 32

-- The header behind the operation's byte, and the record, of each operation.
abbrev pub insert_header : ℕ → ℕ → Bytes → Bytes → Bytes
insert_header term index key value =
    le_bytes 8 term
    ++ (le_bytes 8 index ++ (le_bytes 4 (u32_length key) ++ le_bytes 4 (u32_length value)))

unfoldable pub insert_record : Bytes → Bytes → ℕ → ℕ → Bytes
unfolding le_bytes
insert_record key value term index =
    op_insert ∷ (insert_header term index key value ++ (key ++ value))

abbrev pub delete_header : ℕ → ℕ → Bytes → Bytes
delete_header term index key = le_bytes 8 term ++ (le_bytes 8 index ++ le_bytes 4 (u32_length key))

unfoldable pub delete_record : Bytes → ℕ → ℕ → Bytes
unfolding le_bytes
delete_record key term index = op_delete ∷ (delete_header term index key ++ key)

unfoldable pub term_record : ℕ → Bytes
unfolding le_bytes
term_record term = op_term_update ∷ le_bytes 8 term

unfoldable pub snapshot_record : ℕ → ℕ → Bytes
unfolding le_bytes
snapshot_record term index = op_snapshot ∷ (le_bytes 8 term ++ le_bytes 8 index)
