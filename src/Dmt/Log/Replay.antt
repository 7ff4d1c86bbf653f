-- ===== src/Dmt/Log/Replay.antt =====
-- `Replay`: the entries of a log, read from its bytes. The reader is the list of the bytes that it
-- has not handed out.
pub mod Whole
pub mod Ends
pub mod Grows
use datura.Prelude.{
  ℕ, zero, suc, ◌+◌, ◌-◌, Bool, Option, none, some, List, [], ◌∷◌, ◌++◌, length, take, drop,
  replicate, leb, ◌==◌, if◌then◌else◌,
}
use datura.Prelude.Bytes.{Bytes}
use datura.Dmt.Guard.{Batch, new_batch, failed, guard_value}
use datura.Dmt.Log.Frame.{
  op_insert, op_delete, op_snapshot, op_term_update, WalEntry, le_value, slice_of,
}

-- `short_read` stands for io.EOF and io.ErrUnexpectedEOF.
pub data LogError : Type 0 where
  store_closed io_failed short_read : LogError
  invalid_operation : ℕ → LogError

-- `io.ReadFull` into a fresh buffer of `n` bytes: the buffer, whose unread end stays zero.
unfoldable pub read_full : ℕ → Bytes → Bytes × Option LogError × Bytes
read_full n input =
    if leb n (length input)
    then (take n input, none, drop n input)
    else (input ++ replicate (n - length input) 0, some short_read, [])

-- What the loop changes: the batch, the reader, the entries, and the store's last term and index.
pub record Reading : Type 0 where
  pub batch : Batch LogError
  pub input : Bytes
  pub entries : List WalEntry
  pub last_term : ℕ
  pub last_index : ℕ

-- A guarded `io.ReadFull`.
unfoldable pub read_guarded : ℕ → Reading → Bytes × Reading
unfolding guard_value read_full
read_guarded n r =
    let (bytes, batch, input) = guard_value (replicate n 0) (read_full n) r.batch r.input in
    (bytes, record r { batch = batch; input = input })

unfoldable pub replay_insert : Reading → Reading
unfolding failed
replay_insert r =
    let (header, r') = read_guarded 24 r in
    let term = le_value (slice_of header 0 8) in
    let index = le_value (slice_of header 8 16) in
    let (key, r'') = read_guarded (le_value (slice_of header 16 20)) r' in
    let (value, r''') = read_guarded (le_value (slice_of header 20 24)) r'' in
    if failed r'.batch then r' else record r''' {
      entries =
          r.entries
          ++ (record { op = op_insert; term = term; index = index; key = key; value = value } ∷ []);
      last_term = term;
      last_index = index;
    }

unfoldable pub replay_delete : Reading → Reading
unfolding failed
replay_delete r =
    let (header, r') = read_guarded 20 r in
    let term = le_value (slice_of header 0 8) in
    let index = le_value (slice_of header 8 16) in
    let (key, r'') = read_guarded (le_value (slice_of header 16 20)) r' in
    if failed r'.batch then r' else record r'' {
      entries =
          r.entries
          ++ (record { op = op_delete; term = term; index = index; key = key; value = [] } ∷ []);
      last_term = term;
      last_index = index;
    }

unfoldable pub replay_term : Reading → Reading
unfolding failed
replay_term r =
    let (header, r') = read_guarded 8 r in
    if failed r'.batch then r' else record r' { last_term = le_value header }

unfoldable pub replay_snapshot : Reading → Reading
unfolding failed
replay_snapshot r =
    let (header, r') = read_guarded 16 r in
    if failed r'.batch then r' else record r' {
      last_term = le_value (slice_of header 0 8);
      last_index = le_value (slice_of header 8 16);
    }

-- One case of the switch; `none` for an operation that is none of the four.
unfoldable pub replay_case : ℕ → Reading → Option Reading
unfolding replay_insert replay_delete replay_term replay_snapshot
replay_case op r =
    if op == op_insert
    then some (replay_insert r)
    else (if op == op_delete
        then some (replay_delete r)
        else (if op == op_term_update
            then some (replay_term r)
            else (if op == op_snapshot then some (replay_snapshot r) else none)))

-- The loop, and the error it returns. Each round reads a byte, so the length of the log is fuel
-- enough.
unfoldable pub replay_loop : ℕ → Reading → Option LogError × Reading
unfolding replay_case
replay_loop zero r = (none, r)
replay_loop (suc fuel) r = elim r.input [
  | [] ↦ (none, r)
  | op ∷ rest ↦ elim (replay_case op (record r { input = rest })) [
    | none ↦ (some (invalid_operation op), record r { input = rest })
    | some r' ↦ replay_loop fuel r'
  ]
]

-- The loop from the start of the log.
unfoldable pub read_log : Bytes → ℕ → ℕ → Option LogError × Reading
unfolding replay_loop new_batch
read_log log last_term last_index = replay_loop (length log) (record {
  batch = new_batch;
  input = log;
  entries = [];
  last_term = last_term;
  last_index = last_index;
})
