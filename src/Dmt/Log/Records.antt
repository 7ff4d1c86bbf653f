-- ===== src/Dmt/Log/Records.antt =====
-- A log as the sequence of its records, and what the loop of `Replay` makes of it.
pub mod Torn
use datura.Prelude.{
  ℕ, zero, suc, ◌+◌, ◌-◌, ◌^◌, ◌≤◌, ◌<◌, ◌≡◌, refl, ap, ap₂, ◌∙◌, sym, Option, none, some, List, [],
  ◌∷◌, ◌++◌, append_assoc, append-nil, arith, length, All, length-append,
}
use datura.Prelude.Bytes.{Bytes}
use datura.Dmt.Guard.{new_batch}
use datura.Dmt.Log.Frame.{
  op_insert, op_delete, op_snapshot, op_term_update, WalEntry, le_bytes, insert_header,
  delete_header, insert_record, delete_record, term_record, snapshot_record,
}
use datura.Dmt.Log.Replay.{
  LogError, Reading, replay_insert, replay_delete, replay_term, replay_snapshot, replay_case,
  replay_loop, read_log,
}
use datura.Dmt.Log.Replay.Whole.{
  reading, replay_insert_whole, replay_delete_whole, replay_snapshot_whole, replay_term_whole,
}

-- What a record says.
pub data LogRecord : Type 0 where
  inserted : (key value : Bytes) (term index : ℕ) → LogRecord
  deleted : (key : Bytes) (term index : ℕ) → LogRecord
  in_term : (term : ℕ) → LogRecord
  snapshotted : (term index : ℕ) → LogRecord

unfoldable pub bytes_of : LogRecord → Bytes
unfolding insert_record delete_record term_record snapshot_record
bytes_of (inserted key value term index) = insert_record key value term index
bytes_of (deleted key term index) = delete_record key term index
bytes_of (in_term term) = term_record term
bytes_of (snapshotted term index) = snapshot_record term index

-- The entry for the tree, if there is one.
abbrev pub entries_of : LogRecord → List WalEntry
entries_of (inserted key value term index) =
    record { op = op_insert; term = term; index = index; key = key; value = value } ∷ []
entries_of (deleted key term index) =
    record { op = op_delete; term = term; index = index; key = key; value = [] } ∷ []
entries_of (in_term term) = []
entries_of (snapshotted term index) = []

-- The last term and the last index behind a record.
abbrev pub term_after : LogRecord → ℕ → ℕ
term_after (inserted key value term index) t = term
term_after (deleted key term index) t = term
term_after (in_term term) t = term
term_after (snapshotted term index) t = term

abbrev pub index_after : LogRecord → ℕ → ℕ
index_after (inserted key value term index) i = index
index_after (deleted key term index) i = index
index_after (in_term term) i = i
index_after (snapshotted term index) i = index

-- The fields fit in their bytes.
abbrev pub Fits : LogRecord → Type 0
Fits (inserted key value term index) =
    (length key < 2 ^ 32) × (length value < 2 ^ 32) × (term < 2 ^ 64) × (index < 2 ^ 64)
Fits (deleted key term index) = (length key < 2 ^ 32) × (term < 2 ^ 64) × (index < 2 ^ 64)
Fits (in_term term) = term < 2 ^ 64
Fits (snapshotted term index) = (term < 2 ^ 64) × (index < 2 ^ 64)

unfoldable pub log_bytes : List LogRecord → Bytes
unfolding bytes_of
log_bytes [] = []
log_bytes (r ∷ rs) = bytes_of r ++ log_bytes rs

unfoldable pub log_entries : List LogRecord → List WalEntry
log_entries [] = []
log_entries (r ∷ rs) = entries_of r ++ log_entries rs

unfoldable pub last_term_of : List LogRecord → ℕ → ℕ
last_term_of [] t = t
last_term_of (r ∷ rs) t = last_term_of rs (term_after r t)

unfoldable pub last_index_of : List LogRecord → ℕ → ℕ
last_index_of [] i = i
last_index_of (r ∷ rs) i = last_index_of rs (index_after r i)

-- A round over a whole record.
round_whole :
    (fuel : ℕ) (r : LogRecord) (rest : Bytes) (es : List WalEntry) (t i : ℕ)
    → Fits r
    → replay_loop (suc fuel) (reading (bytes_of r ++ rest) es t i)
      ≡ replay_loop fuel (reading rest (es ++ entries_of r) (term_after r t) (index_after r i))
unfolding replay_loop replay_case bytes_of insert_record delete_record term_record snapshot_record
round_whole fuel (inserted key value term index) rest es t i (s, s', w, w') =
    ap (λ (b : Bytes). replay_loop fuel (replay_insert (reading b es t i)))
      (simp (append_assoc) refl)
    ∙ ap (replay_loop fuel) (replay_insert_whole term index w w' key value rest es t i s s')
round_whole fuel (deleted key term index) rest es t i (s, w, w') =
    ap (λ (b : Bytes). replay_loop fuel (replay_delete (reading b es t i)))
      (simp (append_assoc) refl)
    ∙ ap (replay_loop fuel) (replay_delete_whole term index w w' key rest es t i s)
round_whole fuel (in_term term) rest es t i w = ap (replay_loop fuel) (
    replay_term_whole term rest es t i w
    ∙ ap (λ es'. reading rest es' term i) (sym (append-nil es)))
round_whole fuel (snapshotted term index) rest es t i (w, w') = ap (replay_loop fuel) (
    replay_snapshot_whole term index w w' rest es t i
    ∙ ap (λ es'. reading rest es' term index) (sym (append-nil es)))

-- The loop over whole records.
pub rounds_whole :
    (fuel : ℕ) (rs : List LogRecord) (rest : Bytes) (es : List WalEntry) (t i : ℕ)
    → All Fits rs
    → replay_loop (length rs + fuel) (reading (log_bytes rs ++ rest) es t i)
      ≡ replay_loop fuel
          (reading rest (es ++ log_entries rs) (last_term_of rs t) (last_index_of rs i))
unfolding log_bytes log_entries last_term_of last_index_of
rounds_whole fuel [] rest es t i a =
    ap₂ (λ (n : ℕ) es'. replay_loop n (reading rest es' t i)) (omega arith) (sym (append-nil es))
rounds_whole fuel (r ∷ rs) rest es t i (h, hs) =
    ap₂ (λ (n : ℕ) (b : Bytes). replay_loop n (reading b es t i)) (omega arith)
      (append_assoc (bytes_of r) (log_bytes rs) rest)
    ∙ round_whole (length rs + fuel) r (log_bytes rs ++ rest) es t i h
    ∙ rounds_whole fuel rs rest (es ++ entries_of r) (term_after r t) (index_after r i) hs
    ∙ ap
        (λ es'. replay_loop fuel (
          reading rest es' (last_term_of rs (term_after r t)) (last_index_of rs (index_after r i))))
        (append_assoc es (entries_of r) (log_entries rs))

pub loop_empty :
    (fuel : ℕ) (r : Reading)
    → replay_loop fuel (record r { input = [] }) ≡ (none, record r { input = [] })
unfolding replay_loop
loop_empty zero r = refl
loop_empty (suc fuel) r = refl

pub length-log_bytes : (rs : List LogRecord) → length rs ≤ length (log_bytes rs)
unfolding log_bytes bytes_of insert_record delete_record term_record snapshot_record
length-log_bytes [] = omega arith
length-log_bytes (inserted key value term index ∷ rs) = omega (
  arith,
  length-log_bytes rs,
  length-append (insert_header term index key value ++ (key ++ value)) (log_bytes rs),
)
length-log_bytes (deleted key term index ∷ rs) =
    omega (
      arith,
      length-log_bytes rs,
      length-append (delete_header term index key ++ key) (log_bytes rs),
    )
length-log_bytes (in_term term ∷ rs) =
    omega (arith, length-log_bytes rs, length-append (le_bytes 8 term) (log_bytes rs))
length-log_bytes (snapshotted term index ∷ rs) =
    omega (
      arith,
      length-log_bytes rs,
      length-append (le_bytes 8 term ++ le_bytes 8 index) (log_bytes rs),
    )

-- The log behind its whole records.
pub read_log-rest :
    (rs : List LogRecord) (rest : Bytes) (t i : ℕ)
    → All Fits rs
    → (fuel : ℕ) × (length rest ≤ fuel)
      × (read_log (log_bytes rs ++ rest) t i
          ≡ replay_loop fuel
              (reading rest (log_entries rs) (last_term_of rs t) (last_index_of rs i)))
unfolding read_log new_batch
read_log-rest rs rest t i a = (
  length (log_bytes rs ++ rest) - length rs,
  omega (arith, length-log_bytes rs, length-append (log_bytes rs) rest),
  ap (λ (n : ℕ). replay_loop n (reading (log_bytes rs ++ rest) [] t i))
        (omega (arith, length-log_bytes rs, length-append (log_bytes rs) rest))
      ∙ rounds_whole (length (log_bytes rs ++ rest) - length rs) rs rest [] t i a,
)

-- A log that consists of whole records, whose fields fit in their bytes, is read back without an
-- error: the entries are those of the records, in their order, and the last term and the last
-- index are those of the last records that have one.
pub read_log_lem :
    (rs : List LogRecord) (t i : ℕ)
    → All Fits rs
    → read_log (log_bytes rs) t i
      ≡ (none, reading [] (log_entries rs) (last_term_of rs t) (last_index_of rs i))
read_log_lem rs t i a =
    let (fuel, h, e) = read_log-rest rs [] t i a in
    ap (λ (b : Bytes). read_log b t i) (sym (append-nil (log_bytes rs)))
    ∙ e
    ∙ loop_empty fuel (reading [] (log_entries rs) (last_term_of rs t) (last_index_of rs i))
