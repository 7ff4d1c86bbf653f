-- ===== src/Dmt/Log/Tests.antt =====
-- Runs of the log, and its theorems at concrete inputs.
use datura.Prelude.{
  ◌≡◌, refl, true, false, none, some, List, [], ◌∷◌, ◌++◌, ◌*◌, arith, All, map, take, ◌^◌,
}
use mathlib.Core.List.{Sublist}
use datura.Dmt.Log.Frame.{WalEntry, op_insert, insert_header, snapshot_record}
use datura.Dmt.Log.Replay.{Reading, read_log, replay_loop}
use datura.Dmt.Log.Replay.Whole.{reading}
use datura.Dmt.Log.Replay.Ends.{Ended, replay_loop-Ended}
use datura.Dmt.Log.Records.{
  LogRecord, inserted, deleted, in_term, snapshotted, Fits, log_bytes, log_entries, last_term_of,
  last_index_of,
}
use datura.Dmt.Log.Records.Torn.{cut_off, read_log-short, read_log-torn}
use datura.Dmt.Log.Store.{
  Store, stored, torn, log_insert, append_record, guarded, write, flush, sync, hand_over,
}
use datura.Dmt.Log.Store.Rotated.{run_scheduled-replay}
use datura.Dmt.Log.Store.Open.{opened, replay, get_last_state, new_persistent_store}
use datura.Dmt.Log.Store.Truncate.{
  TruncateAnswer, run_scheduled, truncate_wal, create_snapshot, state_frame,
}
use datura.Dmt.Log.Store.Reach.{LogOp, insert_op, delete_op, term_op, record_of, run_ops, run_op}
use datura.Dmt.Log.Store.Durable.{restarted, OpFits, run_ops-replay}
use datura.Dmt.Log.Store.Positions.{run_ops-get_last_state}
use datura.Dmt.Log.Store.Exact.{done, run_ops-replay_exact}
use datura.Dmt.Log.Store.Snapshots.{
  Replaced, truncate_wal-Replaced, open_store, snapped, create_snapshot-replay,
}

abbrev records : List LogRecord
records = inserted (1 ∷ 2 ∷ []) (3 ∷ []) 1 1 ∷ in_term 2 ∷ deleted (1 ∷ []) 2 2 ∷ []

records-Fits : All Fits records
records-Fits = (
  (omega arith, omega arith, omega arith, omega arith),
  (omega arith, ((omega arith, omega arith, omega arith), tt)),
)

-- The log of these records, and a byte that is no operation.
abbrev strange : Reading
strange = reading (log_bytes records ++ (9 ∷ 0 ∷ [])) [] 0 0

replay_loop-Ended_example :
    Ended (replay_loop 80 strange) × (replay_loop 90 strange ≡ replay_loop 80 strange)
unfolding log_bytes
replay_loop-Ended_example = replay_loop-Ended 80 90 strange (omega arith) (omega arith)

read_log-short_example :
    read_log (log_bytes records ++ (op_insert ∷ 5 ∷ 6 ∷ [])) 0 0
    ≡ (none, cut_off (log_entries records) (last_term_of records 0) (last_index_of records 0))
read_log-short_example =
    read_log-short records op_insert (5 ∷ 6 ∷ []) 0 0 records-Fits (omega arith) (omega arith)

-- Three of four bytes of the value are not in the log.
read_log-torn_example :
    read_log
      (log_bytes records
        ++ (op_insert
            ∷ (insert_header 3 3 (1 ∷ []) (7 ∷ 8 ∷ 9 ∷ 9 ∷ [])
                ++ take 2 ((1 ∷ []) ++ (7 ∷ 8 ∷ 9 ∷ 9 ∷ [])))))
      0
      0
    ≡ (
      none,
      cut_off
          (log_entries records
            ++ (record {
              op = op_insert;
              term = 3;
              index = 3;
              key = 1 ∷ [];
              value = 7 ∷ 0 ∷ 0 ∷ 0 ∷ [];
            }
                ∷ []))
          3
          3,
    )
read_log-torn_example =
    read_log-torn 3 3 (omega arith) (omega arith) (1 ∷ []) (7 ∷ 8 ∷ 9 ∷ 9 ∷ []) (omega arith)
      (omega arith) records 2 0 0 records-Fits (omega arith)

-- An insertion that is stored, one whose sync fails, one whose write is cut, and one behind it.
abbrev disturbed : List LogOp
disturbed =
    insert_op done (5 ∷ []) (6 ∷ []) 2 3
    ∷ insert_op (record { write = stored; synced = false }) (5 ∷ []) (7 ∷ []) 2 4
    ∷ insert_op (record { write = torn 10; synced = true }) (5 ∷ []) (8 ∷ []) 2 5
    ∷ insert_op done (5 ∷ []) (9 ∷ []) 2 6
    ∷ []

disturbed-Fits : All OpFits disturbed
disturbed-Fits = (
  (omega arith, omega arith, omega arith, omega arith),
  (
    (omega arith, omega arith, omega arith, omega arith),
    (
      (omega arith, omega arith, omega arith, omega arith),
      ((omega arith, omega arith, omega arith, omega arith), tt),
    ),
  ),
)

run_ops-replay_example :
    let (acks, s) = run_ops disturbed records (restarted (log_bytes records)) in
    (s.scheduled ≡ 0)
    × (rs : List LogRecord) × (more : List WalEntry) × Sublist acks rs
    × ((replay opened s).0 ≡ log_entries rs ++ more)
run_ops-replay_example =
    run_ops-replay records disturbed records-Fits disturbed-Fits
      (λ h. omega arith, (λ h. omega arith, (λ h. omega arith, (λ h. omega arith, tt))))

run_ops-get_last_state_example :
    let (acks, s) = run_ops disturbed records (restarted (log_bytes records)) in
    get_last_state s ≡ (last_term_of acks 0, last_index_of acks 0)
run_ops-get_last_state_example = run_ops-get_last_state records disturbed records-Fits

abbrev calm : List LogOp
calm = insert_op done (5 ∷ []) (6 ∷ []) 2 3 ∷ term_op done 4 ∷ delete_op done (5 ∷ []) 4 4 ∷ []

calm-Fits : All OpFits calm
calm-Fits = (
  (omega arith, omega arith, omega arith, omega arith),
  (omega arith, ((omega arith, omega arith, omega arith), tt)),
)

run_ops-replay_exact_example :
    let (acks, s) = run_ops calm records (restarted (log_bytes records)) in
    (acks ≡ records ++ map record_of calm)
    × (s.scheduled ≡ 0)
    × ((replay opened s).0 ≡ log_entries (records ++ map record_of calm))
    × ((replay opened s).1 ≡ none)
run_ops-replay_exact_example =
    run_ops-replay_exact records calm records-Fits calm-Fits (refl, (refl, (refl, tt)))
      (λ h. omega arith, (tt, (tt, tt)))

abbrev at_seven : Store
at_seven = record (restarted []) { last_term = 3; last_index = 7; wal = log_bytes records }

-- The new file is cut, and nothing fails.
abbrev cut : TruncateAnswer
cut = record {
  created = true;
  flushed = torn 5;
  synced = true;
  new_closed = true;
  renamed = true;
  old_closed = true;
  reopened = true;
}

cut_run : (truncate_wal cut at_seven).1.wal ≡ log_bytes records
unfolding truncate_wal new_persistent_store log_bytes
cut_run = refl

abbrev whole : TruncateAnswer
whole = record cut { flushed = stored }

truncate_wal-Replaced_example :
    ((truncate_wal whole at_seven).0 ≡ (truncate_wal whole at_seven).1.batch.err)
    × Replaced whole (snapshot_record 3 7) at_seven (truncate_wal whole at_seven).1
truncate_wal-Replaced_example = truncate_wal-Replaced whole at_seven

create_snapshot-replay_example :
    (s' : Store) × (create_snapshot snapped (100 * 10 ^ 9) (open_store at_seven) ≡ some (none, s'))
    × (s'.snapshots ≡ (3, 7, state_frame at_seven) ∷ [])
    × (replay opened s' ≡ ([], none, s'))
unfolding new_persistent_store
create_snapshot-replay_example =
    create_snapshot-replay (100 * 10 ^ 9) at_seven (omega arith) (omega arith) (omega arith)

-- An insertion at the index 1000, a snapshot, and what follows.
abbrev due : List LogOp
due = insert_op done (5 ∷ []) (6 ∷ []) 2 1000 ∷ []

abbrev behind : List LogOp
behind = insert_op done (7 ∷ []) (8 ∷ []) 2 1001 ∷ []

run_scheduled-replay_example :
    let s = (run_ops due records (restarted (log_bytes records))).1 in
    (s' : Store) × (run_scheduled snapped (100 * 10 ^ 9) s ≡ some (none, s'))
    × let (acks, s'') = run_ops behind (snapshotted s.last_term s.last_index ∷ []) s' in
      (acks ≡ snapshotted s.last_term s.last_index ∷ map record_of behind)
      × ((replay opened s'').0 ≡ log_entries (map record_of behind))
      × ((replay opened s'').1 ≡ none)
      × (s''.scheduled ≡ 0)
unfolding run_ops run_op log_insert append_record guarded write flush sync hand_over
    new_persistent_store
run_scheduled-replay_example =
    run_scheduled-replay records due behind (100 * 10 ^ 9) records-Fits
      ((omega arith, omega arith, omega arith, omega arith), tt) (refl, tt)
      ((omega arith, omega arith, omega arith, omega arith), tt) (refl, tt) (λ h. omega arith, tt)
      refl (omega arith)
