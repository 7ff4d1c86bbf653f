-- ===== src/Dmt/Log/Store/Truncate.antt =====
-- `createSnapshot` and `truncateWAL`: the log is replaced by one that holds a snapshot's record. A
-- snapshot runs as one step, between two operations of the store.
use datura.Prelude.{
  ℕ, ◌-◌, ◌*◌, ◌^◌, Bool, true, false, Option, none, some, [], ◌∷◌, ◌++◌, take, ltb, if◌then◌else◌,
}
use datura.Prelude.Bytes.{Bytes}
use datura.Dmt.Guard.{failed}
use datura.Dmt.Log.Frame.{le_bytes, snapshot_record}
use datura.Dmt.Log.Replay.{LogError, io_failed}
use datura.Dmt.Log.Store.{
  Store, Target, current, replaced, shut, WriteAnswer, stored, torn, guarded, write, reset_state,
}
use datura.Dmt.Log.Store.Open.{close_file}

-- What the calls of `truncateWAL` answer; `flushed` is the write of the new file's bytes.
pub record TruncateAnswer : Type 0 where
  pub created : Bool
  pub flushed : WriteAnswer
  pub synced : Bool
  pub new_closed : Bool
  pub renamed : Bool
  pub old_closed : Bool
  pub reopened : Bool

-- A call that changes nothing that the store can see.
abbrev pub answered : Bool → Store → Option LogError × Store
answered done s = (if done then none else some io_failed, s)

abbrev pub behind_rename : Target → Target
behind_rename current = replaced
behind_rename replaced = replaced
behind_rename shut = shut

-- `os.Create` of the new file, which is empty then.
unfoldable pub create_new : Bool → Store → Option LogError × Store
create_new done s = if done then (none, record s { new_wal = [] }) else (some io_failed, s)

-- `Flush` of the writer on the new file, which holds these bytes.
unfoldable pub flush_new : WriteAnswer → Bytes → Store → Option LogError × Store
flush_new stored bytes s = (none, record s { new_wal = s.new_wal ++ bytes })
flush_new (torn n) bytes s = (some io_failed, record s { new_wal = s.new_wal ++ take n bytes })

-- `os.Rename` of the new file over the log.
unfoldable pub rename_over : Bool → Store → Option LogError × Store
rename_over done s =
    if done
    then (none, record s { wal = s.new_wal; new_wal = []; target = behind_rename s.target })
    else (some io_failed, s)

-- The log is opened again and gets a new writer. Without success `walFile` is nil.
unfoldable pub reopen : Bool → Store → Store
reopen done s = elim s.batch.err [
  | some _ ↦ record s { has_file = false }
  | none ↦
      if done
      then record s {
        target = current;
        has_file = true;
        has_writer = true;
        pending = [];
        stuck = false;
      }
      else record s { batch = record { err = some io_failed }; has_file = false }
]

-- The steps on the new file and the log, when the new file is there.
unfoldable pub replace_log : TruncateAnswer → Bytes → Store → Store
unfolding guarded flush_new rename_over close_file reopen
replace_log answer frame s =
    let flushed = guarded (flush_new answer.flushed frame) s in
    let synced = guarded (answered answer.synced) flushed in
    let new_closed = guarded (answered answer.new_closed) synced in
    let renamed = guarded (rename_over answer.renamed) new_closed in
    let old_closed = guarded (close_file answer.old_closed) renamed in
    reopen answer.reopened old_closed

unfoldable pub truncate_wal : TruncateAnswer → Store → Option LogError × Store
unfolding guarded create_new replace_log snapshot_record failed
truncate_wal answer s =
    let created = guarded (create_new answer.created) s in
    if failed created.batch
    then (created.batch.err, created)
    else (let s' = replace_log answer (snapshot_record s.last_term s.last_index) created in
        (s'.batch.err, s'))

-- What the calls of `createSnapshot` answer before the log is truncated.
pub record SnapshotAnswer : Type 0 where
  pub made_dir : Bool
  pub created : Bool
  pub state_write : WriteAnswer
  pub truncation : TruncateAnswer

-- The state of the tree in a snapshot's file: the last term and the last index.
unfoldable pub state_frame : Store → Bytes
unfolding le_bytes
state_frame s = le_bytes 8 s.last_term ++ le_bytes 8 s.last_index

unfoldable pub write_state : WriteAnswer → Store → Option LogError × Store
unfolding state_frame
write_state stored s =
    (none, record s { snapshots = (s.last_term, s.last_index, state_frame s) ∷ s.snapshots })
write_state (torn n) s = (
  some io_failed,
  record s { snapshots = (s.last_term, s.last_index, take n (state_frame s)) ∷ s.snapshots },
)

-- time.Minute
abbrev pub minute : ℕ
minute = 60 * 10 ^ 9

-- The snapshot at the time `now`, in nanoseconds. `none` is the panic of a write to a nil writer.
unfoldable pub create_snapshot : SnapshotAnswer → ℕ → Store → Option (Option LogError × Store)
unfolding guarded reset_state write write_state truncate_wal snapshot_record failed
create_snapshot answer now s =
    if ltb (now - s.last_snap) minute
    then some (none, s)
    else (let started = reset_state (record s { last_snap = now }) in
        let made_dir = guarded (answered answer.made_dir) started in
        let created = guarded (answered answer.created) made_dir in
        if failed created.batch
        then some (created.batch.err, created)
        else (let kept = guarded (write_state answer.state_write) created in
            let written = guarded (write (snapshot_record s.last_term s.last_index)) kept in
            let s' = guarded (truncate_wal answer.truncation) written in
            if failed kept.batch
            then some (s'.batch.err, s')
            else (if s.has_writer then some (s'.batch.err, s') else none)))

-- The goroutine of a scheduled snapshot.
unfoldable pub run_scheduled : SnapshotAnswer → ℕ → Store → Option (Option LogError × Store)
unfolding create_snapshot
run_scheduled answer now s = create_snapshot answer now (record s { scheduled = s.scheduled - 1 })
