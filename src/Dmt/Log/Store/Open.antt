-- ===== src/Dmt/Log/Store/Open.antt =====
-- `Replay`, `Close`, `GetLastState` and `NewPersistentStore`.
use datura.Prelude.{ℕ, Bool, true, false, Option, none, some, List, [], if◌then◌else◌}
use datura.Prelude.Bytes.{Bytes}
use datura.Dmt.Guard.{new_batch}
use datura.Dmt.Log.Frame.{WalEntry}
use datura.Dmt.Log.Replay.{LogError, io_failed, read_log}
use datura.Dmt.Log.Store.{Store, current, shut, WriteAnswer, guarded, flush, reset_state}

-- What `os.Open` answers.
pub data OpenAnswer : Type 0 where
  opened missing denied : OpenAnswer

unfoldable pub replay : OpenAnswer → Store → List WalEntry × Option LogError × Store
unfolding reset_state read_log
replay missing s = ([], none, reset_state s)
replay denied s = ([], some io_failed, record s { batch = record { err = some io_failed } })
replay opened s =
    let (e, r) = read_log s.wal s.last_term s.last_index in
    (r.entries, e, record s { batch = r.batch; last_term = r.last_term; last_index = r.last_index })

unfoldable pub load_last_state : OpenAnswer → Store → Option LogError × Store
unfolding replay
load_last_state answer s = let (entries, e, s') = replay answer s in (e, s')

abbrev pub get_last_state : Store → ℕ × ℕ
get_last_state s = (s.last_term, s.last_index)

-- `walFile.Close`
unfoldable pub close_file : Bool → Store → Option LogError × Store
close_file done s =
    if s.has_file
    then elim s.target [
      | shut ↦ (some io_failed, s)
      | _ ↦ (if done then none else some io_failed, record s { target = shut })
    ]
    else (some io_failed, s)

unfoldable pub close : WriteAnswer → Bool → Store → Option LogError × Store
unfolding guarded flush close_file reset_state
close answer done s =
    if s.closed
    then (none, s)
    else (let s' =
          guarded (close_file done)
            (guarded (flush answer) (reset_state (record s { closed = true }))) in
        (s'.batch.err, record s' { has_file = false; has_writer = false }))

-- The store before the constructor's guarded steps, with the file that is under its path. A writer
-- over a nil file fails as one over a closed file does.
unfoldable pub unopened : Bytes → Store
unfolding new_batch
unopened wal = record {
  batch = new_batch;
  wal = wal;
  target = shut;
  has_file = false;
  has_writer = false;
  pending = [];
  stuck = false;
  last_term = 0;
  last_index = 0;
  closed = false;
  last_snap = 0;
  scheduled = 0;
  snapshots = [];
  new_wal = [];
}

-- `os.OpenFile` with O_CREATE: a missing file is an empty one.
unfoldable pub open_file : Bool → Store → Option LogError × Store
open_file done s =
    if done then (none, record s { target = current; has_file = true }) else (some io_failed, s)

-- `made_dir` and `opened_file` are the answers of `os.MkdirAll` and `os.OpenFile`.
unfoldable pub new_persistent_store : Bool → Bool → OpenAnswer → Bytes → Store × Option LogError
unfolding guarded unopened open_file load_last_state
new_persistent_store made_dir opened_file answer wal =
    let made = guarded (λ s. (if made_dir then none else some io_failed, s)) (unopened wal) in
    let ready = record (guarded (open_file opened_file) made) { has_writer = true } in
    let s = guarded (load_last_state answer) ready in (s, s.batch.err)
