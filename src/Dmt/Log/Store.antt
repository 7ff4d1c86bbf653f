-- ===== src/Dmt/Log/Store.antt =====
-- `PersistentStore`: its state, with the file under `walPath`, and the operations that append a
-- record. What the operating system answers is an argument of each operation. The buffered writer
-- is the bytes that it holds back and the error that it keeps.
pub mod Truncate
pub mod Open
pub mod Reach
pub mod Kept
pub mod Untouched
pub mod Scheduled
pub mod Durable
pub mod Positions
pub mod Exact
pub mod Snapshots
pub mod Rotated
use datura.Prelude.{
  ℕ, ◌%◌, ◌+◌, Bool, true, false, Option, none, some, List, [], ◌∷◌, ◌++◌, take, ◌==◌,
  if◌then◌else◌,
}
use datura.Prelude.Bytes.{Bytes}
use datura.Dmt.Guard.{Batch, kept, new_batch, reset}
use datura.Dmt.Log.Frame.{insert_record, delete_record, term_record}
use datura.Dmt.Log.Replay.{LogError, store_closed, io_failed}

-- The file that the writer writes to: the one under `walPath`, one that a rename has replaced, or
-- one that is closed.
pub data Target : Type 0 where
  current replaced shut : Target

-- `has_file` and `has_writer` say that `walFile` and `walWriter` are not nil; a `walFile` is the
-- writer's. `stuck` is the error that a `bufio.Writer` keeps, `scheduled` counts the snapshots
-- whose goroutine has not run, `snapshots` are the files under `snapPath`, and `new_wal` is the file that
-- a truncation writes beside the log, empty where there is none.
pub record Store : Type 0 where
  pub batch : Batch LogError
  pub wal : Bytes
  pub target : Target
  pub has_file : Bool
  pub has_writer : Bool
  pub pending : Bytes
  pub stuck : Bool
  pub last_term : ℕ
  pub last_index : ℕ
  pub closed : Bool
  pub last_snap : ℕ
  pub scheduled : ℕ
  pub snapshots : List (ℕ × ℕ × Bytes)
  pub new_wal : Bytes

abbrev pub snap_count : ℕ
snap_count = 1000

-- A guarded step of the store, whose batch is part of it.
unfoldable pub guarded : (Store → Option LogError × Store) → Store → Store
guarded step s = elim s.batch.err [
  | some _ ↦ s
  | none ↦ let (e, s') = step s in record s' { batch = kept s'.batch e }
]

-- What the system does with the bytes that the writer hands it, and with `Sync`.
pub data WriteAnswer : Type 0 where
  stored : WriteAnswer
  torn : ℕ → WriteAnswer

pub record Answer : Type 0 where
  pub write : WriteAnswer
  pub synced : Bool

-- `walWriter.Write`
unfoldable pub write : Bytes → Store → Option LogError × Store
write bytes s =
    if s.stuck then (some io_failed, s) else (none, record s { pending = s.pending ++ bytes })

-- The bytes that reach the file, and the error.
unfoldable pub hand_over : WriteAnswer → Target → Store → Option LogError × Store
hand_over stored current s = (none, record s { wal = s.wal ++ s.pending; pending = [] })
hand_over (torn n) current s =
    (some io_failed, record s { wal = s.wal ++ take n s.pending; stuck = true })
hand_over stored replaced s = (none, record s { pending = [] })
hand_over (torn n) replaced s = (some io_failed, record s { stuck = true })
hand_over answer shut s = (some io_failed, record s { stuck = true })

-- `walWriter.Flush`
unfoldable pub flush : WriteAnswer → Store → Option LogError × Store
unfolding hand_over
flush answer s =
    if s.stuck
    then (some io_failed, s)
    else elim s.pending [ [] ↦ (none, s) | b ∷ bs ↦ hand_over answer s.target s ]

-- `walFile.Sync`, which fails on a nil file too.
unfoldable pub sync : Bool → Store → Option LogError × Store
sync synced s =
    if s.has_file
    then elim s.target [
      | shut ↦ (some io_failed, s)
      | _ ↦ (if synced then none else some io_failed, s)
    ]
    else (some io_failed, s)

unfoldable pub reset_state : Store → Store
unfolding reset
reset_state s = record s { batch = reset s.batch }

-- The three guarded steps that append a record.
unfoldable pub append_record : Answer → Bytes → Store → Store
unfolding guarded write flush sync reset_state
append_record answer bytes s =
    guarded (sync answer.synced)
      (guarded (flush answer.write) (guarded (write bytes) (reset_state s)))

-- `if err != nil { return err }`, and the fields that are set behind it.
abbrev pub finished : Option LogError → (Store → Store) → Store → Option LogError × Store
finished (some e) after s = (some e, s)
finished none after s = (none, after s)

unfoldable pub log_insert : Answer → Bytes → Bytes → ℕ → ℕ → Store → Option LogError × Store
unfolding append_record insert_record
log_insert answer key value term index s =
    if s.closed
    then (some store_closed, s)
    else (let s' = append_record answer (insert_record key value term index) s in
        finished s'.batch.err
          (λ x. record x {
            last_term = term;
            last_index = index;
            scheduled = if index % snap_count == 0 then x.scheduled + 1 else x.scheduled;
          })
          s')

unfoldable pub log_delete : Answer → Bytes → ℕ → ℕ → Store → Option LogError × Store
unfolding append_record delete_record
log_delete answer key term index s =
    if s.closed
    then (some store_closed, s)
    else (let s' = append_record answer (delete_record key term index) s in
        finished s'.batch.err (λ x. record x { last_term = term; last_index = index }) s')

unfoldable pub log_term : Answer → ℕ → Store → Option LogError × Store
unfolding append_record term_record
log_term answer term s =
    if s.closed
    then (some store_closed, s)
    else (let s' = append_record answer (term_record term) s in
        finished s'.batch.err (λ x. record x { last_term = term }) s')
