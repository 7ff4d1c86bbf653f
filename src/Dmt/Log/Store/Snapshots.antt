-- ===== src/Dmt/Log/Store/Snapshots.antt =====
-- What a truncation and a snapshot leave of the log.
use datura.Prelude.{
  ℕ, ◌-◌, ◌≤◌, ◌<◌, ◌^◌, ◌≡◌, refl, ap, ◌∙◌, sym, Bool, true, false, Option, none, some, [], ◌∷◌,
  append-nil, arith, ltb,
}
use mathlib.Core.Path.{subst}
use datura.Prelude.Bytes.{Bytes}
use datura.Dmt.Guard.{failed, reset}
use datura.Dmt.Log.Frame.{snapshot_record}
use datura.Dmt.Log.Replay.{LogError, io_failed, read_log}
use datura.Dmt.Log.Replay.Whole.{reading}
use datura.Dmt.Log.Records.{
  snapshotted, bytes_of, log_bytes, log_entries, last_term_of, last_index_of, read_log_lem,
}
use datura.Dmt.Log.Store.{
  Store, Target, current, replaced, shut, WriteAnswer, stored, torn, guarded, write, reset_state,
}
use datura.Dmt.Log.Store.Open.{close_file, opened, replay, get_last_state}
use datura.Dmt.Log.Store.Truncate.{
  TruncateAnswer, answered, create_new, flush_new, rename_over, reopen, replace_log, truncate_wal,
  SnapshotAnswer, write_state, state_frame, minute, create_snapshot,
}

-- What a truncation leaves: the log as it was, with an error in the batch, or this in its place, which
-- the system has written, synced and closed before. The last term and index are as they were.
pub data Replaced (answer : TruncateAnswer) (bytes : Bytes) (s s' : Store) : Type 0 where
  untouched :
      (e : LogError)
      → s'.batch.err ≡ some e
      → s'.wal ≡ s.wal
      → get_last_state s' ≡ get_last_state s
      → Replaced answer bytes s s'
  renamed_over :
      s'.wal ≡ bytes
      → answer.flushed ≡ stored
      → answer.synced ≡ true
      → answer.new_closed ≡ true
      → answer.renamed ≡ true
      → get_last_state s' ≡ get_last_state s
      → Replaced answer bytes s s'

module _ (answer : TruncateAnswer) (bytes : Bytes) (s : Store) where
  -- The steps up to the rename.
  through_rename : Store → Store
  through_rename x = guarded (rename_over answer.renamed) (
      guarded (answered answer.new_closed)
        (guarded (answered answer.synced) (guarded (flush_new answer.flushed bytes) x)))

  guarded-failed :
      (step : Store → Option LogError × Store) (x : Store) (e : LogError)
      → x.batch.err ≡ some e
      → guarded step x ≡ x
  unfolding guarded
  guarded-failed step x e h = rw (h) refl

  -- A guarded step that leaves the log and the two numbers.
  guarded-Replaced :
      (step : Store → Option LogError × Store) (x : Store)
      → ((y : Store) → (((step y).1.wal ≡ y.wal) × (get_last_state (step y).1 ≡ get_last_state y)))
      → Replaced answer bytes s x
      → Replaced answer bytes s (guarded step x)
  unfolding guarded
  guarded-Replaced step x h (untouched e f w q) =
      subst (Replaced answer bytes s) (sym (guarded-failed step x e f)) (untouched e f w q)
  guarded-Replaced step x h (renamed_over w f g c r q) = by_error x.batch.err
    where
      by_error :
          (e : Option LogError)
          → Replaced answer bytes s (guarded step (record x { batch = record { err = e } }))
      by_error none =
          let y = record x { batch = record { err = none } } in
          renamed_over ((h y).0 ∙ w) f g c r ((h y).1 ∙ q)
      by_error (some e) = renamed_over w f g c r q

  reopen-Replaced :
      (done : Bool) (x : Store)
      → Replaced answer bytes s x
      → Replaced answer bytes s (reopen done x)
  unfolding reopen
  reopen-Replaced done x (untouched e f w q) = by_failed x.batch.err f
    where
      by_failed :
          (o : Option LogError)
          → o ≡ some e
          → Replaced answer bytes s (reopen done (record x { batch = record { err = o } }))
      by_failed none f = absurd cc
      by_failed (some e') f = untouched e f w q
  reopen-Replaced done x (renamed_over w f g c r q) = by_error x.batch.err done
    where
      by_error :
          (e : Option LogError) (done : Bool)
          → Replaced answer bytes s (reopen done (record x { batch = record { err = e } }))
      by_error none true = renamed_over w f g c r q
      by_error none false = renamed_over w f g c r q
      by_error (some e) done = renamed_over w f g c r q

-- The steps up to the rename, on a new file that is empty.
through_rename-Replaced :
    (answer : TruncateAnswer) (bytes : Bytes) (s : Store)
    → Replaced answer bytes s
        (through_rename answer bytes s (record s { batch = record { err = none }; new_wal = [] }))
unfolding through_rename guarded rename_over flush_new
through_rename-Replaced answer bytes s =
    by_answer answer.flushed answer.synced answer.new_closed answer.renamed
  where
    by_answer :
        (flushed : WriteAnswer) (synced new_closed renamed : Bool)
        → let given = record answer {
          flushed = flushed;
          synced = synced;
          new_closed = new_closed;
          renamed = renamed;
        } in
          Replaced given bytes s (
            through_rename given bytes s (record s { batch = record { err = none }; new_wal = [] }))
    by_answer (torn n) synced new_closed renamed = untouched io_failed refl refl refl
    by_answer stored false new_closed renamed = untouched io_failed refl refl refl
    by_answer stored true false renamed = untouched io_failed refl refl refl
    by_answer stored true true false = untouched io_failed refl refl refl
    by_answer stored true true true = renamed_over refl refl refl refl refl refl

close_file-quiet :
    (done : Bool) (s : Store)
    → ((close_file done s).1.wal ≡ s.wal)
      × (get_last_state (close_file done s).1 ≡ get_last_state s)
unfolding close_file
close_file-quiet done s = by_file s.has_file s.target
  where
    by_file :
        (c : Bool) (t : Target)
        → ((close_file done (record s { has_file = c; target = t })).1.wal ≡ s.wal)
          × (get_last_state (close_file done (record s { has_file = c; target = t })).1
              ≡ get_last_state s)
    by_file false t = (refl, refl)
    by_file true current = (refl, refl)
    by_file true replaced = (refl, refl)
    by_file true shut = (refl, refl)

replace_log-Replaced :
    (answer : TruncateAnswer) (frame : Bytes) (s : Store)
    → Replaced answer frame s
        (replace_log answer frame (record s { batch = record { err = none }; new_wal = [] }))
unfolding replace_log through_rename
replace_log-Replaced answer frame s = reopen-Replaced answer frame s answer.reopened _ (
    guarded-Replaced answer frame s (close_file answer.old_closed) _
      (close_file-quiet answer.old_closed) (through_rename-Replaced answer frame s))

-- Whatever the system answers, a truncation either leaves the log as it was and returns an error, or
-- has put the snapshot's record of the last term and index in the place of the whole of it; then the
-- whole record was written to the new file, and its sync, its close and the rename had succeeded
-- before. Neither number changes.
pub truncate_wal-Replaced :
    (answer : TruncateAnswer) (s : Store)
    → let r = truncate_wal answer s in
      (r.0 ≡ r.1.batch.err) × Replaced answer (snapshot_record s.last_term s.last_index) s r.1
unfolding truncate_wal guarded create_new failed
truncate_wal-Replaced answer s = by_answer s.batch.err answer.created
  where
    by_answer :
        (e : Option LogError) (created : Bool)
        → let r =
            truncate_wal
              (record answer { created = created })
              (record s { batch = record { err = e } }) in
          (r.0 ≡ r.1.batch.err) × Replaced answer (snapshot_record s.last_term s.last_index) s r.1
    by_answer (some e) created = (refl, untouched e refl refl refl)
    by_answer none false = (refl, untouched io_failed refl refl refl)
    by_answer none true =
        (refl, replace_log-Replaced answer (snapshot_record s.last_term s.last_index) s)

-- A store whose file and writer work.
abbrev pub open_store : Store → Store
open_store s = record s {
  target = current;
  has_file = true;
  has_writer = true;
  pending = [];
  stuck = false;
  closed = false;
}

abbrev truncated : TruncateAnswer
truncated = record {
  created = true;
  flushed = stored;
  synced = true;
  new_closed = true;
  renamed = true;
  old_closed = true;
  reopened = true;
}

abbrev pub snapped : SnapshotAnswer
snapped = record { made_dir = true; created = true; state_write = stored; truncation = truncated }

-- The store behind such a snapshot.
abbrev pub snapped_store : ℕ → Store → Store
snapped_store now s = record (open_store s) {
  batch = record { err = none };
  wal = snapshot_record s.last_term s.last_index;
  last_snap = now;
  new_wal = [];
  snapshots = (s.last_term, s.last_index, state_frame s) ∷ s.snapshots;
}

read_log-snapshot :
    (t i : ℕ)
    → t < 2 ^ 64
    → i < 2 ^ 64
    → read_log (snapshot_record t i) t i ≡ (none, reading [] [] t i)
unfolding log_bytes bytes_of log_entries last_term_of last_index_of
read_log-snapshot t i w w' =
    ap (λ (b : Bytes). read_log b t i) (sym (append-nil (snapshot_record t i)))
    ∙ read_log_lem (snapshotted t i ∷ []) t i ((w, w'), tt)

pub create_snapshot-snapped :
    (now : ℕ) (s : Store)
    → minute ≤ now - s.last_snap
    → create_snapshot snapped now (open_store s) ≡ some (none, snapped_store now s)
unfolding create_snapshot guarded reset_state write write_state truncate_wal create_new replace_log
    flush_new rename_over reopen close_file failed reset
create_snapshot-snapped now s h =
    let late : ltb (now - s.last_snap) minute ≡ false = ground arith in rw (late) refl

-- A snapshot that the system does not disturb, taken a minute or more after the last one of a store
-- whose file and writer work, returns no error, and its file holds the last term and the last index
-- in 16 bytes and no key. `Replay` then gives no entry at all.
pub create_snapshot-replay :
    (now : ℕ) (s : Store)
    → minute ≤ now - s.last_snap
    → s.last_term < 2 ^ 64
    → s.last_index < 2 ^ 64
    → (s' : Store) × (create_snapshot snapped now (open_store s) ≡ some (none, s'))
      × (s'.snapshots ≡ (s.last_term, s.last_index, state_frame s) ∷ s.snapshots)
      × (replay opened s' ≡ ([], none, s'))
unfolding replay
create_snapshot-replay now s h w w' = (
  snapped_store now s,
  create_snapshot-snapped now s h,
  refl,
  ap
      (λ r. (
        r.1.entries,
        r.0,
        record (snapped_store now s) {
          batch = r.1.batch;
          last_term = r.1.last_term;
          last_index = r.1.last_index;
        },
      ))
      (read_log-snapshot s.last_term s.last_index w w'),
)
